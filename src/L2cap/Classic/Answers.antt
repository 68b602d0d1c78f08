-- ===== src/L2cap/Classic/Answers.antt =====
-- Every Configuration Request for a channel of src/l2cap/classic.rs is answered.
use swbt_bumble_backend.Base.{
  ℕ, ◌≡◌, refl, sym, ap, ◌∙◌, Option, none, some, List, [], ◌∷◌, ◌++◌, All, IsByte, lookup, Result,
  ok, err, OnOk-ok, if_both,
}
use mathlib.Core.Path.{subst}
use swbt_bumble_backend.Base.OrderedMap.{OnSome}
use swbt_bumble_backend.L2cap.{Error}
use swbt_bumble_backend.L2cap.Signaling.{configure_response, to_bytes}
use swbt_bumble_backend.L2cap.Configuration.{ConfigurationOption, decode_configuration_options}
use swbt_bumble_backend.L2cap.Configuration.RoundTrip.{decode_configuration_options_lem}
use swbt_bumble_backend.L2cap.Classic.{
  ClassicChannel, ChannelManager, put_channel, push_outbound, queue_control,
}
use swbt_bumble_backend.L2cap.Classic.Options.{Negotiation, negotiation, take_options}
use swbt_bumble_backend.L2cap.Classic.Settlement.{finish}
use swbt_bumble_backend.L2cap.Classic.Configure.{
  is_settled, open_channel, maybe_open_found, maybe_open, answer_encoded, answer_configuration,
  configure_found, configure_decoded, on_configure_request,
}
use swbt_bumble_backend.L2cap.Classic.Invariant.{ChannelIsValid, ManagerIsValid}
use swbt_bumble_backend.L2cap.Classic.Invariant.Pieces.{found-IsValid}
use swbt_bumble_backend.L2cap.Classic.Invariant.Options.{
  IsPeerOption, NegotiationIsValid, decode_configuration_options-All,
}
use swbt_bumble_backend.L2cap.Classic.Invariant.Answers.{negotiated-IsValid}

-- It succeeds, with one more frame in the queue: the response to that request.
abbrev pub Answered :
    (identifier remote : ℕ) → ChannelManager → ChannelManager × Result Error (Unit {0}) → Type 0
Answered identifier remote m p =
    (result : ℕ) × (options : List ℕ) × (p.1 ≡ ok tt)
    × (p.0.outbound
        ≡ m.outbound
          ++ record {
            cid = 1;
            payload = to_bytes (configure_response identifier remote 0 result options);
          }
            ∷ [])

opening_sends_nothing :
    (cid : ℕ) (o : Option ClassicChannel) (m : ChannelManager)
    → (maybe_open_found cid o m).outbound ≡ m.outbound
unfolding maybe_open_found open_channel put_channel
opening_sends_nothing cid none m = refl
opening_sends_nothing cid (some c) m =
    if_both (λ (x : ChannelManager). x.outbound ≡ m.outbound) (is_settled c) _ _ (λ _. refl)
      (λ _. refl)

encoded-Answered :
    (identifier cid remote result : ℕ) (bytes : List ℕ) (c : ClassicChannel) (m : ChannelManager)
    → Answered identifier remote m
        (answer_encoded identifier cid remote result (ok bytes) (put_channel cid c m))
unfolding answer_encoded maybe_open queue_control push_outbound put_channel
encoded-Answered identifier cid remote result bytes c m = (
  result,
  bytes,
  refl,
  opening_sends_nothing cid _
      (queue_control (configure_response identifier remote 0 result bytes) (put_channel cid c m)),
)

negotiated-Answered :
    (identifier cid remote : ℕ) (c : ClassicChannel) (p : Negotiation × Result Error (Unit {0}))
    (m : ChannelManager)
    → NegotiationIsValid cid c p.0
    → p.1 ≡ ok tt
    → Answered identifier remote m (answer_configuration identifier cid remote p m)
unfolding answer_configuration
negotiated-Answered identifier cid remote c (n, err x) m v e = absurd (cc)
negotiated-Answered identifier cid remote c (n, ok _) m v e =
    let (bytes, written, read) =
      decode_configuration_options_lem n.response_options v.options_valid in
    subst
      (λ r.
        Answered identifier remote m
          (answer_encoded identifier cid remote n.result r (put_channel cid n.channel m)))
      (sym written) (encoded-Answered identifier cid remote n.result bytes n.channel m)

-- On a manager that satisfies the invariant, a Configuration Request for one of its channels whose
-- bytes are options is answered, whatever the options, the flags and the channel's state: the call
-- succeeds, and adds one frame to the queue, a Configuration Response with the request's identifier
-- for the peer's channel.
pub on_configure_request-Answered :
    (identifier cid flags : ℕ) (encoded : List ℕ) (options : List ConfigurationOption)
    (c : ClassicChannel) (m : ChannelManager)
    → ManagerIsValid m
    → All IsByte encoded
    → decode_configuration_options encoded ≡ ok options
    → lookup cid m.channels ≡ some c
    → Answered identifier c.destination_cid m (on_configure_request identifier cid flags encoded m)
unfolding on_configure_request configure_decoded configure_found
on_configure_request-Answered identifier cid flags encoded options c m h bytes read here =
    let v = subst (OnSome (ChannelIsValid cid)) here (found-IsValid cid m h) in
    let peer =
      OnOk-ok (λ (os : List ConfigurationOption). All IsPeerOption os) read
        (decode_configuration_options-All encoded bytes) in
    let (valid, done) = negotiated-IsValid cid flags options c peer v in
    subst (Answered identifier c.destination_cid m)
      (sym (
        ap (λ r. configure_decoded identifier cid flags r m) read
        ∙ ap (λ o. configure_found identifier cid flags options o m) here))
      (negotiated-Answered identifier cid c.destination_cid c
        (finish flags (take_options options (negotiation c))) m valid done)
