-- ===== src/L2cap/Classic/Invariant/Answers.antt =====
-- The answer to a configuration request, and its response, (src/l2cap/classic.rs) keep the
-- invariant.
use swbt_bumble_backend.Base.{
  ℕ, ◌≡◌, refl, true, Option, none, some, List, All, IsByte, lookup, Result, ok, err, OnOk, ◌==◌,
  if_both,
}
use mathlib.Core.Path.{subst}
use swbt_bumble_backend.Base.OrderedMap.{OnSome}
use swbt_bumble_backend.L2cap.{Error}
use swbt_bumble_backend.L2cap.Signaling.{configure_response}
use swbt_bumble_backend.L2cap.Configuration.{
  ConfigurationOption, encode_configuration_options, decode_configuration_options,
}
use swbt_bumble_backend.L2cap.Classic.{
  closed, ClassicChannel, ChannelManager, put_channel, queue_control,
}
use swbt_bumble_backend.L2cap.Classic.Diagram.{Kept, Kept-refl, others-Kept, moved-Kept, close}
use swbt_bumble_backend.L2cap.Classic.Options.{Negotiation, negotiation, take_options}
use swbt_bumble_backend.L2cap.Classic.Settlement.{finish}
use swbt_bumble_backend.L2cap.Classic.Configure.{
  answer_encoded, answer_configuration, configure_found, configure_decoded, on_configure_request,
  answered_channel, configured_found, on_configure_response,
}
use swbt_bumble_backend.L2cap.Classic.Invariant.{ChannelIsValid, ManagerIsValid, Keeps}
use swbt_bumble_backend.L2cap.Classic.Invariant.Pieces.{
  Keeps-refl, Keeps-trans, found-IsValid, queue_control-Keeps, put_found-Keeps, closed-IsValid,
}
use swbt_bumble_backend.L2cap.Classic.Invariant.Options.{
  IsPeerOption, NegotiationIsValid, decode_configuration_options-All,
}
use swbt_bumble_backend.L2cap.Classic.Invariant.Negotiation.{
  negotiation-IsValid, take_options-IsValid,
}
use swbt_bumble_backend.L2cap.Classic.Invariant.Conclusion.{finish-IsValid}
use swbt_bumble_backend.L2cap.Classic.Invariant.Configure.{maybe_open-Keeps}

answer_encoded-Keeps :
    (identifier cid remote result : ℕ) (r : Result Error (List ℕ)) (m : ChannelManager)
    → ManagerIsValid m
    → Keeps m (answer_encoded identifier cid remote result r m).0
unfolding answer_encoded
answer_encoded-Keeps identifier cid remote result (ok options) m h =
    let frame = configure_response identifier remote 0 result options in
    let queued = queue_control-Keeps frame m h in
    Keeps-trans queued (maybe_open-Keeps cid (queue_control frame m) queued.valid)
answer_encoded-Keeps identifier cid remote result (err x) m h = Keeps-refl m h

answer_configuration-Keeps :
    (identifier cid remote : ℕ) (c : ClassicChannel) (p : Negotiation × Result Error (Unit {0}))
    (m : ChannelManager)
    → ManagerIsValid m
    → lookup cid m.channels ≡ some c
    → NegotiationIsValid cid c p.0
    → Keeps m (answer_configuration identifier cid remote p m).0
unfolding answer_configuration
answer_configuration-Keeps identifier cid remote c (n, ok _) m h here v =
    let written = put_found-Keeps cid c n.channel m h here v.channel_kept v.channel_valid in
    Keeps-trans written (
      answer_encoded-Keeps identifier cid remote n.result
        (encode_configuration_options n.response_options) (put_channel cid n.channel m)
        written.valid)
answer_configuration-Keeps identifier cid remote c (n, err x) m h here v =
    put_found-Keeps cid c n.channel m h here v.channel_kept v.channel_valid

-- The channel after the request.
pub negotiated-IsValid :
    (cid flags : ℕ) (options : List ConfigurationOption) (c : ClassicChannel)
    → All IsPeerOption options
    → ChannelIsValid cid c
    → let p = finish flags (take_options options (negotiation c)) in
      NegotiationIsValid cid c p.0 × (p.1 ≡ ok tt)
negotiated-IsValid cid flags options c k v =
    finish-IsValid cid c flags (take_options options (negotiation c))
      (take_options-IsValid cid c options (negotiation c) k (negotiation-IsValid cid c v))

configure_found-Keeps :
    (identifier cid flags : ℕ) (options : List ConfigurationOption) (o : Option ClassicChannel)
    (m : ChannelManager)
    → All IsPeerOption options
    → ManagerIsValid m
    → lookup cid m.channels ≡ o
    → Keeps m (configure_found identifier cid flags options o m).0
unfolding configure_found
configure_found-Keeps identifier cid flags options none m k h here = Keeps-refl m h
configure_found-Keeps identifier cid flags options (some c) m k h here =
    let v = subst (OnSome (ChannelIsValid cid)) here (found-IsValid cid m h) in
    answer_configuration-Keeps identifier cid c.destination_cid c
      (finish flags (take_options options (negotiation c))) m h here
      (negotiated-IsValid cid flags options c k v).0

configure_decoded-Keeps :
    (identifier cid flags : ℕ) (r : Result Error (List ConfigurationOption)) (m : ChannelManager)
    → OnOk (λ os. All IsPeerOption os) r
    → ManagerIsValid m
    → Keeps m (configure_decoded identifier cid flags r m).0
unfolding configure_decoded
configure_decoded-Keeps identifier cid flags (ok options) m k h =
    configure_found-Keeps identifier cid flags options (lookup cid m.channels) m k h refl
configure_decoded-Keeps identifier cid flags (err x) m k h = Keeps-refl m h

pub on_configure_request-Keeps :
    (identifier cid flags : ℕ) (encoded : List ℕ) (m : ChannelManager)
    → All IsByte encoded
    → ManagerIsValid m
    → Keeps m (on_configure_request identifier cid flags encoded m).0
unfolding on_configure_request
on_configure_request-Keeps identifier cid flags encoded m k h =
    configure_decoded-Keeps identifier cid flags (decode_configuration_options encoded) m
      (decode_configuration_options-All encoded k) h

answered-IsValid :
    (cid result : ℕ) (c : ClassicChannel)
    → ChannelIsValid cid c
    → ChannelIsValid cid (answered_channel result c) × Kept c (answered_channel result c)
unfolding answered_channel
answered-IsValid cid result c v =
    if_both (λ d. ChannelIsValid cid d × Kept c d) (result == 0)
      (record c { configuration_response_received = true })
      (record c { connection_result = some result; state = closed })
      (λ _. (
        record {
          source = v.source;
          range = v.range;
          specified = v.specified;
          mode_valid = v.mode_valid;
          mtu_valid = v.mtu_valid;
          peer_mtu_valid = v.peer_mtu_valid;
          settled = λ was_opened. ((v.settled was_opened).0, refl);
          engine_valid = v.engine_valid;
          received_fits = v.received_fits;
        },
        others-Kept c c (record c { configuration_response_received = true }) (Kept-refl c),
      ))
      (λ _. (
        closed-IsValid cid c (record c { connection_result = some result }) v,
        moved-Kept c c (record c { connection_result = some result }) closed (Kept-refl c) close,
      ))

configured_found-Keeps :
    (cid result : ℕ) (o : Option ClassicChannel) (m : ChannelManager)
    → ManagerIsValid m
    → lookup cid m.channels ≡ o
    → Keeps m (configured_found cid result o m).0
unfolding configured_found
configured_found-Keeps cid result none m h here = Keeps-refl m h
configured_found-Keeps cid result (some c) m h here =
    let v = subst (OnSome (ChannelIsValid cid)) here (found-IsValid cid m h) in
    let (valid, kept) = answered-IsValid cid result c v in
    let written = put_found-Keeps cid c (answered_channel result c) m h here kept valid in
    Keeps-trans written
      (maybe_open-Keeps cid (put_channel cid (answered_channel result c) m) written.valid)

pub on_configure_response-Keeps :
    (cid result : ℕ) (m : ChannelManager)
    → ManagerIsValid m
    → Keeps m (on_configure_response cid result m).0
unfolding on_configure_response
on_configure_response-Keeps cid result m h =
    configured_found-Keeps cid result (lookup cid m.channels) m h refl
