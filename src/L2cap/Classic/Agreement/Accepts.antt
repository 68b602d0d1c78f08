-- ===== src/L2cap/Classic/Agreement/Accepts.antt =====
-- A compatible side of src/l2cap/classic.rs accepts the request.
use swbt_bumble_backend.Base.{
  ℕ, ◌<◌, ◌≡◌, refl, sym, ap, ◌∙◌, arith, Bool, true, false, not, none, some, List, All, lookup,
  Result, ok, if_not,
}
use mathlib.Core.Path.{subst}
use swbt_bumble_backend.L2cap.{Error}
use swbt_bumble_backend.L2cap.Configuration
use swbt_bumble_backend.L2cap.Configuration.{
  ConfigurationOption, encode_configuration_options, decode_configuration_options,
}
use swbt_bumble_backend.L2cap.Configuration.RoundTrip.{IsOption, decode_configuration_options_lem}
use swbt_bumble_backend.L2cap.Signaling.{configure_response}
use swbt_bumble_backend.L2cap.Classic.{
  ClassicChannelSpec, ErtmChannelSpec, enhanced_retransmission, ChannelSpec, basic, ertm, spec_mode,
  spec_ertm, ClassicChannel, ChannelManager, put_channel, queue_control,
}
use swbt_bumble_backend.L2cap.Classic.Options.{
  encode_ertm_option, ertm_options, request_options, Negotiation, negotiation, take_options,
}
use swbt_bumble_backend.L2cap.Classic.Settlement.{
  or_false, differ, engage, start_engine, conclude_ertm, conclude, settled_channel, settle, finish,
}
use swbt_bumble_backend.L2cap.Classic.Configure.{
  maybe_open, answer_encoded, answer_configuration, configure_found, configure_decoded,
  on_configure_request,
}
use swbt_bumble_backend.L2cap.Classic.Invariant.{SpecIsValid}
use swbt_bumble_backend.L2cap.Classic.Invariant.Negotiation.{engine_config_made}
use swbt_bumble_backend.L2cap.Classic.Agreement.{
  HasWidths, Compatible, parameters, agreed, offered_fcs, fcs_options, ertm_taken,
  take_ertm_request, take_basic_request,
}

same_fcs : (a b : Bool) → a ≡ b → differ (or_false (offered_fcs a)) b ≡ false
same_fcs true b h = subst (λ x. not x ≡ false) h refl
same_fcs false b h = sym h

finish_basic :
    (s t : ClassicChannelSpec) (c : ClassicChannel)
    → c.spec ≡ basic t
    → SpecIsValid (basic s)
    → s.mtu < 65536
    → finish 0 (take_options (request_options (basic s)) (negotiation c)) ≡ (
      record {
        channel = record c { peer_mtu = s.mtu; peer_configuration_received = true };
        result = 0;
        response_options = request_options (basic s);
        peer_ertm = none;
        peer_fcs = none;
      },
      ok tt,
    )
unfolding finish settle conclude settled_channel
finish_basic s t c spec h w =
    let taken : Negotiation = record {
      channel = record c { peer_mtu = s.mtu };
      result = 0;
      response_options = request_options (basic s);
      peer_ertm = none;
      peer_fcs = none;
    } in
    ap (finish 0) (take_basic_request s c h w)
    ∙ ap (λ sp. settle (conclude (spec_ertm sp) taken)) spec

finish_ertm :
    (s t : ErtmChannelSpec) (c : ClassicChannel)
    → c.spec ≡ ertm t
    → c.mode ≡ enhanced_retransmission
    → SpecIsValid (ertm s)
    → HasWidths (ertm s)
    → SpecIsValid (ertm t)
    → s.fcs_enabled ≡ t.fcs_enabled
    → finish 0 (take_options (request_options (ertm s)) (negotiation c))
      ≡ (record (ertm_taken s s.fcs_enabled c) { channel = agreed (ertm s) (ertm t) c }, ok tt)
unfolding finish settle conclude conclude_ertm start_engine engage settled_channel
finish_ertm s t c spec mode h w v same =
    let taken = ertm_taken s s.fcs_enabled c in
    let made = engine_config_made t (parameters s) v (h.2, h.3, h.1, w.2) in
    ap (finish 0) (take_ertm_request s c h w mode)
    ∙ ap (λ sp. settle (conclude (spec_ertm sp) taken)) spec
    ∙ ap settle (
        if_not (differ (or_false (offered_fcs s.fcs_enabled)) t.fcs_enabled) _ _
          (same_fcs s.fcs_enabled t.fcs_enabled same))
    ∙ ap (λ r. settle (engage t (parameters s) taken r)) made

fcs_options-All : (fcs : Bool) → All IsOption (fcs_options fcs)
unfolding Configuration.new
fcs_options-All true = ((omega arith, omega arith), tt)
fcs_options-All false = tt

request_options-All : (s : ChannelSpec) → All IsOption (request_options s)
unfolding request_options ertm_options encode_ertm_option Configuration.new
request_options-All (basic s) = ((omega arith, omega arith), tt)
request_options-All (ertm s) =
    ((omega arith, omega arith), ((omega arith, omega arith), fcs_options-All s.fcs_enabled))

-- The bytes of a request.
pub request_bytes :
    (s : ChannelSpec)
    → (bytes : List ℕ) × (encode_configuration_options (request_options s) ≡ ok bytes)
      × (decode_configuration_options bytes ≡ ok (request_options s))
request_bytes s = decode_configuration_options_lem (request_options s) (request_options-All s)

-- How the negotiation ends.
abbrev Ends :
    ChannelSpec → ChannelSpec → ClassicChannel → Negotiation × Result Error (Unit {0}) → Type 0
Ends s t c p =
    (n : Negotiation) × (p ≡ (n, ok tt))
    × (n.channel ≡ agreed s t c)
    × (n.result ≡ 0)
    × (n.response_options ≡ request_options s)

finish-Ends :
    (s t : ChannelSpec) (c : ClassicChannel)
    → c.spec ≡ t
    → c.mode ≡ spec_mode t
    → SpecIsValid s
    → HasWidths s
    → SpecIsValid t
    → Compatible s t
    → Ends s t c (finish 0 (take_options (request_options s) (negotiation c)))
unfolding request_options ertm_options
finish-Ends (basic s) (basic t) c spec mode h w v same =
    (_, finish_basic s t c spec h w, refl, refl, refl)
finish-Ends (ertm s) (ertm t) c spec mode h w v same =
    (_, finish_ertm s t c spec mode h w v same, refl, refl, refl)
finish-Ends (basic s) (ertm t) c spec mode h w v same = absurd same
finish-Ends (ertm s) (basic t) c spec mode h w v same = absurd same

answered :
    (identifier cid remote : ℕ) (s t : ChannelSpec) (c : ClassicChannel) (bytes : List ℕ)
    (p : Negotiation × Result Error (Unit {0})) (m : ChannelManager)
    → Ends s t c p
    → encode_configuration_options (request_options s) ≡ ok bytes
    → answer_configuration identifier cid remote p m ≡ (
      maybe_open cid (
          queue_control
            (configure_response identifier remote 0 0 bytes)
            (put_channel cid (agreed s t c) m)),
      ok tt,
    )
unfolding answer_configuration answer_encoded
answered identifier cid remote s t c bytes p m (n, end, channel, result, options) e =
    ap (λ q. answer_configuration identifier cid remote q m) end
    ∙ ap
        (λ o.
          answer_encoded identifier cid remote n.result (encode_configuration_options o)
            (put_channel cid n.channel m))
        options
    ∙ ap (λ r. answer_encoded identifier cid remote n.result r (put_channel cid n.channel m)) e
    ∙ ap
        (λ k. (
          maybe_open cid (
              queue_control (configure_response identifier remote 0 k bytes)
                (put_channel cid n.channel m)),
          ok tt,
        ))
        result
    ∙ ap
        (λ d. (
          maybe_open cid (
              queue_control (configure_response identifier remote 0 0 bytes) (put_channel cid d m)),
          ok tt,
        ))
        channel

-- A channel takes the request of a peer with a compatible specification: it becomes `agreed`, the
-- answer repeats the peer's options with success, and nothing fails.
pub on_configure_request-agreed :
    (identifier cid : ℕ) (s t : ChannelSpec) (c : ClassicChannel) (bytes : List ℕ)
    (m : ChannelManager)
    → lookup cid m.channels ≡ some c
    → c.spec ≡ t
    → c.mode ≡ spec_mode t
    → SpecIsValid s
    → HasWidths s
    → SpecIsValid t
    → Compatible s t
    → encode_configuration_options (request_options s) ≡ ok bytes
    → decode_configuration_options bytes ≡ ok (request_options s)
    → on_configure_request identifier cid 0 bytes m ≡ (
      maybe_open cid (
          queue_control
            (configure_response identifier c.destination_cid 0 0 bytes)
            (put_channel cid (agreed s t c) m)),
      ok tt,
    )
unfolding on_configure_request configure_decoded configure_found
on_configure_request-agreed identifier cid s t c bytes m here spec mode h w v same written read =
    ap (λ r. configure_decoded identifier cid 0 r m) read
    ∙ ap (λ o. configure_found identifier cid 0 (request_options s) o m) here
    ∙ answered identifier cid c.destination_cid s t c bytes
        (finish 0 (take_options (request_options s) (negotiation c))) m
        (finish-Ends s t c spec mode h w v same) written
