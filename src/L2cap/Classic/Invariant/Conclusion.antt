-- ===== src/L2cap/Classic/Invariant/Conclusion.antt =====
-- The end of a negotiation of src/l2cap/classic.rs keeps the channel valid, and fails nowhere.
use swbt_bumble_backend.Base.{
  ℕ, ◌≡◌, inl, inr, refl, sym, arith, Bool, true, false, ◌||◌, ◌&&◌, ◌%◌, Option, none, some, [],
  ◌∷◌, Result, ok, err, ◌==◌, Bool-cases, ==→eq, from_bool,
}
use mathlib.Core.Path.{subst}
use swbt_bumble_backend.Base.OrderedMap.{OnSome}
use swbt_bumble_backend.L2cap.{Error}
use swbt_bumble_backend.L2cap.Configuration
use swbt_bumble_backend.L2cap.Configuration.{ConfigurationOption}
use swbt_bumble_backend.L2cap.Configuration.RoundTrip.{IsOption}
use swbt_bumble_backend.L2cap.Ertm.State.{ErtmEngine, initial}
use swbt_bumble_backend.L2cap.Ertm.Sending.{IsReady}
use swbt_bumble_backend.L2cap.Classic.{
  ErtmChannelSpec, ClassicChannelMode, basic_mode, enhanced_retransmission, ChannelSpec, basic,
  ertm, spec_ertm, spec_mode, closed, ClassicChannel, option_retransmission, option_fcs,
}
use swbt_bumble_backend.L2cap.Classic.Diagram.{Kept, others-Kept, moved-Kept, close}
use swbt_bumble_backend.L2cap.Classic.Options.{ErtmOption, encode_ertm_option, Negotiation}
use swbt_bumble_backend.L2cap.Classic.Settlement.{
  or_false, is_some, differ, engine_config, refuse_all, start_engine, conclude_ertm, conclude,
  settled_channel, settle, finish,
}
use swbt_bumble_backend.L2cap.Classic.Invariant.{SpecIsValid, EngineIsValid, ChannelIsValid}
use swbt_bumble_backend.L2cap.Classic.Invariant.Options.{IsAcceptable, NegotiationIsValid}
use swbt_bumble_backend.L2cap.Classic.Invariant.Negotiation.{
  engine_config_made, engine_made, Concluded,
}

refuse_all-Concluded :
    (cid : ℕ) (c : ClassicChannel) (o : ConfigurationOption) (n : Negotiation)
    → IsOption o
    → NegotiationIsValid cid c n
    → Concluded cid c (refuse_all o n, ok tt)
unfolding refuse_all
refuse_all-Concluded cid c o n k h = (
  record {
    channel_valid = h.channel_valid;
    channel_kept = h.channel_kept;
    peer_valid = h.peer_valid;
    options_valid = (k, tt);
  },
  refl,
  λ accepted. absurd (omega (arith, accepted)),
)

-- The channel with the engine that was made.
abbrev engaged : ErtmChannelSpec → ErtmOption → ErtmEngine → ClassicChannel → ClassicChannel
engaged s p e c = record c { peer_mps = p.mps; fcs_enabled = s.fcs_enabled; engine = some e }

engine_any :
    (received : Bool) (e : ErtmEngine)
    → IsReady e
    → EngineIsValid enhanced_retransmission received (some e)
engine_any true e h = h
engine_any false e h = h

start_engine-Concluded :
    (cid : ℕ) (c : ClassicChannel) (s : ErtmChannelSpec) (p : ErtmOption) (n : Negotiation)
    → SpecIsValid (ertm s)
    → n.channel.mode ≡ enhanced_retransmission
    → IsAcceptable enhanced_retransmission p
    → NegotiationIsValid cid c n
    → Concluded cid c (start_engine s p n)
unfolding start_engine
start_engine-Concluded cid c s p n spec mode k h =
    let e = initial (engine_config s p) in
    let c' = engaged s p e n.channel in
    let v = h.channel_valid in
    let ready = engine_made s p spec k in
    let valid_with : (received : Bool) → EngineIsValid n.channel.mode received (some e) =
      λ received.
        subst (λ m. EngineIsValid m received (some e)) (sym mode) (engine_any received e ready) in
    rw (engine_config_made s p spec k) (
      record {
        channel_valid = record {
          source = v.source;
          range = v.range;
          specified = v.specified;
          mode_valid = v.mode_valid;
          mtu_valid = v.mtu_valid;
          peer_mtu_valid = v.peer_mtu_valid;
          settled = v.settled;
          engine_valid = valid_with n.channel.peer_configuration_received;
          received_fits = v.received_fits;
        };
        channel_kept = others-Kept c n.channel c' h.channel_kept;
        peer_valid = h.peer_valid;
        options_valid = h.options_valid;
      },
      refl,
      λ _. valid_with true,
    )

conclude_ertm-Concluded :
    (cid : ℕ) (c : ClassicChannel) (s : ErtmChannelSpec) (o : Option ErtmOption) (n : Negotiation)
    → SpecIsValid (ertm s)
    → n.channel.mode ≡ enhanced_retransmission
    → OnSome (IsAcceptable n.channel.mode) o
    → NegotiationIsValid cid c n
    → Concluded cid c (conclude_ertm s o n)
unfolding conclude_ertm Configuration.new encode_ertm_option
conclude_ertm-Concluded cid c s none n spec mode k h =
    refuse_all-Concluded cid c (Configuration.new option_retransmission (encode_ertm_option s)) n
      (omega arith, omega arith) h
conclude_ertm-Concluded cid c s (some p) n spec mode k h =
    elim (Bool-cases (differ (or_false n.peer_fcs) s.fcs_enabled)) [
      | inl other ↦ rw other (
          refuse_all-Concluded cid c (Configuration.new option_fcs (from_bool s.fcs_enabled ∷ [])) n
            (omega arith, omega arith) h)
      | inr same ↦
          rw same
            (start_engine-Concluded cid c s p n spec mode (subst (λ m. IsAcceptable m p) mode k) h)
    ]

basic_engine :
    (mode : ClassicChannelMode) (received : Bool) (o : Option ErtmEngine)
    → mode ≡ basic_mode
    → EngineIsValid mode received o
    → EngineIsValid mode true o
basic_engine basic_mode received none e h = h
basic_engine basic_mode received (some d) e h = h
basic_engine enhanced_retransmission received o e h = absurd (cc)

conclude-Concluded :
    (cid : ℕ) (c : ClassicChannel) (spec : ChannelSpec) (n : Negotiation)
    → SpecIsValid spec
    → n.channel.mode ≡ spec_mode spec
    → NegotiationIsValid cid c n
    → Concluded cid c (conclude (spec_ertm spec) n)
unfolding conclude
conclude-Concluded cid c (ertm s) n spec mode h =
    conclude_ertm-Concluded cid c s n.peer_ertm n spec mode h.peer_valid h
conclude-Concluded cid c (basic s) n spec mode h =
    let v = h.channel_valid in
    let engine =
      basic_engine n.channel.mode n.channel.peer_configuration_received n.channel.engine mode
        v.engine_valid in
    elim (Bool-cases (is_some n.peer_ertm || or_false n.peer_fcs)) [
      | inl wanted ↦ rw wanted (
        record {
          channel_valid = v;
          channel_kept = h.channel_kept;
          peer_valid = h.peer_valid;
          options_valid = h.options_valid;
        },
        refl,
        λ accepted. absurd (omega (arith, accepted)),
      )
      | inr unwanted ↦ rw unwanted (h, refl, λ _. engine)
    ]

-- What a decided request writes.
settled-IsValid :
    (cid : ℕ) (c d : ClassicChannel) (result : ℕ)
    → ChannelIsValid cid d
    → Kept c d
    → (result ≡ 0 → EngineIsValid d.mode true d.engine)
    → ChannelIsValid cid (settled_channel result d)
      × Kept c (settled_channel result d)
      × ((settled_channel result d).mode ≡ d.mode)
unfolding settled_channel
settled-IsValid cid c d result v k engine = elim (Bool-cases (result == 0)) [
  | inl accepted ↦ rw accepted (
    record {
      source = v.source;
      range = v.range;
      specified = v.specified;
      mode_valid = v.mode_valid;
      mtu_valid = v.mtu_valid;
      peer_mtu_valid = v.peer_mtu_valid;
      settled = λ opened. (refl, (v.settled opened).1);
      engine_valid = engine (==→eq result 0 accepted);
      received_fits = v.received_fits;
    },
    others-Kept c d (record d { peer_configuration_received = true }) k,
    refl,
  )
  | inr refused ↦ rw refused (
    record {
      source = v.source;
      range = v.range;
      specified = v.specified;
      mode_valid = v.mode_valid;
      mtu_valid = v.mtu_valid;
      peer_mtu_valid = v.peer_mtu_valid;
      settled = λ opened. absurd opened;
      engine_valid = v.engine_valid;
      received_fits = v.received_fits;
    },
    moved-Kept c d (record d { connection_result = some result }) closed k close,
    refl,
  )
]

settle-IsValid :
    (cid : ℕ) (c : ClassicChannel) (p : Negotiation × Result Error (Unit {0}))
    → Concluded cid c p
    → NegotiationIsValid cid c (settle p).0 × ((settle p).1 ≡ ok tt)
unfolding settle
settle-IsValid cid c (n, ok _) (h, e, engine) =
    let (valid, kept, mode) =
      settled-IsValid cid c n.channel n.result h.channel_valid h.channel_kept engine in
    (
      record {
        channel_valid = valid;
        channel_kept = kept;
        peer_valid = subst (λ m. OnSome (IsAcceptable m) n.peer_ertm) (sym mode) h.peer_valid;
        options_valid = h.options_valid;
      },
      refl,
    )
settle-IsValid cid c (n, err x) (h, e, engine) = absurd (cc)

pub finish-IsValid :
    (cid : ℕ) (c : ClassicChannel) (flags : ℕ) (n : Negotiation)
    → NegotiationIsValid cid c n
    → NegotiationIsValid cid c (finish flags n).0 × ((finish flags n).1 ≡ ok tt)
unfolding finish
finish-IsValid cid c flags n h =
    let v = h.channel_valid in
    elim (Bool-cases (n.result == 0 && flags % 2 == 0)) [
      | inl last ↦ rw last (
          settle-IsValid cid c (conclude (spec_ertm n.channel.spec) n)
            (conclude-Concluded cid c n.channel.spec n v.specified v.mode_valid h))
      | inr other ↦ rw other (h, refl)
    ]
