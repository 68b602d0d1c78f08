-- ===== src/L2cap/Classic/Invariant/Negotiation.antt =====
-- How a negotiation of src/l2cap/classic.rs ends: the engine is made, and the channel is valid.
use swbt_bumble_backend.Base.{
  ℕ, ◌<◌, ◌≡◌, arith, true, not, List, [], ◌∷◌, All, IsByte, Result, ok, ◌==◌, if_both,
}
use swbt_bumble_backend.Base.OrderedMap.{OnSome}
use swbt_bumble_backend.L2cap.{Error}
use swbt_bumble_backend.L2cap.Configuration.{ConfigurationOption}
use swbt_bumble_backend.L2cap.Ertm.State
use swbt_bumble_backend.L2cap.Ertm.State.{ErtmEngine, ErtmConfig, validate, initial}
use swbt_bumble_backend.L2cap.Ertm.Sending.{IsReady}
use swbt_bumble_backend.L2cap.Ertm.Runs.{new-IsReady, here}
use swbt_bumble_backend.L2cap.Classic.{
  ErtmChannelSpec, enhanced_retransmission, ertm, ClassicChannel, option_mtu, option_retransmission,
  option_fcs, unknown_options,
}
use swbt_bumble_backend.L2cap.Classic.Diagram.{Kept-refl}
use swbt_bumble_backend.L2cap.Classic.Options.{
  ErtmOption, decode_ertm_option, Negotiation, negotiation, Pass, continue, break, mtu_value,
  fcs_value, take_option, take_options,
}
use swbt_bumble_backend.L2cap.Classic.Settlement.{engine_config}
use swbt_bumble_backend.L2cap.Classic.Invariant.{SpecIsValid, EngineIsValid, ChannelIsValid}
use swbt_bumble_backend.L2cap.Classic.Invariant.Options.{
  IsPeerOption, IsAcceptable, NegotiationIsValid, PassIsValid, take_mtu-PassIsValid,
  take_ertm-PassIsValid, take_fcs-PassIsValid, refuse-PassIsValid,
}

decode_ertm_option-width :
    (value : List ℕ)
    → All IsByte value
    → OnSome (λ (p : ErtmOption). p.max_retransmissions < 256) (decode_ertm_option value)
unfolding decode_ertm_option
decode_ertm_option-width [] h = tt
decode_ertm_option-width (_ ∷ []) h = tt
decode_ertm_option-width (_ ∷ _ ∷ []) h = tt
decode_ertm_option-width (_ ∷ _ ∷ _ ∷ []) h = tt
decode_ertm_option-width (_ ∷ _ ∷ _ ∷ _ ∷ []) h = tt
decode_ertm_option-width (_ ∷ _ ∷ _ ∷ _ ∷ _ ∷ []) h = tt
decode_ertm_option-width (_ ∷ _ ∷ _ ∷ _ ∷ _ ∷ _ ∷ []) h = tt
decode_ertm_option-width (_ ∷ _ ∷ _ ∷ _ ∷ _ ∷ _ ∷ _ ∷ []) h = tt
decode_ertm_option-width (_ ∷ _ ∷ _ ∷ _ ∷ _ ∷ _ ∷ _ ∷ _ ∷ []) h = tt
decode_ertm_option-width (_ ∷ _ ∷ max ∷ _ ∷ _ ∷ _ ∷ _ ∷ _ ∷ _ ∷ []) h = h.1.1.0
decode_ertm_option-width (_ ∷ _ ∷ _ ∷ _ ∷ _ ∷ _ ∷ _ ∷ _ ∷ _ ∷ _ ∷ _) h = tt

take_option-PassIsValid :
    (cid : ℕ) (c : ClassicChannel) (o : ConfigurationOption) (n : Negotiation)
    → IsPeerOption o
    → NegotiationIsValid cid c n
    → PassIsValid cid c (take_option o n)
unfolding take_option
take_option-PassIsValid cid c o n k h =
    let P : Pass → Type 0 = PassIsValid cid c in
    if_both P (o.option_type == option_mtu) _ _
      (λ _. take_mtu-PassIsValid cid c o (mtu_value o.value) n k.0 h)
      λ _.
        if_both P (o.option_type == option_retransmission) _ _
          (λ _.
            take_ertm-PassIsValid cid c o (decode_ertm_option o.value) n
              (decode_ertm_option-width o.value k.1) k.0 h)
          λ _.
            if_both P (o.option_type == option_fcs) _ _
              (λ _. take_fcs-PassIsValid cid c o (fcs_value o.value) n k.0 h)
              λ _.
                if_both P (not o.hint) _ _ (λ _. refuse-PassIsValid cid c unknown_options o n k.0 h)
                  (λ _. h)

after_pass :
    (cid : ℕ) (c : ClassicChannel) (rest : Negotiation → Negotiation) (p : Pass)
    → PassIsValid cid c p
    → ((n : Negotiation) → NegotiationIsValid cid c n → NegotiationIsValid cid c (rest n))
    → NegotiationIsValid cid c (elim p [ continue n' ↦ rest n' | break n' ↦ n' ])
after_pass cid c rest (continue n) h k = k n h
after_pass cid c rest (break n) h k = h

pub take_options-IsValid :
    (cid : ℕ) (c : ClassicChannel) (os : List ConfigurationOption) (n : Negotiation)
    → All IsPeerOption os
    → NegotiationIsValid cid c n
    → NegotiationIsValid cid c (take_options os n)
unfolding take_options
take_options-IsValid cid c [] n k h = h
take_options-IsValid cid c (o ∷ rest) n k h =
    after_pass cid c (take_options rest) (take_option o n) (take_option-PassIsValid cid c o n k.0 h)
      (λ n' h'. take_options-IsValid cid c rest n' k.1 h')

pub negotiation-IsValid :
    (cid : ℕ) (c : ClassicChannel) → ChannelIsValid cid c → NegotiationIsValid cid c (negotiation c)
unfolding negotiation
negotiation-IsValid cid c h = record {
  channel_valid = h;
  channel_kept = Kept-refl c;
  peer_valid = tt;
  options_valid = tt;
}

-- The configuration of an engine passes its validation.
pub engine_config_made :
    (s : ErtmChannelSpec) (p : ErtmOption)
    → SpecIsValid (ertm s)
    → IsAcceptable enhanced_retransmission p
    → State.new (engine_config s p) ≡ ok (initial (engine_config s p))
unfolding State.new validate engine_config
engine_config_made s p h k = ground arith

pub engine_made :
    (s : ErtmChannelSpec) (p : ErtmOption)
    → SpecIsValid (ertm s)
    → IsAcceptable enhanced_retransmission p
    → IsReady (initial (engine_config s p))
unfolding engine_config
engine_made s p h k =
    new-IsReady (engine_config s p) (initial (engine_config s p)) (initial (engine_config s p)) k.3
      (engine_config_made s p h k) here

-- What holds at the end: nothing failed, and an accepted configuration leaves the engine that the
-- mode wants.
abbrev pub Concluded : ℕ → ClassicChannel → Negotiation × Result Error (Unit {0}) → Type 0
Concluded cid c (n, r) =
    NegotiationIsValid cid c n
    × (r ≡ ok tt)
    × (n.result ≡ 0 → EngineIsValid n.channel.mode true n.channel.engine)
