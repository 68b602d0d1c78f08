-- ===== src/L2cap/Classic/Invariant/Options.antt =====
-- The negotiation of a channel's options (src/l2cap/classic.rs) keeps the channel valid.
use swbt_bumble_backend.Base.{
  ℕ, zero, suc, ◌<◌, ◌≡◌, inl, inr, arith, Bool, false, Option, none, some, List, [], ◌∷◌, length,
  take, drop, All, All-append, All-drop, All-take, IsByte, OnOk, ltb, Bool-cases, Result-cases,
  length-take, u16_to_le,
}
use mathlib.Core.Path.{subst}
use swbt_bumble_backend.Base.Bits.{bit_and_mask}
use swbt_bumble_backend.Base.OrderedMap.{OnSome}
use swbt_bumble_backend.L2cap.Configuration
use swbt_bumble_backend.L2cap.Configuration.{
  ConfigurationOption, decoded_option, decode_options, decode_configuration_options,
}
use swbt_bumble_backend.L2cap.Configuration.RoundTrip.{IsOption}
use swbt_bumble_backend.L2cap.Classic.{
  ClassicChannelMode, basic_mode, enhanced_retransmission, ClassicChannel, min_br_edr_mtu,
  option_mtu, unacceptable_parameters,
}
use swbt_bumble_backend.L2cap.Classic.Diagram.{Kept, others-Kept}
use swbt_bumble_backend.L2cap.Classic.Options.{
  ErtmOption, Negotiation, Pass, continue, break, refuse, take_mtu, expected_mode, is_unacceptable,
  take_ertm, take_fcs,
}
use swbt_bumble_backend.L2cap.Classic.Invariant.{ChannelIsValid}

-- An option that was read from bytes.
abbrev pub IsPeerOption : ConfigurationOption → Type 0
IsPeerOption o = IsOption o × All IsByte o.value

decoded_option-IsPeerOption :
    (raw n : ℕ) (rest : List ℕ)
    → n < 256
    → All IsByte rest
    → IsPeerOption (decoded_option raw (take n rest))
unfolding decoded_option
decoded_option-IsPeerOption raw n rest h k = (
  (omega (arith, bit_and_mask 7 raw), omega (arith, length-take n rest)),
  All-take IsByte n rest k,
)

decode_options-All :
    (fuel : ℕ) (bytes : List ℕ)
    → All IsByte bytes
    → OnOk (λ os. All IsPeerOption os) (decode_options fuel bytes)
unfolding decode_options
decode_options-All fuel [] h = tt
decode_options-All zero (_ ∷ _) h = tt
decode_options-All (suc fuel) (_ ∷ []) h = tt
decode_options-All (suc fuel) (raw ∷ n ∷ rest) h = elim (Bool-cases (ltb (length rest) n)) [
  | inl short ↦ rw short tt
  | inr enough ↦ rw enough (elim (Result-cases (decode_options fuel (drop n rest))) [
    | inl (os, e) ↦
        let later = decode_options-All fuel (drop n rest) (All-drop IsByte n rest h.1.1) in
        rw e (
          decoded_option-IsPeerOption raw n rest h.1.0 h.1.1,
          subst (OnOk (λ os. All IsPeerOption os)) e later,
        )
    | inr (x, e) ↦ rw e tt
  ])
]

pub decode_configuration_options-All :
    (bytes : List ℕ)
    → All IsByte bytes
    → OnOk (λ os. All IsPeerOption os) (decode_configuration_options bytes)
unfolding decode_configuration_options
decode_configuration_options-All bytes h = decode_options-All (length bytes) bytes h

-- The parameters that a channel accepts: an engine can be made of them.
abbrev pub IsAcceptable : ClassicChannelMode → ErtmOption → Type 0
IsAcceptable basic_mode p = Unit {0}
IsAcceptable enhanced_retransmission p =
    (0 < p.tx_window_size) × (p.tx_window_size < 64) × (0 < p.mps) × (p.max_retransmissions < 256)

pub record NegotiationIsValid (cid : ℕ) (c : ClassicChannel) (n : Negotiation) : Type 0 where
  pub channel_valid : ChannelIsValid cid n.channel
  pub channel_kept : Kept c n.channel
  pub peer_valid : OnSome (IsAcceptable n.channel.mode) n.peer_ertm
  pub options_valid : All IsOption n.response_options

abbrev pub PassIsValid : ℕ → ClassicChannel → Pass → Type 0
PassIsValid cid c (continue n) = NegotiationIsValid cid c n
PassIsValid cid c (break n) = NegotiationIsValid cid c n

module _ (cid : ℕ) (c : ClassicChannel) where
  pub refuse-PassIsValid :
      (result : ℕ) (o : ConfigurationOption) (n : Negotiation)
      → IsOption o
      → NegotiationIsValid cid c n
      → PassIsValid cid c (refuse result o n)
  unfolding refuse
  refuse-PassIsValid result o n k h = record {
    channel_valid = h.channel_valid;
    channel_kept = h.channel_kept;
    peer_valid = h.peer_valid;
    options_valid = (k, tt);
  }

  pub take_mtu-PassIsValid :
      (o : ConfigurationOption) (mtu : Option ℕ) (n : Negotiation)
      → IsOption o
      → NegotiationIsValid cid c n
      → PassIsValid cid c (take_mtu o mtu n)
  unfolding take_mtu Configuration.new
  take_mtu-PassIsValid o none n k h = refuse-PassIsValid unacceptable_parameters o n k h
  take_mtu-PassIsValid o (some mtu) n k h = elim (Bool-cases (ltb mtu min_br_edr_mtu)) [
    | inl low ↦ rw low (
        refuse-PassIsValid unacceptable_parameters
          (Configuration.new option_mtu (u16_to_le min_br_edr_mtu)) n (omega arith, omega arith) h)
    | inr high ↦
        let v = h.channel_valid in
        rw high (record {
          channel_valid = record {
            source = v.source;
            range = v.range;
            specified = v.specified;
            mode_valid = v.mode_valid;
            mtu_valid = v.mtu_valid;
            peer_mtu_valid = ground arith;
            settled = v.settled;
            engine_valid = v.engine_valid;
            received_fits = v.received_fits;
          };
          channel_kept =
              others-Kept c n.channel (record n.channel { peer_mtu = mtu }) h.channel_kept;
          peer_valid = h.peer_valid;
          options_valid = All-append IsOption n.response_options (o ∷ []) h.options_valid (k, tt);
        })
  ]

  acceptable_lem :
      (mode : ClassicChannelMode) (p : ErtmOption)
      → p.max_retransmissions < 256
      → is_unacceptable p (expected_mode mode) ≡ false
      → IsAcceptable mode p
  unfolding is_unacceptable
  acceptable_lem basic_mode p h k = tt
  acceptable_lem enhanced_retransmission p h k = (ground arith, ground arith, ground arith, h)

  pub take_ertm-PassIsValid :
      (o : ConfigurationOption) (parameters : Option ErtmOption) (n : Negotiation)
      → OnSome (λ (p : ErtmOption). p.max_retransmissions < 256) parameters
      → IsOption o
      → NegotiationIsValid cid c n
      → PassIsValid cid c (take_ertm o parameters n)
  unfolding take_ertm
  take_ertm-PassIsValid o none n width k h = refuse-PassIsValid unacceptable_parameters o n k h
  take_ertm-PassIsValid o (some p) n width k h =
      elim (Bool-cases (is_unacceptable p (expected_mode n.channel.mode))) [
        | inl bad ↦ rw bad (refuse-PassIsValid unacceptable_parameters o n k h)
        | inr good ↦ rw good (record {
          channel_valid = h.channel_valid;
          channel_kept = h.channel_kept;
          peer_valid = acceptable_lem n.channel.mode p width good;
          options_valid = All-append IsOption n.response_options (o ∷ []) h.options_valid (k, tt);
        })
      ]

  pub take_fcs-PassIsValid :
      (o : ConfigurationOption) (fcs : Option Bool) (n : Negotiation)
      → IsOption o
      → NegotiationIsValid cid c n
      → PassIsValid cid c (take_fcs o fcs n)
  unfolding take_fcs
  take_fcs-PassIsValid o none n k h = refuse-PassIsValid unacceptable_parameters o n k h
  take_fcs-PassIsValid o (some fcs) n k h = record {
    channel_valid = h.channel_valid;
    channel_kept = h.channel_kept;
    peer_valid = h.peer_valid;
    options_valid = All-append IsOption n.response_options (o ∷ []) h.options_valid (k, tt);
  }
