-- ===== src/L2cap/Ertm/Input/Writes.antt =====
-- What the receiving half of src/l2cap/ertm.rs writes.
use swbt_bumble_backend.Base.{
  ℕ, ◌≡◌, refl, sym, List, [], ◌∷◌, ◌++◌, Option, none, some, inl, inr, Bool-cases, Option-cases,
  length, ltb, leb, ◌==◌, u16_from_le, Result, err,
}
use mathlib.Core.Path.{subst}
use swbt_bumble_backend.L2cap.{Error, invalid_packet, continuation_without_start}
use swbt_bumble_backend.L2cap.Ertm.State.{ErtmEngine}
use swbt_bumble_backend.L2cap.Ertm.Control.{
  SegmentationAndReassembly, unsegmented, start, end, continuation,
}
use swbt_bumble_backend.L2cap.Ertm.Input.{
  reset_input, is_assembling, check_partial_length, accept_unsegmented, accept_start,
  accept_continuation, accept_end, accept_information,
}

-- Two states that differ in what is received and in the SDU that is being put together alone.
abbrev pub Receives : ErtmEngine → ErtmEngine → Type 0
Receives e e' = e' ≡ record e {
  received = e'.received;
  input_sdu = e'.input_sdu;
  input_sdu_length = e'.input_sdu_length;
}

-- The one test of `accept_end` and of `check_partial_length`.
check_partial_length-Receives : (e : ErtmEngine) → Receives e (check_partial_length e).0
unfolding check_partial_length reset_input
check_partial_length-Receives e = elim (Option-cases e.input_sdu_length) [
  | inl free ↦ rw free refl
  | inr (total, begun) ↦ elim (Bool-cases (leb total (length e.input_sdu))) [
    | inl over ↦ rw (begun, over) refl
    | inr within ↦ rw (begun, within) refl
  ]
]

accept_unsegmented-Receives :
    (payload : List ℕ) (e : ErtmEngine) → Receives e (accept_unsegmented payload e).0
unfolding accept_unsegmented reset_input
accept_unsegmented-Receives payload e =
    elim (Bool-cases (is_assembling e.input_sdu e.input_sdu_length)) [
      | inl assembling ↦ rw assembling refl
      | inr idle ↦ elim (Bool-cases (ltb e.config.local_mtu (length payload))) [
        | inl over ↦ rw (idle, over) refl
        | inr within ↦ rw (idle, within) refl
      ]
    ]

accept_start-Receives : (payload : List ℕ) (e : ErtmEngine) → Receives e (accept_start payload e).0
unfolding accept_start reset_input
accept_start-Receives [] e = refl
accept_start-Receives (x ∷ []) e = refl
accept_start-Receives (lo ∷ hi ∷ segment) e =
    let total = u16_from_le lo hi in
    let begun = record e { input_sdu_length = some total; input_sdu = e.input_sdu ++ segment } in
    elim (Bool-cases (is_assembling e.input_sdu e.input_sdu_length)) [
      | inl assembling ↦ rw assembling refl
      | inr idle ↦ elim (Bool-cases (ltb e.config.local_mtu total)) [
        | inl over ↦ rw (idle, over) refl
        | inr within ↦ rw (idle, within) (check_partial_length-Receives begun)
      ]
    ]

accept_continuation-Receives :
    (payload : List ℕ) (e : ErtmEngine) → Receives e (accept_continuation payload e).0
unfolding accept_continuation
accept_continuation-Receives payload e =
    let longer = record e { input_sdu = e.input_sdu ++ payload } in
    let outcome : Option ℕ → ErtmEngine × Result Error (Unit {0}) = λ o. elim o [
      | none ↦ (e, err (invalid_packet continuation_without_start))
      | some _ ↦ check_partial_length longer
    ] in
    elim (Option-cases e.input_sdu_length) [
      | inl free ↦ rw free refl
      | inr (total, begun) ↦
          subst (λ o. Receives e (outcome o).0) (sym begun) (check_partial_length-Receives longer)
    ]

accept_end-Receives : (payload : List ℕ) (e : ErtmEngine) → Receives e (accept_end payload e).0
unfolding accept_end reset_input
accept_end-Receives payload e = elim (Option-cases e.input_sdu_length) [
  | inl free ↦ rw free refl
  | inr (total, begun) ↦ elim (Bool-cases (length (e.input_sdu ++ payload) == total)) [
    | inl whole ↦ rw (begun, whole) refl
    | inr short ↦ rw (begun, short) refl
  ]
]

pub accept_information-Receives :
    (sar : SegmentationAndReassembly) (payload : List ℕ) (e : ErtmEngine)
    → Receives e (accept_information sar payload e).0
unfolding accept_information
accept_information-Receives unsegmented payload e = accept_unsegmented-Receives payload e
accept_information-Receives start payload e = accept_start-Receives payload e
accept_information-Receives continuation payload e = accept_continuation-Receives payload e
accept_information-Receives end payload e = accept_end-Receives payload e
