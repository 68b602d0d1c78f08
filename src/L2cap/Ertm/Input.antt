-- ===== src/L2cap/Ertm/Input.antt =====
-- The receiving half of the ERTM engine of src/l2cap/ertm.rs: SDUs put together from segments.
pub mod Writes
pub mod Segments
pub mod Bounds
pub mod InOrder
use swbt_bumble_backend.Base.{
  ℕ, Bool, ◌||◌, not, Option, none, some, List, [], ◌∷◌, ◌++◌, ltb, leb, ◌==◌, if◌then◌else◌,
  length, u16_from_le, ok, err,
}
use swbt_bumble_backend.L2cap.{
  invalid_packet, unsegmented_interrupted_sdu, sdu_exceeds_local_mtu, start_without_length,
  start_interrupted_sdu, continuation_without_start, end_without_start, sdu_length_mismatch,
  length_reached_before_end,
}
use swbt_bumble_backend.L2cap.Ertm.Control.{
  SegmentationAndReassembly, unsegmented, start, end, continuation,
}
use swbt_bumble_backend.L2cap.Ertm.State.{ErtmEngine, Action, done, raise}

unfoldable pub reset_input : ErtmEngine → ErtmEngine
reset_input e = record e { input_sdu = []; input_sdu_length = none }

-- `!input_sdu.is_empty() || input_sdu_length.is_some()`.
unfoldable pub is_assembling : List ℕ → Option ℕ → Bool
is_assembling [] none = Bool.false
is_assembling _ _ = Bool.true

unfoldable pub check_partial_length : Action
unfolding reset_input
check_partial_length e = elim e.input_sdu_length [
  | none ↦ (e, ok tt)
  | some total ↦
      if leb total (length e.input_sdu)
      then (reset_input e, err (invalid_packet length_reached_before_end))
      else (e, ok tt)
]

unfoldable pub accept_unsegmented : List ℕ → Action
unfolding is_assembling reset_input
accept_unsegmented payload e =
    if is_assembling e.input_sdu e.input_sdu_length
    then (reset_input e, err (invalid_packet unsegmented_interrupted_sdu))
    else if ltb e.config.local_mtu (length payload)
    then (e, err (invalid_packet sdu_exceeds_local_mtu))
    else (record e { received = e.received ++ payload ∷ [] }, ok tt)

unfoldable pub accept_start : List ℕ → Action
unfolding is_assembling reset_input check_partial_length
accept_start [] e = (e, err (invalid_packet start_without_length))
accept_start (_ ∷ []) e = (e, err (invalid_packet start_without_length))
accept_start (lo ∷ hi ∷ segment) e =
    let total = u16_from_le lo hi in
    if is_assembling e.input_sdu e.input_sdu_length
    then (reset_input e, err (invalid_packet start_interrupted_sdu))
    else if ltb e.config.local_mtu total
    then (e, err (invalid_packet sdu_exceeds_local_mtu))
    else check_partial_length
        (record e { input_sdu_length = some total; input_sdu = e.input_sdu ++ segment })

unfoldable pub accept_continuation : List ℕ → Action
unfolding check_partial_length
accept_continuation payload e = elim e.input_sdu_length [
  | none ↦ (e, err (invalid_packet continuation_without_start))
  | some _ ↦ check_partial_length (record e { input_sdu = e.input_sdu ++ payload })
]

unfoldable pub accept_end : List ℕ → Action
unfolding reset_input
accept_end payload e =
    let whole = e.input_sdu ++ payload in
    elim e.input_sdu_length [
      | none ↦ (e, err (invalid_packet end_without_start))
      | some total ↦
          if length whole == total
          then (
            record e {
              received = e.received ++ whole ∷ [];
              input_sdu = [];
              input_sdu_length = none;
            },
            ok tt,
          )
          else (reset_input e, err (invalid_packet sdu_length_mismatch))
    ]

unfoldable pub accept_information : SegmentationAndReassembly → List ℕ → Action
unfolding accept_unsegmented accept_start accept_continuation accept_end
accept_information unsegmented payload = accept_unsegmented payload
accept_information start payload = accept_start payload
accept_information continuation payload = accept_continuation payload
accept_information end payload = accept_end payload
