-- ===== src/L2cap/Ertm/Input/InOrder.antt =====
-- `receive_frame` of src/l2cap/ertm.rs takes in no information frame but the expected one.
use swbt_bumble_backend.Base.{
  ℕ, ◌<◌, ◌≡◌, ◌≢◌, refl, sym, ap, ◌∙◌, inl, inr, arith, Bool, false, not, List, length, drop,
  Result, ok, err, ltb, leb, ◌==◌, Bool-cases, if◌then◌else◌,
}
use mathlib.Core.Path.{subst}
use swbt_bumble_backend.L2cap.{Error}
use swbt_bumble_backend.L2cap.Ertm.Control.{
  SegmentationAndReassembly, EnhancedControlField, information, SupervisoryFunction, reject,
  receiver_not_ready, from_bytes, req_seq, ertm_sequence_modulus,
}
use swbt_bumble_backend.L2cap.Ertm.State.{ErtmEngine, ◌then_do◌, sequence_add, sequence_distance}
use swbt_bumble_backend.L2cap.Ertm.Output.{
  acknowledge, send_supervisory, refresh_retransmission_deadline, process_output,
}
use swbt_bumble_backend.L2cap.Ertm.Input.{accept_information}
use swbt_bumble_backend.L2cap.Ertm.Engine.{
  acknowledge_received, on_information, on_control, on_acknowledged, receive_control,
  receive_active, receive_frame,
}
use swbt_bumble_backend.L2cap.Ertm.Sending.SelectiveReject.{send_supervisory_lem}
use swbt_bumble_backend.L2cap.Ertm.Sending.Operations.{if-holds, ensure_active-holds}

-- The second state has received what the first one has, and expects the same frame.
abbrev pub ReceivedSame : ErtmEngine → ErtmEngine → Type 0
ReceivedSame e e' =
    (e'.received ≡ e.received)
    × (e'.input_sdu ≡ e.input_sdu)
    × (e'.input_sdu_length ≡ e.input_sdu_length)
    × (e'.expected_tx_seq ≡ e.expected_tx_seq)

acknowledge-ReceivedSame : (seq : ℕ) (e : ErtmEngine) → ReceivedSame e (acknowledge seq e).0
unfolding acknowledge refresh_retransmission_deadline
acknowledge-ReceivedSame seq e =
    let count = sequence_distance e.last_acked_tx_seq seq in
    elim (Bool-cases (leb ertm_sequence_modulus seq)) [
      | inl out ↦ rw out (refl, refl, refl, refl)
      | inr below ↦ elim (Bool-cases (ltb (length e.tx_window) count)) [
        | inl many ↦ rw (below, many) (refl, refl, refl, refl)
        | inr few ↦ elim (Bool-cases (count == 0)) [
          | inl nothing ↦ rw (below, few, nothing) (refl, refl, refl, refl)
          | inr several ↦ rw (below, few, several) (refl, refl, refl, refl)
        ]
      ]
    ]

send_supervisory-ReceivedSame :
    (function : SupervisoryFunction) (poll final_bit : Bool) (e : ErtmEngine)
    → e.expected_tx_seq < 64
    → ReceivedSame e (send_supervisory function poll final_bit e).0
send_supervisory-ReceivedSame function poll final_bit e h =
    let (bytes, written, same) = send_supervisory_lem function poll final_bit e h in
    rw same (refl, refl, refl, refl)

on_information-ReceivedSame :
    (tx_seq : ℕ) (final_bit : Bool) (sar : SegmentationAndReassembly) (payload : List ℕ)
    (e : ErtmEngine)
    → e.expected_tx_seq < 64
    → (tx_seq == e.expected_tx_seq) ≡ false
    → ReceivedSame e (on_information tx_seq final_bit sar payload e).0
unfolding on_information
on_information-ReceivedSame tx_seq final_bit sar payload e h other =
    let expecting : ErtmEngine = record e { expected_tx_seq = sequence_add e.expected_tx_seq 1 } in
    let accepted =
      (accept_information sar payload then_do process_output then_do acknowledge_received final_bit)
        expecting in
    let rejected = send_supervisory reject false final_bit e in
    let next : Bool → ErtmEngine × Result Error (Unit {0}) =
      λ b. if not b then rejected else accepted in
    if-holds (ReceivedSame e) e.local_busy (send_supervisory receiver_not_ready false final_bit e)
      (next (tx_seq == e.expected_tx_seq))
      (send_supervisory-ReceivedSame receiver_not_ready false final_bit e h)
      (subst (λ b. ReceivedSame e (next b).0) (sym other)
        (send_supervisory-ReceivedSame reject false final_bit e h))

acknowledged-ReceivedSame :
    (tx_seq : ℕ) (final_bit : Bool) (request : ℕ) (sar : SegmentationAndReassembly)
    (payload : List ℕ) (e : ErtmEngine) (p : ErtmEngine × Result Error Bool)
    → e.expected_tx_seq < 64
    → (tx_seq == e.expected_tx_seq) ≡ false
    → ReceivedSame e p.0
    → ReceivedSame e (on_acknowledged (information tx_seq final_bit request sar) payload p).0
unfolding on_acknowledged on_control
acknowledged-ReceivedSame tx_seq final_bit request sar payload e (e', err x) h other same = same
acknowledged-ReceivedSame tx_seq final_bit request sar payload e (e', ok acked) h other
      (r, i, l, x) =
    let other' : (tx_seq == e'.expected_tx_seq) ≡ false = ap (λ n. tx_seq == n) x ∙ other in
    let h' : e'.expected_tx_seq < 64 = omega (arith, x, h) in
    let (r', i', l', x') = on_information-ReceivedSame tx_seq final_bit sar payload e' h' other' in
    (r' ∙ r, i' ∙ i, l' ∙ l, x' ∙ x)

not_equal : (a b : ℕ) → a ≢ b → (a == b) ≡ false
not_equal a b h = ground arith

-- An information frame other than the expected one, whatever it carries and whether or not its
-- acknowledgment is accepted, adds nothing to what an engine with a sequence number in range has
-- received or is putting together, and the engine expects the same frame as before.
pub receive_frame-ReceivedSame :
    (frame : List ℕ) (e : ErtmEngine) (tx_seq request : ℕ) (final_bit : Bool)
    (sar : SegmentationAndReassembly)
    → e.expected_tx_seq < 64
    → from_bytes frame ≡ ok (information tx_seq final_bit request sar)
    → tx_seq ≢ e.expected_tx_seq
    → ReceivedSame e (receive_frame frame e).0
unfolding receive_frame receive_active receive_control req_seq
receive_frame-ReceivedSame frame e tx_seq request final_bit sar h read other =
    let control = information tx_seq final_bit request sar in
    let outcome : Result Error EnhancedControlField → ErtmEngine × Result Error (Unit {0}) =
      λ r. elim r [ ok c ↦ receive_control c (drop 2 frame) e | err x ↦ (e, err x) ] in
    let done =
      acknowledged-ReceivedSame tx_seq final_bit request sar (drop 2 frame) e
        (acknowledge request e) h (not_equal tx_seq e.expected_tx_seq other)
        (acknowledge-ReceivedSame request e) in
    ensure_active-holds (ReceivedSame e) (receive_active frame) e (refl, refl, refl, refl)
      (subst (λ r. ReceivedSame e (outcome r).0) (sym read) done)
