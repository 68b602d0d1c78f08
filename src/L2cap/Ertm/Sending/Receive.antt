-- ===== src/L2cap/Ertm/Sending/Receive.antt =====
-- `receive_frame` of src/l2cap/ertm.rs keeps the sending half's invariant.
use swbt_bumble_backend.Base.{
  ℕ, ◌≤◌, ◌≡◌, inl, inr, refl, sym, ap, ◌∙◌, arith, Bool, true, false, not, List, length, drop,
  Result, ok, err, ◌==◌, Result-cases, if◌then◌else◌,
}
use mathlib.Core.Path.{subst}
use swbt_bumble_backend.L2cap.{Error}
use swbt_bumble_backend.L2cap.Ertm.Control.{
  SegmentationAndReassembly, EnhancedControlField, SupervisoryFunction, receiver_ready,
  receiver_not_ready, reject, selective_reject, information, supervisory, from_bytes, req_seq,
}
use swbt_bumble_backend.L2cap.Ertm.State.{
  ErtmEngine, done, ◌then_do◌, sequence_add, sequence_distance,
}
use swbt_bumble_backend.L2cap.Ertm.Output.{
  acknowledge, process_output, retransmit_all, send_supervisory,
}
use swbt_bumble_backend.L2cap.Ertm.Input.{accept_information}
use swbt_bumble_backend.L2cap.Ertm.Input.Writes.{accept_information-Receives}
use swbt_bumble_backend.L2cap.Ertm.Engine.{
  acknowledge_received, on_information, must_resend, says_not_ready, react, answer_poll,
  on_supervisory, on_control, on_acknowledged, receive_control, receive_active, receive_frame,
}
use swbt_bumble_backend.L2cap.Ertm.Order.{frames, sequence_add-lt}
use swbt_bumble_backend.L2cap.Ertm.Sending.{IsReady, Keeps, unrelated-IsReady}
use swbt_bumble_backend.L2cap.Ertm.Sending.Retransmit.{retransmit_all-Keeps}
use swbt_bumble_backend.L2cap.Ertm.Sending.SelectiveReject.{
  retransmit_one-Keeps, send_supervisory-Keeps,
}
use swbt_bumble_backend.L2cap.Ertm.Sending.Acknowledge.{acknowledge_lem, Acknowledged}
use swbt_bumble_backend.L2cap.Ertm.Sending.Operations.{
  ensure_active-holds, if-holds, KeepsFrames, Keeps-trans, kept_then, kept_if, done-Keeps,
  process_output-Keeps,
}

accept_information-Keeps :
    (sar : SegmentationAndReassembly) (payload : List ℕ)
    → KeepsFrames (accept_information sar payload)
accept_information-Keeps sar payload e ready =
    let same = accept_information-Receives sar payload e in
    let e' = (accept_information sar payload e).0 in
    subst (Keeps e) (sym same) (
      unrelated-IsReady e
          (record e {
            received = e'.received;
            input_sdu = e'.input_sdu;
            input_sdu_length = e'.input_sdu_length;
          })
          e.expected_tx_seq ready.0.expected ready,
      refl,
    )

acknowledge_received-Keeps : (final_bit : Bool) → KeepsFrames (acknowledge_received final_bit)
unfolding acknowledge_received
acknowledge_received-Keeps final_bit e ready =
    kept_if (e.last_acked_rx_seq == e.expected_tx_seq) done
      (send_supervisory receiver_ready false final_bit) done-Keeps
      (send_supervisory-Keeps receiver_ready false final_bit) e ready

deliver-Keeps :
    (final_bit : Bool) (sar : SegmentationAndReassembly) (payload : List ℕ)
    → KeepsFrames (
        accept_information sar payload
        then_do process_output
        then_do acknowledge_received final_bit)
deliver-Keeps final_bit sar payload =
    kept_then (accept_information sar payload)
      (process_output then_do acknowledge_received final_bit) (accept_information-Keeps sar payload)
      (kept_then process_output (acknowledge_received final_bit) process_output-Keeps
        (acknowledge_received-Keeps final_bit))

-- An information frame changes what is received; what is to be sent stays.
on_information-Keeps :
    (tx_seq : ℕ) (final_bit : Bool) (sar : SegmentationAndReassembly) (payload : List ℕ)
    → KeepsFrames (on_information tx_seq final_bit sar payload)
unfolding on_information
on_information-Keeps tx_seq final_bit sar payload e ready =
    let next = sequence_add e.expected_tx_seq 1 in
    let expecting : ErtmEngine = record e { expected_tx_seq = next } in
    let accepted =
      (accept_information sar payload then_do process_output then_do acknowledge_received final_bit)
        expecting in
    let rejected = send_supervisory reject false final_bit e in
    let out_of_order = not (tx_seq == e.expected_tx_seq) in
    if-holds (Keeps e) e.local_busy (send_supervisory receiver_not_ready false final_bit e)
      (if out_of_order then rejected else accepted)
      (send_supervisory-Keeps receiver_not_ready false final_bit e ready)
      (if-holds (Keeps e) out_of_order rejected accepted
        (send_supervisory-Keeps reject false final_bit e ready)
        (Keeps-trans e expecting accepted.0
          (unrelated-IsReady e expecting next (sequence_add-lt e.expected_tx_seq 1) ready, refl)
          (deliver-Keeps final_bit sar payload expecting
            (unrelated-IsReady e expecting next (sequence_add-lt e.expected_tx_seq 1) ready))))

react-Keeps :
    (acked : Bool) (function : SupervisoryFunction) (final_bit : Bool) (request : ℕ)
    → KeepsFrames (react acked function final_bit request)
unfolding react
react-Keeps acked reject final_bit request e ready = retransmit_all-Keeps e ready
react-Keeps acked selective_reject final_bit request e ready = retransmit_one-Keeps request e ready
react-Keeps acked receiver_ready final_bit request e ready =
    if-holds (Keeps e) (must_resend final_bit acked e) (retransmit_all e) (done e)
      (retransmit_all-Keeps e ready) (done-Keeps e ready)
react-Keeps acked receiver_not_ready final_bit request e ready =
    if-holds (Keeps e) (must_resend final_bit acked e) (retransmit_all e) (done e)
      (retransmit_all-Keeps e ready) (done-Keeps e ready)

answer_poll-Keeps : (poll : Bool) → KeepsFrames (answer_poll poll)
unfolding answer_poll
answer_poll-Keeps true e ready = send_supervisory-Keeps _ false true e ready
answer_poll-Keeps false e ready = done-Keeps e ready

on_supervisory-Keeps :
    (acked : Bool) (function : SupervisoryFunction) (poll final_bit : Bool) (request : ℕ)
    → KeepsFrames (on_supervisory acked function poll final_bit request)
unfolding on_supervisory
on_supervisory-Keeps acked function poll final_bit request e ready =
    let told : ErtmEngine = record e { remote_busy = says_not_ready function } in
    kept_then (react acked function final_bit request) (answer_poll poll then_do process_output)
      (react-Keeps acked function final_bit request)
      (kept_then (answer_poll poll) process_output (answer_poll-Keeps poll) process_output-Keeps)
      told (unrelated-IsReady e told e.expected_tx_seq ready.0.expected ready)

on_control-Keeps :
    (acked : Bool) (control : EnhancedControlField) (payload : List ℕ)
    → KeepsFrames (on_control acked control payload)
unfolding on_control
on_control-Keeps acked (information tx_seq final_bit request sar) payload e ready =
    on_information-Keeps tx_seq final_bit sar payload e ready
on_control-Keeps acked (supervisory function poll final_bit request) payload e ready =
    on_supervisory-Keeps acked function poll final_bit request e ready

-- The state stays ready, and the frames that left are the oldest.
abbrev pub Drops : ErtmEngine → ErtmEngine → Type 0
Drops e e' = IsReady e' × ((k : ℕ) × (k ≤ length e.tx_window) × (frames e' ≡ drop k (frames e)))

on_acknowledged-Drops :
    (control : EnhancedControlField) (payload : List ℕ) (e : ErtmEngine)
    (p : ErtmEngine × Result Error Bool)
    → IsReady p.0
    → Acknowledged (req_seq control) e p
    → Drops e (on_acknowledged control payload p).0
unfolding on_acknowledged
on_acknowledged-Drops control payload e (e', ok acked) ready (lt, within, reached, rest, told) =
    let (still, same) = on_control-Keeps acked control payload e' ready in
    (still, (sequence_distance e.last_acked_tx_seq (req_seq control), within, same ∙ rest))
on_acknowledged-Drops control payload e (e', err x) ready (same, why) =
    (ready, (0, omega arith, ap frames same))

receive_active-Drops :
    (frame : List ℕ) (e : ErtmEngine) → IsReady e → Drops e (receive_active frame e).0
unfolding receive_active receive_control
receive_active-Drops frame e ready =
    let outcome : Result Error EnhancedControlField → ErtmEngine × Result Error (Unit {0}) =
      λ r. elim r [ ok control ↦ receive_control control (drop 2 frame) e | err x ↦ (e, err x) ] in
    elim (Result-cases (from_bytes frame)) [
      | inl (control, read) ↦
          let (still, answer) = acknowledge_lem (req_seq control) e ready in
          subst (λ r. Drops e (outcome r).0) (sym read)
            (on_acknowledged-Drops control (drop 2 frame) e (acknowledge (req_seq control) e) still
              answer)
      | inr (x, wrong) ↦
          subst (λ r. Drops e (outcome r).0) (sym wrong) (ready, (0, omega arith, refl))
    ]

-- Any bytes that arrive, accepted or refused, leave the engine's sending half valid with the timer
-- armed; of the frames that the peer has not acknowledged only the oldest leave, at most those of
-- the transmit window, and the others keep their order.
pub receive_frame-Drops :
    (frame : List ℕ) (e : ErtmEngine) → IsReady e → Drops e (receive_frame frame e).0
unfolding receive_frame
receive_frame-Drops frame e ready =
    ensure_active-holds (Drops e) (receive_active frame) e (ready, (0, omega arith, refl))
      (receive_active-Drops frame e ready)
