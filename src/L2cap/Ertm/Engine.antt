-- ===== src/L2cap/Ertm/Engine.antt =====
-- The operations of `ErtmEngine` (src/l2cap/ertm.rs).
use swbt_bumble_backend.Base.{
  ℕ, suc, ◌+◌, ◌*◌, Bool, true, false, ◌&&◌, not, Option, none, some, List, [], ◌∷◌, ◌++◌, ltb, leb,
  ◌==◌, if◌then◌else◌, length, drop, Result, ok, err, chunks,
}
use swbt_bumble_backend.L2cap.{
  Error, invalid_packet, engine_failed, sdu_exceeds_peer_mtu, sdu_length_exceeds_16_bits,
}
use swbt_bumble_backend.L2cap.Ertm.Control.{
  SegmentationAndReassembly, unsegmented, start, end, continuation, SupervisoryFunction,
  receiver_ready, reject, receiver_not_ready, selective_reject, EnhancedControlField, information,
  supervisory, from_bytes, req_seq,
}
use swbt_bumble_backend.L2cap.Ertm.State.{
  ErtmEngine, sequence_add, saturating_add, Action, done, raise, ◌then_do◌,
}
use swbt_bumble_backend.L2cap.Ertm.Output.{
  process_output, retransmit_all, retransmit_one, send_supervisory, acknowledge,
}
use swbt_bumble_backend.L2cap.Ertm.Input.{accept_information}

unfoldable pub ensure_active : Action
ensure_active e = (e, if e.failed then err (invalid_packet engine_failed) else ok tt)

-- `take_tx_seq` and `pending.push_back`.
unfoldable pub push_frame : List ℕ → SegmentationAndReassembly → Option ℕ → ErtmEngine → ErtmEngine
unfolding sequence_add
push_frame payload sar sdu_length e = record e {
  pending =
      e.pending
      ++ record { payload = payload; tx_seq = e.next_tx_seq; sar = sar; sdu_length = sdu_length }
        ∷ [];
  next_tx_seq = sequence_add e.next_tx_seq 1;
}

unfoldable pub segment_sar : (index offset size total : ℕ) → SegmentationAndReassembly
segment_sar index offset size total =
    if index == 0 then start else if offset + size == total then end else continuation

unfoldable pub start_length : SegmentationAndReassembly → ℕ → Option ℕ
start_length start total = some total
start_length _ total = none

-- The `for` of `send_sdu` over the numbered chunks, from chunk `index` on.
unfoldable pub push_segments : (mps total index : ℕ) → List (List ℕ) → ErtmEngine → ErtmEngine
unfolding push_frame segment_sar start_length
push_segments mps total index [] e = e
push_segments mps total index (chunk ∷ rest) e =
    let sar = segment_sar index (index * mps) (length chunk) total in
    push_segments mps total (suc index) rest (push_frame chunk sar (start_length sar total) e)

unfoldable pub send_active : List ℕ → Action
unfolding push_segments push_frame
send_active sdu e =
    let mps = e.config.peer_mps in
    if ltb e.config.peer_mtu (length sdu)
    then raise (invalid_packet (sdu_exceeds_peer_mtu e.config.peer_mtu)) e
    else if leb (length sdu) mps
    then process_output (push_frame sdu unsegmented none e)
    else if ltb 65535 (length sdu)
    then raise (invalid_packet sdu_length_exceeds_16_bits) e
    else process_output (push_segments mps (length sdu) 0 (chunks mps sdu) e)

unfoldable pub send_sdu : List ℕ → Action
unfolding ensure_active send_active
send_sdu sdu = ensure_active then_do send_active sdu

-- Answers a received frame that no information frame has acknowledged on the way.
unfoldable pub acknowledge_received : Bool → Action
acknowledge_received final_bit e =
    if e.last_acked_rx_seq == e.expected_tx_seq
    then done e
    else send_supervisory receiver_ready false final_bit e

unfoldable pub on_information : ℕ → Bool → SegmentationAndReassembly → List ℕ → Action
unfolding acknowledge_received sequence_add
on_information tx_seq final_bit sar payload e =
    if e.local_busy
    then send_supervisory receiver_not_ready false final_bit e
    else if not (tx_seq == e.expected_tx_seq)
    then send_supervisory reject false final_bit e
    else (accept_information sar payload
          then_do process_output
          then_do acknowledge_received final_bit)
        (record e { expected_tx_seq = sequence_add e.expected_tx_seq 1 })

unfoldable pub says_not_ready : SupervisoryFunction → Bool
says_not_ready receiver_not_ready = true
says_not_ready _ = false

-- `final_bit && !acked && !self.tx_window.is_empty()`.
unfoldable pub must_resend : (final_bit acked : Bool) → ErtmEngine → Bool
must_resend final_bit acked e = final_bit && not acked && not (length e.tx_window == 0)

unfoldable pub react :
    (acked : Bool) → SupervisoryFunction → (final_bit : Bool) (request : ℕ) → Action
unfolding must_resend
react acked reject final_bit request e = retransmit_all e
react acked selective_reject final_bit request e = retransmit_one request e
react acked receiver_ready final_bit request e =
    if must_resend final_bit acked e then retransmit_all e else done e
react acked receiver_not_ready final_bit request e =
    if must_resend final_bit acked e then retransmit_all e else done e

unfoldable pub answer_poll : Bool → Action
answer_poll poll e =
    if poll
    then send_supervisory (if e.local_busy then receiver_not_ready else receiver_ready) false true e
    else done e

unfoldable pub on_supervisory :
    (acked : Bool) → SupervisoryFunction → (poll final_bit : Bool) (request : ℕ) → Action
unfolding react answer_poll says_not_ready
on_supervisory acked function poll final_bit request e =
    (react acked function final_bit request then_do answer_poll poll then_do process_output)
      (record e { remote_busy = says_not_ready function })

unfoldable pub on_control : Bool → EnhancedControlField → List ℕ → Action
unfolding on_information on_supervisory
on_control acked (information tx_seq final_bit _ sar) payload =
    on_information tx_seq final_bit sar payload
on_control acked (supervisory function poll final_bit request) payload =
    on_supervisory acked function poll final_bit request

-- The `match` on the control field, behind `acknowledge`.
unfoldable pub on_acknowledged :
    EnhancedControlField
    → List ℕ
    → ErtmEngine × Result Error Bool
    → ErtmEngine × Result Error (Unit {0})
unfolding on_control
on_acknowledged control payload (e, ok acked) = on_control acked control payload e
on_acknowledged control payload (e, err x) = (e, err x)

unfoldable pub receive_control : EnhancedControlField → List ℕ → Action
unfolding on_acknowledged
receive_control control payload e =
    on_acknowledged control payload (acknowledge (req_seq control) e)

unfoldable pub receive_active : List ℕ → Action
unfolding receive_control
receive_active frame e = elim (from_bytes frame) [
  | ok control ↦ receive_control control (drop 2 frame) e
  | err x ↦ (e, err x)
]

unfoldable pub receive_frame : List ℕ → Action
unfolding ensure_active receive_active
receive_frame frame = ensure_active then_do receive_active frame

-- `self.local_busy != busy`.
unfoldable pub busy_changes : (old fresh : Bool) → Bool
busy_changes true fresh = not fresh
busy_changes false fresh = fresh

unfoldable pub set_busy : Bool → Action
unfolding busy_changes
set_busy busy e =
    if busy_changes e.local_busy busy
    then send_supervisory (if busy then receiver_not_ready else receiver_ready) false false
        (record e { local_busy = busy })
    else done e

unfoldable pub set_receiver_busy : Bool → Action
unfolding ensure_active set_busy
set_receiver_busy busy = ensure_active then_do set_busy busy

unfoldable pub is_due : Option ℕ → ℕ → Bool
is_due none now = false
is_due (some deadline) now = leb deadline now

unfoldable pub advance : ℕ → Action
unfolding is_due
advance ticks e =
    let later = record e { now = saturating_add e.now ticks } in
    if is_due later.retransmission_deadline later.now && not (length later.tx_window == 0)
    then retransmit_all later
    else done later

unfoldable pub tick : ℕ → Action
unfolding ensure_active advance
tick ticks = ensure_active then_do advance ticks

unfoldable pub poll_outbound : ErtmEngine → Option (List ℕ) × ErtmEngine
poll_outbound e = elim e.outbound [
  | [] ↦ (none, e)
  | frame ∷ rest ↦ (some frame, record e { outbound = rest })
]

unfoldable pub drain_outbound : ErtmEngine → List (List ℕ) × ErtmEngine
drain_outbound e = (e.outbound, record e { outbound = [] })

unfoldable pub pop_received : ErtmEngine → Option (List ℕ) × ErtmEngine
pop_received e = elim e.received [
  | [] ↦ (none, e)
  | sdu ∷ rest ↦ (some sdu, record e { received = rest })
]

unfoldable pub pending_frames : ErtmEngine → ℕ
pending_frames e = length e.pending + length e.tx_window
