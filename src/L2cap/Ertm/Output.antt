-- ===== src/L2cap/Ertm/Output.antt =====
-- The sending half of the ERTM engine of src/l2cap/ertm.rs: the transmit window, acknowledgments and
-- retransmission.
use swbt_bumble_backend.Base.{
  ℕ, ◌+◌, ◌-◌, ◌%◌, Bool, true, false, ◌&&◌, not, Option, none, some, List, [], ◌∷◌, ◌++◌, ltb, leb,
  ◌==◌, if◌then◌else◌, length, drop, Result, ok, err,
}
use swbt_bumble_backend.L2cap.{
  Error, invalid_packet, acknowledgment_out_of_range, acknowledged_too_many,
  unknown_selective_reject, retransmissions_exceeded,
}
use swbt_bumble_backend.L2cap.Ertm.Control.{
  SupervisoryFunction, supervisory, to_bytes, ertm_sequence_modulus,
}
use swbt_bumble_backend.L2cap.Ertm.State.{
  PendingFrame, encode, TransmittedFrame, ErtmEngine, sequence_distance, saturating_add, Action,
}

unfoldable pub deadline_for : List TransmittedFrame → ℕ → Option ℕ
deadline_for [] deadline = none
deadline_for (_ ∷ _) deadline = some deadline

unfoldable pub refresh_retransmission_deadline : ErtmEngine → ErtmEngine
unfolding deadline_for
refresh_retransmission_deadline e = record e {
  retransmission_deadline =
      deadline_for e.tx_window (saturating_add e.now e.config.retransmission_timeout_ticks);
}

-- A frame goes from `pending` to the window and out; `rest` is what stays pending.
unfoldable pub transmit : PendingFrame → List PendingFrame → List ℕ → ErtmEngine → ErtmEngine
transmit f rest bytes e = record e {
  pending = rest;
  last_acked_rx_seq = e.expected_tx_seq;
  tx_window = e.tx_window ++ record { frame = f; transmissions = 1 } ∷ [];
  outbound = e.outbound ++ bytes ∷ [];
}

-- The `while` of `process_output`, on the pending frames.
unfoldable pub fill_window : List PendingFrame → Action
unfolding transmit
fill_window [] e = (record e { pending = [] }, ok tt)
fill_window (f ∷ rest) e =
    let filled : ErtmEngine × Result Error (Unit {0}) = elim (encode f e.expected_tx_seq false) [
      | ok bytes ↦ fill_window rest (transmit f rest bytes e)
      | err x ↦ (record e { pending = rest }, err x)
    ] in
    if ltb (length e.tx_window) e.config.tx_window_size
    then filled
    else (record e { pending = f ∷ rest }, ok tt)

abbrev pub and_refresh : ErtmEngine × Result Error (Unit {0}) → ErtmEngine × Result Error (Unit {0})
and_refresh (e, ok _) = (refresh_retransmission_deadline e, ok tt)
and_refresh (e, err x) = (e, err x)

unfoldable pub process_output : Action
unfolding fill_window refresh_retransmission_deadline
process_output e = if e.remote_busy then (e, ok tt) else and_refresh (fill_window e.pending e)

-- `u16::saturating_sub(1)` on the transmissions, and no limit at 0.
unfoldable pub retransmission_limit_reached : ℕ → TransmittedFrame → Bool
retransmission_limit_reached limit t = not (limit == 0) && leb limit (t.transmissions - 1)

-- `iter().find(..)`.
unfoldable pub find_limit_reached : ℕ → List TransmittedFrame → Option TransmittedFrame
unfolding retransmission_limit_reached
find_limit_reached limit [] = none
find_limit_reached limit (t ∷ rest) =
    if retransmission_limit_reached limit t then some t else find_limit_reached limit rest

-- `transmissions += 1` on 16 bits.
abbrev pub transmit_again : TransmittedFrame → TransmittedFrame
transmit_again t = record t { transmissions = (t.transmissions + 1) % 65536 }

-- One frame is sent again; the window is written by the caller.
unfoldable pub send_again : List ℕ → ErtmEngine → ErtmEngine
send_again bytes e = record e {
  outbound = e.outbound ++ bytes ∷ [];
  last_acked_rx_seq = e.expected_tx_seq;
}

-- The `for` of `retransmit_all`: `sent` is the part of the window that it has passed.
unfoldable pub resend : (sent todo : List TransmittedFrame) → Action
unfolding send_again
resend sent [] e = (record e { tx_window = sent }, ok tt)
resend sent (t ∷ rest) e = elim (encode t.frame e.expected_tx_seq false) [
  | ok bytes ↦ resend (sent ++ transmit_again t ∷ []) rest (send_again bytes e)
  | err x ↦ (record e { tx_window = sent ++ transmit_again t ∷ rest }, err x)
]

abbrev pub limit_error : TransmittedFrame → Error
limit_error t = invalid_packet (retransmissions_exceeded t.frame.tx_seq)

unfoldable pub retransmit_all : Action
unfolding find_limit_reached resend refresh_retransmission_deadline
retransmit_all e =
    let resent : ErtmEngine × Result Error (Unit {0}) =
      elim (find_limit_reached e.config.max_retransmissions e.tx_window) [
        | some t ↦ (record e { failed = true }, err (limit_error t))
        | none ↦ and_refresh (resend [] e.tx_window e)
      ] in
    if e.remote_busy then (e, ok tt) else resent

-- The window cut before the first frame of that sequence number: what precedes it, the frame and
-- what follows.
unfoldable pub split_at_seq :
    ℕ
    → List TransmittedFrame
    → Option (List TransmittedFrame × TransmittedFrame × List TransmittedFrame)
split_at_seq tx_seq [] = none
split_at_seq tx_seq (t ∷ rest) =
    if t.frame.tx_seq == tx_seq then some ([], t, rest) else elim (split_at_seq tx_seq rest) [
      | none ↦ none
      | some (front, found, back) ↦ some (t ∷ front, found, back)
    ]

abbrev pub resend_found : List TransmittedFrame → TransmittedFrame → List TransmittedFrame → Action
resend_found front t back e =
    let sent = record e { tx_window = front ++ transmit_again t ∷ back } in
    elim (encode t.frame e.expected_tx_seq false) [
      | ok bytes ↦ (refresh_retransmission_deadline (send_again bytes sent), ok tt)
      | err x ↦ (sent, err x)
    ]

-- On the frame that `split_at_seq` found, if any.
unfoldable pub resend_cut :
    ℕ
    → ErtmEngine
    → Option (List TransmittedFrame × TransmittedFrame × List TransmittedFrame)
    → ErtmEngine × Result Error (Unit {0})
unfolding retransmission_limit_reached refresh_retransmission_deadline send_again
resend_cut tx_seq e none = (e, err (invalid_packet (unknown_selective_reject tx_seq)))
resend_cut tx_seq e (some (front, t, back)) =
    if retransmission_limit_reached e.config.max_retransmissions t
    then (record e { failed = true }, err (limit_error t))
    else resend_found front t back e

unfoldable pub retransmit_one : ℕ → Action
unfolding split_at_seq resend_cut
retransmit_one tx_seq e =
    if e.remote_busy then (e, ok tt) else resend_cut tx_seq e (split_at_seq tx_seq e.tx_window)

unfoldable pub send_supervisory : SupervisoryFunction → (poll final_bit : Bool) → Action
unfolding send_again
send_supervisory function poll final_bit e =
    elim (to_bytes (supervisory function poll final_bit e.expected_tx_seq)) [
      | ok bytes ↦ (send_again bytes e, ok tt)
      | err x ↦ (e, err x)
    ]

-- Drops the frames that the peer has acknowledged, and says whether there were any.
unfoldable pub acknowledge : ℕ → ErtmEngine → ErtmEngine × Result Error Bool
unfolding sequence_distance refresh_retransmission_deadline
acknowledge new_seq e =
    let count = sequence_distance e.last_acked_tx_seq new_seq in
    let kept = record e { tx_window = drop count e.tx_window; last_acked_tx_seq = new_seq } in
    if leb ertm_sequence_modulus new_seq
    then (e, err (invalid_packet acknowledgment_out_of_range))
    else if ltb (length e.tx_window) count
    then (e, err (invalid_packet (acknowledged_too_many count (length e.tx_window))))
    else if count == 0
    then (e, ok false)
    else (refresh_retransmission_deadline kept, ok true)
