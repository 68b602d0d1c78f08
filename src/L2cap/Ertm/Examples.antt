-- ===== src/L2cap/Ertm/Examples.antt =====
-- Runs of the ERTM engine (after the tests of src/l2cap/ertm_tests.rs), and the theorems at concrete
-- inputs.
use swbt_bumble_backend.Base.{
  ◌⊎◌, ℕ, ◌≡◌, refl, arith, true, false, List, [], ◌∷◌, ◌++◌, length, ok,
}
use swbt_bumble_backend.L2cap.Ertm.Control.{information, unsegmented, start, from_bytes, to_bytes}
use swbt_bumble_backend.L2cap.Ertm.Control.RoundTrip.{enhanced_from_bytes-to_bytes}
use swbt_bumble_backend.L2cap.Ertm.State.{ErtmConfig, ErtmEngine, initial, new, encode}
use swbt_bumble_backend.L2cap.Ertm.Output.{acknowledge, process_output}
use swbt_bumble_backend.L2cap.Ertm.Input.InOrder.{ReceivedSame, receive_frame-ReceivedSame}
use swbt_bumble_backend.L2cap.Ertm.Input.Segments.{
  accept_frames, accept_frames-segment_frames, idle, delivered,
}
use swbt_bumble_backend.L2cap.Ertm.Engine.{send_sdu, receive_frame, tick}
use swbt_bumble_backend.L2cap.Ertm.Sending.{IsReady, Armed}
use swbt_bumble_backend.L2cap.Ertm.Sending.Window.{Sends, IsFull, process_output_lem}
use swbt_bumble_backend.L2cap.Ertm.Sending.Acknowledge.{Acknowledged, acknowledge_lem}
use swbt_bumble_backend.L2cap.Ertm.Sending.Receive.{receive_frame-Drops, Drops}
use swbt_bumble_backend.L2cap.Ertm.Sending.Segments.{segment_frames}
use swbt_bumble_backend.L2cap.Ertm.Sending.Sdu.{Sent, send_sdu_lem}
use swbt_bumble_backend.L2cap.Ertm.Runs.{perform, here, later, send, receive, new-IsReady}
use swbt_bumble_backend.Base.{chunks}

-- Segments of three bytes, two of them on the way at once, each sent at most twice.
abbrev small_config : ErtmConfig
small_config = record {
  local_mtu = 20;
  peer_mtu = 20;
  local_mps = 3;
  peer_mps = 3;
  tx_window_size = 2;
  max_retransmissions = 1;
  retransmission_timeout_ticks = 10;
}

abbrev fresh : ErtmEngine
fresh = initial small_config

abbrev sdu : List ℕ
sdu = 1 ∷ 2 ∷ 3 ∷ 4 ∷ 5 ∷ 6 ∷ 7 ∷ []

abbrev sent : ErtmEngine
sent = (send_sdu sdu fresh).0

-- Two of the three segments go out, with a start that announces seven bytes.
first_window :
    sent.outbound ≡ (0x00 ∷ 0x40 ∷ 7 ∷ 0 ∷ 1 ∷ 2 ∷ 3 ∷ []) ∷ (0x02 ∷ 0xc0 ∷ 4 ∷ 5 ∷ 6 ∷ []) ∷ []
unfolding send_sdu initial process_output chunks encode to_bytes
first_window = refl

fresh_made : new small_config ≡ ok fresh
unfolding new initial
fresh_made = refl

new-IsReady_example : IsReady (receive_frame (0x01 ∷ 1 ∷ []) sent).0
unfolding perform
new-IsReady_example =
    new-IsReady small_config fresh (receive_frame (0x01 ∷ 1 ∷ []) sent).0 (omega arith) fresh_made
      (later (send sdu) (later (receive (0x01 ∷ 1 ∷ [])) here))

fresh-IsReady : IsReady fresh
fresh-IsReady = new-IsReady small_config fresh fresh (omega arith) fresh_made here

sent-IsReady : IsReady sent
sent-IsReady = (send_sdu_lem sdu fresh fresh-IsReady).0

send_sdu_lem_example : IsReady sent × Sent sdu fresh (send_sdu sdu fresh)
send_sdu_lem_example = send_sdu_lem sdu fresh fresh-IsReady

receive_frame-Drops_example : Drops sent (receive_frame (0x01 ∷ 1 ∷ []) sent).0
receive_frame-Drops_example = receive_frame-Drops (0x01 ∷ 1 ∷ []) sent sent-IsReady

acknowledge_lem_example : IsReady (acknowledge 2 sent).0 × Acknowledged 2 sent (acknowledge 2 sent)
acknowledge_lem_example = acknowledge_lem 2 sent sent-IsReady

process_output_lem_example :
    Sends sent (process_output sent)
    × Armed (process_output sent).0.tx_window (process_output sent).0.retransmission_deadline
    × ((sent.remote_busy ≡ true) ⊎ IsFull (process_output sent).0)
process_output_lem_example = process_output_lem sent sent-IsReady.0 sent-IsReady.1

accept_frames-segment_frames_example :
    accept_frames (segment_frames 63 3 7 0 (chunks 3 sdu)) (idle fresh)
    ≡ (delivered fresh sdu, ok tt)
unfolding initial
accept_frames-segment_frames_example =
    accept_frames-segment_frames 63 3 sdu fresh (omega arith) (omega arith) (omega arith)
      (omega arith)

enhanced_from_bytes-to_bytes_example :
    (header : List ℕ) × (to_bytes (information 63 true 5 start) ≡ ok header)
    × (length header ≡ 2)
    × (from_bytes (header ++ 9 ∷ []) ≡ ok (information 63 true 5 start))
enhanced_from_bytes-to_bytes_example =
    enhanced_from_bytes-to_bytes (information 63 true 5 start) (9 ∷ []) (omega arith, omega arith)

-- The second time that the timer runs out the limit is reached.
abbrev given_up : ErtmEngine
given_up = (tick 10 (tick 10 sent).0).0

-- Frame 2 arrives while frame 0 is expected.
early_frame : from_bytes (0x04 ∷ 0 ∷ 9 ∷ []) ≡ ok (information 2 false 0 unsegmented)
unfolding from_bytes
early_frame = refl

receive_frame-ReceivedSame_example : ReceivedSame fresh (receive_frame (0x04 ∷ 0 ∷ 9 ∷ []) fresh).0
unfolding initial
receive_frame-ReceivedSame_example =
    receive_frame-ReceivedSame (0x04 ∷ 0 ∷ 9 ∷ []) fresh 2 0 false unsegmented (omega arith)
      early_frame (omega arith)
