-- ===== src/L2cap/Classic/Invariant/Operations.antt =====
-- The operations of the channel manager of src/l2cap/classic.rs keep its invariant.
use swbt_bumble_backend.Base.{
  ℕ, refl, List, [], ◌∷◌, All, All-take, IsByte, Result, ok, err, OnOk, ◌==◌, if_both, u16_from_le,
}
use swbt_bumble_backend.L2cap.{Error}
use swbt_bumble_backend.L2cap.Pdu.{L2capPdu}
use swbt_bumble_backend.L2cap.Pdu
use swbt_bumble_backend.L2cap.Signaling
use swbt_bumble_backend.L2cap.Signaling.{ControlFrame, connection_request, information_request}
use swbt_bumble_backend.L2cap.Signaling.Parser
use swbt_bumble_backend.L2cap.Information.{response}
use swbt_bumble_backend.L2cap.Classic.{ChannelManager}
use swbt_bumble_backend.L2cap.Classic.Signals.{process_control, push_information_response}
use swbt_bumble_backend.L2cap.Classic.Manager.{
  process_parsed, process_pdu, process_read, process_bytes,
}
use swbt_bumble_backend.L2cap.Classic.Invariant.{ManagerIsValid, Keeps}
use swbt_bumble_backend.L2cap.Classic.Invariant.Pieces.{Keeps-refl, same-Keeps, queue_control-Keeps}
use swbt_bumble_backend.L2cap.Classic.Invariant.DataPath.{process_data-Keeps}
use swbt_bumble_backend.L2cap.Classic.Invariant.Answers.{
  on_configure_request-Keeps, on_configure_response-Keeps,
}
use swbt_bumble_backend.L2cap.Classic.Invariant.Signals.{on_connection_request-Keeps}
use swbt_bumble_backend.L2cap.Classic.Invariant.Disconnection.{
  on_connection_response-Keeps, on_disconnection_request-Keeps, on_disconnection_response-Keeps,
}
use swbt_bumble_backend.L2cap.Classic.Invariant.Frames.{OptionsAreBytes, from_bytes-OptionsAreBytes}

pub process_control-Keeps :
    (frame : ControlFrame) (m : ChannelManager)
    → OptionsAreBytes frame
    → ManagerIsValid m
    → Keeps m (process_control frame m).0
unfolding process_control push_information_response
process_control-Keeps (Signaling.connection_request id psm source_cid) m k h =
    on_connection_request-Keeps id psm source_cid m h
process_control-Keeps (Signaling.connection_response _ destination_cid source_cid result _) m k h =
    on_connection_response-Keeps destination_cid source_cid result m h
process_control-Keeps (Signaling.configure_request id destination_cid flags options) m k h =
    on_configure_request-Keeps id destination_cid flags options m k h
process_control-Keeps (Signaling.configure_response _ source_cid _ result _) m k h =
    on_configure_response-Keeps source_cid result m h
process_control-Keeps (Signaling.disconnection_request id destination_cid source_cid) m k h =
    on_disconnection_request-Keeps id destination_cid source_cid m h
process_control-Keeps (Signaling.disconnection_response _ destination_cid source_cid) m k h =
    on_disconnection_response-Keeps destination_cid source_cid m h
process_control-Keeps (Signaling.echo_request id bytes) m k h =
    queue_control-Keeps (Signaling.echo_response id bytes) m h
process_control-Keeps (Signaling.information_request id info_type) m k h =
    queue_control-Keeps (response id info_type m.information) m h
process_control-Keeps (Signaling.information_response id info_type result bytes) m k h =
    same-Keeps m _ h refl refl refl h.identifier_width
process_control-Keeps _ m k h = Keeps-refl m h

process_parsed-Keeps :
    (r : Result Error ControlFrame) (m : ChannelManager)
    → OnOk OptionsAreBytes r
    → ManagerIsValid m
    → Keeps m (process_parsed r m).0
unfolding process_parsed
process_parsed-Keeps (ok frame) m k h = process_control-Keeps frame m k h
process_parsed-Keeps (err x) m k h = Keeps-refl m h

pub process_pdu-Keeps :
    (pdu : L2capPdu) (m : ChannelManager)
    → All IsByte pdu.payload
    → ManagerIsValid m
    → Keeps m (process_pdu pdu m).0
unfolding process_pdu
process_pdu-Keeps pdu m k h =
    if_both (λ (p : ChannelManager × Result Error (Unit {0})). Keeps m p.0) (pdu.cid == 1) _ _
      (λ _.
        process_parsed-Keeps (Parser.from_bytes pdu.payload) m
          (from_bytes-OptionsAreBytes pdu.payload k) h)
      (λ _. process_data-Keeps pdu m h)

abbrev PayloadIsBytes : L2capPdu → Type 0
PayloadIsBytes pdu = All IsByte pdu.payload

pdu-PayloadIsBytes :
    (bytes : List ℕ) → All IsByte bytes → OnOk PayloadIsBytes (Pdu.from_bytes bytes)
unfolding Pdu.from_bytes
pdu-PayloadIsBytes [] h = tt
pdu-PayloadIsBytes (_ ∷ []) h = tt
pdu-PayloadIsBytes (_ ∷ _ ∷ []) h = tt
pdu-PayloadIsBytes (_ ∷ _ ∷ _ ∷ []) h = tt
pdu-PayloadIsBytes (l0 ∷ l1 ∷ c0 ∷ c1 ∷ body) h = All-take IsByte (u16_from_le l0 l1) body h.1.1.1.1

process_read-Keeps :
    (r : Result Error L2capPdu) (m : ChannelManager)
    → OnOk PayloadIsBytes r
    → ManagerIsValid m
    → Keeps m (process_read r m).0
unfolding process_read
process_read-Keeps (ok pdu) m k h = process_pdu-Keeps pdu m k h
process_read-Keeps (err x) m k h = Keeps-refl m h

pub process_bytes-Keeps :
    (bytes : List ℕ) (m : ChannelManager)
    → All IsByte bytes
    → ManagerIsValid m
    → Keeps m (process_bytes bytes m).0
unfolding process_bytes
process_bytes-Keeps bytes m k h =
    process_read-Keeps (Pdu.from_bytes bytes) m (pdu-PayloadIsBytes bytes k) h
