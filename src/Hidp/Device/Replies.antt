-- ===== src/Hidp/Device/Replies.antt =====
-- What a device of src/hidp.rs answers on the control channel, and what the host makes of it.
use swbt_bumble_backend.Base.{ℕ, suc, ◌≤◌, ◌≡◌, refl, ap, arith, List, [], ◌∷◌, length, ok, map_ok}
use swbt_bumble_backend.Hidp.{
  Message, handshake, control, get_report, set_report, get_protocol, set_protocol, data_report,
  unknown, parameter_and_data, to_bytes,
}
use swbt_bumble_backend.Hidp.RoundTrip.{from_bytes-to_bytes}
use swbt_bumble_backend.Hidp.Device.{
  GetSetStatus, DeviceEvent, send_control, control_event, get_report_reply, set_report_reply,
  get_protocol_reply, set_protocol_reply,
}
use swbt_bumble_backend.Hidp.Host
use swbt_bumble_backend.Hidp.Host.{HostEvent}

-- The messages that the events put on the control channel.
abbrev pub sent : List DeviceEvent → List Message
sent [] = []
sent (send_control m ∷ events) = m ∷ sent events
sent (_ ∷ events) = sent events

-- Handshakes and data, which are all that a device answers with.
abbrev pub IsReply : Message → Type 0
IsReply (handshake result) = result ≤ 15
IsReply (data_report t payload) = t ≤ 3
IsReply _ = ⊥

pub control_event_silent : (command : ℕ) → sent (control_event command ∷ []) ≡ []
unfolding control_event
control_event_silent command = ground arith

pub get_report_reply-IsReply :
    (mtu t id : ℕ) (result : GetSetStatus) → t ≤ 3 → IsReply (get_report_reply mtu t id result)
unfolding get_report_reply
get_report_reply-IsReply mtu t id result h = ground arith

pub set_report_reply-IsReply : (result : GetSetStatus) → IsReply (set_report_reply result)
unfolding set_report_reply
set_report_reply-IsReply result = ground arith

pub get_protocol_reply-IsReply : (result : GetSetStatus) → IsReply (get_protocol_reply result)
unfolding get_protocol_reply
get_protocol_reply-IsReply result = ground arith

pub set_protocol_reply-IsReply : (result : GetSetStatus) → IsReply (set_protocol_reply result)
unfolding set_protocol_reply
set_protocol_reply-IsReply result = ground arith

-- The reply as the host names it.
abbrev pub Understood : Message → HostEvent → Type 0
Understood (handshake result) event = event ≡ HostEvent.handshake_result result
Understood (data_report t payload) event = event ≡ HostEvent.control_data t payload
Understood _ event = ⊥

-- The message goes over the wire and reaches the host as a handshake or as data.
abbrev pub Delivered : Message → Type 0
Delivered m =
    (wire : List ℕ) × (event : HostEvent) × (to_bytes m ≡ ok wire)
    × (Host.handle_control wire ≡ ok event)
    × Understood m event

pub IsReply-Delivered : (m : Message) → IsReply m → Delivered m
unfolding Host.handle_control
IsReply-Delivered (handshake result) h =
    let (wire, written, read) = from_bytes-to_bytes (handshake result) h in
    (wire, HostEvent.handshake_result result, written, ap (map_ok Host.control_event) read, refl)
IsReply-Delivered (data_report t payload) h =
    let (wire, written, read) = from_bytes-to_bytes (data_report t payload) h in
    (wire, HostEvent.control_data t payload, written, ap (map_ok Host.control_event) read, refl)
IsReply-Delivered (control _) h = absurd h
IsReply-Delivered (get_report _ _ _) h = absurd h
IsReply-Delivered (set_report _ _) h = absurd h
IsReply-Delivered get_protocol h = absurd h
IsReply-Delivered (set_protocol _) h = absurd h
IsReply-Delivered (unknown _ _ _) h = absurd h

-- The bytes that `to_bytes` writes are the header and the payload.
length-to_bytes :
    (m : Message) (wire : List ℕ)
    → to_bytes m ≡ ok wire
    → length wire ≡ suc (length (parameter_and_data m).1)
unfolding to_bytes
length-to_bytes m wire e = ground arith

-- The reply is at most as long as the peer takes.
abbrev pub FitsIn : ℕ → Message → Type 0
FitsIn mtu reply = (wire : List ℕ) → to_bytes reply ≡ ok wire → length wire ≤ mtu

pub handshake-FitsIn : (mtu result : ℕ) → 1 ≤ mtu → FitsIn mtu (handshake result)
unfolding parameter_and_data
handshake-FitsIn mtu result h wire e = ground (arith, length-to_bytes (handshake result) wire e)

pub get_report_reply-FitsIn :
    (mtu t id : ℕ) (result : GetSetStatus) → 1 ≤ mtu → FitsIn mtu (get_report_reply mtu t id result)
unfolding get_report_reply parameter_and_data
get_report_reply-FitsIn mtu t id result h wire e =
    ground (arith, length-to_bytes (get_report_reply mtu t id result) wire e)

pub set_report_reply-FitsIn :
    (mtu : ℕ) (result : GetSetStatus) → 1 ≤ mtu → FitsIn mtu (set_report_reply result)
unfolding set_report_reply parameter_and_data
set_report_reply-FitsIn mtu result h wire e =
    ground (arith, length-to_bytes (set_report_reply result) wire e)

pub set_protocol_reply-FitsIn :
    (mtu : ℕ) (result : GetSetStatus) → 1 ≤ mtu → FitsIn mtu (set_protocol_reply result)
unfolding set_protocol_reply parameter_and_data
set_protocol_reply-FitsIn mtu result h wire e =
    ground (arith, length-to_bytes (set_protocol_reply result) wire e)
