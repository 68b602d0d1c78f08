-- ===== src/Hidp/Device/Control.antt =====
-- `DeviceRuntime::handle_control` of src/hidp.rs: how many answers it gives, that they arrive, and
-- that they fit.
use swbt_bumble_backend.Base.{
  ℕ, ◌+◌, ◌≡◌, inl, inr, All-map, arith, List, [], ◌∷◌, length, All, ok, IsByte, Result-cases, OnOk,
  OnOk-ok,
}
use swbt_bumble_backend.Hidp.{
  Message, handshake, control, get_report, set_report, get_protocol, set_protocol, data_report,
  unknown, from_bytes,
}
use swbt_bumble_backend.Hidp.RoundTrip.{IsCanonical}
use swbt_bumble_backend.Hidp.Parse.{from_bytes-IsCanonical}
use swbt_bumble_backend.Hidp.Device.{
  DeviceDelegate, DeviceRuntime, DeviceEvent, dispatch, handle_control, control_event,
}
use swbt_bumble_backend.Hidp.Device.Replies.{
  sent, IsReply, Delivered, IsReply-Delivered, control_event_silent, get_report_reply-IsReply,
  set_report_reply-IsReply, get_protocol_reply-IsReply, set_protocol_reply-IsReply,
}

-- The messages that ask for an answer: all but data and control commands.
abbrev pub asks : Message → ℕ
asks (data_report _ _) = 0
asks (control _) = 0
asks _ = 1

-- The requests, which alone reach the delegate.
abbrev pub IsRequest : Message → Type 0
IsRequest (get_report _ _ _) = Unit
IsRequest (set_report _ _) = Unit
IsRequest get_protocol = Unit
IsRequest (set_protocol _) = Unit
IsRequest _ = ⊥

module _ {D : Type 0} (methods : DeviceDelegate D) (r : DeviceRuntime D) where
  silent : (P : Message → Type 0) (command : ℕ) → All P (sent (control_event command ∷ []))
  silent P command = rw (control_event_silent command) tt

  dispatch-IsReply :
      (m : Message)
      → IsCanonical m
      → OnOk (λ events. All IsReply (sent events)) (dispatch methods r m).1
  unfolding dispatch
  dispatch-IsReply (get_report t id size) h = (
    get_report_reply-IsReply r.control_peer_mtu t id (methods.get_report r.delegate id t size).1
        h.0,
    tt,
  )
  dispatch-IsReply (set_report t []) h = tt
  dispatch-IsReply (set_report t (id ∷ rest)) h =
      (set_report_reply-IsReply (methods.set_report r.delegate id t (length rest + 1) rest).1, tt)
  dispatch-IsReply get_protocol h =
      (get_protocol_reply-IsReply (methods.get_protocol r.delegate).1, tt)
  dispatch-IsReply (set_protocol mode) h =
      (set_protocol_reply-IsReply (methods.set_protocol r.delegate mode).1, tt)
  dispatch-IsReply (data_report t payload) h = tt
  dispatch-IsReply (control command) h = silent IsReply command
  dispatch-IsReply (handshake result) h = (omega arith, tt)
  dispatch-IsReply (unknown t parameter payload) h = (omega arith, tt)

  -- What holds of the events of every message that the bytes can parse to, holds of the handler's.
  handle_control-OnOk :
      (P : List DeviceEvent → Type 0) (bytes : List ℕ)
      → ((m : Message) → from_bytes bytes ≡ ok m → OnOk P (dispatch methods r m).1)
      → OnOk P (handle_control methods r bytes).1
  unfolding handle_control
  handle_control-OnOk P bytes f = elim (Result-cases (from_bytes bytes)) [
    | inl (m, parsed) ↦ rw parsed (f m parsed)
    | inr (x, failed) ↦ rw failed tt
  ]

  -- Whatever bytes arrive on the control channel, every answer of the device can be written, and
  -- the host reads it as the handshake or the data that it is.
  pub handle_control-Delivered :
      (bytes : List ℕ) (events : List DeviceEvent)
      → All IsByte bytes
      → (handle_control methods r bytes).1 ≡ ok events
      → All Delivered (sent events)
  handle_control-Delivered bytes events h e = All-map IsReply-Delivered (sent events) (
      OnOk-ok (λ es. All IsReply (sent es)) e
        (handle_control-OnOk (λ es. All IsReply (sent es)) bytes
          (λ m parsed. dispatch-IsReply m (from_bytes-IsCanonical bytes m h parsed).0)))
