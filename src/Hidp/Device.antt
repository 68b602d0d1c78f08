-- ===== src/Hidp/Device.antt =====
-- The device side of src/hidp.rs: `DeviceDelegate`, `DeviceRuntime` and its two handlers.
pub mod Replies
pub mod Control
use swbt_bumble_backend.Base.{
  ℕ, ◌+◌, Bool, Option, List, [], ◌∷◌, String, ltb, ◌==◌, if◌then◌else◌, length, Result, ok, err,
  map_ok,
}
use swbt_bumble_backend.Hidp.{
  Error, truncated, Message, handshake, control, get_report, set_report, get_protocol, set_protocol,
  data_report, unknown, from_bytes,
}
use swbt_bumble_backend.Hidp.Handshake
use swbt_bumble_backend.Hidp.GetSetReturn

pub record GetSetStatus : Type 0 where
  pub payload : List ℕ
  pub status : ℕ

-- `GetSetStatus::success` and `GetSetStatus::unsupported`.
unfoldable pub success : List ℕ → GetSetStatus
success payload = record { payload = payload; status = GetSetReturn.success }

unfoldable pub unsupported : GetSetStatus
unsupported = record { payload = []; status = GetSetReturn.err_unsupported_request }

-- The trait: each method takes the delegate's state and returns it changed.
pub record DeviceDelegate (D : Type 0) : Type 0 where
  pub get_report : D → (report_id report_type : ℕ) → Option ℕ → D × GetSetStatus
  pub set_report : D → (report_id report_type report_size : ℕ) → List ℕ → D × GetSetStatus
  pub get_protocol : D → D × GetSetStatus
  pub set_protocol : D → ℕ → D × GetSetStatus

-- The bodies that the trait gives by default.
unfoldable pub default_delegate : (D : Type 0) → DeviceDelegate D
unfolding unsupported
default_delegate D = record {
  get_report = λ d id t size. (d, unsupported);
  set_report = λ d id t size payload. (d, unsupported);
  get_protocol = λ d. (d, unsupported);
  set_protocol = λ d mode. (d, unsupported);
}

pub data DeviceEvent : Type 0 where
  send_control : Message → DeviceEvent
  control_data : (report_type : ℕ) (payload : List ℕ) → DeviceEvent
  interrupt_data : (report_type : ℕ) (payload : List ℕ) → DeviceEvent
  suspend : DeviceEvent
  exit_suspend : DeviceEvent
  virtual_cable_unplug : DeviceEvent
  unsupported_message : Message → DeviceEvent

pub record DeviceRuntime (D : Type 0) : Type 0 where
  pub delegate : D
  pub control_peer_mtu : ℕ

-- The `match result.status` of the GET_REPORT arm.
unfoldable pub get_report_reply : (mtu report_type report_id : ℕ) → GetSetStatus → Message
get_report_reply mtu t id result =
    if result.status == GetSetReturn.success
    then (if ltb (length (id ∷ result.payload)) mtu
        then data_report t (id ∷ result.payload)
        else handshake Handshake.err_invalid_parameter)
    else if result.status == GetSetReturn.report_id_not_found
    then handshake Handshake.err_invalid_report_id
    else if result.status == GetSetReturn.err_invalid_parameter
    then handshake Handshake.err_invalid_parameter
    else if result.status == GetSetReturn.err_unsupported_request
    then handshake Handshake.err_unsupported_request
    else handshake Handshake.err_unknown

unfoldable pub set_report_reply : GetSetStatus → Message
set_report_reply result =
    if result.status == GetSetReturn.success
    then handshake Handshake.successful
    else if result.status == GetSetReturn.err_invalid_parameter
    then handshake Handshake.err_invalid_parameter
    else if result.status == GetSetReturn.report_id_not_found
    then handshake Handshake.err_invalid_report_id
    else handshake Handshake.err_unsupported_request

unfoldable pub get_protocol_reply : GetSetStatus → Message
get_protocol_reply result =
    if result.status == GetSetReturn.success
    then data_report 0x00 result.payload
    else handshake Handshake.err_unsupported_request

unfoldable pub set_protocol_reply : GetSetStatus → Message
set_protocol_reply result =
    if result.status == GetSetReturn.success
    then handshake Handshake.successful
    else handshake Handshake.err_unsupported_request

-- The CONTROL arms.
unfoldable pub control_event : ℕ → DeviceEvent
control_event command =
    if command == 0x03
    then suspend
    else if command == 0x04
    then exit_suspend
    else if command == 0x05
    then virtual_cable_unplug
    else unsupported_message (control command)

-- The arm that answers what a device does not take.
abbrev pub refuse : Message → List DeviceEvent
refuse m = unsupported_message m ∷ send_control (handshake Handshake.err_unsupported_request) ∷ []

abbrev pub interrupt_event : Message → DeviceEvent
interrupt_event (data_report t payload) = interrupt_data t payload
interrupt_event m = unsupported_message m

module _ {D : Type 0} (methods : DeviceDelegate D) where
  -- The `match message` of `handle_control`.
  unfoldable pub dispatch :
      DeviceRuntime D → Message → DeviceRuntime D × Result Error (List DeviceEvent)
  unfolding get_report_reply set_report_reply get_protocol_reply set_protocol_reply control_event
  dispatch r (get_report t id size) =
      let (d, result) = methods.get_report r.delegate id t size in
      (
        record r { delegate = d },
        ok (send_control (get_report_reply r.control_peer_mtu t id result) ∷ []),
      )
  dispatch r (set_report t []) = (r, err (truncated "HIDP set-report ID"))
  dispatch r (set_report t (id ∷ rest)) =
      let (d, result) = methods.set_report r.delegate id t (length rest + 1) rest in
      (record r { delegate = d }, ok (send_control (set_report_reply result) ∷ []))
  dispatch r get_protocol =
      let (d, result) = methods.get_protocol r.delegate in
      (record r { delegate = d }, ok (send_control (get_protocol_reply result) ∷ []))
  dispatch r (set_protocol mode) =
      let (d, result) = methods.set_protocol r.delegate mode in
      (record r { delegate = d }, ok (send_control (set_protocol_reply result) ∷ []))
  dispatch r (data_report t payload) = (r, ok (control_data t payload ∷ []))
  dispatch r (control command) = (r, ok (control_event command ∷ []))
  dispatch r (handshake result) = (r, ok (refuse (handshake result)))
  dispatch r (unknown t parameter payload) = (r, ok (refuse (unknown t parameter payload)))

  -- `?` on the parse.
  abbrev pub dispatch_parsed :
      DeviceRuntime D → Result Error Message → DeviceRuntime D × Result Error (List DeviceEvent)
  dispatch_parsed r (err e) = (r, err e)
  dispatch_parsed r (ok m) = dispatch r m

  unfoldable pub handle_control :
      DeviceRuntime D → List ℕ → DeviceRuntime D × Result Error (List DeviceEvent)
  unfolding dispatch
  handle_control r bytes = dispatch_parsed r (from_bytes bytes)

  unfoldable pub handle_interrupt :
      DeviceRuntime D → List ℕ → DeviceRuntime D × Result Error DeviceEvent
  handle_interrupt r bytes = (r, map_ok interrupt_event (from_bytes bytes))
