-- ===== src/Hidp/Host.antt =====
-- The host side of src/hidp.rs: `HostEvent`, the handlers of `HostRuntime` and `device_data`.
use swbt_bumble_backend.Base.{ℕ, List, Result, map_ok, ◌==◌, if◌then◌else◌}
use swbt_bumble_backend.Hidp.{Error, Message, handshake, control, data_report, from_bytes}

pub data HostEvent : Type 0 where
  handshake_result : ℕ → HostEvent
  control_data : (report_type : ℕ) (payload : List ℕ) → HostEvent
  interrupt_data : (report_type : ℕ) (payload : List ℕ) → HostEvent
  virtual_cable_unplug : HostEvent
  unsupported : Message → HostEvent

unfoldable pub control_event : Message → HostEvent
control_event (handshake result) = handshake_result result
control_event (data_report t payload) = control_data t payload
control_event (control command) =
    if command == 0x05 then virtual_cable_unplug else unsupported (control command)
control_event m = unsupported m

unfoldable pub interrupt_event : Message → HostEvent
interrupt_event (data_report t payload) = interrupt_data t payload
interrupt_event m = unsupported m

unfoldable pub handle_control : List ℕ → Result Error HostEvent
unfolding control_event
handle_control bytes = map_ok control_event (from_bytes bytes)

unfoldable pub handle_interrupt : List ℕ → Result Error HostEvent
unfolding interrupt_event
handle_interrupt bytes = map_ok interrupt_event (from_bytes bytes)

-- `HostRuntime::send_data`, an output report.
unfoldable pub send_data : List ℕ → Message
send_data payload = data_report 0x02 payload

-- `device_data`, an input report.
unfoldable pub device_data : List ℕ → Message
device_data payload = data_report 0x01 payload
