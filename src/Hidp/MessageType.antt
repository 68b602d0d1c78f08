-- ===== src/Hidp/MessageType.antt =====
-- The message types in the high half of a HIDP header (src/hidp.rs, `MessageType`).
use swbt_bumble_backend.Base.{ℕ}

abbrev pub handshake : ℕ
handshake = 0x00

abbrev pub control : ℕ
control = 0x01

abbrev pub get_report : ℕ
get_report = 0x04

abbrev pub set_report : ℕ
set_report = 0x05

abbrev pub get_protocol : ℕ
get_protocol = 0x06

abbrev pub set_protocol : ℕ
set_protocol = 0x07

abbrev pub data_message : ℕ
data_message = 0x0A
