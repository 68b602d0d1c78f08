-- ===== src/Hidp/Handshake.antt =====
-- The result codes of a HIDP handshake (src/hidp.rs, `Handshake`).
use swbt_bumble_backend.Base.{ℕ}

abbrev pub successful : ℕ
successful = 0x00

abbrev pub err_invalid_report_id : ℕ
err_invalid_report_id = 0x02

abbrev pub err_unsupported_request : ℕ
err_unsupported_request = 0x03

abbrev pub err_invalid_parameter : ℕ
err_invalid_parameter = 0x04

abbrev pub err_unknown : ℕ
err_unknown = 0x0E
