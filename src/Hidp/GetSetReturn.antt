-- ===== src/Hidp/GetSetReturn.antt =====
-- The status codes of a delegate's answer (src/hidp.rs, `GetSetReturn`).
use swbt_bumble_backend.Base.{ℕ}

abbrev pub report_id_not_found : ℕ
report_id_not_found = 0x01

abbrev pub err_unsupported_request : ℕ
err_unsupported_request = 0x02

abbrev pub err_invalid_parameter : ℕ
err_invalid_parameter = 0x04

abbrev pub success : ℕ
success = 0xFF
