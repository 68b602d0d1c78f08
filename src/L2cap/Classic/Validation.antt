-- ===== src/L2cap/Classic/Validation.antt =====
-- What src/l2cap/classic.rs asks of a PSM and of a channel's specification.
use swbt_bumble_backend.Base.{
  ℕ, zero, suc, ◌/◌, ◌%◌, ◌||◌, ◌&&◌, not, Result, ok, fail_if, ◌>>◌, if◌then◌else◌, ltb, leb, ◌==◌,
  err,
}
use swbt_bumble_backend.L2cap.{
  Error, invalid_packet, invalid_psm, mtu_too_small, zero_ertm_mps, ertm_window_out_of_range,
  zero_ertm_timeout,
}
use swbt_bumble_backend.L2cap.Classic.{ClassicChannelSpec, ErtmChannelSpec, min_br_edr_mtu}

-- The `while` on the bytes above the lowest one: a `u32` has three of them.
unfoldable pub validate_high : (fuel high : ℕ) → Result Error (Unit {0})
validate_high zero high = ok tt
validate_high (suc fuel) high =
    let rest = validate_high fuel (high / 256) in
    if high == 0 then ok tt else if high % 2 == 1 then err (invalid_packet invalid_psm) else rest

unfoldable pub validate_psm : ℕ → Result Error (Unit {0})
unfolding validate_high
validate_psm psm = do
  fail_if (psm == 0 || psm % 2 == 0) (invalid_packet invalid_psm)
  validate_high 3 (psm / 256)

unfoldable pub validate_spec : ClassicChannelSpec → Result Error (Unit {0})
validate_spec s = fail_if (ltb s.mtu min_br_edr_mtu) (invalid_packet mtu_too_small)

unfoldable pub validate_ertm_spec : ErtmChannelSpec → Result Error (Unit {0})
unfolding validate_spec
validate_ertm_spec s = do
  validate_spec (record { mtu = s.mtu })
  fail_if (s.mps == 0) (invalid_packet zero_ertm_mps)
  fail_if (not (leb 1 s.tx_window_size && ltb s.tx_window_size 64))
      (invalid_packet ertm_window_out_of_range)
  fail_if (s.retransmission_timeout_ms == 0 || s.monitor_timeout_ms == 0)
      (invalid_packet zero_ertm_timeout)
