-- ===== src/L2cap/Classic/Fcs.antt =====
-- The check sequence of ERTM frames in src/l2cap/classic.rs. It covers the header that the frame
-- will have, so the length in it counts the sequence.
pub mod RoundTrip
use swbt_bumble_backend.Base.{
  ℕ, ◌+◌, ◌-◌, ◌%◌, List, [], ◌∷◌, ◌++◌, length, take, Result, ok, err, fail_if, ◌>>=◌, ◌>>◌, ltb,
  not, ◌==◌, u16_to_le, if◌then◌else◌,
}
use swbt_bumble_backend.L2cap.{
  Error, invalid_packet, ertm_frame_too_large, fcs_missing, invalid_fcs,
}
use swbt_bumble_backend.L2cap.Crc.{crc_16}
use swbt_bumble_backend.L2cap.Signaling.Parser.{le16}

-- The bytes under the check, with the length that the header declares.
unfoldable pub checked_bytes : (declared cid : ℕ) → List ℕ → List ℕ
checked_bytes declared cid bytes = u16_to_le declared ++ (u16_to_le cid ++ bytes)

unfoldable pub append_fcs : ℕ → List ℕ → Result Error (List ℕ)
unfolding checked_bytes
append_fcs cid payload = do
  fail_if (ltb 65535 (length payload + 2)) (invalid_packet ertm_frame_too_large)
  ok (payload ++ u16_to_le (crc_16 (checked_bytes (length payload + 2) cid payload)))

unfoldable pub verify_and_strip_fcs : ℕ → List ℕ → Result Error (List ℕ)
unfolding checked_bytes le16
verify_and_strip_fcs cid payload = do
  fail_if (ltb (length payload) 2) (invalid_packet fcs_missing)
  fail_if (ltb 65535 (length payload)) (invalid_packet ertm_frame_too_large)
  let split = length payload - 2
  fail_if
      (not (crc_16 (checked_bytes (length payload) cid (take split payload)) == le16 payload split))
      (invalid_packet invalid_fcs)
  ok (take split payload)
