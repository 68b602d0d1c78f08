-- ===== src/L2cap/Classic/Wire.antt =====
-- The PSMs that src/l2cap/classic.rs accepts, on the wire of src/l2cap/mod.rs.
use swbt_bumble_backend.Base.{ℕ, ◌/◌, ◌%◌, ◌≡◌, ◌∙◌, arith, List, ◌++◌, ok}
use swbt_bumble_backend.L2cap.Psm.{
  serialize_psm, parse_psm, psm_bytes, psm_rest_stops, low_half_lem,
}
use swbt_bumble_backend.L2cap.Classic.Validation.{validate_psm, validate_high}

-- A PSM passes only if its second byte is even.
pub second_byte_even : (psm : ℕ) → validate_psm psm ≡ ok tt → psm / 256 % 2 ≡ 0
unfolding validate_psm validate_high
second_byte_even psm h = ground arith

-- A PSM that passes the validation is read from the bytes of a request as its low 16 bits, and the
-- bytes that it has above them are left in front of what follows: a PSM of 16 bits is read back, a
-- larger one as another.
pub validated_psm_read :
    (psm : ℕ) (rest : List ℕ)
    → validate_psm psm ≡ ok tt
    → parse_psm (serialize_psm psm ++ rest) ≡ ok (psm_bytes 2 (psm / 65536) ++ rest, psm % 65536)
validated_psm_read psm rest h =
    let even = second_byte_even psm h in
    low_half_lem psm rest
    ∙ psm_rest_stops (psm / 256 % 256) 2 (psm % 65536) (psm_bytes 2 (psm / 65536) ++ rest)
        (omega (arith, even))
