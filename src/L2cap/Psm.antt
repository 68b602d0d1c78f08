-- ===== src/L2cap/Psm.antt =====
-- PSM serialization of src/l2cap/mod.rs. A PSM is a `u32`; a shift there takes its amount modulo 32
-- and drops what leaves the 32 bits, as in a release build.
use swbt_bumble_backend.Base.{
  ℕ, zero, suc, ◌+◌, ◌*◌, ◌/◌, ◌%◌, ◌^◌, ◌≤◌, ◌<◌, ◌≡◌, ◌⊎◌, inl, inr, refl, ◌∙◌, arith, bit_or,
  List, [], ◌∷◌, ◌++◌, Result, ok, err, if◌then◌else◌, ◌==◌, u16_to_le, u16_from_le,
}
use swbt_bumble_backend.Base.Bits.{bit_or_fields}
use swbt_bumble_backend.L2cap.{Error, invalid_packet, psm_missing, truncated_psm}

-- The `while` of `serialize_psm`: `rest` has 16 bits, so two steps are enough fuel.
unfoldable pub psm_bytes : (fuel rest : ℕ) → List ℕ
psm_bytes zero rest = []
psm_bytes (suc fuel) rest = if rest == 0 then [] else rest % 256 ∷ psm_bytes fuel (rest / 256)

unfoldable pub serialize_psm : ℕ → List ℕ
unfolding psm_bytes
serialize_psm psm = u16_to_le (psm % 65536) ++ psm_bytes 2 (psm / 65536)

-- `x << k` on a `u32`.
abbrev pub shl32 : ℕ → ℕ → ℕ
shl32 x k = x * 2 ^ (k % 32) % 2 ^ 32

-- The `while` of `parse_psm`: `last` is the byte that was read last. The result has the bytes from
-- the next offset on.
unfoldable pub parse_psm_rest : (last psm_length psm : ℕ) → List ℕ → Result Error (List ℕ × ℕ)
parse_psm_rest last psm_length psm [] =
    if last % 2 == 1 then err (invalid_packet truncated_psm) else ok ([], psm)
parse_psm_rest last psm_length psm (b ∷ bytes) =
    let longer = parse_psm_rest b (psm_length + 1) (bit_or psm (shl32 b (8 * psm_length))) bytes in
    if last % 2 == 1 then longer else ok (b ∷ bytes, psm)

-- On the data from `offset` on.
unfoldable pub parse_psm : List ℕ → Result Error (List ℕ × ℕ)
unfolding parse_psm_rest
parse_psm [] = err (invalid_packet psm_missing)
parse_psm (_ ∷ []) = err (invalid_packet psm_missing)
parse_psm (b0 ∷ b1 ∷ bytes) = parse_psm_rest b1 2 (u16_from_le b0 b1) bytes

-- The PSMs that the encoding can carry: only the last byte is even.
abbrev pub IsPsm : ℕ → Type 0
IsPsm psm =
    (psm < 2 ^ 32)
    × (((psm < 2 ^ 16) × (psm / 256 % 2 ≡ 0))
        ⊎ ((2 ^ 16 ≤ psm) × (psm < 2 ^ 24) × (psm / 256 % 2 ≡ 1) × (psm / 65536 % 2 ≡ 0))
        ⊎ ((2 ^ 24 ≤ psm) × (psm / 256 % 2 ≡ 1) × (psm / 65536 % 2 ≡ 1) × (psm / 2 ^ 24 % 2 ≡ 0)))

pub psm_rest_stops :
    (last k psm : ℕ) (bytes : List ℕ)
    → last % 2 ≡ 0
    → parse_psm_rest last k psm bytes ≡ ok (bytes, psm)
unfolding parse_psm_rest
psm_rest_stops last k psm [] h = rw h refl
psm_rest_stops last k psm (b ∷ bytes) h = rw h refl

psm_rest_goes_on :
    (last k psm b : ℕ) (bytes : List ℕ)
    → last % 2 ≡ 1
    → parse_psm_rest last k psm (b ∷ bytes)
      ≡ parse_psm_rest b (k + 1) (bit_or psm (shl32 b (8 * k))) bytes
unfolding parse_psm_rest
psm_rest_goes_on last k psm b bytes h = rw h refl

third_byte : (low b : ℕ) → low < 65536 → b < 256 → bit_or low (shl32 b 16) ≡ low + b * 65536
third_byte low b h k = rw (shifted) (bit_or_fields 16 low b h)
  where
    shifted : shl32 b 16 ≡ b * 2 ^ 16
    shifted = omega arith

fourth_byte : (low b : ℕ) → low < 2 ^ 24 → b < 256 → bit_or low (shl32 b 24) ≡ low + b * 2 ^ 24
fourth_byte low b h k = rw (shifted) (bit_or_fields 24 low b h)
  where
    shifted : shl32 b 24 ≡ b * 2 ^ 24
    shifted = omega arith

no_bytes : (n psm : ℕ) → psm ≡ 0 → psm_bytes n psm ≡ []
unfolding psm_bytes
no_bytes zero psm h = refl
no_bytes (suc n) psm h = rw h refl

a_byte : (n psm : ℕ) → 0 < psm → psm_bytes (suc n) psm ≡ psm % 256 ∷ psm_bytes n (psm / 256)
unfolding psm_bytes
a_byte n psm h = ground arith

last_byte : (psm : ℕ) → 0 < psm → psm_bytes 1 psm ≡ psm % 256 ∷ []
unfolding psm_bytes
last_byte psm h = ground arith

-- The bytes and the words that the low half has.
pub low_half_lem :
    (psm : ℕ) (bytes : List ℕ)
    → parse_psm (serialize_psm psm ++ bytes)
      ≡ parse_psm_rest (psm / 256 % 256) 2 (psm % 65536) (psm_bytes 2 (psm / 65536) ++ bytes)
unfolding parse_psm serialize_psm
low_half_lem psm bytes =
    let second : psm % 65536 / 256 % 256 ≡ psm / 256 % 256 = omega arith in
    let whole : u16_from_le (psm % 65536 % 256) (psm / 256 % 256) ≡ psm % 65536 = omega arith in
    rw (second, whole) refl

-- A PSM that the encoding can carry is read back from its bytes, and what follows them is left.
pub parse_psm-serialize_psm :
    (psm : ℕ) (bytes : List ℕ)
    → IsPsm psm
    → parse_psm (serialize_psm psm ++ bytes) ≡ ok (bytes, psm)
parse_psm-serialize_psm psm bytes (width, inl (small, even)) =
    let same : psm % 65536 ≡ psm = omega arith in
    low_half_lem psm bytes
    ∙ rw (no_bytes 2 (psm / 65536) (omega arith), same)
        (psm_rest_stops (psm / 256 % 256) 2 psm bytes (omega arith))
parse_psm-serialize_psm psm bytes (width, inr (inl (above, below, odd, even))) =
    let high = psm / 65536 in
    let whole : psm % 65536 + high % 256 * 65536 ≡ psm = omega arith in
    low_half_lem psm bytes
    ∙ rw (a_byte 1 high (omega arith), no_bytes 1 (high / 256) (omega arith))
        (psm_rest_goes_on (psm / 256 % 256) 2 (psm % 65536) (high % 256) bytes (omega arith)
          ∙ rw (third_byte (psm % 65536) (high % 256) (omega arith) (omega arith), whole)
              (psm_rest_stops (high % 256) 3 psm bytes (omega arith)))
parse_psm-serialize_psm psm bytes (width, inr (inr (above, odd, odd2, even))) =
    let high = psm / 65536 in
    let top = high / 256 in
    let low = psm % 65536 + high % 256 * 65536 in
    let whole : low + top % 256 * 2 ^ 24 ≡ psm = omega arith in
    low_half_lem psm bytes
    ∙ rw (a_byte 1 high (omega arith), last_byte top (omega arith))
        (psm_rest_goes_on (psm / 256 % 256) 2 (psm % 65536) (high % 256) (top % 256 ∷ bytes)
            (omega arith)
          ∙ rw (third_byte (psm % 65536) (high % 256) (omega arith) (omega arith)) (
              psm_rest_goes_on (high % 256) 3 low (top % 256) bytes (omega arith)
              ∙ rw (fourth_byte low (top % 256) (omega arith) (omega arith), whole)
                  (psm_rest_stops (top % 256) 4 psm bytes (omega arith))))
