-- ===== src/L2cap/Crc.antt =====
-- The frame check sequence of src/l2cap/mod.rs: CRC-16 with the reversed polynomial 0xA001.
use swbt_bumble_backend.Base.{
  ℕ, zero, suc, ◌*◌, ◌/◌, ◌%◌, ◌^◌, ◌<◌, ◌≡◌, refl, ap, ◌∙◌, arith, bit_and, bit_xor, List, [], ◌∷◌,
  ◌++◌, if◌then◌else◌, ◌==◌, not, All, IsByte, u16_to_le, Bool-cases, inl, inr,
}
use swbt_bumble_backend.Base.Bits.{bit_and_mask, times_pow-suc}
use swbt_bumble_backend.Base.Xor.{bit_xor-lt, bit_xor_low}

-- One pass of the inner `for`.
unfoldable pub crc_bit : ℕ → ℕ
crc_bit crc = if not (bit_and crc 1 == 0) then bit_xor (crc / 2) 0xA001 else crc / 2

unfoldable pub crc_bits : (count crc : ℕ) → ℕ
unfolding crc_bit
crc_bits zero crc = crc
crc_bits (suc count) crc = crc_bits count (crc_bit crc)

-- The outer `for`, from a value of the register on.
unfoldable pub crc_from : ℕ → List ℕ → ℕ
unfolding crc_bits
crc_from crc [] = crc
crc_from crc (byte ∷ bytes) = crc_from (crc_bits 8 (bit_xor crc byte)) bytes

unfoldable pub crc_16 : List ℕ → ℕ
unfolding crc_from
crc_16 bytes = crc_from 0 bytes

crc_bit-lt : (crc : ℕ) → crc < 2 ^ 16 → crc_bit crc < 2 ^ 16
unfolding crc_bit
crc_bit-lt crc h = elim (Bool-cases (bit_and crc 1 == 0)) [
  | inl even ↦ rw even (omega arith)
  | inr odd ↦ rw odd (bit_xor-lt 16 (crc / 2) 0xA001 (omega arith) (omega arith))
]

crc_bits-lt : (count crc : ℕ) → crc < 2 ^ 16 → crc_bits count crc < 2 ^ 16
unfolding crc_bits
crc_bits-lt zero crc h = h
crc_bits-lt (suc count) crc h = crc_bits-lt count (crc_bit crc) (crc_bit-lt crc h)

crc_from-lt :
    (crc : ℕ) (bytes : List ℕ) → crc < 2 ^ 16 → All IsByte bytes → crc_from crc bytes < 2 ^ 16
unfolding crc_from
crc_from-lt crc [] h k = h
crc_from-lt crc (byte ∷ bytes) h k =
    crc_from-lt (crc_bits 8 (bit_xor crc byte)) bytes
      (crc_bits-lt 8 (bit_xor crc byte) (bit_xor-lt 16 crc byte h (omega (arith, k.0)))) k.1

-- The check sequence of bytes is a 16-bit word.
pub crc_16-lt : (bytes : List ℕ) → All IsByte bytes → crc_16 bytes < 2 ^ 16
unfolding crc_16
crc_16-lt bytes h = crc_from-lt 0 bytes (omega arith) h

crc_from-append :
    (crc : ℕ) (xs ys : List ℕ) → crc_from crc (xs ++ ys) ≡ crc_from (crc_from crc xs) ys
unfolding crc_from
crc_from-append crc [] ys = refl
crc_from-append crc (x ∷ xs) ys = crc_from-append (crc_bits 8 (bit_xor crc x)) xs ys

crc_bit_even : (h : ℕ) → crc_bit (h * 2) ≡ h
unfolding crc_bit
crc_bit_even h = rw (bit_and_mask 1 (h * 2)) (ground arith)

-- A register whose low digits are zero is shifted out.
crc_bits_shift : (count h : ℕ) → crc_bits count (h * 2 ^ count) ≡ h
unfolding crc_bits
crc_bits_shift zero h = omega arith
crc_bits_shift (suc count) h =
    rw (times_pow-suc h count, crc_bit_even (h * 2 ^ count)) (crc_bits_shift count h)

crc_byte_low : (crc : ℕ) → crc_bits 8 (bit_xor crc (crc % 256)) ≡ crc / 256
crc_byte_low crc = rw (bit_xor_low 8 crc) (crc_bits_shift 8 (crc / 256))

-- The two bytes of the register clear it.
clears :
    (crc : ℕ)
    → crc < 2 ^ 16
    → crc_bits 8 (bit_xor (crc_bits 8 (bit_xor crc (crc % 256))) (crc / 256 % 256)) ≡ 0
clears crc h =
    ap (λ (x : ℕ). crc_bits 8 (bit_xor x (crc / 256 % 256))) (crc_byte_low crc)
    ∙ crc_byte_low (crc / 256)
    ∙ omega arith

-- A frame that ends with the check sequence of what precedes it has the check sequence 0.
pub crc_16_residue :
    (bytes : List ℕ) → All IsByte bytes → crc_16 (bytes ++ u16_to_le (crc_16 bytes)) ≡ 0
unfolding crc_16 crc_from
crc_16_residue bytes h =
    crc_from-append 0 bytes (u16_to_le (crc_16 bytes))
    ∙ clears (crc_from 0 bytes) (crc_16-lt bytes h)
