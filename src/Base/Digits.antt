-- ===== src/Base/Digits.antt =====
-- The binary digits of a number, and what the bit operations do to each.
use Prim.Native.Nat.{ℕ, zero, suc, ◌-◌, ◌*◌, ◌/◌, ◌%◌, ◌^◌, ◌<◌, min, max, bit_and, bit_or}
use mathlib.Core.Path.{◌≡◌, refl, ◌∙◌, ap}
use native.Mathlib.Nat.{pow-suc, one-le-pow}
use native.Mathlib.Omega.{arith}
use swbt_bumble_backend.Base.Tests.{◌==◌, if◌then◌else◌}
use swbt_bumble_backend.Base.Bits.{bit_or_lowest, bit_and_lowest, bit_and_mask, times_pow-suc}
use swbt_bumble_backend.Base.Xor.{div_double}

unfoldable pub digit : ℕ → ℕ → ℕ
digit j x = x / 2 ^ j % 2

digit-zero : (x : ℕ) → digit 0 x ≡ x % 2
unfolding digit
digit-zero x = omega arith

digit-suc : (j x : ℕ) → digit (suc j) x ≡ digit j (x / 2)
unfolding digit
digit-suc j x = rw (pow-suc 2 j, div_double (2 ^ j) x (omega (arith, one-le-pow j 2))) refl

pub digit-lt : (j x : ℕ) → digit j x < 2
unfolding digit
digit-lt j x = omega arith

pub digit-bit_or : (j a b : ℕ) → digit j (bit_or a b) ≡ max (digit j a) (digit j b)
digit-bit_or zero a b =
    omega (arith, digit-zero (bit_or a b), digit-zero a, digit-zero b, bit_or_lowest a b)
digit-bit_or (suc j) a b =
    let halves : bit_or a b / 2 ≡ bit_or (a / 2) (b / 2) = omega (arith, bit_or_lowest a b) in
    rw (digit-suc j (bit_or a b), digit-suc j a, digit-suc j b, halves)
      (digit-bit_or j (a / 2) (b / 2))

pub digit-bit_and : (j a b : ℕ) → digit j (bit_and a b) ≡ min (digit j a) (digit j b)
digit-bit_and zero a b =
    omega (arith, digit-zero (bit_and a b), digit-zero a, digit-zero b, bit_and_lowest a b)
digit-bit_and (suc j) a b =
    let halves : bit_and a b / 2 ≡ bit_and (a / 2) (b / 2) = omega (arith, bit_and_lowest a b) in
    rw (digit-suc j (bit_and a b), digit-suc j a, digit-suc j b, halves)
      (digit-bit_and j (a / 2) (b / 2))

digit-of_zero : (j : ℕ) → digit j 0 ≡ 0
digit-of_zero zero = digit-zero 0
digit-of_zero (suc j) = digit-suc j 0 ∙ digit-of_zero j

-- A power of two has one digit.
pub digit-pow : (j c : ℕ) → digit j (2 ^ c) ≡ (if j == c then 1 else 0)
digit-pow zero zero = digit-zero 1
digit-pow (suc j) zero = digit-suc j 1 ∙ digit-of_zero j ∙ ground arith
digit-pow zero (suc c) = ground (arith, digit-zero (2 ^ suc c), pow-suc 2 c)
digit-pow (suc j) (suc c) =
    let half : 2 ^ suc c / 2 ≡ 2 ^ c = omega (arith, pow-suc 2 c) in
    digit-suc j (2 ^ suc c) ∙ ap (digit j) half ∙ digit-pow j c ∙ ground arith

-- The complement in `n` digits.
pub digit-complement : (j n x : ℕ) → j < n → x < 2 ^ n → digit j (2 ^ n - 1 - x) ≡ 1 - digit j x
digit-complement j zero x h k = absurd (omega arith)
digit-complement zero (suc n) x h k =
    omega (arith, digit-zero (2 ^ suc n - 1 - x), digit-zero x, pow-suc 2 n, one-le-pow n 2)
digit-complement (suc j) (suc n) x h k =
    let half : (2 ^ suc n - 1 - x) / 2 ≡ 2 ^ n - 1 - x / 2 =
      omega (arith, pow-suc 2 n, one-le-pow n 2, k) in
    rw (digit-suc j (2 ^ suc n - 1 - x), digit-suc j x, half)
      (digit-complement j n (x / 2) (omega arith) (omega (arith, pow-suc 2 n)))

-- Masking with a power of two leaves one digit, in its place.
pub bit_and-pow : (c x : ℕ) → bit_and x (2 ^ c) ≡ digit c x * 2 ^ c
bit_and-pow zero x = bit_and_mask 1 x ∙ omega (arith, digit-zero x)
bit_and-pow (suc c) x =
    let half : 2 ^ suc c / 2 ≡ 2 ^ c = omega (arith, pow-suc 2 c) in
    let lower = bit_and-pow c (x / 2) in
    omega (
      arith,
      bit_and_lowest x (2 ^ suc c),
      ap (bit_and (x / 2)) half,
      lower,
      pow-suc 2 c,
      times_pow-suc (digit c (x / 2)) c,
      ap (λ (d : ℕ). d * 2 ^ suc c) (digit-suc c x),
    )
