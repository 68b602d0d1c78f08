-- ===== src/Base/Xor.antt =====
-- The exclusive or at variables: one equation for the lowest digit, bounds, and equal low digits.
use Prim.Native.Nat.{
  ℕ, zero, suc, ◌+◌, ◌*◌, ◌/◌, ◌%◌, ◌^◌, ◌≤◌, ◌<◌, bit_xor, differ, bit_xor-bitwise,
}
use mathlib.Core.Path.{◌≡◌, refl, ◌∙◌}
use native.Mathlib.Nat.{le_refl, pow-suc, one-le-pow}
use native.Mathlib.Omega.{arith}
use swbt_bumble_backend.Base.Bits.{digits_enough, mod_double, times_pow-suc}

differ_lem : (x y : ℕ) → x < 2 → y < 2 → differ x y ≡ (x + y) % 2
differ_lem zero zero h k = refl
differ_lem zero (suc zero) h k = refl
differ_lem (suc zero) zero h k = refl
differ_lem (suc zero) (suc zero) h k = refl
differ_lem x (suc (suc y)) h k = absurd (omega arith)
differ_lem (suc (suc x)) y h k = absurd (omega arith)

pub bit_xor_lowest : (a b : ℕ) → bit_xor a b ≡ bit_xor (a / 2) (b / 2) * 2 + (a + b) % 2
bit_xor_lowest zero b = simp bit_xor-bitwise (omega arith)
bit_xor_lowest (suc a) b =
    let rest =
      digits_enough (λ y. y) differ a (suc a / 2) (b / 2) {a = suc a / 2} (omega arith)
        (le_refl _) in
    simp bit_xor-bitwise
      (omega (arith, rest, differ_lem (suc a % 2) (b % 2) (omega arith) (omega arith)))

pub bit_xor-lt : (k a b : ℕ) → a < 2 ^ k → b < 2 ^ k → bit_xor a b < 2 ^ k
bit_xor-lt zero zero zero h k = omega arith
bit_xor-lt zero (suc a) b h k = absurd (omega arith)
bit_xor-lt zero a (suc b) h k = absurd (omega arith)
bit_xor-lt (suc n) a b h k = omega (
  arith,
  pow-suc 2 n,
  bit_xor_lowest a b,
  bit_xor-lt n (a / 2) (b / 2) (omega (arith, pow-suc 2 n)) (omega (arith, pow-suc 2 n)),
)

bit_xor-zero_below : (n a : ℕ) → a ≤ n → bit_xor a 0 ≡ a
bit_xor-zero_below n zero h = simp bit_xor-bitwise
bit_xor-zero_below zero (suc a) h = absurd (omega arith)
bit_xor-zero_below (suc n) (suc a) h =
    omega (arith, bit_xor_lowest (suc a) 0, bit_xor-zero_below n (suc a / 2) (omega arith))

bit_xor-zero_above : (a b : ℕ) → b ≡ 0 → bit_xor a b ≡ a
bit_xor-zero_above a b h = rw h (bit_xor-zero_below a a (le_refl a))

pub div_double : (p x : ℕ) → 0 < p → x / (p * 2) ≡ x / 2 / p
div_double p x h = grind arith

-- A number without its low `k` digits.
pub bit_xor_low : (k a : ℕ) → bit_xor a (a % 2 ^ k) ≡ a / 2 ^ k * 2 ^ k
bit_xor_low zero a = bit_xor-zero_above a (a % 1) (omega arith) ∙ omega arith
bit_xor_low (suc k) a = ground (
  arith,
  pow-suc 2 k,
  times_pow-suc (a / 2 / 2 ^ k) k,
  bit_xor_lowest a (a % 2 ^ suc k),
  bit_xor_low k (a / 2),
  mod_double (2 ^ k) a,
  one-le-pow k 2,
  div_double (2 ^ k) a,
)
