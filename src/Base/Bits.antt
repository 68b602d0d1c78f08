-- ===== src/Base/Bits.antt =====
-- The bit operations at variables: one equation for the lowest digit, and disjoint fields.
use Prim.Native.Nat.{
  ℕ, zero, suc, ◌+◌, ◌-◌, ◌*◌, ◌/◌, ◌%◌, ◌^◌, ◌≤◌, ◌<◌, min, max, bit_and, bit_or, digits,
  bit_and-bitwise, bit_or-bitwise,
}
use mathlib.Core.Path.{◌≡◌, refl, ap, ◌∙◌}
use native.Mathlib.Nat.{le_refl, pow-suc, one-le-pow}
use native.Mathlib.Omega.{arith}

-- The fuel of `digits` does not matter from the first operand on.
pub digits_enough :
    (z : ℕ → ℕ) (f : ℕ → ℕ → ℕ) (n m b : ℕ) {a : ℕ}
    → a ≤ n
    → a ≤ m
    → digits z f n a b ≡ digits z f m a b
digits_enough z f n m b {a = zero} p q = from_zero n m
  where
    from_zero : (i j : ℕ) → digits z f i zero b ≡ digits z f j zero b
    from_zero zero zero = refl
    from_zero zero (suc j) = refl
    from_zero (suc i) zero = refl
    from_zero (suc i) (suc j) = refl
digits_enough z f zero m b {a = suc a} p q = absurd (omega arith)
digits_enough z f (suc n) zero b {a = suc a} p q = absurd (omega arith)
digits_enough z f (suc n) (suc m) b {a = suc a} p q =
    rw (digits_enough z f n m (b / 2) {a = suc a / 2} (omega arith) (omega arith))

pub bit_or_lowest : (a b : ℕ) → bit_or a b ≡ bit_or (a / 2) (b / 2) * 2 + max (a % 2) (b % 2)
bit_or_lowest zero b = simp bit_or-bitwise (omega arith)
bit_or_lowest (suc a) b =
    let rest =
      digits_enough (λ y. y) max a (suc a / 2) (b / 2) {a = suc a / 2} (omega arith) (le_refl _) in
    simp bit_or-bitwise (omega (arith, rest))

pub bit_and_lowest : (a b : ℕ) → bit_and a b ≡ bit_and (a / 2) (b / 2) * 2 + min (a % 2) (b % 2)
bit_and_lowest zero b = simp bit_and-bitwise (omega arith)
bit_and_lowest (suc a) b =
    let rest =
      digits_enough (λ y. 0) min a (suc a / 2) (b / 2) {a = suc a / 2} (omega arith) (le_refl _) in
    simp bit_and-bitwise (omega (arith, rest))

zero-bit_or : (b : ℕ) → bit_or 0 b ≡ b
zero-bit_or b = simp bit_or-bitwise

bit_and-zero_below : (n x : ℕ) → x ≤ n → bit_and x 0 ≡ 0
bit_and-zero_below n zero h = simp bit_and-bitwise
bit_and-zero_below zero (suc x) h = absurd (omega arith)
bit_and-zero_below (suc n) (suc x) h =
    omega (arith, bit_and_lowest (suc x) 0, bit_and-zero_below n (suc x / 2) (omega arith))

pub times_pow-suc : (q k : ℕ) → q * 2 ^ suc k ≡ q * 2 ^ k * 2
times_pow-suc q k = omega (arith, ap (λ (t : ℕ). q * t) (pow-suc 2 k))

-- A field below `2 ^ k` and one shifted by `k` do not meet, so `|` is their sum.
pub bit_or_fields : (k low high : ℕ) → low < 2 ^ k → bit_or low (high * 2 ^ k) ≡ low + high * 2 ^ k
bit_or_fields zero zero high h = zero-bit_or _ ∙ omega arith
bit_or_fields zero (suc low) high h = absurd (omega arith)
bit_or_fields (suc k) low high h = ground (
  arith,
  pow-suc 2 k,
  times_pow-suc high k,
  bit_or_lowest low (high * 2 ^ suc k),
  bit_or_fields k (low / 2) high (omega (arith, pow-suc 2 k)),
)

bit_or_comm_below : (n a b : ℕ) → a ≤ n → b ≤ n → bit_or a b ≡ bit_or b a
bit_or_comm_below zero zero zero h k = refl
bit_or_comm_below zero zero (suc b) h k = absurd (omega arith)
bit_or_comm_below zero (suc a) b h k = absurd (omega arith)
bit_or_comm_below (suc n) a b h k = omega (
  arith,
  bit_or_lowest a b,
  bit_or_lowest b a,
  bit_or_comm_below n (a / 2) (b / 2) (omega arith) (omega arith),
)

pub bit_or_comm : (a b : ℕ) → bit_or a b ≡ bit_or b a
bit_or_comm a b = bit_or_comm_below (a + b) a b (omega arith) (omega arith)

pub mod_double : (p x : ℕ) → 0 < p → x % (p * 2) ≡ x / 2 % p * 2 + x % 2
mod_double p x h = grind arith

-- Masking with `2 ^ k - 1` keeps the low `k` bits.
pub bit_and_mask : (k x : ℕ) → bit_and x (2 ^ k - 1) ≡ x % 2 ^ k
bit_and_mask zero x = bit_and-zero_below x x (le_refl x) ∙ omega arith
bit_and_mask (suc k) x = ground (
  arith,
  pow-suc 2 k,
  one-le-pow k 2,
  bit_and_lowest x (2 ^ suc k - 1),
  bit_and_mask k (x / 2),
  mod_double (2 ^ k) x,
)
