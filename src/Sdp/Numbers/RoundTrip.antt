-- ===== src/Sdp/Numbers/RoundTrip.antt =====
-- The integers of src/sdp/mod.rs are read back from their bytes.
use native.Mathlib.Nat.{pow-suc, mul_assoc}
use mathlib.Core.Path.{subst}
use swbt_bumble_backend.Base.{
  ℕ, zero, suc, ◌+◌, ◌-◌, ◌*◌, ◌/◌, ◌%◌, ◌^◌, ◌<◌, ◌≡◌, ◌⊎◌, inl, inr, refl, sym, ap, ◌∙◌, arith,
  Bool, true, false, ◌||◌, not, List, [], ◌∷◌, ◌++◌, length, length-append, take, drop, ok, ◌==◌,
  fail_if-ok, ok-injective,
}
use swbt_bumble_backend.Sdp.Numbers.{
  is_value_size, be_bytes, from_be, shift_in, be_to_u128, any_set, unsigned_to_bytes,
}

pub length-be_bytes : (n v : ℕ) → length (be_bytes n v) ≡ n
unfolding be_bytes
length-be_bytes zero v = refl
length-be_bytes (suc n) v =
    omega (arith, length-append (be_bytes n (v / 256)) (v % 256 ∷ []), length-be_bytes n (v / 256))

from_be-append : (acc b : ℕ) (bs : List ℕ) → from_be acc (bs ++ b ∷ []) ≡ from_be acc bs * 256 + b
unfolding from_be
from_be-append acc b [] = refl
from_be-append acc b (c ∷ bs) = from_be-append (acc * 256 + c) b bs

-- Reading the bytes of a number behind an accumulator.
pub from_be-be_bytes : (n acc v : ℕ) → v < 256 ^ n → from_be acc (be_bytes n v) ≡ acc * 256 ^ n + v
unfolding be_bytes from_be
from_be-be_bytes zero acc v h = omega arith
from_be-be_bytes (suc n) acc v h =
    let fits : v / 256 < 256 ^ n = omega (arith, h, pow-suc 256 n) in
    let before = from_be-be_bytes n acc (v / 256) fits in
    let power : acc * 256 ^ suc n ≡ acc * 256 ^ n * 256 =
      ap (◌*◌ acc) (pow-suc 256 n) ∙ sym (mul_assoc acc (256 ^ n) 256) in
    from_be-append acc (v % 256) (be_bytes n (v / 256)) ∙ omega (arith, before, power)

from_be-cong :
    (a b : ℕ) (bs : List ℕ)
    → a % 2 ^ 128 ≡ b % 2 ^ 128
    → from_be a bs % 2 ^ 128 ≡ from_be b bs % 2 ^ 128
unfolding from_be
from_be-cong a b [] h = h
from_be-cong a b (c ∷ bs) h = from_be-cong (a * 256 + c) (b * 256 + c) bs (omega arith)

pub shift_in-from_be :
    (acc : ℕ) (bs : List ℕ) → acc < 2 ^ 128 → shift_in acc bs ≡ from_be acc bs % 2 ^ 128
unfolding shift_in from_be
shift_in-from_be acc [] h = omega arith
shift_in-from_be acc (b ∷ bs) h =
    shift_in-from_be ((acc * 256 + b) % 2 ^ 128) bs (omega arith)
    ∙ from_be-cong ((acc * 256 + b) % 2 ^ 128) (acc * 256 + b) bs (omega arith)

-- The sizes that the source takes, one by one.
pub size_cases :
    (P : ℕ → Type 0) → P 1 → P 2 → P 4 → P 8 → P 16 → (n : ℕ) → is_value_size n ≡ true → P n
size_cases P p1 p2 p4 p8 p16 n h =
    let which : (n ≡ 1) ⊎ ((n ≡ 2) ⊎ ((n ≡ 4) ⊎ ((n ≡ 8) ⊎ (n ≡ 16)))) = ground arith in
    elim which [
      | inl e ↦ subst P (sym e) p1
      | inr (inl e) ↦ subst P (sym e) p2
      | inr (inr (inl e)) ↦ subst P (sym e) p4
      | inr (inr (inr (inl e))) ↦ subst P (sym e) p8
      | inr (inr (inr (inr e))) ↦ subst P (sym e) p16
    ]

pub not-false : (b : Bool) → not b ≡ false → b ≡ true
not-false true h = refl
not-false false h = absurd (cc)

neither : (a b : Bool) → (a || b) ≡ false → (a ≡ false) × (b ≡ false)
neither true b h = absurd (cc)
neither false b h = (refl, h)

any_set-append :
    (bs : List ℕ) (b : ℕ) → any_set (bs ++ b ∷ []) ≡ false → (any_set bs ≡ false) × (b ≡ 0)
unfolding any_set
any_set-append [] b h = (refl, ground arith)
any_set-append (c ∷ bs) b h =
    let (first, others) = neither (not (c == 0)) (any_set (bs ++ b ∷ [])) h in
    let (rest, last) = any_set-append bs b others in (rw first rest, last)

-- A number without a set byte is 0.
any_set_lem : (n v : ℕ) → v < 256 ^ n → any_set (be_bytes n v) ≡ false → v ≡ 0
unfolding be_bytes
any_set_lem zero v h k = omega arith
any_set_lem (suc n) v h k =
    let (above, lowest) = any_set-append (be_bytes n (v / 256)) (v % 256) k in
    let rest = any_set_lem n (v / 256) (omega (arith, h, pow-suc 256 n)) above in
    omega (arith, rest, lowest)

pub last_bytes : (v n : ℕ) → is_value_size n ≡ true → drop (16 - n) (be_bytes 16 v) ≡ be_bytes n v
unfolding be_bytes
last_bytes v =
    size_cases (λ n. drop (16 - n) (be_bytes 16 v) ≡ be_bytes n v) refl refl refl refl refl

-- What `unsigned_to_bytes` tests.
fits_lem :
    (v n : ℕ)
    → is_value_size n ≡ true
    → v < 2 ^ 128
    → any_set (take (16 - n) (be_bytes 16 v)) ≡ false
    → v < 256 ^ n
unfolding be_bytes any_set
fits_lem v n h wide =
    size_cases (λ n. any_set (take (16 - n) (be_bytes 16 v)) ≡ false → v < 256 ^ n)
      (λ k. omega (arith, any_set_lem 15 (v / 256) (omega arith) k))
      (λ k. omega (arith, any_set_lem 14 (v / 256 / 256) (omega arith) k))
      (λ k. omega (arith, any_set_lem 12 (v / 256 / 256 / 256 / 256) (omega arith) k))
      (λ k.
        omega (
          arith,
          any_set_lem 8 (v / 256 / 256 / 256 / 256 / 256 / 256 / 256 / 256) (omega arith) k,
        ))
      (λ k. omega arith) n h

-- An unsigned integer that is written has one of the sizes, and is read back.
pub be_to_u128-unsigned_to_bytes :
    (v n : ℕ) (bytes : List ℕ)
    → v < 2 ^ 128
    → unsigned_to_bytes v n ≡ ok bytes
    → (is_value_size n ≡ true) × (length bytes ≡ n) × (be_to_u128 bytes ≡ v)
unfolding unsigned_to_bytes be_to_u128
be_to_u128-unsigned_to_bytes v n bytes wide h =
    let (size_test, sized) = fail_if-ok (not (is_value_size n)) _ _ bytes h in
    let (fit_test, written) =
      fail_if-ok (any_set (take (16 - n) (be_bytes 16 v))) _ _ bytes sized in
    let size = not-false (is_value_size n) size_test in
    let same : be_bytes n v ≡ bytes =
      sym (last_bytes v n size) ∙ ok-injective (drop (16 - n) (be_bytes 16 v)) bytes written in
    let read = from_be-be_bytes n 0 v (fits_lem v n size wide fit_test) in
    (
      size,
      ap length (sym same) ∙ length-be_bytes n v,
      ap (shift_in 0) (sym same)
          ∙ shift_in-from_be 0 (be_bytes n v) (omega arith)
          ∙ omega (arith, read, wide),
    )
