-- ===== src/Sdp/Numbers/Signed.antt =====
-- Signed integers of src/sdp/mod.rs, in two's complement, are read back from their bytes.
use native.Mathlib.Nat.{pow-suc, mul_assoc}
use swbt_bumble_backend.Base.{
  ℕ, zero, suc, ◌+◌, ◌-◌, ◌*◌, ◌/◌, ◌%◌, ◌^◌, ◌≤◌, ◌<◌, ◌≡◌, refl, sym, ap, ◌∙◌, arith, true, false,
  not, List, [], ◌∷◌, ◌++◌, length, drop, ok, if◌then◌else◌, ltb, leb, fail_if-ok, ok-injective,
  lt→ltb, le→ltb,
}
use swbt_bumble_backend.Sdp.{ℤ, pos, negsuc}
use swbt_bumble_backend.Sdp.Numbers.{
  is_value_size, be_bytes, shift_in, as_i128, be_to_i128, as_u128, is_out_of_range, signed_to_bytes,
}
use swbt_bumble_backend.Sdp.Numbers.RoundTrip.{
  length-be_bytes, from_be-be_bytes, shift_in-from_be, size_cases, not-false, last_bytes,
}

-- The first of the bytes.
abbrev top : ℕ → ℕ → ℕ
top zero v = v % 256
top (suc n) v = top n (v / 256)

be_bytes-top : (n v : ℕ) → be_bytes (suc n) v ≡ top n v ∷ be_bytes n v
unfolding be_bytes
be_bytes-top zero v = refl
be_bytes-top (suc n) v = ap (λ bs. bs ++ v % 256 ∷ []) (be_bytes-top n (v / 256))

top-lt : (n v : ℕ) → v < 128 * 256 ^ n → top n v < 128
top-lt zero v h = omega arith
top-lt (suc n) v h = top-lt n (v / 256) (omega (arith, h, pow-suc 256 n))

top-le : (n v : ℕ) → 128 * 256 ^ n ≤ v → v < 256 ^ suc n → 128 ≤ top n v
top-le zero v h k = omega arith
top-le (suc n) v h k =
    top-le n (v / 256) (omega (arith, h, pow-suc 256 n)) (omega (arith, k, pow-suc 256 (suc n)))

-- Only the last bytes of a number are written.
be_bytes_low : (n h r : ℕ) → be_bytes n (h * 256 ^ n + r) ≡ be_bytes n r
unfolding be_bytes
be_bytes_low zero h r = refl
be_bytes_low (suc n) h r =
    let power : h * 256 ^ suc n ≡ h * 256 ^ n * 256 =
      ap (◌*◌ h) (pow-suc 256 n) ∙ sym (mul_assoc h (256 ^ n) 256) in
    let high : (h * 256 ^ suc n + r) / 256 ≡ h * 256 ^ n + r / 256 = omega (arith, power) in
    let low : (h * 256 ^ suc n + r) % 256 ≡ r % 256 = omega (arith, power) in
    rw (high, low, be_bytes_low n h (r / 256)) refl

be_to_i128-be_bytes :
    (n v : ℕ)
    → be_to_i128 (be_bytes (suc n) v)
      ≡ as_i128 (shift_in (if leb 128 (top n v) then 2 ^ 128 - 1 else 0) (be_bytes (suc n) v))
unfolding be_to_i128
be_to_i128-be_bytes n v = rw (be_bytes-top n v) refl

read_positive :
    (n m : ℕ) → m < 128 * 256 ^ n → m < 2 ^ 127 → be_to_i128 (be_bytes (suc n) m) ≡ pos m
unfolding as_i128
read_positive n m h wide =
    let small = top-lt n m h in
    let test : leb 128 (top n m) ≡ false = ground (arith, small) in
    let read = from_be-be_bytes (suc n) 0 m (omega (arith, h, pow-suc 256 n)) in
    let value : shift_in 0 (be_bytes (suc n) m) ≡ m =
      shift_in-from_be 0 (be_bytes (suc n) m) (omega arith) ∙ omega (arith, read, wide) in
    be_to_i128-be_bytes n m ∙ rw (test, value, lt→ltb m (2 ^ 127) wide) refl

read_negative :
    (n m : ℕ)
    → m < 128 * 256 ^ n
    → m < 2 ^ 127
    → ((2 ^ 128 - 1) * 256 ^ suc n + (256 ^ suc n - 1 - m)) % 2 ^ 128 ≡ 2 ^ 128 - 1 - m
    → be_to_i128 (be_bytes (suc n) (256 ^ suc n - 1 - m)) ≡ negsuc m
unfolding as_i128
read_negative n m h wide wraps =
    let r = 256 ^ suc n - 1 - m in
    let large = top-le n r (omega (arith, h, pow-suc 256 n)) (omega (arith, h, pow-suc 256 n)) in
    let test : leb 128 (top n r) ≡ true = ground (arith, large) in
    let read = from_be-be_bytes (suc n) (2 ^ 128 - 1) r (omega (arith, h, pow-suc 256 n)) in
    let value : shift_in (2 ^ 128 - 1) (be_bytes (suc n) r) ≡ 2 ^ 128 - 1 - m =
      shift_in-from_be (2 ^ 128 - 1) (be_bytes (suc n) r) (omega arith)
      ∙ ap (λ x. x % 2 ^ 128) read
      ∙ wraps in
    let back : 2 ^ 128 - 1 - (2 ^ 128 - 1 - m) ≡ m = omega arith in
    be_to_i128-be_bytes n r
    ∙ rw (test, value, le→ltb (2 ^ 128 - 1 - m) (2 ^ 127) (omega arith), back) refl

-- The width of an `i128`.
abbrev pub IsI128 : ℤ → Type 0
IsI128 (pos m) = m < 2 ^ 127
IsI128 (negsuc m) = m < 2 ^ 127

abbrev magnitude : ℤ → ℕ
magnitude (pos m) = m
magnitude (negsuc m) = m

in_range :
    (value : ℤ) (n : ℕ)
    → is_value_size n ≡ true
    → IsI128 value
    → (if ltb (n * 8) 128 then is_out_of_range value (n * 8) else false) ≡ false
    → magnitude value < 2 ^ (n * 8 - 1)
unfolding is_out_of_range
in_range (pos m) n h wide =
    size_cases
      (λ n.
        (if ltb (n * 8) 128 then is_out_of_range (pos m) (n * 8) else false) ≡ false
        → m < 2 ^ (n * 8 - 1))
      (λ t. ground arith) (λ t. ground arith) (λ t. ground arith) (λ t. ground arith) (λ t. wide) n
      h
in_range (negsuc m) n h wide =
    size_cases
      (λ n.
        (if ltb (n * 8) 128 then is_out_of_range (negsuc m) (n * 8) else false) ≡ false
        → m < 2 ^ (n * 8 - 1))
      (λ t. ground arith) (λ t. ground arith) (λ t. ground arith) (λ t. ground arith) (λ t. wide) n
      h

negative_lem :
    (n m high : ℕ)
    → m < 128 * 256 ^ n
    → m < 2 ^ 127
    → 2 ^ 128 - 1 - m ≡ high * 256 ^ suc n + (256 ^ suc n - 1 - m)
    → ((2 ^ 128 - 1) * 256 ^ suc n + (256 ^ suc n - 1 - m)) % 2 ^ 128 ≡ 2 ^ 128 - 1 - m
    → be_to_i128 (be_bytes (suc n) (2 ^ 128 - 1 - m)) ≡ negsuc m
negative_lem n m high h wide splits wraps =
    ap (λ v. be_to_i128 (be_bytes (suc n) v)) splits
    ∙ ap be_to_i128 (be_bytes_low (suc n) high (256 ^ suc n - 1 - m))
    ∙ read_negative n m h wide wraps

signed_read :
    (value : ℤ) (n : ℕ)
    → is_value_size n ≡ true
    → IsI128 value
    → magnitude value < 2 ^ (n * 8 - 1)
    → be_to_i128 (be_bytes n (as_u128 value)) ≡ value
unfolding as_u128
signed_read (pos m) n h wide =
    size_cases (λ n. m < 2 ^ (n * 8 - 1) → be_to_i128 (be_bytes n m) ≡ pos m)
      (λ t. read_positive 0 m (omega arith) wide) (λ t. read_positive 1 m (omega arith) wide)
      (λ t. read_positive 3 m (omega arith) wide) (λ t. read_positive 7 m (omega arith) wide)
      (λ t. read_positive 15 m (omega arith) wide) n h
signed_read (negsuc m) n h wide =
    size_cases (λ n. m < 2 ^ (n * 8 - 1) → be_to_i128 (be_bytes n (2 ^ 128 - 1 - m)) ≡ negsuc m)
      (λ t. negative_lem 0 m (2 ^ 120 - 1) (omega arith) wide (omega arith) (omega arith))
      (λ t. negative_lem 1 m (2 ^ 112 - 1) (omega arith) wide (omega arith) (omega arith))
      (λ t. negative_lem 3 m (2 ^ 96 - 1) (omega arith) wide (omega arith) (omega arith))
      (λ t. negative_lem 7 m (2 ^ 64 - 1) (omega arith) wide (omega arith) (omega arith))
      (λ t. negative_lem 15 m 0 (omega arith) wide (omega arith) (omega arith)) n h

-- A signed integer that is written has one of the sizes, and is read back.
pub be_to_i128-signed_to_bytes :
    (value : ℤ) (n : ℕ) (bytes : List ℕ)
    → IsI128 value
    → signed_to_bytes value n ≡ ok bytes
    → (is_value_size n ≡ true) × (length bytes ≡ n) × (be_to_i128 bytes ≡ value)
unfolding signed_to_bytes
be_to_i128-signed_to_bytes value n bytes wide h =
    let (size_test, sized) = fail_if-ok (not (is_value_size n)) _ _ bytes h in
    let (range_test, written) = fail_if-ok _ _ _ bytes sized in
    let size = not-false (is_value_size n) size_test in
    let v = as_u128 value in
    let same : be_bytes n v ≡ bytes =
      sym (last_bytes v n size) ∙ ok-injective (drop (16 - n) (be_bytes 16 v)) bytes written in
    (
      size,
      ap length (sym same) ∙ length-be_bytes n v,
      ap be_to_i128 (sym same)
          ∙ signed_read value n size wide (in_range value n size wide range_test),
    )
