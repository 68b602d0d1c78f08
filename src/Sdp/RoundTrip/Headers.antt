-- ===== src/Sdp/RoundTrip/Headers.antt =====
-- The header that src/sdp/mod.rs writes in front of a value tells where the value starts and ends.
use swbt_bumble_backend.Base.{
  ℕ, ◌+◌, ◌*◌, ◌/◌, ◌%◌, ◌^◌, ◌<◌, ◌≡◌, inl, inr, refl, sym, ap, ◌∙◌, arith, true, Bool, false,
  ◌==◌, if◌then◌else◌, List, [], ◌∷◌, ◌++◌, length, ok, ok-injective, Bool-cases, leb, some,
  length-append, if_not,
}
use mathlib.Core.Path.{subst}
use swbt_bumble_backend.Sdp.{Error, DataElement}
use swbt_bumble_backend.Sdp.Numbers.{
  is_value_size, be_bytes, from_be, fixed_size_index, variable_size_header,
}
use swbt_bumble_backend.Sdp.Numbers.RoundTrip.{size_cases, length-be_bytes, from_be-be_bytes}
use swbt_bumble_backend.Sdp.Parser.{
  slice, read_size, value_size, Nested, element_of, header_at, parse_element,
}
use swbt_bumble_backend.Sdp.RoundTrip.Slices.{At, At-append, slice-At}

-- A header with this index and these bytes is read as the size.
abbrev pub Sizes : (code size : ℕ) → ℕ × List ℕ → Type 0
Sizes code size header =
    (header.0 < 8)
    × ((bytes : List ℕ) (pos : ℕ)
        → At bytes pos header.1
        → value_size bytes code header.0 pos ≡ ok (pos + length header.1, size))

pub plus_zero : (n : ℕ) → n + 0 ≡ n
plus_zero n = omega arith

pub fixed-Sizes :
    (code size : ℕ)
    → (code == 0) ≡ false
    → is_value_size size ≡ true
    → (index : ℕ) × (fixed_size_index size ≡ ok index) × Sizes code size (index, [])
unfolding fixed_size_index value_size
fixed-Sizes code size nonzero =
    size_cases
      (λ size. (index : ℕ) × (fixed_size_index size ≡ ok index) × Sizes code size (index, []))
      (0, refl, (omega arith, λ bytes pos at. rw (nonzero, plus_zero pos) refl))
      (1, refl, (omega arith, λ bytes pos at. rw (plus_zero pos) refl))
      (2, refl, (omega arith, λ bytes pos at. rw (plus_zero pos) refl))
      (3, refl, (omega arith, λ bytes pos at. rw (plus_zero pos) refl))
      (4, refl, (omega arith, λ bytes pos at. rw (plus_zero pos) refl)) size

if_true {ℓ} : {A : Type ℓ} (b : Bool) (x y : A) → b ≡ true → (if b then x else y) ≡ x
if_true true x y h = refl
if_true false x y h = absurd (cc)

read_size_lem :
    (bytes : List ℕ) (pos width size : ℕ)
    → size < 256 ^ width
    → At bytes pos (be_bytes width size)
    → read_size bytes width pos ≡ ok (pos + length (be_bytes width size), size)
unfolding read_size
read_size_lem bytes pos width size h at =
    let found = slice-At bytes pos (be_bytes width size) at in
    let read = from_be-be_bytes width 0 size h in
    let value : from_be 0 (be_bytes width size) ≡ size = omega (arith, read) in
    let here : slice bytes pos width ≡ some (be_bytes width size) =
      ap (slice bytes pos) (sym (length-be_bytes width size)) ∙ found in
    rw (here, value, length-be_bytes width size) refl

pub variable-Sizes :
    (code size : ℕ) (header : ℕ × List ℕ)
    → variable_size_header size ≡ ok header
    → Sizes code size header
unfolding variable_size_header value_size
variable-Sizes code size header h = elim (Bool-cases (leb size 0xFF)) [
  | inl small ↦
      subst (Sizes code size)
        (ok-injective {E = Error} (5, be_bytes 1 size) header (sym (if_true _ _ _ small) ∙ h))
        (omega arith, λ bytes pos at. read_size_lem bytes pos 1 size (ground arith) at)
  | inr large ↦ elim (Bool-cases (leb size 0xFFFF)) [
    | inl small ↦
        subst (Sizes code size)
          (ok-injective {E = Error} (6, be_bytes 2 size) header
            (sym (if_not _ _ _ large ∙ if_true _ _ _ small) ∙ h))
          (omega arith, λ bytes pos at. read_size_lem bytes pos 2 size (ground arith) at)
    | inr larger ↦ elim (Bool-cases (leb size 0xFFFFFFFF)) [
      | inl small ↦
          subst (Sizes code size)
            (ok-injective {E = Error} (7, be_bytes 4 size) header
              (sym (if_not _ _ _ large ∙ if_not _ _ _ larger ∙ if_true _ _ _ small) ∙ h))
            (omega arith, λ bytes pos at. read_size_lem bytes pos 4 size (ground arith) at)
      | inr largest ↦ absurd (cc)
    ]
  ]
]

-- An element whose size and value are read is read where it stands.
pub parse_element_lem :
    (bytes : List ℕ) (nested : Nested) (offset code : ℕ) (header : ℕ × List ℕ) (value : List ℕ)
    (e : DataElement)
    → At bytes offset ((code * 8 + header.0) ∷ header.1 ++ value)
    → Sizes code (length value) header
    → ((start : ℕ) → At bytes start value → element_of nested code start value ≡ ok e)
    → parse_element bytes nested offset
      ≡ ok (offset + length ((code * 8 + header.0) ∷ header.1 ++ value), e)
unfolding parse_element header_at from_be
parse_element_lem bytes nested offset code (index, size) value e at (low, sized) contents =
    let h = code * 8 + index in
    let (at_h, after) = At-append bytes offset (h ∷ []) (size ++ value) at in
    let (at_size, at_value) = At-append bytes (offset + 1) size value after in
    let start = offset + 1 + length size in
    let first : slice bytes offset 1 ≡ some (h ∷ []) = slice-At bytes offset (h ∷ []) at_h in
    let byte : 0 * 256 + h ≡ h = omega arith in
    let upper : h / 8 ≡ code = omega arith in
    let lower : h % 8 ≡ index = omega arith in
    let total : start + length value ≡ offset + length (h ∷ size ++ value) =
      omega (arith, length-append size value) in
    rw
      (
        first,
        byte,
        upper,
        lower,
        sized bytes (offset + 1) at_size,
        slice-At bytes start value at_value,
        contents start at_value,
        total,
      )
      refl
