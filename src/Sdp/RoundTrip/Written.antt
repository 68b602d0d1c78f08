-- ===== src/Sdp/RoundTrip/Written.antt =====
-- Data elements of src/sdp/mod.rs are read back from what is written of them.
use mathlib.Core.List.{reverse, reverse-cons, reverse-reverse}
use mathlib.Core.Path.{subst}
use swbt_bumble_backend.Base.{
  ℕ, zero, suc, ◌+◌, ◌*◌, ◌≤◌, ◌<◌, ◌^◌, ◌%◌, ◌≡◌, refl, sym, ap, ◌∙◌, arith, true, false, Bool,
  ◌==◌, List, [], ◌∷◌, ◌++◌, length, length-append, ok, >>=-ok, ok-injective, ltb, lt→ltb, eq→==,
  from_bool, ◌>>=◌,
}
use swbt_bumble_backend.Sdp.{
  ℤ, Error, DataElement, nil, unsigned_integer, signed_integer, uuid, boolean, Elements, element,
}
use swbt_bumble_backend.Sdp.Numbers.{
  is_value_size, unsigned_to_bytes, signed_to_bytes, uuid_from_bytes, fixed_size_index,
}
use swbt_bumble_backend.Sdp.Numbers.RoundTrip.{be_to_u128-unsigned_to_bytes}
use swbt_bumble_backend.Sdp.Numbers.Signed.{IsI128, be_to_i128-signed_to_bytes}
use swbt_bumble_backend.Sdp.Writer.{type_code, size_header, with_header}
use swbt_bumble_backend.Sdp.Parser.{
  value_size, first_is_one, element_of, parse_element, parse_elements, checked_end, nested_at,
  parse_at,
}
use swbt_bumble_backend.Sdp.RoundTrip.{IsElement}
use swbt_bumble_backend.Sdp.RoundTrip.Slices.{At}
use swbt_bumble_backend.Sdp.RoundTrip.Headers.{plus_zero, Sizes, fixed-Sizes, parse_element_lem}

-- The element is read where `out` stands, and what follows it is not.
abbrev pub ReadsAs : ℕ → List ℕ → DataElement → Type 0
ReadsAs room out e =
    (bytes : List ℕ) (offset : ℕ)
    → At bytes offset out
    → parse_at room bytes offset ≡ ok (offset + length out, e)

-- A value whose size and contents are read makes an element that is read.
pub written_lem :
    (room : ℕ) (e : DataElement) (value out : List ℕ)
    → ((header : ℕ × List ℕ)
        → size_header e (length value) ≡ ok header
        → Sizes (type_code e) (length value) header)
    → ((bytes : List ℕ) (start : ℕ)
        → At bytes start value
        → element_of (nested_at room bytes) (type_code e) start value ≡ ok e)
    → with_header e (ok value) ≡ ok out
    → ReadsAs room out e
unfolding with_header parse_at
written_lem room e value out sizes contents h bytes offset at =
    let (header, sized, written) = >>=-ok (size_header e (length value)) _ out h in
    let whole = (type_code e * 8 + header.0) ∷ header.1 ++ value in
    let same : whole ≡ out = ok-injective {E = Error} whole out written in
    subst (λ o. parse_element bytes (nested_at room bytes) offset ≡ ok (offset + length o, e)) same
      (parse_element_lem bytes (nested_at room bytes) offset (type_code e) header value e
        (subst (At bytes offset) (sym same) at) (sizes header sized) (contents bytes))

-- The header of an integer or a UUID.
fixed_header :
    (code size : ℕ) (header : ℕ × List ℕ)
    → (code == 0) ≡ false
    → is_value_size size ≡ true
    → (fixed_size_index size >>= λ index. ok (index, [])) ≡ ok header
    → Sizes code size header
fixed_header code size header nonzero h e =
    let (index, found, sizes) = fixed-Sizes code size nonzero h in
    subst (Sizes code size) (ok-injective {E = Error} (index, []) header (sym (rw found refl) ∙ e))
      sizes

length-reverse : (bs : List ℕ) → length (reverse bs) ≡ length bs
length-reverse [] = refl
length-reverse (b ∷ bs) =
    ap length (reverse-cons b bs)
    ∙ omega (arith, length-append (reverse bs) (b ∷ []), length-reverse bs)

small_size : (n : ℕ) → is_value_size n ≡ true → n % 256 ≡ n
small_size n h = ground arith

pub unsigned_lem :
    (room v n : ℕ) (value out : List ℕ)
    → v < 2 ^ 128
    → unsigned_to_bytes v n ≡ ok value
    → with_header (unsigned_integer v n) (ok value) ≡ ok out
    → ReadsAs room out (unsigned_integer v n)
unfolding size_header element_of
unsigned_lem room v n value out wide h k =
    let (size, long, read) = be_to_u128-unsigned_to_bytes v n value wide h in
    let size' = subst (λ l. is_value_size l ≡ true) (sym long) size in
    let width : length value % 256 ≡ n = ap (λ l. l % 256) long ∙ small_size n size in
    written_lem room (unsigned_integer v n) value out
      (λ header. fixed_header 1 (length value) header refl size')
      (λ bytes start at. rw (read, width) refl) k

pub signed_lem :
    (room : ℕ) (v : ℤ) (n : ℕ) (value out : List ℕ)
    → IsI128 v
    → signed_to_bytes v n ≡ ok value
    → with_header (signed_integer v n) (ok value) ≡ ok out
    → ReadsAs room out (signed_integer v n)
unfolding size_header element_of
signed_lem room v n value out wide h k =
    let (size, long, read) = be_to_i128-signed_to_bytes v n value wide h in
    let size' = subst (λ l. is_value_size l ≡ true) (sym long) size in
    let width : length value % 256 ≡ n = ap (λ l. l % 256) long ∙ small_size n size in
    written_lem room (signed_integer v n) value out
      (λ header. fixed_header 2 (length value) header refl size')
      (λ bytes start at. rw (read, width) refl) k

pub uuid_lem :
    (room : ℕ) (le out : List ℕ)
    → IsElement room (uuid le)
    → with_header (uuid le) (ok (reverse le)) ≡ ok out
    → ReadsAs room out (uuid le)
unfolding size_header element_of uuid_from_bytes
uuid_lem room le out h =
    let size : is_value_size (length (reverse le)) ≡ true = ground (arith, length-reverse le, h) in
    written_lem room (uuid le) (reverse le) out
      (λ header. fixed_header 3 (length (reverse le)) header refl size)
      (λ bytes start at. rw (reverse-reverse le, h) refl)

pub boolean_lem :
    (room : ℕ) (b : Bool) (out : List ℕ)
    → with_header (boolean b) (ok (from_bool b ∷ [])) ≡ ok out
    → ReadsAs room out (boolean b)
unfolding size_header element_of value_size
boolean_lem room b out =
    written_lem room (boolean b) (from_bool b ∷ []) out
      (λ header h.
        subst (Sizes 5 1) (ok-injective {E = Error} (0, []) header h)
          (omega arith, λ bytes pos at. rw (plus_zero pos) refl))
      (λ bytes start at. ap (λ c. ok (boolean c)) (read b))
  where
    read : (b : Bool) → first_is_one (from_bool b ∷ []) ≡ b
    read true = refl
    read false = refl

pub nil_lem : (room : ℕ) (out : List ℕ) → with_header nil (ok []) ≡ ok out → ReadsAs room out nil
unfolding size_header element_of value_size
nil_lem room out =
    written_lem room nil [] out
      (λ header h.
        subst (Sizes 0 0) (ok-injective {E = Error} (0, []) header h)
          (omega arith, λ bytes pos at. rw (plus_zero pos) refl))
      (λ bytes start at. refl)

-- A container whose elements are read from its value.
pub nested_lem :
    (room : ℕ) (es : Elements) (bytes : List ℕ) (start : ℕ) (value : List ℕ)
    → parse_elements (parse_at room bytes) (length value) start (start + length value)
      ≡ ok (start + length value, es)
    → nested_at (suc room) bytes start (length value) ≡ ok es
unfolding nested_at checked_end parse_at
nested_lem room es bytes start value h =
    let final = start + length value in rw (h, eq→== final final refl) refl

pub written_nonempty :
    (e : DataElement) (value out : List ℕ) → with_header e (ok value) ≡ ok out → 0 < length out
unfolding with_header
written_nonempty e value out h =
    let (header, sized, written) = >>=-ok (size_header e (length value)) _ out h in
    subst (λ o. 0 < length o)
      (ok-injective {E = Error} ((type_code e * 8 + header.0) ∷ header.1 ++ value) out written)
      (omega arith)

-- The loop takes the first element, and goes on behind it.
pub element_first :
    (room : ℕ) (bytes : List ℕ) (e : DataElement) (es : Elements) (fuel start : ℕ)
    (first rest : List ℕ)
    → 0 < length first
    → length (first ++ rest) ≤ fuel
    → parse_at room bytes start ≡ ok (start + length first, e)
    → ((fuel : ℕ)
        → length rest ≤ fuel
        → parse_elements
            (parse_at room bytes)
            fuel
            (start + length first)
            (start + length first + length rest)
          ≡ ok (start + length first + length rest, es))
    → parse_elements (parse_at room bytes) fuel start (start + length (first ++ rest))
      ≡ ok (start + length (first ++ rest), element e es)
unfolding parse_elements
element_first room bytes e es zero start first rest some_bytes enough read others =
    absurd (omega (arith, length-append first rest))
element_first room bytes e es (suc fuel) start first rest some_bytes enough read others =
    let total : start + length (first ++ rest) ≡ start + length first + length rest =
      omega (arith, length-append first rest) in
    let more : ltb start (start + length first + length rest) ≡ true =
      lt→ltb start (start + length first + length rest) (omega arith) in
    let rest_enough : length rest ≤ fuel = omega (arith, length-append first rest) in
    rw (total, more, read, others fuel rest_enough) refl
