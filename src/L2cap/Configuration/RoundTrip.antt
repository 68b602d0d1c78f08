-- ===== src/L2cap/Configuration/RoundTrip.antt =====
-- Configuration options of src/l2cap/mod.rs are decoded from their bytes, and encoded as them.
use swbt_bumble_backend.Base.{
  ℕ, zero, suc, ◌≤◌, ◌<◌, ◌≡◌, inl, inr, refl, ap, ◌∙◌, arith, bit_and, bit_or, Bool, true, false,
  not, List, [], ◌∷◌, ◌++◌, length, length-append, length-drop, take, drop, take-append_left,
  drop-append_left, take-append-drop, length-take, All, ok, OnOk, OnOk-ok, Result-cases,
  if◌then◌else◌, ltb, ◌==◌, Bool-cases, has_bits, IsByte, All-drop, ==→eq, le→ltb, all_below,
  all_below_sound, ◌&&◌,
}
use swbt_bumble_backend.L2cap.Configuration.{
  ConfigurationOption, type_byte, encode_configuration_options, decoded_option, decode_options,
  decode_configuration_options,
}

-- The options that `new` and `hinted` make, with a value whose length is a byte.
abbrev pub IsOption : ConfigurationOption → Type 0
IsOption o = (o.option_type < 128) × (length o.value ≤ 255)

abbrev flag_value : Bool → ℕ
flag_value b = if b then 0x80 else 0

abbrev same_flag : Bool → Bool → Bool
same_flag true b = b
same_flag false b = not b

-- For every type below 128: the type and the hint come back from the byte.
abbrev comes_back : Bool → ℕ → Bool
comes_back b t =
    (bit_and (bit_or t (flag_value b)) 0x7f == t)
    && same_flag b (has_bits (bit_or t (flag_value b)) 0x80)

-- For every byte: it is made of its type and its hint again.
abbrev made_again : ℕ → Bool
made_again r = bit_or (bit_and r 0x7f) (flag_value (has_bits r 0x80)) == r

comes_back-true : (b : Bool) (t : ℕ) → t < 128 → comes_back b t ≡ true
unfolding all_below
comes_back-true true t h = all_below_sound 128 (comes_back true) refl t h
comes_back-true false t h = all_below_sound 128 (comes_back false) refl t h

made_again-true : (r : ℕ) → r < 256 → made_again r ≡ true
unfolding all_below
made_again-true r h = all_below_sound 256 made_again refl r h

same_flag-eq : (a b : Bool) → same_flag a b ≡ true → b ≡ a
same_flag-eq true b h = h
same_flag-eq false true h = cc
same_flag-eq false false h = refl

and_left : (a b : Bool) → (a && b) ≡ true → a ≡ true
and_left true b h = refl
and_left false b h = h

and_right : (a b : Bool) → (a && b) ≡ true → b ≡ true
and_right true b h = h
and_right false b h = cc

type_read : (o : ConfigurationOption) → IsOption o → decoded_option (type_byte o) o.value ≡ o
unfolding decoded_option type_byte
type_read o h =
    let raw = bit_or o.option_type (flag_value o.hint) in
    let both = comes_back-true o.hint o.option_type h.0 in
    let type_same : bit_and raw 0x7f ≡ o.option_type = ==→eq _ _ (and_left _ _ both) in
    let hint_same : has_bits raw 0x80 ≡ o.hint = same_flag-eq _ _ (and_right _ _ both) in
    λ i. record { option_type = type_same i; hint = hint_same i; value = o.value }

within_byte : (n : ℕ) → n ≤ 255 → ltb 255 n ≡ false
within_byte n h = le→ltb 255 n h

encode_cons :
    (o : ConfigurationOption) (os : List ConfigurationOption) (bytes : List ℕ)
    → length o.value ≤ 255
    → encode_configuration_options os ≡ ok bytes
    → encode_configuration_options (o ∷ os) ≡ ok (type_byte o ∷ length o.value ∷ o.value ++ bytes)
unfolding encode_configuration_options
encode_cons o os bytes h e = rw (within_byte (length o.value) h, e) refl

decode_cons :
    (fuel raw_type : ℕ) (value bytes : List ℕ) (os : List ConfigurationOption)
    → decode_options fuel bytes ≡ ok os
    → decode_options (suc fuel) (raw_type ∷ length value ∷ value ++ bytes)
      ≡ ok (decoded_option raw_type value ∷ os)
unfolding decode_options
decode_cons fuel raw_type value bytes os e =
    let enough : ltb (length (value ++ bytes)) (length value) ≡ false =
      le→ltb _ _ (omega (arith, length-append value bytes)) in
    rw (enough, drop-append_left value bytes, take-append_left value bytes, e) refl

decode_enough :
    (fuel : ℕ) (o : ConfigurationOption) (os : List ConfigurationOption) (bytes : List ℕ)
    → IsOption o
    → ((f : ℕ) → length bytes ≤ f → decode_options f bytes ≡ ok os)
    → length (type_byte o ∷ length o.value ∷ o.value ++ bytes) ≤ fuel
    → decode_options fuel (type_byte o ∷ length o.value ∷ o.value ++ bytes) ≡ ok (o ∷ os)
decode_enough zero o os bytes h read few = absurd (omega arith)
decode_enough (suc fuel) o os bytes h read few =
    decode_cons fuel (type_byte o) o.value bytes os
      (read fuel (omega (arith, length-append o.value bytes)))
    ∙ ap (λ (p : ConfigurationOption). ok (p ∷ os)) (type_read o h)

decode-encode :
    (os : List ConfigurationOption)
    → All IsOption os
    → (bytes : List ℕ) × (encode_configuration_options os ≡ ok bytes)
      × ((fuel : ℕ) → length bytes ≤ fuel → decode_options fuel bytes ≡ ok os)
unfolding encode_configuration_options
decode-encode [] h = ([], refl, λ fuel few. unfold decode_options in refl)
decode-encode (o ∷ os) h =
    let (bytes, written, read) = decode-encode os h.1 in
    (
      type_byte o ∷ length o.value ∷ o.value ++ bytes,
      encode_cons o os bytes h.0.1 written,
      λ fuel few. decode_enough fuel o os bytes h.0 read few,
    )

-- Options whose type is below 128 and whose value has at most 255 bytes are encoded, and the bytes
-- are decoded as those options.
pub decode_configuration_options_lem :
    (os : List ConfigurationOption)
    → All IsOption os
    → (bytes : List ℕ) × (encode_configuration_options os ≡ ok bytes)
      × (decode_configuration_options bytes ≡ ok os)
unfolding decode_configuration_options
decode_configuration_options_lem os h =
    let (bytes, written, read) = decode-encode os h in
    (bytes, written, read (length bytes) (omega arith))

type_made_again :
    (raw : ℕ) (value : List ℕ) → raw < 256 → type_byte (decoded_option raw value) ≡ raw
unfolding decoded_option type_byte
type_made_again raw value h = ==→eq _ _ (made_again-true raw h)

encode_again :
    (raw n : ℕ) (rest : List ℕ) (os : List ConfigurationOption)
    → raw < 256
    → n < 256
    → n ≤ length rest
    → encode_configuration_options os ≡ ok (drop n rest)
    → encode_configuration_options (decoded_option raw (take n rest) ∷ os) ≡ ok (raw ∷ n ∷ rest)
encode_again raw n rest os hr hn fits e =
    let size : length (take n rest) ≡ n = omega (arith, length-take n rest) in
    let o = decoded_option raw (take n rest) in
    let same : o.value ≡ take n rest = unfold decoded_option in refl in
    let short : length o.value ≤ 255 = omega (arith, ap length same) in
    let byte = type_made_again raw (take n rest) hr in
    encode_cons o os (drop n rest) short e ∙ λ i. ok (
      byte i
      ∷ (ap length same ∙ size) i
      ∷ (ap (λ v. v ++ drop n rest) same ∙ take-append-drop n rest) i)

unfoldable Encodes : List ℕ → List ConfigurationOption → Type 0
Encodes bytes os = encode_configuration_options os ≡ ok bytes

decode_options-Encodes :
    (fuel : ℕ) (bytes : List ℕ)
    → All IsByte bytes
    → length bytes ≤ fuel
    → OnOk (Encodes bytes) (decode_options fuel bytes)
unfolding decode_options Encodes
decode_options-Encodes fuel [] h few = unfold encode_configuration_options in refl
decode_options-Encodes zero (b ∷ bytes) h few = absurd (omega arith)
decode_options-Encodes (suc fuel) (b ∷ []) h few = tt
decode_options-Encodes (suc fuel) (raw ∷ n ∷ rest) h few = elim (Bool-cases (ltb (length rest) n)) [
  | inl short ↦ rw short tt
  | inr fits ↦
      let enough : length (drop n rest) ≤ fuel = omega (arith, length-drop n rest) in
      let before =
        decode_options-Encodes fuel (drop n rest) (All-drop IsByte n rest h.1.1) enough in
      elim (Result-cases (decode_options fuel (drop n rest))) [
        | inl (os, e) ↦
            rw (fits, e)
              (encode_again raw n rest os h.0 h.1.0 (ground arith)
                (OnOk-ok (Encodes (drop n rest)) e before))
        | inr (x, e) ↦ rw (fits, e) tt
      ]
]

-- Bytes are decoded as nothing but options that are encoded as those bytes.
pub encode_configuration_options_lem :
    (bytes : List ℕ) (os : List ConfigurationOption)
    → All IsByte bytes
    → decode_configuration_options bytes ≡ ok os
    → encode_configuration_options os ≡ ok bytes
unfolding decode_configuration_options Encodes
encode_configuration_options_lem bytes os h e =
    OnOk-ok (Encodes bytes) e (decode_options-Encodes (length bytes) bytes h (omega arith))
