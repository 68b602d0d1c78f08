-- ===== src/L2cap/Configuration.antt =====
-- Configuration options of src/l2cap/mod.rs: entries of type, length and value.
pub mod RoundTrip
use swbt_bumble_backend.Base.{
  ℕ, zero, suc, ◌≤◌, ◌<◌, ◌≡◌, inl, inr, refl, ap, ◌∙◌, arith, bit_and, bit_or, Bool, true, false,
  not, List, [], ◌∷◌, ◌++◌, length, length-append, length-drop, take, drop, take-append_left,
  drop-append_left, take-append-drop, length-take, All, Result, ok, err, OnOk, OnOk-ok,
  Result-cases, fail_if, ◌>>=◌, ◌>>◌, if◌then◌else◌, ltb, ◌==◌, Bool-cases, has_bits, IsByte,
  All-drop, ==→eq, le→ltb, all_below, all_below_sound, ◌&&◌,
}
use swbt_bumble_backend.L2cap.{
  Error, invalid_packet, option_too_long, truncated_option_header, truncated_option_value,
}

pub record ConfigurationOption : Type 0 where
  pub option_type : ℕ
  pub hint : Bool
  pub value : List ℕ

unfoldable pub new : ℕ → List ℕ → ConfigurationOption
new option_type value = record {
  option_type = bit_and option_type 0x7f;
  hint = false;
  value = value;
}

unfoldable pub hinted : ℕ → List ℕ → ConfigurationOption
hinted option_type value = record {
  option_type = bit_and option_type 0x7f;
  hint = true;
  value = value;
}

unfoldable pub type_byte : ConfigurationOption → ℕ
type_byte o = bit_or o.option_type (if o.hint then 0x80 else 0)

unfoldable pub encode_configuration_options : List ConfigurationOption → Result Error (List ℕ)
unfolding type_byte
encode_configuration_options [] = ok []
encode_configuration_options (o ∷ rest) = do
  fail_if (ltb 255 (length o.value)) (invalid_packet option_too_long)
  encoded ← encode_configuration_options rest
  ok (type_byte o ∷ length o.value ∷ o.value ++ encoded)

unfoldable pub decoded_option : ℕ → List ℕ → ConfigurationOption
decoded_option raw_type value = record {
  option_type = bit_and raw_type 0x7f;
  hint = has_bits raw_type 0x80;
  value = value;
}

-- The `while`; each pass takes two bytes at least, so the length of the data is enough fuel.
unfoldable pub decode_options : (fuel : ℕ) → List ℕ → Result Error (List ConfigurationOption)
unfolding decoded_option
decode_options fuel [] = ok []
decode_options zero (_ ∷ _) = ok []
decode_options (suc fuel) (_ ∷ []) = err (invalid_packet truncated_option_header)
decode_options (suc fuel) (raw_type ∷ n ∷ rest) = do
  fail_if (ltb (length rest) n) (invalid_packet truncated_option_value)
  options ← decode_options fuel (drop n rest)
  ok (decoded_option raw_type (take n rest) ∷ options)

unfoldable pub decode_configuration_options : List ℕ → Result Error (List ConfigurationOption)
unfolding decode_options
decode_configuration_options bytes = decode_options (length bytes) bytes
