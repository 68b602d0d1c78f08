-- ===== src/Sdp/Examples.antt =====
-- Data elements of src/sdp/mod.rs and their bytes, and the theorems at concrete inputs.
use swbt_bumble_backend.Base.{ℕ, ◌+◌, ◌≡◌, refl, arith, true, List, [], ◌∷◌, ◌++◌, length, ok, err}
use swbt_bumble_backend.Sdp.{
  invalid_packet, invalid_argument, invalid_value_size, overran, Elements, negsuc, DataElement, nil,
  unsigned_integer, signed_integer, uuid, text_string, boolean, sequence, alternative, end, element,
}
use swbt_bumble_backend.Sdp.Writer.{to_bytes}
use swbt_bumble_backend.Sdp.Parser.{parse_from_bytes, max_nesting}
use swbt_bumble_backend.Sdp.Attributes.{
  ServiceAttribute, list_to_data_element, list_from_data_elements, record_read,
}
use swbt_bumble_backend.Sdp.RoundTrip.{IsElement}
use swbt_bumble_backend.Sdp.RoundTrip.Nesting.{parse_from_bytes-to_bytes}

-- A sequence of a 16-bit identifier, a UUID, and two alternatives.
abbrev sample : DataElement
sample = sequence (
    element (unsigned_integer 0x0102 2) (
      element (uuid (0x24 ∷ 0x11 ∷ [])) (
        element (alternative (element (signed_integer (negsuc 1) 1) (element (boolean true) end)))
          (element nil (element (text_string (0x68 ∷ 0x69 ∷ [])) end)))))

abbrev sample_bytes : List ℕ
sample_bytes =
    0x35 ∷ 17 ∷ 0x09 ∷ 1 ∷ 2 ∷ 0x19 ∷ 0x11 ∷ 0x24 ∷ 0x3D ∷ 4 ∷ 0x10 ∷ 0xFE ∷ 0x28 ∷ 1 ∷ 0x00 ∷ 0x25
    ∷ 2 ∷ 0x68 ∷ 0x69 ∷ []

sample_written : to_bytes sample ≡ ok sample_bytes
unfolding to_bytes
sample_written = refl

sample-IsElement : IsElement max_nesting sample
sample-IsElement = (omega arith, (refl, ((omega arith, (tt, tt)), (tt, (tt, tt)))))

parse_from_bytes-to_bytes_example :
    parse_from_bytes ((9 ∷ []) ++ (sample_bytes ++ 8 ∷ 7 ∷ [])) 1
    ≡ ok (1 + length sample_bytes, sample)
parse_from_bytes-to_bytes_example =
    parse_from_bytes-to_bytes sample (9 ∷ []) (8 ∷ 7 ∷ []) sample_bytes sample-IsElement
      sample_written

-- A sequence that ends inside its element.
overrun : parse_from_bytes (0x35 ∷ 2 ∷ 0x09 ∷ 1 ∷ 2 ∷ []) 0 ≡ err (invalid_packet overran)
unfolding parse_from_bytes
overrun = refl

abbrev attributes : List ServiceAttribute
attributes =
    record { id = 0; value = unsigned_integer 0x10000 4 }
    ∷ record { id = 1; value = sequence (element (uuid (0x24 ∷ 0x11 ∷ [])) end) }
    ∷ []

abbrev record_bytes : List ℕ
record_bytes =
    0x35 ∷ 16 ∷ 0x09 ∷ 0 ∷ 0 ∷ 0x0A ∷ 0 ∷ 1 ∷ 0 ∷ 0 ∷ 0x09 ∷ 0 ∷ 1 ∷ 0x35 ∷ 3 ∷ 0x19 ∷ 0x11 ∷ 0x24
    ∷ []

record_written : to_bytes (list_to_data_element attributes) ≡ ok record_bytes
unfolding to_bytes list_to_data_element
record_written = refl

record_read_example :
    (es : Elements) × (parse_from_bytes ([] ++ (record_bytes ++ [])) 0
      ≡ ok (0 + length record_bytes, sequence es))
    × (list_from_data_elements es ≡ attributes)
record_read_example =
    record_read attributes [] [] record_bytes
      ((omega arith, omega arith), ((omega arith, (refl, tt)), tt)) record_written

-- An integer of three bytes is read, but not written.
odd_size : parse_from_bytes (0x0D ∷ 3 ∷ 0 ∷ 0 ∷ 1 ∷ []) 0 ≡ ok (5, unsigned_integer 1 3)
unfolding parse_from_bytes
odd_size = refl

odd_size_refused : to_bytes (unsigned_integer 1 3) ≡ err (invalid_argument (invalid_value_size 3))
unfolding to_bytes
odd_size_refused = refl
