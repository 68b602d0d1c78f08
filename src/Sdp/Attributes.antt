-- ===== src/Sdp/Attributes.antt =====
-- `ServiceAttribute` of src/sdp/mod.rs: a service record as a sequence of identifiers and values.
use swbt_bumble_backend.Base.{
  ℕ, ◌%◌, ok, ◌≡◌, ◌++◌, ◌+◌, length, refl, arith, Option, none, some, List, [], ◌∷◌, All, IsU16,
  if◌then◌else◌, ◌==◌,
}
use swbt_bumble_backend.Sdp.Writer.{to_bytes}
use swbt_bumble_backend.Sdp.Parser.{parse_from_bytes}
use swbt_bumble_backend.Sdp.RoundTrip.{IsElement, AreElements}
use swbt_bumble_backend.Sdp.RoundTrip.Nesting.{parse_from_bytes-to_bytes}
use swbt_bumble_backend.Sdp.{DataElement, unsigned_integer, sequence, Elements, end, element}

pub record ServiceAttribute : Type 0 where
  pub id : ℕ
  pub value : DataElement

unfoldable pub alternating : List ServiceAttribute → Elements
alternating [] = end
alternating (a ∷ rest) = element (unsigned_integer a.id 2) (element a.value (alternating rest))

unfoldable pub list_to_data_element : List ServiceAttribute → DataElement
unfolding alternating
list_to_data_element attributes = sequence (alternating attributes)

-- A pair whose first element is no unsigned integer is skipped; the identifier is cut to 16 bits.
abbrev pub attribute_of : DataElement → DataElement → List ServiceAttribute → List ServiceAttribute
attribute_of (unsigned_integer id _) value rest = record { id = id % 65536; value = value } ∷ rest
attribute_of _ value rest = rest

-- `chunks_exact(2)`: an element that is left over is dropped.
unfoldable pub list_from_data_elements : Elements → List ServiceAttribute
list_from_data_elements (element id (element value rest)) =
    attribute_of id value (list_from_data_elements rest)
list_from_data_elements (element id end) = []
list_from_data_elements end = []

unfoldable pub find : List ServiceAttribute → ℕ → Option DataElement
find [] id = none
find (a ∷ rest) id = let later = find rest id in if a.id == id then some a.value else later

-- The identifier has 16 bits, and the value is an element that leaves room for the sequence around
-- it.
abbrev pub IsWritable : ServiceAttribute → Type 0
IsWritable a = IsU16 a.id × IsElement 31 a.value

alternating-AreElements :
    (attributes : List ServiceAttribute)
    → All IsWritable attributes
    → AreElements 31 (alternating attributes)
unfolding alternating
alternating-AreElements [] h = tt
alternating-AreElements (a ∷ rest) h =
    (omega (arith, h.0.0), (h.0.1, alternating-AreElements rest h.1))

list_from_data_elements-alternating :
    (attributes : List ServiceAttribute)
    → All IsWritable attributes
    → list_from_data_elements (alternating attributes) ≡ attributes
unfolding alternating list_from_data_elements
list_from_data_elements-alternating [] h = refl
list_from_data_elements-alternating (a ∷ rest) h =
    let narrow : a.id % 65536 ≡ a.id = omega (arith, h.0.0) in
    rw (narrow, list_from_data_elements-alternating rest h.1) refl

-- A service record whose values are elements with at most 31 containers nested in one another, if
-- it is written, is read back from its bytes, wherever they stand, with the same attributes in the
-- same order.
pub record_read :
    (attributes : List ServiceAttribute) (front rest out : List ℕ)
    → All IsWritable attributes
    → to_bytes (list_to_data_element attributes) ≡ ok out
    → (es : Elements) × (parse_from_bytes (front ++ (out ++ rest)) (length front)
        ≡ ok (length front + length out, sequence es))
      × (list_from_data_elements es ≡ attributes)
unfolding list_to_data_element
record_read attributes front rest out h written = (
  alternating attributes,
  parse_from_bytes-to_bytes (list_to_data_element attributes) front rest out
      (alternating-AreElements attributes h) written,
  list_from_data_elements-alternating attributes h,
)
