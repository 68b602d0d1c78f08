-- ===== src/Sdp/Parser.antt =====
-- `Parser` of src/sdp/mod.rs: a data element at an offset of the bytes. The depth is counted down
-- from `MAX_NESTING`.
use mathlib.Core.List.{reverse}
use swbt_bumble_backend.Base.{
  ℕ, zero, suc, ◌+◌, ◌/◌, ◌%◌, Bool, false, not, Option, none, some, List, [], ◌∷◌, length, take,
  drop, Result, ok, err, fail_if, ok_or, ◌>>=◌, ◌>>◌, if◌then◌else◌, ltb, leb, ◌==◌, map_ok,
}
use swbt_bumble_backend.Sdp.{
  Error, invalid_packet, offset_exceeds, truncated_size, runs_past_end, nesting_exceeded, overran,
  bad_url, unsupported_type, DataElement, nil, unsigned_integer, signed_integer, uuid, text_string,
  boolean, sequence, alternative, url, Elements, end, element,
}
use swbt_bumble_backend.Sdp.Numbers.{from_be, be_to_u128, be_to_i128, uuid_from_bytes}
use swbt_bumble_backend.Sdp.Utf8.{is_utf8}

-- `data.get(start..start + size)`.
unfoldable pub slice : List ℕ → (start size : ℕ) → Option (List ℕ)
slice bytes start size =
    if leb (start + size) (length bytes) then some (take size (drop start bytes)) else none

-- The size of the value and where it starts, from a size of `width` bytes at `pos`.
unfoldable pub read_size : List ℕ → (width pos : ℕ) → Result Error (ℕ × ℕ)
unfolding slice from_be
read_size bytes width pos = do
  field ← ok_or (slice bytes pos width) (invalid_packet (truncated_size width))
  ok (pos + width, from_be 0 field)

-- The `match` on the size index.
unfoldable pub value_size : List ℕ → (element_type size_index pos : ℕ) → Result Error (ℕ × ℕ)
unfolding read_size
value_size bytes element_type size_index pos =
    if size_index == 0
    then ok (pos, if element_type == 0 then 0 else 1)
    else if size_index == 1
    then ok (pos, 2)
    else if size_index == 2
    then ok (pos, 4)
    else if size_index == 3
    then ok (pos, 8)
    else if size_index == 4
    then ok (pos, 16)
    else if size_index == 5
    then read_size bytes 1 pos
    else if size_index == 6
    then read_size bytes 2 pos
    else read_size bytes 4 pos

abbrev pub first_is_one : List ℕ → Bool
first_is_one [] = false
first_is_one (b ∷ _) = b == 1

-- The parser of what a container holds, from a start for a number of bytes.
abbrev pub Nested : Type 0
Nested = (start size : ℕ) → Result Error Elements

-- The `match` on the element type.
unfoldable pub element_of : Nested → (element_type start : ℕ) → List ℕ → Result Error DataElement
unfolding be_to_u128 be_to_i128 uuid_from_bytes is_utf8
element_of nested element_type start value =
    if element_type == 0
    then ok nil
    else if element_type == 1
    then ok (unsigned_integer (be_to_u128 value) (length value % 256))
    else if element_type == 2
    then ok (signed_integer (be_to_i128 value) (length value % 256))
    else if element_type == 3
    then map_ok uuid (uuid_from_bytes (reverse value))
    else if element_type == 4
    then ok (text_string value)
    else if element_type == 5
    then ok (boolean (first_is_one value))
    else if element_type == 6
    then map_ok sequence (nested start (length value))
    else if element_type == 7
    then map_ok alternative (nested start (length value))
    else if element_type == 8
    then if is_utf8 value then ok (url value) else err (invalid_packet bad_url)
    else err (invalid_packet (unsupported_type element_type))

unfoldable pub header_at : List ℕ → ℕ → Result Error ℕ
unfolding slice from_be
header_at bytes offset =
    map_ok (from_be 0)
      (ok_or (slice bytes offset 1) (invalid_packet (offset_exceeds offset (length bytes))))

unfoldable pub parse_element : List ℕ → Nested → ℕ → Result Error (ℕ × DataElement)
unfolding header_at value_size slice element_of
parse_element bytes nested offset = do
  header ← header_at bytes offset
  sized ← value_size bytes (header / 8) (header % 8) (offset + 1)
  value ← ok_or (slice bytes sized.0 sized.1) (invalid_packet (runs_past_end sized.1 sized.0))
  e ← element_of nested (header / 8) sized.0 value
  ok (sized.0 + sized.1, e)

-- The `while` over a container's value. A pass takes a byte at least, so the number of its bytes is
-- fuel enough.
unfoldable pub parse_elements :
    (ℕ → Result Error (ℕ × DataElement)) → (fuel inner value_end : ℕ) → Result Error (ℕ × Elements)
parse_elements parse zero inner value_end = ok (inner, end)
parse_elements parse (suc fuel) inner value_end =
    if not (ltb inner value_end)
    then ok (inner, end)
    else (parse inner >>= λ p.
        map_ok (λ q. (q.0, element p.1 q.1)) (parse_elements parse fuel p.0 value_end))

unfoldable pub checked_end : ℕ → ℕ × Elements → Result Error Elements
checked_end value_end (inner, es) = do
  fail_if (not (inner == value_end)) (invalid_packet overran)
  ok es

unfoldable pub nested_at : (room : ℕ) → List ℕ → Nested
unfolding parse_element parse_elements checked_end
nested_at zero bytes start size = err (invalid_packet nesting_exceeded)
nested_at (suc room) bytes start size =
    parse_elements (parse_element bytes (nested_at room bytes)) size start (start + size)
    >>= checked_end (start + size)

unfoldable pub parse_at : (room : ℕ) → List ℕ → ℕ → Result Error (ℕ × DataElement)
unfolding parse_element nested_at
parse_at room bytes = parse_element bytes (nested_at room bytes)

abbrev pub max_nesting : ℕ
max_nesting = 32

unfoldable pub parse_from_bytes : List ℕ → ℕ → Result Error (ℕ × DataElement)
unfolding parse_at
parse_from_bytes = parse_at max_nesting

unfoldable pub from_bytes : List ℕ → Result Error DataElement
unfolding parse_from_bytes
from_bytes bytes = do p ← parse_from_bytes bytes 0; ok p.1
