-- ===== src/Sdp/Writer.antt =====
-- `DataElement::to_bytes` of src/sdp/mod.rs.
use mathlib.Core.List.{reverse}
use swbt_bumble_backend.Base.{
  ℕ, ◌+◌, ◌*◌, List, [], ◌∷◌, ◌++◌, length, Result, ok, ◌>>=◌, from_bool,
}
use swbt_bumble_backend.Sdp.{
  Error, DataElement, nil, unsigned_integer, signed_integer, uuid, text_string, boolean, sequence,
  alternative, url, Elements, end, element,
}
use swbt_bumble_backend.Sdp.Numbers.{
  unsigned_to_bytes, signed_to_bytes, fixed_size_index, variable_size_header,
}

abbrev pub type_code : DataElement → ℕ
type_code nil = 0
type_code (unsigned_integer _ _) = 1
type_code (signed_integer _ _) = 2
type_code (uuid _) = 3
type_code (text_string _) = 4
type_code (boolean _) = 5
type_code (sequence _) = 6
type_code (alternative _) = 7
type_code (url _) = 8

-- The size index and the bytes of the size, for a value of `size` bytes.
unfoldable pub size_header : DataElement → ℕ → Result Error (ℕ × List ℕ)
unfolding fixed_size_index variable_size_header
size_header nil size = ok (0, [])
size_header (boolean _) size = ok (0, [])
size_header (unsigned_integer _ _) size = do index ← fixed_size_index size; ok (index, [])
size_header (signed_integer _ _) size = do index ← fixed_size_index size; ok (index, [])
size_header (uuid _) size = do index ← fixed_size_index size; ok (index, [])
size_header (text_string _) size = variable_size_header size
size_header (sequence _) size = variable_size_header size
size_header (alternative _) size = variable_size_header size
size_header (url _) size = variable_size_header size

-- `to_bytes`, on what `value_bytes` returns.
unfoldable pub with_header : DataElement → Result Error (List ℕ) → Result Error (List ℕ)
unfolding size_header
with_header e written = do
  bytes ← written
  header ← size_header e (length bytes)
  ok ((type_code e * 8 + header.0) ∷ header.1 ++ bytes)

unfoldable mutual
  unfolding with_header unsigned_to_bytes signed_to_bytes

  pub value_bytes : DataElement → Result Error (List ℕ)
  value_bytes nil = ok []
  value_bytes (unsigned_integer value size) = unsigned_to_bytes value size
  value_bytes (signed_integer value size) = signed_to_bytes value size
  value_bytes (uuid le) = ok (reverse le)
  value_bytes (text_string bytes) = ok bytes
  value_bytes (boolean b) = ok (from_bool b ∷ [])
  value_bytes (sequence es) = elements_bytes es
  value_bytes (alternative es) = elements_bytes es
  value_bytes (url bytes) = ok bytes

  -- The loop over the children, with the call of `to_bytes`.
  pub elements_bytes : Elements → Result Error (List ℕ)
  elements_bytes end = ok []
  elements_bytes (element e es) = do
    bytes ← with_header e (value_bytes e)
    rest ← elements_bytes es
    ok (bytes ++ rest)

unfoldable pub to_bytes : DataElement → Result Error (List ℕ)
unfolding with_header value_bytes
to_bytes e = with_header e (value_bytes e)
