-- ===== src/Sdp/Numbers.antt =====
-- The integers of src/sdp/mod.rs in big-endian bytes.
pub mod RoundTrip
pub mod Signed
use swbt_bumble_backend.Base.{
  ℕ, zero, suc, ◌+◌, ◌-◌, ◌*◌, ◌/◌, ◌%◌, ◌^◌, Bool, true, false, ◌||◌, not, List, [], ◌∷◌, ◌++◌,
  length, take, drop, Result, ok, err, fail_if, ◌>>=◌, ◌>>◌, if◌then◌else◌, ltb, leb, ◌==◌,
}
use swbt_bumble_backend.Sdp.{
  ℤ, pos, negsuc, Error, invalid_packet, invalid_argument, bad_uuid, invalid_data_size,
  invalid_value_size, unsigned_too_large, signed_out_of_range,
}

-- The last `width` bytes of `to_be_bytes`.
unfoldable pub be_bytes : (width value : ℕ) → List ℕ
be_bytes zero v = []
be_bytes (suc n) v = be_bytes n (v / 256) ++ v % 256 ∷ []

-- `from_be_bytes`, on what has been read before.
unfoldable pub from_be : ℕ → List ℕ → ℕ
from_be acc [] = acc
from_be acc (b ∷ bs) = from_be (acc * 256 + b) bs

-- `acc = (acc << 8) | b` on a `u128`.
unfoldable pub shift_in : ℕ → List ℕ → ℕ
shift_in acc [] = acc
shift_in acc (b ∷ bs) = shift_in ((acc * 256 + b) % 2 ^ 128) bs

unfoldable pub be_to_u128 : List ℕ → ℕ
unfolding shift_in
be_to_u128 bytes = shift_in 0 bytes

-- `acc as i128`.
unfoldable pub as_i128 : ℕ → ℤ
as_i128 acc = if ltb acc (2 ^ 127) then pos acc else negsuc (2 ^ 128 - 1 - acc)

-- A negative number has the top bit of its first byte.
unfoldable pub be_to_i128 : List ℕ → ℤ
unfolding shift_in as_i128
be_to_i128 [] = pos 0
be_to_i128 (b ∷ bs) = as_i128 (shift_in (if leb 128 b then 2 ^ 128 - 1 else 0) (b ∷ bs))

abbrev pub is_value_size : ℕ → Bool
is_value_size n = n == 1 || n == 2 || n == 4 || n == 8 || n == 16

unfoldable pub any_set : List ℕ → Bool
any_set [] = false
any_set (b ∷ bs) = not (b == 0) || any_set bs

unfoldable pub unsigned_to_bytes : (value size : ℕ) → Result Error (List ℕ)
unfolding be_bytes any_set
unsigned_to_bytes value size = do
  fail_if (not (is_value_size size)) (invalid_argument (invalid_value_size size))
  let all = be_bytes 16 value
  let start = 16 - size
  fail_if (any_set (take start all)) (invalid_argument (unsigned_too_large value size))
  ok (drop start all)

-- The bits of an `i128`.
unfoldable pub as_u128 : ℤ → ℕ
as_u128 (pos n) = n
as_u128 (negsuc n) = 2 ^ 128 - 1 - n

-- `value < min || value > max`, for the numbers of `bits` bits.
unfoldable pub is_out_of_range : ℤ → ℕ → Bool
is_out_of_range (pos n) bits = leb (2 ^ (bits - 1)) n
is_out_of_range (negsuc n) bits = leb (2 ^ (bits - 1)) n

unfoldable pub signed_to_bytes : (value : ℤ) (size : ℕ) → Result Error (List ℕ)
unfolding be_bytes as_u128 is_out_of_range
signed_to_bytes value size = do
  fail_if (not (is_value_size size)) (invalid_argument (invalid_value_size size))
  fail_if (if ltb (size * 8) 128 then is_out_of_range value (size * 8) else false)
      (invalid_argument (signed_out_of_range value size))
  ok (drop (16 - size) (be_bytes 16 (as_u128 value)))

-- `Uuid::from_bytes`.
unfoldable pub uuid_from_bytes : List ℕ → Result Error (List ℕ)
uuid_from_bytes bytes = do
  fail_if (not (length bytes == 2 || length bytes == 4 || length bytes == 16))
      (invalid_packet (bad_uuid (length bytes)))
  ok bytes

unfoldable pub fixed_size_index : ℕ → Result Error ℕ
fixed_size_index size =
    if leb size 1
    then ok 0
    else if size == 2
    then ok 1
    else if size == 4
    then ok 2
    else if size == 8
    then ok 3
    else if size == 16
    then ok 4
    else err (invalid_argument (invalid_data_size size))

-- The size index and the bytes of the size.
unfoldable pub variable_size_header : ℕ → Result Error (ℕ × List ℕ)
unfolding be_bytes
variable_size_header size =
    if leb size 0xFF
    then ok (5, be_bytes 1 size)
    else if leb size 0xFFFF
    then ok (6, be_bytes 2 size)
    else if leb size 0xFFFFFFFF
    then ok (7, be_bytes 4 size)
    else err (invalid_argument (invalid_data_size size))
