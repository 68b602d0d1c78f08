-- ===== src/Hidp/RoundTrip.antt =====
-- What src/hidp.rs writes it reads back, and what it reads it can write.
use swbt_bumble_backend.Base.{
  ℕ, zero, suc, ◌+◌, ◌*◌, ◌/◌, ◌%◌, ◌≤◌, ◌≡◌, ◌≢◌, refl, ◌∙◌, arith, true, false, Option, none,
  some, List, ◌∷◌, bit_and, bit_or, ltb, if◌then◌else◌, shl8, has_bits, ok, err, IsU16, le→ltb,
  ◌||◌,
}
use swbt_bumble_backend.Base.Bits.{bit_or_comm, bit_or_fields, bit_and_mask}
use swbt_bumble_backend.Hidp.{
  Error, Message, handshake, control, get_report, set_report, get_protocol, set_protocol,
  data_report, unknown, message_type, parameter_and_data, to_bytes, message_fields, from_bytes,
}

-- The message types that have no variant of their own.
abbrev pub IsOtherType : ℕ → Type 0
IsOtherType t = (t ≤ 15) × (t ≢ 0) × (t ≢ 1) × (t ≢ 4) × (t ≢ 5) × (t ≢ 6) × (t ≢ 7) × (t ≢ 10)

abbrev pub IsSize : Option ℕ → Type 0
IsSize none = Unit
IsSize (some n) = IsU16 n

-- The values that the header has room for.
abbrev pub IsCanonical : Message → Type 0
IsCanonical (handshake result) = result ≤ 15
IsCanonical (control command) = command ≤ 15
IsCanonical (get_report t id size) = (t ≤ 3) × IsSize size
IsCanonical (set_report t payload) = t ≤ 3
IsCanonical get_protocol = Unit
IsCanonical (set_protocol mode) = mode ≤ 1
IsCanonical (data_report t payload) = t ≤ 3
IsCanonical (unknown t parameter payload) = IsOtherType t × (parameter ≤ 15)

-- The header of a canonical message holds its type and its parameter.
header_sum : (t p : ℕ) → t ≤ 15 → p ≤ 15 → bit_or (shl8 t 4) p ≡ p + t * 16
header_sum t p ht hp =
    ground (arith, bit_or_comm (t * 16 % 256) p, bit_or_fields 4 p t (omega arith))

pub low_half : (x : ℕ) → bit_and x 0x0F ≡ x % 16
low_half x = bit_and_mask 4 x

pub low_two : (x : ℕ) → bit_and x 3 ≡ x % 4
low_two x = bit_and_mask 2 x

pub low_one : (x : ℕ) → bit_and x 1 ≡ x % 2
low_one x = bit_and_mask 1 x

size_flag :
    (t : ℕ)
    → t ≤ 3
    → (bit_or 0x08 t ≡ 8 + t) × (has_bits (8 + t) 0x08 ≡ true) × (has_bits t 0x08 ≡ false)
size_flag zero h = (refl, refl, refl)
size_flag (suc zero) h = (refl, refl, refl)
size_flag (suc (suc zero)) h = (refl, refl, refl)
size_flag (suc (suc (suc zero))) h = (refl, refl, refl)
size_flag (suc (suc (suc (suc t)))) h = absurd (omega arith)

from_bytes-header :
    (t p : ℕ) (rest : List ℕ)
    → t ≤ 15
    → p ≤ 15
    → from_bytes (bit_or (shl8 t 4) p ∷ rest) ≡ message_fields t p rest
unfolding from_bytes
from_bytes-header t p rest ht hp =
    let e : bit_or (shl8 t 4) p ≡ p + t * 16 = header_sum t p ht hp in
    let high : (p + t * 16) / 16 ≡ t = omega arith in
    let low : bit_and (p + t * 16) 0x0F ≡ p = low_half _ ∙ omega arith in rw (e, high, low)

-- On a canonical message the fields are read back.
message_fields-parameter_and_data :
    (m : Message)
    → IsCanonical m
    → message_fields (message_type m) (parameter_and_data m).0 (parameter_and_data m).1 ≡ ok m
unfolding message_fields message_type parameter_and_data
message_fields-parameter_and_data (handshake result) h = refl
message_fields-parameter_and_data (control command) h = refl
message_fields-parameter_and_data (get_report t id none) h =
    let (_, _, clear) = size_flag t h.0 in
    let kept : bit_and t 3 ≡ t = low_two t ∙ omega arith in rw (clear, kept)
message_fields-parameter_and_data (get_report t id (some n)) h =
    let (sum, flagged, _) = size_flag t h.0 in
    let kept : bit_and (8 + t) 3 ≡ t = low_two (8 + t) ∙ omega arith in
    let size : n % 256 + n / 256 % 256 * 256 ≡ n = omega arith in rw (sum, flagged, kept, size)
message_fields-parameter_and_data (set_report t payload) h = ground (arith, low_two t)
message_fields-parameter_and_data get_protocol h = refl
message_fields-parameter_and_data (set_protocol mode) h = ground (arith, low_one mode)
message_fields-parameter_and_data (data_report t payload) h = ground (arith, low_two t)
message_fields-parameter_and_data (unknown t parameter payload) h = ground arith

canonical_fit :
    (m : Message) → IsCanonical m → (message_type m ≤ 15) × ((parameter_and_data m).0 ≤ 15)
unfolding message_type parameter_and_data
canonical_fit (handshake result) h = omega arith
canonical_fit (control command) h = omega arith
canonical_fit (get_report t id none) h = omega arith
canonical_fit (get_report t id (some n)) h = omega (arith, (size_flag t h.0).0)
canonical_fit (set_report t payload) h = omega arith
canonical_fit get_protocol h = omega arith
canonical_fit (set_protocol mode) h = omega arith
canonical_fit (data_report t payload) h = omega arith
canonical_fit (unknown t parameter payload) h = omega arith

pub to_bytes_lem :
    (m : Message)
    → to_bytes m ≡ (
        if ltb 0x0F (message_type m) || ltb 0x0F (parameter_and_data m).0
        then err (Error.invalid "HIDP header field")
        else ok
            (bit_or (shl8 (message_type m) 4) (parameter_and_data m).0 ∷ (parameter_and_data m).1))
to_bytes_lem m = unfold to_bytes in refl

-- What `to_bytes` writes when both header fields fit.
to_bytes_fits :
    (m : Message)
    → message_type m ≤ 15
    → (parameter_and_data m).0 ≤ 15
    → to_bytes m
      ≡ ok (bit_or (shl8 (message_type m) 4) (parameter_and_data m).0 ∷ (parameter_and_data m).1)
to_bytes_fits m ht hp =
    rw (to_bytes_lem m) (rw (le→ltb 15 (message_type m) ht, le→ltb 15 (parameter_and_data m).0 hp))

-- A canonical message is written, and what was written is read back as that message.
pub from_bytes-to_bytes :
    (m : Message)
    → IsCanonical m
    → (bytes : List ℕ) × (to_bytes m ≡ ok bytes) × (from_bytes bytes ≡ ok m)
from_bytes-to_bytes m h =
    let (ht, hp) = canonical_fit m h in
    (
      bit_or (shl8 (message_type m) 4) (parameter_and_data m).0 ∷ (parameter_and_data m).1,
      to_bytes_fits m ht hp,
      from_bytes-header (message_type m) (parameter_and_data m).0 (parameter_and_data m).1 ht hp
          ∙ message_fields-parameter_and_data m h,
    )
