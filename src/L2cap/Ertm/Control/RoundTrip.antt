-- ===== src/L2cap/Ertm/Control/RoundTrip.antt =====
-- The control field of src/l2cap/ertm.rs: what is written is read back.
use swbt_bumble_backend.Base.{
  ℕ, ◌<◌, ◌≡◌, refl, ◌∙◌, ap, length, arith, Bool, true, false, List, [], ◌∷◌, ◌++◌, bit_and,
  bit_or, ◌==◌, shr, shl8, from_bool, has_bits, ok, all_below, all_below_sound, ◌&&◌,
}
use swbt_bumble_backend.Base.Bits.{bit_and_mask}
use swbt_bumble_backend.L2cap.Ertm.Control.{
  SegmentationAndReassembly, unsegmented, start, end, continuation, SupervisoryFunction,
  receiver_ready, reject, receiver_not_ready, selective_reject, sar_code, function_code,
  sar_try_from, EnhancedControlField, information, supervisory, from_bytes, to_bytes, req_seq,
}

-- Both sequence numbers fit six bits.
abbrev pub IsInRange : EnhancedControlField → Type 0
IsInRange (information tx_seq final_bit req_seq sar) = (tx_seq < 64) × (req_seq < 64)
IsInRange (supervisory function poll final_bit req_seq) = req_seq < 64

-- The first byte of an information frame, for every sequence number.
abbrev first_byte : Bool → ℕ → ℕ
first_byte final_bit tx_seq = bit_or (shl8 tx_seq 1) (shl8 (from_bool final_bit) 7)

abbrev first_byte_reads : Bool → ℕ → Bool
first_byte_reads final_bit tx_seq =
    let b = first_byte final_bit tx_seq in
    (bit_and b 1 == 0)
    && (bit_and (shr b 1) 0x3f == tx_seq)
    && (from_bool (has_bits b 0x80) == from_bool final_bit)

first_byte_table : (final_bit : Bool) → all_below 64 (first_byte_reads final_bit) ≡ true
unfolding all_below
first_byte_table true = refl
first_byte_table false = refl

from_bool-injective : (a b : Bool) → from_bool a ≡ from_bool b → a ≡ b
from_bool-injective a b h = ground arith

first_byte_lem :
    (final_bit : Bool) (tx_seq : ℕ)
    → tx_seq < 64
    → let b = first_byte final_bit tx_seq in
      (bit_and b 1 ≡ 0) × (bit_and (shr b 1) 0x3f ≡ tx_seq) × (has_bits b 0x80 ≡ final_bit)
first_byte_lem final_bit tx_seq h =
    let read =
      all_below_sound 64 (first_byte_reads final_bit) (first_byte_table final_bit) tx_seq h in
    ground
      (arith, read, from_bool-injective (has_bits (first_byte final_bit tx_seq) 0x80) final_bit)

-- The second byte, for every sequence number.
abbrev second_byte : SegmentationAndReassembly → ℕ → ℕ
second_byte sar req_seq = bit_or req_seq (shl8 (sar_code sar) 6)

abbrev second_byte_reads : SegmentationAndReassembly → ℕ → Bool
second_byte_reads sar req_seq =
    let b = second_byte sar req_seq in (bit_and b 0x3f == req_seq) && (shr b 6 == sar_code sar)

second_byte_table : (sar : SegmentationAndReassembly) → all_below 64 (second_byte_reads sar) ≡ true
unfolding all_below sar_code
second_byte_table unsegmented = refl
second_byte_table start = refl
second_byte_table end = refl
second_byte_table continuation = refl

second_byte_lem :
    (sar : SegmentationAndReassembly) (req_seq : ℕ)
    → req_seq < 64
    → let b = second_byte sar req_seq in (bit_and b 0x3f ≡ req_seq) × (shr b 6 ≡ sar_code sar)
second_byte_lem sar req_seq h =
    let read = all_below_sound 64 (second_byte_reads sar) (second_byte_table sar) req_seq h in
    ground (arith, read)

sar_try_from-sar_code : (sar : SegmentationAndReassembly) → sar_try_from (sar_code sar) ≡ ok sar
unfolding sar_try_from sar_code
sar_try_from-sar_code unsegmented = refl
sar_try_from-sar_code start = refl
sar_try_from-sar_code end = refl
sar_try_from-sar_code continuation = refl

-- What a control field in range is written as.
information_bytes :
    (tx_seq : ℕ) (final_bit : Bool) (req_seq : ℕ) (sar : SegmentationAndReassembly)
    → tx_seq < 64
    → req_seq < 64
    → to_bytes (information tx_seq final_bit req_seq sar)
      ≡ ok (first_byte final_bit tx_seq ∷ second_byte sar req_seq ∷ [])
unfolding to_bytes
information_bytes tx_seq final_bit req_seq sar ht hr = ground arith

information_read :
    (tx_seq : ℕ) (final_bit : Bool) (req_seq : ℕ) (sar : SegmentationAndReassembly) (rest : List ℕ)
    → tx_seq < 64
    → req_seq < 64
    → from_bytes (first_byte final_bit tx_seq ∷ second_byte sar req_seq ∷ rest)
      ≡ ok (information tx_seq final_bit req_seq sar)
unfolding from_bytes
information_read tx_seq final_bit req_seq sar rest ht hr =
    let (zero_bit, transmit, flag) = first_byte_lem final_bit tx_seq ht in
    let (request, code) = second_byte_lem sar req_seq hr in
    rw (zero_bit, code, sar_try_from-sar_code sar, transmit, flag, request)

-- The first byte of a supervisory frame.
abbrev supervisory_byte : SupervisoryFunction → Bool → Bool → ℕ
supervisory_byte function poll final_bit =
    bit_or (bit_or (bit_or 1 (shl8 (function_code function) 2)) (shl8 (from_bool poll) 4))
      (shl8 (from_bool final_bit) 7)

supervisory_bytes :
    (function : SupervisoryFunction) (poll final_bit : Bool) (req_seq : ℕ)
    → req_seq < 64
    → to_bytes (supervisory function poll final_bit req_seq)
      ≡ ok (supervisory_byte function poll final_bit ∷ req_seq ∷ [])
unfolding to_bytes
supervisory_bytes function poll final_bit req_seq h = ground arith

-- The sixteen first bytes, one by one.
abbrev SupervisoryRead : SupervisoryFunction → Bool → Bool → Type 0
SupervisoryRead function poll final_bit =
    (req_seq : ℕ) (rest : List ℕ)
    → from_bytes (supervisory_byte function poll final_bit ∷ req_seq ∷ rest)
      ≡ ok (supervisory function poll final_bit (bit_and req_seq 0x3f))

supervisory_read :
    (function : SupervisoryFunction) (poll final_bit : Bool)
    → SupervisoryRead function poll final_bit
unfolding from_bytes function_code
supervisory_read receiver_ready false false r rest = refl
supervisory_read receiver_ready false true r rest = refl
supervisory_read receiver_ready true false r rest = refl
supervisory_read receiver_ready true true r rest = refl
supervisory_read reject false false r rest = refl
supervisory_read reject false true r rest = refl
supervisory_read reject true false r rest = refl
supervisory_read reject true true r rest = refl
supervisory_read receiver_not_ready false false r rest = refl
supervisory_read receiver_not_ready false true r rest = refl
supervisory_read receiver_not_ready true false r rest = refl
supervisory_read receiver_not_ready true true r rest = refl
supervisory_read selective_reject false false r rest = refl
supervisory_read selective_reject false true r rest = refl
supervisory_read selective_reject true false r rest = refl
supervisory_read selective_reject true true r rest = refl

-- A control field in range is written as two bytes, which are read back as that field, whatever
-- follows them in the frame.
pub enhanced_from_bytes-to_bytes :
    (c : EnhancedControlField) (rest : List ℕ)
    → IsInRange c
    → (header : List ℕ) × (to_bytes c ≡ ok header)
      × (length header ≡ 2)
      × (from_bytes (header ++ rest) ≡ ok c)
enhanced_from_bytes-to_bytes (information tx_seq final_bit req_seq sar) rest h = (
  first_byte final_bit tx_seq ∷ second_byte sar req_seq ∷ [],
  information_bytes tx_seq final_bit req_seq sar h.0 h.1,
  refl,
  information_read tx_seq final_bit req_seq sar rest h.0 h.1,
)
enhanced_from_bytes-to_bytes (supervisory function poll final_bit req_seq) rest h = (
  supervisory_byte function poll final_bit ∷ req_seq ∷ [],
  supervisory_bytes function poll final_bit req_seq h,
  refl,
  supervisory_read function poll final_bit req_seq rest
      ∙ ap (λ r. ok (supervisory function poll final_bit r)) (bit_and_mask 6 req_seq ∙ omega arith),
)
