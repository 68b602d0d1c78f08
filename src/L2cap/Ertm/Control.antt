-- ===== src/L2cap/Ertm/Control.antt =====
-- The enhanced control field of src/l2cap/ertm.rs: `EnhancedControlField` and its two-byte codec.
pub mod RoundTrip
use swbt_bumble_backend.Base.{
  ℕ, ◌+◌, Bool, List, [], ◌∷◌, String, bit_and, bit_or, ltb, ◌==◌, if◌then◌else◌, shr, shl8,
  from_bool, has_bits, Result, ok, err, ◌>>=◌,
}
use swbt_bumble_backend.L2cap.{
  Error, invalid_packet, truncated_control_field, invalid_sar, invalid_supervisory_function,
  sequence_out_of_range,
}

abbrev pub ertm_sequence_modulus : ℕ
ertm_sequence_modulus = 64

pub data SegmentationAndReassembly : Type 0 where
  unsegmented start end continuation : SegmentationAndReassembly

pub data SupervisoryFunction : Type 0 where
  receiver_ready reject receiver_not_ready selective_reject : SupervisoryFunction

-- `self as u8` and `TryFrom<u8>` of the two enums.
unfoldable pub sar_code : SegmentationAndReassembly → ℕ
sar_code unsegmented = 0
sar_code start = 1
sar_code end = 2
sar_code continuation = 3

unfoldable pub sar_try_from : ℕ → Result Error SegmentationAndReassembly
sar_try_from value =
    if value == 0
    then ok unsegmented
    else if value == 1
    then ok start
    else if value == 2
    then ok end
    else if value == 3
    then ok continuation
    else err (invalid_packet invalid_sar)

unfoldable pub function_code : SupervisoryFunction → ℕ
function_code receiver_ready = 0
function_code reject = 1
function_code receiver_not_ready = 2
function_code selective_reject = 3

unfoldable pub function_try_from : ℕ → Result Error SupervisoryFunction
function_try_from value =
    if value == 0
    then ok receiver_ready
    else if value == 1
    then ok reject
    else if value == 2
    then ok receiver_not_ready
    else if value == 3
    then ok selective_reject
    else err (invalid_packet invalid_supervisory_function)

pub data EnhancedControlField : Type 0 where
  information :
      (tx_seq : ℕ) (final_bit : Bool) (req_seq : ℕ)
      → SegmentationAndReassembly
      → EnhancedControlField
  supervisory : SupervisoryFunction → (poll final_bit : Bool) (req_seq : ℕ) → EnhancedControlField

unfoldable pub from_bytes : List ℕ → Result Error EnhancedControlField
unfolding sar_try_from function_try_from
from_bytes [] = err (invalid_packet truncated_control_field)
from_bytes (_ ∷ []) = err (invalid_packet truncated_control_field)
from_bytes (b0 ∷ b1 ∷ _) =
    if bit_and b0 1 == 0
    then (do
      sar ← sar_try_from (shr b1 6)
      ok (information (bit_and (shr b0 1) 0x3f) (has_bits b0 0x80) (bit_and b1 0x3f) sar))
    else (do
      function ← function_try_from (bit_and (shr b0 2) 3)
      ok (supervisory function (has_bits b0 0x10) (has_bits b0 0x80) (bit_and b1 0x3f)))

-- The closure of `to_bytes`.
unfoldable pub validate_seq : String → ℕ → Result Error ℕ
validate_seq name value =
    if ltb value ertm_sequence_modulus
    then ok value
    else err (invalid_packet (sequence_out_of_range name))

unfoldable pub to_bytes : EnhancedControlField → Result Error (List ℕ)
unfolding validate_seq sar_code function_code
to_bytes (information tx_seq final_bit req_seq sar) = do
  transmit ← validate_seq "transmit" tx_seq
  request ← validate_seq "request" req_seq
  ok (
      bit_or (shl8 transmit 1) (shl8 (from_bool final_bit) 7)
      ∷ bit_or request (shl8 (sar_code sar) 6)
      ∷ [])
to_bytes (supervisory function poll final_bit req_seq) = do
  let low = bit_or 1 (shl8 (function_code function) 2)
  request ← validate_seq "request" req_seq
  ok (bit_or (bit_or low (shl8 (from_bool poll) 4)) (shl8 (from_bool final_bit) 7) ∷ request ∷ [])

unfoldable pub req_seq : EnhancedControlField → ℕ
req_seq (information _ _ r _) = r
req_seq (supervisory _ _ _ r) = r
