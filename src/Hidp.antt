-- ===== src/Hidp.antt =====
-- The HIDP message codec of src/hidp.rs: `Message`, `to_bytes` and `from_bytes`. The newtypes over
-- `u8` (`ReportType`, `Handshake`, ...) are numbers; a byte string is a list of numbers.
pub mod Handshake
pub mod GetSetReturn
pub mod MessageType
pub mod RoundTrip
pub mod Parse
pub mod Device
pub mod Host
mod Examples
use swbt_bumble_backend.Base.{
  ℕ, ◌+◌, ◌-◌, ◌%◌, ◌<◌, ◌≤◌, Bool, ◌||◌, Option, none, some, List, [], ◌∷◌, ◌++◌, String, bit_and,
  bit_or, ltb, ◌==◌, if◌then◌else◌, length, shr, shl8, has_bits, u16_to_le, u16_from_le, Result, ok,
  err, ◌>>=◌, ◌>>◌,
}

pub data Error : Type 0 where
  truncated : String → Error
  invalid : String → Error
  trailing_bytes : ℕ → Error

pub data Message : Type 0 where
  handshake : ℕ → Message
  control : ℕ → Message
  get_report : (report_type report_id : ℕ) (buffer_size : Option ℕ) → Message
  set_report : (report_type : ℕ) (payload : List ℕ) → Message
  get_protocol : Message
  set_protocol : ℕ → Message
  data_report : (report_type : ℕ) (payload : List ℕ) → Message
  unknown : (message_type parameter : ℕ) (payload : List ℕ) → Message

unfoldable pub message_type : Message → ℕ
message_type (handshake _) = MessageType.handshake
message_type (control _) = MessageType.control
message_type (get_report _ _ _) = MessageType.get_report
message_type (set_report _ _) = MessageType.set_report
message_type get_protocol = MessageType.get_protocol
message_type (set_protocol _) = MessageType.set_protocol
message_type (data_report _ _) = MessageType.data_message
message_type (unknown t _ _) = t

-- The pair `(parameter, data)` that `to_bytes` computes first.
unfoldable pub parameter_and_data : Message → ℕ × List ℕ
parameter_and_data (handshake result) = (result, [])
parameter_and_data (control command) = (command, [])
parameter_and_data (get_report t id none) = (t, id ∷ [])
parameter_and_data (get_report t id (some size)) = (bit_or 0x08 t, id ∷ u16_to_le size)
parameter_and_data (set_report t payload) = (t, payload)
parameter_and_data get_protocol = (0, [])
parameter_and_data (set_protocol mode) = (mode, [])
parameter_and_data (data_report t payload) = (t, payload)
parameter_and_data (unknown _ parameter payload) = (parameter, payload)

unfoldable pub to_bytes : Message → Result Error (List ℕ)
unfolding message_type parameter_and_data
to_bytes m =
    let (parameter, payload) = parameter_and_data m in
    if ltb 0x0F (message_type m) || ltb 0x0F parameter
    then err (invalid "HIDP header field")
    else ok (bit_or (shl8 (message_type m) 4) parameter ∷ payload)

unfoldable pub exact_empty : List ℕ → Result Error (Unit {0})
exact_empty [] = ok tt
exact_empty (b ∷ bs) = err (trailing_bytes (length (b ∷ bs)))

-- `data.get(1..3)` and the length test behind it; the list is what follows the report id.
unfoldable pub buffer_size_field : List ℕ → Result Error (Option ℕ)
buffer_size_field [] = err (truncated "HIDP report buffer size")
buffer_size_field (_ ∷ []) = err (truncated "HIDP report buffer size")
buffer_size_field (lo ∷ hi ∷ []) = ok (some (u16_from_le lo hi))
buffer_size_field (_ ∷ _ ∷ b ∷ more) = err (trailing_bytes (length (b ∷ more)))

unfoldable pub no_buffer_size : List ℕ → Result Error (Option ℕ)
no_buffer_size [] = ok none
no_buffer_size (b ∷ more) = err (trailing_bytes (length (b ∷ more)))

unfoldable pub get_report_fields : ℕ → List ℕ → Result Error Message
unfolding buffer_size_field no_buffer_size
get_report_fields parameter [] = err (truncated "HIDP report ID")
get_report_fields parameter (report_id ∷ rest) = do
  buffer_size ← if has_bits parameter 0x08 then buffer_size_field rest else no_buffer_size rest
  ok (get_report (bit_and parameter 3) report_id buffer_size)

-- The `match message_type` of `from_bytes`.
unfoldable pub message_fields : ℕ → ℕ → List ℕ → Result Error Message
unfolding exact_empty get_report_fields
message_fields t parameter rest =
    if t == MessageType.handshake
    then exact_empty rest >> ok (handshake parameter)
    else if t == MessageType.control
    then exact_empty rest >> ok (control parameter)
    else if t == MessageType.get_report
    then get_report_fields parameter rest
    else if t == MessageType.set_report
    then ok (set_report (bit_and parameter 3) rest)
    else if t == MessageType.get_protocol
    then exact_empty rest >> ok get_protocol
    else if t == MessageType.set_protocol
    then exact_empty rest >> ok (set_protocol (bit_and parameter 1))
    else if t == MessageType.data_message
    then ok (data_report (bit_and parameter 3) rest)
    else ok (unknown t parameter rest)

unfoldable pub from_bytes : List ℕ → Result Error Message
unfolding message_fields
from_bytes [] = err (truncated "HIDP header")
from_bytes (header ∷ rest) = message_fields (shr header 4) (bit_and header 0x0F) rest
