-- ===== src/Sdp.antt =====
-- Data elements of the Service Discovery Protocol (src/sdp/mod.rs).
pub mod Numbers
pub mod Utf8
pub mod Writer
pub mod Parser
pub mod RoundTrip
pub mod Bounds
pub mod Accepted
pub mod Attributes
pub mod Examples
use swbt_bumble_backend.Base.{ℕ, Bool, List}

-- `i128`, as in the library, over the numbers used here.
pub data ℤ : Type 0 where
  pos : ℕ → ℤ
  negsuc : ℕ → ℤ

-- The texts of the source's messages.
pub data Reason : Type 0 where
  offset_exceeds : (offset length : ℕ) → Reason
  truncated_size : (width : ℕ) → Reason
  runs_past_end : (size start : ℕ) → Reason
  bad_uuid : (length : ℕ) → Reason
  nesting_exceeded overran bad_url : Reason
  unsupported_type : ℕ → Reason
  invalid_data_size : ℕ → Reason
  invalid_value_size : ℕ → Reason
  unsigned_too_large : (value size : ℕ) → Reason
  signed_out_of_range : (value : ℤ) (size : ℕ) → Reason

pub data Error : Type 0 where
  invalid_packet : Reason → Error
  invalid_argument : Reason → Error

-- A UUID is its bytes in little-endian order, a URL its bytes in UTF-8.
mutual
  pub data DataElement : Type 0 where
    nil : DataElement
    unsigned_integer : (value size : ℕ) → DataElement
    signed_integer : (value : ℤ) (size : ℕ) → DataElement
    uuid : List ℕ → DataElement
    text_string : List ℕ → DataElement
    boolean : Bool → DataElement
    sequence : Elements → DataElement
    alternative : Elements → DataElement
    url : List ℕ → DataElement

  pub data Elements : Type 0 where
    end : Elements
    element : DataElement → Elements → Elements
