-- ===== src/Hci.antt =====
-- The HCI packets of src/hci.rs: command, event and ACL frames, and their strict codec.
pub mod Frames
pub mod Acl
mod Examples
use swbt_bumble_backend.Base.{
  ℕ, ◌+◌, ◌%◌, Bool, List, [], ◌∷◌, ◌++◌, String, bit_and, bit_or, ltb, ◌==◌, if◌then◌else◌, length,
  drop, shr, shl16, u16_to_le, u16_from_le, Result, ok, err, ◌>>=◌, ◌>>◌, fail_if, map_ok,
}

pub data CodecError : Type 0 where
  empty_packet : CodecError
  unsupported_packet_type : ℕ → CodecError
  truncated : (field : String) → CodecError
  trailing_bytes : (expected actual : ℕ) → CodecError
  parameter_too_long : (actual maximum : ℕ) → CodecError
  invalid_connection_handle : ℕ → CodecError
  invalid_packet_boundary : ℕ → CodecError
  invalid_broadcast_flag : ℕ → CodecError
  invalid_l2cap_pdu : CodecError
  unexpected_continuation : (connection_handle : ℕ) → CodecError
  continuation_overflow : (expected actual : ℕ) → CodecError

abbrev pub command_packet_type : ℕ
command_packet_type = 0x01

abbrev pub acl_packet_type : ℕ
acl_packet_type = 0x02

abbrev pub event_packet_type : ℕ
event_packet_type = 0x04

abbrev pub acl_handle_mask : ℕ
acl_handle_mask = 0x0FFF

pub record CommandPacket : Type 0 where
  pub opcode : ℕ
  pub parameters : List ℕ

pub record EventPacket : Type 0 where
  pub event_code : ℕ
  pub parameters : List ℕ

pub record AclPacket : Type 0 where
  pub connection_handle : ℕ
  pub packet_boundary : ℕ
  pub broadcast_flag : ℕ
  pub payload : List ℕ

pub data Packet : Type 0 where
  command : CommandPacket → Packet
  event : EventPacket → Packet
  acl : AclPacket → Packet

unfoldable pub require_packet_type : List ℕ → ℕ → Result CodecError (Unit {0})
require_packet_type [] expected = err empty_packet
require_packet_type (actual ∷ _) expected =
    if actual == expected then ok tt else err (unsupported_packet_type actual)

unfoldable pub validate_u8_length : ℕ → Result CodecError (Unit {0})
validate_u8_length actual = if ltb 255 actual then err (parameter_too_long actual 255) else ok tt

unfoldable pub validate_exact_length : ℕ → ℕ → Result CodecError (Unit {0})
validate_exact_length actual expected =
    if ltb actual expected
    then err (truncated "payload")
    else if ltb expected actual
    then err (trailing_bytes expected actual)
    else ok tt

unfoldable pub new_command : ℕ → List ℕ → Result CodecError CommandPacket
unfolding validate_u8_length
new_command opcode parameters = do
  validate_u8_length (length parameters)
  ok (record { opcode = opcode; parameters = parameters })

unfoldable pub new_event : ℕ → List ℕ → Result CodecError EventPacket
unfolding validate_u8_length
new_event event_code parameters = do
  validate_u8_length (length parameters)
  ok (record { event_code = event_code; parameters = parameters })

unfoldable pub new_acl : ℕ → ℕ → ℕ → List ℕ → Result CodecError AclPacket
new_acl handle boundary flag payload = do
  fail_if (ltb acl_handle_mask handle) (invalid_connection_handle handle)
  fail_if (ltb 0x0003 boundary) (invalid_packet_boundary boundary)
  fail_if (ltb 0x0003 flag) (invalid_broadcast_flag flag)
  fail_if (ltb 65535 (length payload)) (parameter_too_long (length payload) 65535)
  ok (record {
    connection_handle = handle;
    packet_boundary = boundary;
    broadcast_flag = flag;
    payload = payload;
  })

-- The part of `CommandPacket::from_bytes` behind the type test; the packet is at least that long.
unfoldable pub command_fields : List ℕ → Result CodecError CommandPacket
unfolding validate_exact_length new_command
command_fields (t ∷ lo ∷ hi ∷ n ∷ rest) = do
  validate_exact_length (length (t ∷ lo ∷ hi ∷ n ∷ rest)) (4 + n)
  new_command (u16_from_le lo hi) rest
command_fields _ = err (truncated "command")

unfoldable pub command_from_bytes : List ℕ → Result CodecError CommandPacket
unfolding require_packet_type command_fields
command_from_bytes packet = do require_packet_type packet command_packet_type; command_fields packet

unfoldable pub command_to_bytes : CommandPacket → List ℕ
command_to_bytes p =
    (command_packet_type ∷ u16_to_le p.opcode) ++ ((length p.parameters % 256) ∷ p.parameters)

unfoldable pub event_fields : List ℕ → Result CodecError EventPacket
unfolding validate_exact_length new_event
event_fields (t ∷ code ∷ n ∷ rest) = do
  validate_exact_length (length (t ∷ code ∷ n ∷ rest)) (3 + n)
  new_event code rest
event_fields _ = err (truncated "event")

unfoldable pub event_from_bytes : List ℕ → Result CodecError EventPacket
unfolding require_packet_type event_fields
event_from_bytes packet = do require_packet_type packet event_packet_type; event_fields packet

unfoldable pub event_to_bytes : EventPacket → List ℕ
event_to_bytes p = event_packet_type ∷ p.event_code ∷ (length p.parameters % 256) ∷ p.parameters

unfoldable pub acl_fields : List ℕ → Result CodecError AclPacket
unfolding validate_exact_length new_acl
acl_fields (t ∷ lo ∷ hi ∷ size_lo ∷ size_hi ∷ rest) = do
  let header = u16_from_le lo hi
  validate_exact_length (length (t ∷ lo ∷ hi ∷ size_lo ∷ size_hi ∷ rest))
      (5 + u16_from_le size_lo size_hi)
  new_acl (bit_and header acl_handle_mask) (bit_and (shr header 12) 3) (bit_and (shr header 14) 3)
      rest
acl_fields _ = err (truncated "ACL packet")

unfoldable pub acl_from_bytes : List ℕ → Result CodecError AclPacket
unfolding require_packet_type acl_fields
acl_from_bytes packet = do require_packet_type packet acl_packet_type; acl_fields packet

unfoldable pub acl_to_bytes : AclPacket → List ℕ
acl_to_bytes p =
    let header =
      bit_or (bit_or p.connection_handle (shl16 p.packet_boundary 12))
        (shl16 p.broadcast_flag 14) in
    (acl_packet_type ∷ u16_to_le header) ++ (u16_to_le (length p.payload % 65536) ++ p.payload)

-- `Packet::from_bytes`.
unfoldable pub packet_from_bytes : List ℕ → Result CodecError Packet
unfolding command_from_bytes event_from_bytes acl_from_bytes
packet_from_bytes [] = err empty_packet
packet_from_bytes (t ∷ rest) =
    if t == command_packet_type
    then map_ok command (command_from_bytes (t ∷ rest))
    else if t == event_packet_type
    then map_ok event (event_from_bytes (t ∷ rest))
    else if t == acl_packet_type
    then map_ok acl (acl_from_bytes (t ∷ rest))
    else err (unsupported_packet_type t)

unfoldable pub packet_to_bytes : Packet → List ℕ
unfolding command_to_bytes event_to_bytes acl_to_bytes
packet_to_bytes (command p) = command_to_bytes p
packet_to_bytes (event p) = event_to_bytes p
packet_to_bytes (acl p) = acl_to_bytes p
