-- ===== src/Hci/Frames.antt =====
-- What src/hci.rs writes it reads back, and it reads nothing else.
use swbt_bumble_backend.Base.{
  ℕ, ◌+◌, ◌*◌, ◌/◌, ◌%◌, ◌≤◌, ◌≡◌, ap, arith, List, [], ◌∷◌, bit_and, bit_or, length, All, IsByte,
  IsU16, shl16, ok, map_ok, OnOk, OnOk-ok, map_ok-OnOk,
}
use swbt_bumble_backend.Base.Bits.{bit_or_fields, bit_and_mask}
use swbt_bumble_backend.Hci.{
  CommandPacket, EventPacket, AclPacket, Packet, command, event, acl, packet_from_bytes,
  packet_to_bytes, command_from_bytes, command_to_bytes, event_from_bytes, event_to_bytes,
  acl_from_bytes, acl_to_bytes,
}

-- The packets that the constructors `new` let through, with fields of their declared widths.
abbrev pub IsPacket : Packet → Type 0
IsPacket (command p) = IsU16 p.opcode × (length p.parameters ≤ 255)
IsPacket (event p) = length p.parameters ≤ 255
IsPacket (acl p) =
    (p.connection_handle ≤ 0x0FFF)
    × (p.packet_boundary ≤ 3)
    × (p.broadcast_flag ≤ 3)
    × (length p.payload ≤ 65535)

command_read :
    (p : CommandPacket) → IsPacket (command p) → command_from_bytes (command_to_bytes p) ≡ ok p
unfolding command_from_bytes command_to_bytes
command_read p h = ground arith

event_read : (p : EventPacket) → IsPacket (event p) → event_from_bytes (event_to_bytes p) ≡ ok p
unfolding event_from_bytes event_to_bytes
event_read p h = ground arith

-- The three fields of an ACL header do not overlap.
acl_header :
    (handle boundary flag : ℕ)
    → handle ≤ 0x0FFF
    → boundary ≤ 3
    → flag ≤ 3
    → bit_or (bit_or handle (shl16 boundary 12)) (shl16 flag 14)
      ≡ handle + boundary * 4096 + flag * 16384
acl_header handle boundary flag hh hb hf = ground (
  arith,
  bit_or_fields 12 handle boundary (omega arith),
  bit_or_fields 14 (handle + boundary * 4096) flag (omega arith),
)

handle_bits : (x : ℕ) → bit_and x 0x0FFF ≡ x % 4096
handle_bits x = bit_and_mask 12 x

two_bits : (x : ℕ) → bit_and x 3 ≡ x % 4
two_bits x = bit_and_mask 2 x

acl_read : (p : AclPacket) → IsPacket (acl p) → acl_from_bytes (acl_to_bytes p) ≡ ok p
unfolding acl_from_bytes acl_to_bytes
acl_read p h =
    let header = p.connection_handle + p.packet_boundary * 4096 + p.broadcast_flag * 16384 in
    rw (acl_header p.connection_handle p.packet_boundary p.broadcast_flag h.0 h.1 h.2)
      (ground (arith, handle_bits header, two_bits (header / 4096), two_bits (header / 16384)))

-- Every packet is read back from its bytes.
pub packet_from_bytes-packet_to_bytes :
    (p : Packet) → IsPacket p → packet_from_bytes (packet_to_bytes p) ≡ ok p
unfolding packet_from_bytes packet_to_bytes
packet_from_bytes-packet_to_bytes (command p) h = ap (map_ok command) (command_read p h)
packet_from_bytes-packet_to_bytes (event p) h = ap (map_ok event) (event_read p h)
packet_from_bytes-packet_to_bytes (acl p) h = ap (map_ok acl) (acl_read p h)

command_written :
    (bytes : List ℕ) (p : CommandPacket)
    → All IsByte bytes
    → command_from_bytes bytes ≡ ok p
    → (command_to_bytes p ≡ bytes) × IsPacket (command p)
unfolding command_from_bytes command_to_bytes
command_written [] p h e = cc
command_written (t ∷ []) p h e = ground arith
command_written (t ∷ lo ∷ []) p h e = ground arith
command_written (t ∷ lo ∷ hi ∷ []) p h e = ground arith
command_written (t ∷ lo ∷ hi ∷ n ∷ rest) p h e = ground arith

event_written :
    (bytes : List ℕ) (p : EventPacket)
    → All IsByte bytes
    → event_from_bytes bytes ≡ ok p
    → (event_to_bytes p ≡ bytes) × IsPacket (event p)
unfolding event_from_bytes event_to_bytes
event_written [] p h e = cc
event_written (t ∷ []) p h e = ground arith
event_written (t ∷ code ∷ []) p h e = ground arith
event_written (t ∷ code ∷ n ∷ rest) p h e = ground arith

acl_written_fields :
    (t lo hi size_lo size_hi : ℕ) (rest : List ℕ) (p : AclPacket)
    → All IsByte (t ∷ lo ∷ hi ∷ size_lo ∷ size_hi ∷ rest)
    → acl_from_bytes (t ∷ lo ∷ hi ∷ size_lo ∷ size_hi ∷ rest) ≡ ok p
    → (t ≡ 2)
      × (p.connection_handle ≡ (lo + hi * 256) % 4096)
      × (p.packet_boundary ≡ (lo + hi * 256) / 4096 % 4)
      × (p.broadcast_flag ≡ (lo + hi * 256) / 16384 % 4)
      × (p.payload ≡ rest)
      × (length rest ≡ size_lo + size_hi * 256)
unfolding acl_from_bytes
acl_written_fields t lo hi size_lo size_hi rest p h e =
    let header = lo + hi * 256 in
    ground (arith, handle_bits header, two_bits (header / 4096), two_bits (header / 16384))

acl_to_bytes_fields :
    (lo hi size_lo size_hi : ℕ) (rest : List ℕ) (p : AclPacket)
    → All IsByte (lo ∷ hi ∷ size_lo ∷ size_hi ∷ [])
    → p.connection_handle ≡ (lo + hi * 256) % 4096
    → p.packet_boundary ≡ (lo + hi * 256) / 4096 % 4
    → p.broadcast_flag ≡ (lo + hi * 256) / 16384 % 4
    → p.payload ≡ rest
    → length rest ≡ size_lo + size_hi * 256
    → (acl_to_bytes p ≡ 2 ∷ lo ∷ hi ∷ size_lo ∷ size_hi ∷ rest) × IsPacket (acl p)
unfolding acl_to_bytes
acl_to_bytes_fields lo hi size_lo size_hi rest p h handle boundary flag payload size =
    ground (arith, acl_header p.connection_handle p.packet_boundary p.broadcast_flag)

acl_written :
    (bytes : List ℕ) (p : AclPacket)
    → All IsByte bytes
    → acl_from_bytes bytes ≡ ok p
    → (acl_to_bytes p ≡ bytes) × IsPacket (acl p)
acl_written [] p h e = unfold acl_from_bytes in cc
acl_written (t ∷ []) p h e = unfold acl_from_bytes in ground arith
acl_written (t ∷ lo ∷ []) p h e = unfold acl_from_bytes in ground arith
acl_written (t ∷ lo ∷ hi ∷ []) p h e = unfold acl_from_bytes in ground arith
acl_written (t ∷ lo ∷ hi ∷ size_lo ∷ []) p h e = unfold acl_from_bytes in ground arith
acl_written (t ∷ lo ∷ hi ∷ size_lo ∷ size_hi ∷ rest) p h e =
    let (kind, handle, boundary, flag, payload, size) =
      acl_written_fields t lo hi size_lo size_hi rest p h e in
    rw kind (
      acl_to_bytes_fields lo hi size_lo size_hi rest p (omega arith) handle boundary flag payload
        size)

abbrev Written : List ℕ → Packet → Type 0
Written bytes p = (packet_to_bytes p ≡ bytes) × IsPacket p

packet_from_bytes-Written :
    (bytes : List ℕ) → All IsByte bytes → OnOk (Written bytes) (packet_from_bytes bytes)
unfolding packet_from_bytes packet_to_bytes
packet_from_bytes-Written [] h = tt
packet_from_bytes-Written (t ∷ rest) h = ground (
  arith,
  map_ok-OnOk (Written (t ∷ rest)) command (command_from_bytes (t ∷ rest))
      (λ p e. command_written (t ∷ rest) p h e),
  map_ok-OnOk (Written (t ∷ rest)) event (event_from_bytes (t ∷ rest))
      (λ p e. event_written (t ∷ rest) p h e),
  map_ok-OnOk (Written (t ∷ rest)) acl (acl_from_bytes (t ∷ rest))
      (λ p e. acl_written (t ∷ rest) p h e),
)

-- A packet is accepted from nothing but the bytes that it is written as, and is in range.
pub packet_to_bytes-packet_from_bytes :
    (bytes : List ℕ) (p : Packet)
    → All IsByte bytes
    → packet_from_bytes bytes ≡ ok p
    → (packet_to_bytes p ≡ bytes) × IsPacket p
packet_to_bytes-packet_from_bytes bytes p h e =
    OnOk-ok (Written bytes) e (packet_from_bytes-Written bytes h)
