-- ===== src/Hci/Examples.antt =====
-- Runs of the HCI codec and the assembler (after the tests of src/hci.rs), and the theorems at
-- concrete inputs.
use swbt_bumble_backend.Base.{
  ℕ, ◌⊎◌, ◌≡◌, refl, arith, true, none, List, [], ◌∷◌, ok, err, lookup, ◌==◌, if◌then◌else◌,
}
use swbt_bumble_backend.Hci.{
  unexpected_continuation, unsupported_packet_type, trailing_bytes, Packet, command, acl, AclPacket,
  packet_from_bytes, packet_to_bytes,
}
use swbt_bumble_backend.Hci.Frames.{
  IsPacket, packet_from_bytes-packet_to_bytes, packet_to_bytes-packet_from_bytes,
}
use swbt_bumble_backend.Hci.Acl.{AclAssembler, fragment_l2cap_pdu, feed}
use swbt_bumble_backend.Hci.Acl.Feed.{IsValid, Yields, feed-IsValid}
use swbt_bumble_backend.Hci.Acl.Steps.{feed_all}
use swbt_bumble_backend.Hci.Acl.Reassembly.{reassembly}

abbrev reset : Packet
reset = command (record { opcode = 0x0C03; parameters = [] })

reset_bytes : packet_to_bytes reset ≡ 0x01 ∷ 0x03 ∷ 0x0c ∷ 0x00 ∷ []
unfolding packet_to_bytes
reset_bytes = refl

sco_refused : packet_from_bytes (0x03 ∷ 0 ∷ 0 ∷ 0 ∷ []) ≡ err (unsupported_packet_type 0x03)
unfolding packet_from_bytes
sco_refused = refl

length_mismatch : packet_from_bytes (0x04 ∷ 0x0e ∷ 1 ∷ 7 ∷ 8 ∷ []) ≡ err (trailing_bytes 4 5)
unfolding packet_from_bytes
length_mismatch = refl

abbrev acl_bytes : List ℕ
acl_bytes = 0x02 ∷ 0x42 ∷ 0x20 ∷ 0x01 ∷ 0x00 ∷ 9 ∷ []

abbrev acl_packet : AclPacket
acl_packet = record {
  connection_handle = 0x42;
  packet_boundary = 2;
  broadcast_flag = 0;
  payload = 9 ∷ [];
}

acl_parsed : packet_from_bytes acl_bytes ≡ ok (acl acl_packet)
unfolding packet_from_bytes
acl_parsed = refl

-- A frame of six payload bytes in packets of four.
abbrev pdu : List ℕ
pdu = 6 ∷ 0 ∷ 0x40 ∷ 0 ∷ 1 ∷ 2 ∷ 3 ∷ 4 ∷ 5 ∷ 6 ∷ []

abbrev busy : AclAssembler
busy = (0x42, record { expected = 9; received = 5 ∷ 0 ∷ 0x41 ∷ 0 ∷ [] }) ∷ []

abbrev stray : AclPacket
stray = record { connection_handle = 7; packet_boundary = 1; broadcast_flag = 0; payload = 1 ∷ [] }

stray_refused : feed busy stray ≡ (busy, err (unexpected_continuation 7))
unfolding feed
stray_refused = refl

packet_from_bytes-packet_to_bytes_example :
    packet_from_bytes (packet_to_bytes (acl acl_packet)) ≡ ok (acl acl_packet)
packet_from_bytes-packet_to_bytes_example =
    packet_from_bytes-packet_to_bytes (acl acl_packet) (omega arith)

packet_to_bytes-packet_from_bytes_example :
    (packet_to_bytes (acl acl_packet) ≡ acl_bytes) × IsPacket (acl acl_packet)
packet_to_bytes-packet_from_bytes_example =
    packet_to_bytes-packet_from_bytes acl_bytes (acl acl_packet) (omega arith) acl_parsed

busy-IsValid : IsValid busy
unfolding IsValid
busy-IsValid handle p e = ground arith

feed-IsValid_example :
    IsValid (feed busy acl_packet).0
    × Yields (feed busy acl_packet).1
    × ((handle : ℕ)
        → (handle ≡ acl_packet.connection_handle)
          ⊎ (lookup handle (feed busy acl_packet).0 ≡ lookup handle busy))
feed-IsValid_example = feed-IsValid busy acl_packet busy-IsValid

reassembly_example :
    (packets : List AclPacket) × (fragment_l2cap_pdu 0x42 0 4 pdu true ≡ ok packets)
    × ((feed_all busy packets).1 ≡ ok (pdu ∷ []))
    × ((j : ℕ) → lookup j (feed_all busy packets).0 ≡ (if j == 0x42 then none else lookup j busy))
reassembly_example =
    reassembly busy 0x42 0 4 pdu true (omega arith) (omega arith) (omega arith) (omega arith)
      (omega arith)
