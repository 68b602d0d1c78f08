-- ===== src/Hci/Acl.antt =====
-- `fragment_l2cap_pdu` and `AclAssembler` of src/hci.rs: an L2CAP frame cut into ACL packets, and
-- put together again for each connection handle.
pub mod Feed
pub mod Steps
pub mod Reassembly
use swbt_bumble_backend.Base.{
  ℕ, suc, ◌+◌, Bool, ◌||◌, not, Option, none, some, List, [], ◌∷◌, ◌++◌, ltb, ◌==◌, if◌then◌else◌,
  length, u16_from_le, Result, ok, err, ◌>>=◌, ◌>>◌, fail_if, chunks, Map, lookup, insert, remove,
}
use swbt_bumble_backend.Hci.{
  CodecError, invalid_l2cap_pdu, unexpected_continuation, continuation_overflow, AclPacket, new_acl,
}

abbrev pub acl_first_non_flushable : ℕ
acl_first_non_flushable = 0

abbrev pub acl_continuation : ℕ
acl_continuation = 1

abbrev pub acl_first_flushable : ℕ
acl_first_flushable = 2

-- The length that an L2CAP frame declares in its first two bytes.
abbrev pub declared_length : List ℕ → ℕ
declared_length (lo ∷ hi ∷ _) = u16_from_le lo hi
declared_length _ = 0

-- The closure that `fragment_l2cap_pdu` maps over the numbered chunks.
unfoldable pub fragment : (handle flag index : ℕ) → Bool → List ℕ → Result CodecError AclPacket
unfolding new_acl
fragment handle flag index flushable piece =
    let boundary =
      if index == 0
      then (if flushable then acl_first_flushable else acl_first_non_flushable)
      else acl_continuation in
    new_acl handle boundary flag piece

-- `enumerate`, `map` and `collect` from chunk `index` on: the first error ends it.
unfoldable pub fragments :
    (handle flag index : ℕ) → Bool → List (List ℕ) → Result CodecError (List AclPacket)
unfolding fragment
fragments handle flag index flushable [] = ok []
fragments handle flag index flushable (piece ∷ pieces) =
    let rest = fragments handle flag (suc index) flushable pieces in
    fragment handle flag index flushable piece >>= λ p. rest >>= λ ps. ok (p ∷ ps)

unfoldable pub fragment_l2cap_pdu :
    (handle flag acl_payload_size : ℕ) → List ℕ → Bool → Result CodecError (List AclPacket)
unfolding fragments
fragment_l2cap_pdu handle flag acl_payload_size pdu flushable = do
  fail_if (acl_payload_size == 0 || ltb (length pdu) 4) invalid_l2cap_pdu
  fail_if (not (declared_length pdu + 4 == length pdu)) invalid_l2cap_pdu
  fragments handle flag 0 flushable (chunks acl_payload_size pdu)

pub record PendingAcl : Type 0 where
  pub expected : ℕ
  pub received : List ℕ

-- `AclAssembler`, whose one field is the map of the pending frames.
abbrev pub AclAssembler : Type 0
AclAssembler = Map PendingAcl

abbrev pub Fed : Type 0
Fed = AclAssembler × Result CodecError (Option (List ℕ))

-- A continuation joins the frame that its handle has begun.
unfoldable pub feed_continuation : AclAssembler → AclPacket → Option PendingAcl → Fed
feed_continuation s p none = (s, err (unexpected_continuation p.connection_handle))
feed_continuation s p (some pending) =
    let joined = pending.received ++ p.payload in
    if ltb pending.expected (length joined)
    then (
      remove p.connection_handle s,
      err (continuation_overflow pending.expected (length joined)),
    )
    else if length joined == pending.expected
    then (remove p.connection_handle s, ok (some joined))
    else (
      insert p.connection_handle (record { expected = pending.expected; received = joined }) s,
      ok none,
    )

-- A first fragment begins a frame, or is one.
unfoldable pub feed_first : AclAssembler → AclPacket → Fed
feed_first s p =
    let expected = declared_length p.payload + 4 in
    if ltb (length p.payload) 4
    then (s, err invalid_l2cap_pdu)
    else if ltb expected (length p.payload)
    then (s, err (continuation_overflow expected (length p.payload)))
    else if length p.payload == expected
    then (remove p.connection_handle s, ok (some p.payload))
    else (
      insert p.connection_handle (record { expected = expected; received = p.payload }) s,
      ok none,
    )

unfoldable pub feed : AclAssembler → AclPacket → Fed
unfolding feed_continuation feed_first
feed s p =
    if p.packet_boundary == acl_continuation
    then feed_continuation s p (lookup p.connection_handle s)
    else feed_first s p

unfoldable pub clear_handle : AclAssembler → ℕ → AclAssembler
clear_handle s handle = remove handle s
