-- ===== src/Hci/Acl/Reassembly.antt =====
-- A frame that `fragment_l2cap_pdu` of src/hci.rs cut is put together again by `AclAssembler::feed`.
use swbt_bumble_backend.Base.{
  ℕ, zero, suc, ◌+◌, ◌<◌, ◌≤◌, ◌≡◌, ◌≢◌, refl, ap, ◌∙◌, arith, Bool, none, some, List, [], ◌∷◌,
  ◌++◌, length, ok, lookup, insert, lookup-insert, lookup-remove, ◌==◌, if◌then◌else◌, take,
  length-take, All, chunks, concat, concat-chunks, chunks-IsChunk, IsChunk,
}
use mathlib.Core.List.{append_assoc, append-nil}
use swbt_bumble_backend.Hci.{AclPacket}
use swbt_bumble_backend.Hci.Acl.{
  declared_length, PendingAcl, AclAssembler, acl_continuation, acl_first_flushable,
  acl_first_non_flushable, fragments, fragment_l2cap_pdu,
}
use swbt_bumble_backend.Hci.Acl.Feed.{IsPdu, declared-append}
use swbt_bumble_backend.Hci.Acl.Steps.{
  feed_all, feed_last, feed_more, feed_whole, feed_begin, shorter,
}

module _ (handle flag : ℕ) (flushable : Bool) where
  -- The packets that stand for the chunks, from chunk `index` on.
  abbrev boundary_at : ℕ → ℕ
  boundary_at zero = if flushable then acl_first_flushable else acl_first_non_flushable
  boundary_at (suc index) = acl_continuation

  abbrev packet_at : ℕ → List ℕ → AclPacket
  packet_at index piece = record {
    connection_handle = handle;
    packet_boundary = boundary_at index;
    broadcast_flag = flag;
    payload = piece;
  }

  boundary_at_zero : boundary_at 0 ≢ acl_continuation
  boundary_at_zero = ground arith

  -- Where the handle's entry is dropped, it does not matter what it was.
  forget :
      (s : AclAssembler) (p : PendingAcl) (j : ℕ)
      → (if j == handle then none else lookup j (insert handle p s))
        ≡ (if j == handle then none else lookup j s)
  forget s p j = ground (arith, lookup-insert j handle p s)

  packets_from : ℕ → List (List ℕ) → List AclPacket
  packets_from index [] = []
  packets_from index (piece ∷ pieces) = packet_at index piece ∷ packets_from (suc index) pieces

  fragments-packets_from :
      (size index : ℕ) (pieces : List (List ℕ))
      → handle ≤ 0x0FFF
      → flag ≤ 3
      → size ≤ 65535
      → All (IsChunk size) pieces
      → fragments handle flag index flushable pieces ≡ ok (packets_from index pieces)
  unfolding fragments packets_from
  fragments-packets_from size index [] hh hf hs h = refl
  fragments-packets_from size zero (piece ∷ pieces) hh hf hs h =
      ground (arith, fragments-packets_from size 1 pieces hh hf hs h.1)
  fragments-packets_from size (suc index) (piece ∷ pieces) hh hf hs h =
      ground (arith, fragments-packets_from size (suc (suc index)) pieces hh hf hs h.1)

  -- Fed to `s`, the packets yield the frame, and clear the handle's entry alone.
  abbrev Delivers : AclAssembler → List ℕ → List AclPacket → Type 0
  Delivers s pdu packets =
      ((feed_all s packets).1 ≡ ok (pdu ∷ []))
      × ((j : ℕ) → lookup j (feed_all s packets).0 ≡ (if j == handle then none else lookup j s))

  continue_Delivers :
      (s : AclAssembler) (pdu received piece : List ℕ) (pieces : List (List ℕ)) (index size : ℕ)
      → lookup handle s ≡ some (record { expected = length pdu; received = received })
      → received ++ concat (piece ∷ pieces) ≡ pdu
      → All (IsChunk size) pieces
      → Delivers s pdu (packets_from (suc index) (piece ∷ pieces))
  unfolding feed_all packets_from
  continue_Delivers s pdu received piece [] index size found whole h =
      let joined : received ++ piece ≡ pdu = rw append-nil at whole in
      rw
        (feed_last s (packet_at (suc index) piece) (length pdu) received refl found
          (ap length joined))
        (ap (λ x. ok (x ∷ [])) joined, λ j. lookup-remove j handle s)
  continue_Delivers s pdu received piece (next ∷ pieces) index size found whole h =
      let grown : PendingAcl = record { expected = length pdu; received = received ++ piece } in
      let s' = insert handle grown s in
      let joined : (received ++ piece) ++ (next ++ concat pieces) ≡ pdu =
        append_assoc received piece (next ++ concat pieces) ∙ whole in
      let short : length (received ++ piece) < length pdu =
        shorter (received ++ piece) next (concat pieces) pdu h.0.0 joined in
      let found' : lookup handle s' ≡ some grown =
        ground (arith, lookup-insert handle handle grown s) in
      let (yields, others) =
        continue_Delivers s' pdu (received ++ piece) next pieces (suc index) size found' joined
          h.1 in
      rw (feed_more s (packet_at (suc index) piece) (length pdu) received refl found short)
        (yields, λ j. others j ∙ forget s grown j)

  -- The first packet is the whole frame, or begins it.
  begin_Delivers :
      (s : AclAssembler) (pdu piece : List ℕ) (pieces : List (List ℕ)) (size : ℕ)
      → IsPdu pdu
      → 4 ≤ length piece
      → piece ++ concat pieces ≡ pdu
      → All (IsChunk size) pieces
      → Delivers s pdu (packets_from 0 (piece ∷ pieces))
  unfolding feed_all packets_from
  begin_Delivers s pdu piece [] size frame header whole h =
      let same : piece ≡ pdu = rw append-nil at whole in
      rw (feed_whole s (packet_at 0 piece) boundary_at_zero (rw same frame))
        (ap (λ x. ok (x ∷ [])) same, λ j. lookup-remove j handle s)
  begin_Delivers s pdu piece (next ∷ pieces) size frame header whole h =
      let declared : declared_length piece + 4 ≡ length pdu = omega (
        arith,
        ap declared_length whole,
        declared-append piece (next ++ concat pieces) header,
        frame.1,
      ) in
      let short : length piece < length pdu = shorter piece next (concat pieces) pdu h.0.0 whole in
      let grown : PendingAcl = record { expected = declared_length piece + 4; received = piece } in
      let s' = insert handle grown s in
      let found : lookup handle s' ≡ some (record { expected = length pdu; received = piece }) =
        ground (arith, lookup-insert handle handle grown s) in
      let (yields, others) = continue_Delivers s' pdu piece next pieces 0 size found whole h.1 in
      rw (feed_begin s (packet_at 0 piece) boundary_at_zero header (omega arith))
        (yields, λ j. others j ∙ forget s grown j)

  chunks-Delivers :
      (s : AclAssembler) (pdu : List ℕ) (size : ℕ)
      → 4 ≤ size
      → IsPdu pdu
      → Delivers s pdu (packets_from 0 (chunks size pdu))
  unfolding chunks
  chunks-Delivers s [] size lo frame = absurd (omega arith)
  chunks-Delivers s (x ∷ xs) size lo frame =
      begin_Delivers s (x ∷ xs) (take size (x ∷ xs)) _ size frame
        (omega (arith, length-take size (x ∷ xs))) (concat-chunks size (x ∷ xs) (omega arith))
        (chunks-IsChunk size (x ∷ xs) (omega arith)).1

  fragment_l2cap_pdu-packets_from :
      (size : ℕ) (pdu : List ℕ)
      → handle ≤ 0x0FFF
      → flag ≤ 3
      → 4 ≤ size
      → size ≤ 65535
      → IsPdu pdu
      → fragment_l2cap_pdu handle flag size pdu flushable ≡ ok (packets_from 0 (chunks size pdu))
  unfolding fragment_l2cap_pdu
  fragment_l2cap_pdu-packets_from size pdu hh hf lo hi frame =
      let pieces = chunks-IsChunk size pdu (omega arith) in
      ground (arith, fragments-packets_from size 0 (chunks size pdu) hh hf hi pieces)

-- A frame that is cut into packets of four bytes at least comes out of the assembler whole, and
-- once, whatever the assembler held before; afterwards the handle has nothing pending, and the
-- other handles have what they had.
pub reassembly :
    (s : AclAssembler) (handle flag size : ℕ) (pdu : List ℕ) (flushable : Bool)
    → handle ≤ 0x0FFF
    → flag ≤ 3
    → 4 ≤ size
    → size ≤ 65535
    → IsPdu pdu
    → (packets : List AclPacket) × (fragment_l2cap_pdu handle flag size pdu flushable ≡ ok packets)
      × ((feed_all s packets).1 ≡ ok (pdu ∷ []))
      × ((j : ℕ) → lookup j (feed_all s packets).0 ≡ (if j == handle then none else lookup j s))
reassembly s handle flag size pdu flushable hh hf lo hi frame =
    let (yields, others) = chunks-Delivers handle flag flushable s pdu size lo frame in
    (
      packets_from handle flag flushable 0 (chunks size pdu),
      fragment_l2cap_pdu-packets_from handle flag flushable size pdu hh hf lo hi frame,
      yields,
      others,
    )
