-- ===== src/Hci/Acl/Steps.antt =====
-- One packet fed to `AclAssembler::feed` of src/hci.rs in each of its good cases, and a run of
-- packets.
use swbt_bumble_backend.Base.{
  ℕ, ◌+◌, ◌<◌, ◌≤◌, ◌≡◌, ◌≢◌, ap, arith, none, some, List, [], ◌∷◌, ◌++◌, length, Result, ok, err,
  map_ok, lookup, insert, remove, length-append,
}
use swbt_bumble_backend.Hci.{CodecError, AclPacket}
use swbt_bumble_backend.Hci.Acl.{
  declared_length, AclAssembler, Fed, feed_continuation, feed_first, feed, acl_continuation,
}
use swbt_bumble_backend.Hci.Acl.Feed.{IsPdu}

abbrev pub FedAll : Type 0
FedAll = AclAssembler × Result CodecError (List (List ℕ))

abbrev pub collect : Fed → (AclAssembler → FedAll) → FedAll
collect (s, err e) k = (s, err e)
collect (s, ok none) k = k s
collect (s, ok (some pdu)) k = let (s', pdus) = k s in (s', map_ok (◌∷◌ pdu) pdus)

-- The packets of a connection in their order: the frames that they yield, or the first error.
unfoldable pub feed_all : AclAssembler → List AclPacket → FedAll
feed_all s [] = (s, ok [])
feed_all s (p ∷ ps) = collect (feed s p) (λ s'. feed_all s' ps)

-- A continuation that completes the frame, and one that does not.
pub feed_last :
    (s : AclAssembler) (p : AclPacket) (expected : ℕ) (received : List ℕ)
    → p.packet_boundary ≡ acl_continuation
    → lookup p.connection_handle s ≡ some (record { expected = expected; received = received })
    → length (received ++ p.payload) ≡ expected
    → feed s p ≡ (remove p.connection_handle s, ok (some (received ++ p.payload)))
unfolding feed feed_continuation
feed_last s p expected received boundary found full = rw found (ground arith)

pub feed_more :
    (s : AclAssembler) (p : AclPacket) (expected : ℕ) (received : List ℕ)
    → p.packet_boundary ≡ acl_continuation
    → lookup p.connection_handle s ≡ some (record { expected = expected; received = received })
    → length (received ++ p.payload) < expected
    → feed s p ≡ (
      insert p.connection_handle
          (record { expected = expected; received = received ++ p.payload })
          s,
      ok none,
    )
unfolding feed feed_continuation
feed_more s p expected received boundary found short = rw found (ground arith)

-- A first fragment that is the whole frame, and one that is not.
pub feed_whole :
    (s : AclAssembler) (p : AclPacket)
    → p.packet_boundary ≢ acl_continuation
    → IsPdu p.payload
    → feed s p ≡ (remove p.connection_handle s, ok (some p.payload))
unfolding feed feed_first
feed_whole s p boundary whole = ground arith

pub feed_begin :
    (s : AclAssembler) (p : AclPacket)
    → p.packet_boundary ≢ acl_continuation
    → 4 ≤ length p.payload
    → length p.payload < declared_length p.payload + 4
    → feed s p ≡ (
      insert p.connection_handle
          (record { expected = declared_length p.payload + 4; received = p.payload })
          s,
      ok none,
    )
unfolding feed feed_first
feed_begin s p boundary header short = ground arith

pub shorter :
    (front next back pdu : List ℕ)
    → 0 < length next
    → front ++ (next ++ back) ≡ pdu
    → length front < length pdu
shorter front next back pdu h e =
    omega (arith, ap length e, length-append front (next ++ back), length-append next back)
