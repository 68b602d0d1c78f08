-- ===== src/Hci/Acl/Feed.antt =====
-- `AclAssembler::feed` of src/hci.rs on any packet: its invariant, what it yields, and that
-- connections do not disturb one another.
use swbt_bumble_backend.Base.{
  ℕ, ◌+◌, ◌<◌, ◌≤◌, ◌≡◌, refl, arith, Option, none, some, List, [], ◌∷◌, ◌++◌, length, Result, ok,
  lookup, insert, remove, lookup-insert, lookup-remove, length-append, Option-cases, inl, inr, ◌⊎◌,
  Bool-cases, ◌==◌, ==→eq,
}
use swbt_bumble_backend.Hci.{CodecError, AclPacket}
use swbt_bumble_backend.Hci.Acl.{
  declared_length, PendingAcl, AclAssembler, feed_continuation, feed_first, feed,
}

-- The bytes are one whole L2CAP frame.
abbrev pub IsPdu : List ℕ → Type 0
IsPdu pdu = (4 ≤ length pdu) × (declared_length pdu + 4 ≡ length pdu)

-- A pending frame has its header, which fixes the length, and is not complete.
abbrev pub IsPending : PendingAcl → Type 0
IsPending p =
    (4 ≤ length p.received)
    × (declared_length p.received + 4 ≡ p.expected)
    × (length p.received < p.expected)

unfoldable pub IsValid : AclAssembler → Type 0
IsValid s = (handle : ℕ) (p : PendingAcl) → lookup handle s ≡ some p → IsPending p

abbrev pub Yields : Result CodecError (Option (List ℕ)) → Type 0
Yields (ok (some pdu)) = IsPdu pdu
Yields _ = Unit

pub declared-append :
    (xs ys : List ℕ) → 4 ≤ length xs → declared_length (xs ++ ys) ≡ declared_length xs
declared-append [] ys h = absurd (omega arith)
declared-append (x ∷ []) ys h = absurd (omega arith)
declared-append (x ∷ y ∷ xs) ys h = refl

lookup-IsPending :
    (s : AclAssembler) (handle : ℕ)
    → IsValid s
    → (p : PendingAcl) → lookup handle s ≡ some p
    → IsPending p
unfolding IsValid
lookup-IsPending s handle v = v handle

insert-IsValid :
    (handle : ℕ) (p : PendingAcl) (s : AclAssembler)
    → IsValid s
    → IsPending p
    → IsValid (insert handle p s)
unfolding IsValid
insert-IsValid handle p s v h j q e = ground (arith, lookup-insert j handle p s, v j q)

remove-IsValid : (handle : ℕ) (s : AclAssembler) → IsValid s → IsValid (remove handle s)
unfolding IsValid
remove-IsValid handle s v j q e = ground (arith, lookup-remove j handle s, v j q)

feed_first-IsValid :
    (s : AclAssembler) (p : AclPacket)
    → IsValid s
    → IsValid (feed_first s p).0 × Yields (feed_first s p).1
unfolding feed_first
feed_first-IsValid s p v = ground (
  arith,
  remove-IsValid p.connection_handle s v,
  insert-IsValid p.connection_handle
      (record { expected = declared_length p.payload + 4; received = p.payload }) s v,
)

feed_continuation-IsValid :
    (s : AclAssembler) (p : AclPacket) (o : Option PendingAcl)
    → IsValid s
    → ((q : PendingAcl) → o ≡ some q → IsPending q)
    → IsValid (feed_continuation s p o).0 × Yields (feed_continuation s p o).1
unfolding feed_continuation
feed_continuation-IsValid s p none v h = (v, tt)
feed_continuation-IsValid s p (some q) v h =
    let joined = q.received ++ p.payload in
    ground (
      arith,
      h q refl,
      length-append q.received p.payload,
      declared-append q.received p.payload,
      remove-IsValid p.connection_handle s v,
      insert-IsValid p.connection_handle (record { expected = q.expected; received = joined }) s v,
    )

feed_keeps-IsValid :
    (s : AclAssembler) (p : AclPacket) → IsValid s → IsValid (feed s p).0 × Yields (feed s p).1
unfolding feed
feed_keeps-IsValid s p v = ground (
  arith,
  feed_first-IsValid s p v,
  feed_continuation-IsValid s p (lookup p.connection_handle s) v
      (lookup-IsPending s p.connection_handle v),
)

others_same :
    (s : AclAssembler) (p : AclPacket) (handle : ℕ)
    → (handle ≡ p.connection_handle) ⊎ (lookup handle (feed s p).0 ≡ lookup handle s)
unfolding feed feed_first feed_continuation
others_same s p handle = elim (Bool-cases (handle == p.connection_handle)) [
  | inl e ↦ inl (==→eq handle p.connection_handle e)
  | inr ne ↦ elim (Option-cases (lookup p.connection_handle s)) [
    | inl e ↦ inr (rw e (grind (arith, lookup-insert, lookup-remove)))
    | inr (q, e) ↦ inr (rw e (grind (arith, lookup-insert, lookup-remove)))
  ]
]

-- The invariant of the assembler is kept by every packet, also by one that is refused; a frame that
-- it yields is whole: as long as its own header declares; and a packet changes nothing for the
-- connections other than its own.
pub feed-IsValid :
    (s : AclAssembler) (p : AclPacket)
    → IsValid s
    → IsValid (feed s p).0
      × Yields (feed s p).1
      × ((handle : ℕ)
          → (handle ≡ p.connection_handle) ⊎ (lookup handle (feed s p).0 ≡ lookup handle s))
feed-IsValid s p v =
    let (valid, whole) = feed_keeps-IsValid s p v in
    (valid, whole, λ handle. others_same s p handle)
