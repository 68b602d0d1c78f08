-- ===== src/Host/AclFlow/Totals.antt =====
-- The counts of packets in flight in src/classic_host.rs, one for each connection, and their total.
use swbt_bumble_backend.Base.{
  ℕ, ◌+◌, ◌≡◌, refl, ◌∙◌, inl, inr, arith, none, [], ◌∷◌, true, false, ◌==◌, ==→eq, Bool-cases, Map,
  lookup, insert, remove, lookup-insert, lookup-remove,
}
use swbt_bumble_backend.Host.AclFlow.{total, count_of}

-- Each connection has one count.
abbrev pub IsUnique : Map ℕ → Type 0
IsUnique [] = Unit {0}
IsUnique ((j, _) ∷ m) = (lookup j m ≡ none) × IsUnique m

pub total-insert :
    (handle n : ℕ) (m : Map ℕ) → total (insert handle n m) + count_of handle m ≡ total m + n
total-insert handle n [] = omega arith
total-insert handle n ((j, k) ∷ m) = ground (arith, total-insert handle n m)

missing-remove :
    (handle : ℕ) (m : Map ℕ) → lookup handle m ≡ none → total (remove handle m) ≡ total m
missing-remove handle [] h = refl
missing-remove handle ((j, k) ∷ m) h = ground (arith, missing-remove handle m)

same_key :
    (handle j : ℕ) (m : Map ℕ) → lookup j m ≡ none → (handle == j) ≡ true → lookup handle m ≡ none
same_key handle j m h e = rw (==→eq handle j e) h

other_key : (handle j : ℕ) → (handle == j) ≡ false → (j == handle) ≡ false
other_key handle j e = ground arith

pub total-remove :
    (handle : ℕ) (m : Map ℕ) → IsUnique m → total (remove handle m) + count_of handle m ≡ total m
total-remove handle [] u = refl
total-remove handle ((j, k) ∷ m) u = elim (Bool-cases (handle == j)) [
  | inl same ↦
      let missing = missing-remove handle m (same_key handle j m u.0 same) in
      ground (arith, missing)
  | inr other ↦ ground (arith, total-remove handle m u.1)
]

pub insert-IsUnique : (handle n : ℕ) (m : Map ℕ) → IsUnique m → IsUnique (insert handle n m)
insert-IsUnique handle n [] u = (refl, tt)
insert-IsUnique handle n ((j, k) ∷ m) u = elim (Bool-cases (handle == j)) [
  | inl same ↦ rw same (same_key handle j m u.0 same, u.1)
  | inr other ↦ rw other (
    lookup-insert j handle n m ∙ rw (other_key handle j other) u.0,
    insert-IsUnique handle n m u.1,
  )
]

pub remove-IsUnique : (handle : ℕ) (m : Map ℕ) → IsUnique m → IsUnique (remove handle m)
remove-IsUnique handle [] u = tt
remove-IsUnique handle ((j, k) ∷ m) u = elim (Bool-cases (handle == j)) [
  | inl same ↦ rw same (remove-IsUnique handle m u.1)
  | inr other ↦
      rw other
        (lookup-remove j handle m ∙ rw (other_key handle j other) u.0, remove-IsUnique handle m u.1)
]
