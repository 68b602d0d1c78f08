-- ===== src/Base/OrderedMap.antt =====
-- A `BTreeMap` from numbers whose order is read: an association list that an insertion keeps in the
-- order of the keys.
use Prim.Native.Nat.{ℕ}
use mathlib.Core.Path.{◌≡◌, refl}
use mathlib.Core.Logic.{inl, inr}
use mathlib.Core.Bool.{Bool, true, false}
use mathlib.Core.List.{[], ◌∷◌}
use mathlib.Core.Option.{Option, none, some}
use native.Mathlib.Omega.{arith}
use swbt_bumble_backend.Base.Tests.{ltb, ◌==◌, if◌then◌else◌, Bool-cases, ==→eq}
use swbt_bumble_backend.Base.Lists.{All}
use swbt_bumble_backend.Base.Maps.{Map, lookup, remove}

module _ {ℓ} {V : Type ℓ} where
  unfoldable pub insert : ℕ → V → Map V → Map V
  insert k v [] = (k, v) ∷ []
  insert k v ((j, w) ∷ m) =
      if ltb k j then (k, v) ∷ (j, w) ∷ m else if k == j then (k, v) ∷ m else (j, w) ∷ insert k v m

  -- `contains_key`.
  abbrev pub contains_key : ℕ → Map V → Bool
  contains_key k m = elim (lookup k m) [ none ↦ false | some _ ↦ true ]

  pub lookup-insert :
      (j k : ℕ) (v : V) (m : Map V)
      → lookup j (insert k v m) ≡ (if j == k then some v else lookup j m)
  unfolding insert
  lookup-insert j k v [] = refl
  lookup-insert j k v ((i, w) ∷ m) = ground (arith, lookup-insert j k v m)

  -- `P` holds of every key and its value.
  abbrev pub AllEntries {κ} : (ℕ → V → Type κ) → Map V → Type κ
  AllEntries P m = All (λ (entry : ℕ × V). P entry.0 entry.1) m

  -- `P` holds of the value, if there is one.
  abbrev pub OnSome {κ} : (V → Type κ) → Option V → Type κ
  OnSome P none = Unit {κ}
  OnSome P (some v) = P v

  pub lookup-AllEntries {κ} :
      (P : ℕ → V → Type κ) (k : ℕ) (m : Map V) → AllEntries P m → OnSome (P k) (lookup k m)
  lookup-AllEntries P k [] h = tt
  lookup-AllEntries P k ((j, w) ∷ m) h = elim (Bool-cases (k == j)) [
    | inl same ↦ rw (same, ==→eq k j same) h.0
    | inr other ↦ rw other (lookup-AllEntries P k m h.1)
  ]

  pub insert-AllEntries {κ} :
      (P : ℕ → V → Type κ) (k : ℕ) (v : V) (m : Map V)
      → AllEntries P m
      → P k v
      → AllEntries P (insert k v m)
  unfolding insert
  insert-AllEntries P k v [] h p = (p, tt)
  insert-AllEntries P k v ((j, w) ∷ m) h p = elim (Bool-cases (ltb k j)) [
    | inl before ↦ rw before (p, h)
    | inr not_before ↦ rw not_before (elim (Bool-cases (k == j)) [
      | inl same ↦ rw same (p, h.1)
      | inr other ↦ rw other (h.0, insert-AllEntries P k v m h.1 p)
    ])
  ]

  pub remove-AllEntries {κ} :
      (P : ℕ → V → Type κ) (k : ℕ) (m : Map V) → AllEntries P m → AllEntries P (remove k m)
  remove-AllEntries P k [] h = tt
  remove-AllEntries P k ((j, w) ∷ m) h = elim (Bool-cases (k == j)) [
    | inl same ↦ rw same (remove-AllEntries P k m h.1)
    | inr other ↦ rw other (h.0, remove-AllEntries P k m h.1)
  ]
