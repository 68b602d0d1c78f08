-- ===== src/L2cap/Classic/Allocation.antt =====
-- How src/l2cap/classic.rs chooses channel identifiers and dynamic PSMs: the first free number.
use swbt_bumble_backend.Base.{
  ℕ, zero, suc, ◌+◌, ◌*◌, ◌≤◌, ◌<◌, ◌≡◌, refl, arith, Bool, true, false, not, Option, none, some,
  lookup, OnOk, ok_or, if_both,
}
use mathlib.Core.Path.{subst}
use swbt_bumble_backend.L2cap.{invalid_packet, no_free_cid}
use swbt_bumble_backend.L2cap.Classic.{
  ClassicChannel, ChannelManager, dynamic_cid_start, find_from, is_free, allocate_cid,
}

-- The first candidate that passes, with those before it refused; or all refused.
abbrev pub FirstOf : (step candidates : ℕ) → (ℕ → Bool) → ℕ → Option ℕ → Type 0
FirstOf step candidates p start none = (i : ℕ) → i < candidates → p (start + i * step) ≡ false
FirstOf step candidates p start (some n) =
    (k : ℕ) × (k < candidates)
    × (n ≡ start + k * step)
    × (p n ≡ true)
    × ((i : ℕ) → i < k → p (start + i * step) ≡ false)

first_later :
    (step candidates : ℕ) (p : ℕ → Bool) (start : ℕ) (o : Option ℕ)
    → p start ≡ false
    → FirstOf step candidates p (start + step) o
    → FirstOf step (suc candidates) p start o
first_later step candidates p start none refused h = later
  where
    later : (i : ℕ) → i < suc candidates → p (start + i * step) ≡ false
    later zero lt = subst (λ n. p n ≡ false) (omega arith) refused
    later (suc i) lt = subst (λ n. p n ≡ false) (grind arith) (h i (omega arith))
first_later step candidates p start (some n) refused (k, lt, e, passes, before) =
    (suc k, omega arith, grind arith, passes, later)
  where
    later : (i : ℕ) → i < suc k → p (start + i * step) ≡ false
    later zero below = subst (λ n. p n ≡ false) (omega arith) refused
    later (suc i) below = subst (λ n. p n ≡ false) (grind arith) (before i (omega arith))

pub find_from-FirstOf :
    (step candidates : ℕ) (p : ℕ → Bool) (start : ℕ)
    → FirstOf step candidates p start (find_from step candidates p start)
unfolding find_from
find_from-FirstOf step zero p start = λ i lt. absurd (omega arith)
find_from-FirstOf step (suc candidates) p start =
    if_both (FirstOf step (suc candidates) p start) (p start) (some start)
      (find_from step candidates p (start + step))
      (λ passes. (0, omega arith, omega arith, passes, λ i lt. absurd (omega arith)))
      (λ refused.
        first_later step candidates p start (find_from step candidates p (start + step)) refused
          (find_from-FirstOf step candidates p (start + step)))

abbrev pub IsFreeCid : ChannelManager → ℕ → Type 0
IsFreeCid m cid = (0x40 ≤ cid) × (cid ≤ 0xffff) × (lookup cid m.channels ≡ none)

free_lem :
    (cid : ℕ) (o : Option ClassicChannel)
    → not (elim o [ none ↦ false | some _ ↦ true ]) ≡ true
    → o ≡ none
free_lem cid none h = refl
free_lem cid (some c) h = absurd (cc)

found_free :
    (m : ChannelManager) (o : Option ℕ)
    → FirstOf 1 65472 (is_free m.channels) dynamic_cid_start o
    → OnOk (IsFreeCid m) (ok_or o (invalid_packet no_free_cid))
found_free m none h = tt
found_free m (some cid) (k, lt, e, passes, before) =
    (omega arith, omega arith, free_lem cid (lookup cid m.channels) passes)

-- An identifier that is allocated is in the dynamic range and stands for no channel.
pub allocate_cid_lem : (m : ChannelManager) → OnOk (IsFreeCid m) (allocate_cid m)
unfolding allocate_cid
allocate_cid_lem m =
    found_free m (find_from 1 65472 (is_free m.channels) dynamic_cid_start)
      (find_from-FirstOf 1 65472 (is_free m.channels) dynamic_cid_start)
