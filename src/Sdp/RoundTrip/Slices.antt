-- ===== src/Sdp/RoundTrip/Slices.antt =====
-- Bytes that stand at an offset of others, for the parser of src/sdp/mod.rs.
use mathlib.Core.List.{append_assoc}
use swbt_bumble_backend.Base.{
  ℕ, ◌+◌, ◌≡◌, refl, sym, ap, ◌∙◌, arith, true, some, List, ◌++◌, length, length-append, take, drop,
  take-append_left, drop-append_left, leb,
}
use swbt_bumble_backend.Sdp.Parser.{slice}

-- `xs` stands at `offset`.
abbrev pub At : List ℕ → ℕ → List ℕ → Type 0
At bytes offset xs =
    (front : List ℕ) × (rest : List ℕ) × (bytes ≡ front ++ (xs ++ rest)) × (offset ≡ length front)

pub At-append :
    (bytes : List ℕ) (offset : ℕ) (xs ys : List ℕ)
    → At bytes offset (xs ++ ys)
    → At bytes offset xs × At bytes (offset + length xs) ys
At-append bytes offset xs ys (front, rest, e, k) = (
  (front, ys ++ rest, e ∙ ap (λ l. front ++ l) (append_assoc xs ys rest), k),
  (
    front ++ xs,
    rest,
    e ∙ ap (λ l. front ++ l) (append_assoc xs ys rest) ∙ sym (append_assoc front xs (ys ++ rest)),
    omega (arith, k, length-append front xs),
  ),
)

pub slice-At :
    (bytes : List ℕ) (offset : ℕ) (xs : List ℕ)
    → At bytes offset xs
    → slice bytes offset (length xs) ≡ some xs
unfolding slice
slice-At bytes offset xs (front, rest, e, k) =
    let size : length (front ++ (xs ++ rest)) ≡ length front + (length xs + length rest) =
      omega (arith, length-append front (xs ++ rest), length-append xs rest) in
    let inside : leb (length front + length xs) (length (front ++ (xs ++ rest))) ≡ true =
      ground (arith, size) in
    let cut : take (length xs) (drop (length front) (front ++ (xs ++ rest))) ≡ xs =
      ap (take (length xs)) (drop-append_left front (xs ++ rest)) ∙ take-append_left xs rest in
    ap (λ l. slice l offset (length xs)) e
    ∙ ap (λ o. slice (front ++ (xs ++ rest)) o (length xs)) k
    ∙ rw (inside, cut) refl
