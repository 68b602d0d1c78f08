-- ===== src/Base/Chunks.antt =====
-- `slice::chunks`: pieces of `n` elements, the last one shorter. The fuel is the length of the list,
-- which is enough, as `concat-chunks` shows.
use Prim.Native.Nat.{ℕ, zero, suc, ◌≤◌, ◌<◌}
use mathlib.Core.Path.{◌≡◌, refl, ap, ◌∙◌}
use mathlib.Core.List.{List, [], ◌∷◌, ◌++◌}
use native.Mathlib.Omega.{arith}
use swbt_bumble_backend.Base.Lists.{
  length, take, drop, All, length-take, length-drop, take-append-drop,
}

module _ {ℓ} {A : Type ℓ} where
  unfoldable pub chunks_fuel : ℕ → ℕ → List A → List (List A)
  chunks_fuel zero n xs = []
  chunks_fuel (suc f) n [] = []
  chunks_fuel (suc f) n (x ∷ xs) = take n (x ∷ xs) ∷ chunks_fuel f n (drop n (x ∷ xs))

  unfoldable pub chunks : ℕ → List A → List (List A)
  unfolding chunks_fuel
  chunks n xs = chunks_fuel (length xs) n xs

  abbrev pub concat : List (List A) → List A
  concat [] = []
  concat (c ∷ cs) = c ++ concat cs

  concat-chunks_fuel :
      (f n : ℕ) (xs : List A) → 0 < n → length xs ≤ f → concat (chunks_fuel f n xs) ≡ xs
  unfolding chunks_fuel
  concat-chunks_fuel zero n [] h k = refl
  concat-chunks_fuel zero n (x ∷ xs) h k = absurd (omega arith)
  concat-chunks_fuel (suc f) n [] h k = refl
  concat-chunks_fuel (suc f) n (x ∷ xs) h k =
      ap (λ c. take n (x ∷ xs) ++ c)
        (concat-chunks_fuel f n (drop n (x ∷ xs)) h (omega (arith, length-drop n (x ∷ xs))))
      ∙ take-append-drop n (x ∷ xs)

  -- The chunks are the list again.
  pub concat-chunks : (n : ℕ) (xs : List A) → 0 < n → concat (chunks n xs) ≡ xs
  unfolding chunks
  concat-chunks n xs h = concat-chunks_fuel (length xs) n xs h (omega arith)

  abbrev pub IsChunk : ℕ → List A → Type 0
  IsChunk n c = (0 < length c) × (length c ≤ n)

  chunks_fuel-IsChunk : (f n : ℕ) (xs : List A) → 0 < n → All (IsChunk n) (chunks_fuel f n xs)
  unfolding chunks_fuel
  chunks_fuel-IsChunk zero n xs h = tt
  chunks_fuel-IsChunk (suc f) n [] h = tt
  chunks_fuel-IsChunk (suc f) n (x ∷ xs) h =
      (omega (arith, length-take n (x ∷ xs)), chunks_fuel-IsChunk f n (drop n (x ∷ xs)) h)

  pub chunks-IsChunk : (n : ℕ) (xs : List A) → 0 < n → All (IsChunk n) (chunks n xs)
  unfolding chunks
  chunks-IsChunk n xs h = chunks_fuel-IsChunk (length xs) n xs h

  -- A list that is not empty has a first chunk, of `n` elements or all there are.
  pub chunks-cons :
      (n : ℕ) (x : A) (xs : List A)
      → chunks n (x ∷ xs) ≡ take n (x ∷ xs) ∷ chunks_fuel (length xs) n (drop n (x ∷ xs))
  unfolding chunks
  chunks-cons n x xs = refl
