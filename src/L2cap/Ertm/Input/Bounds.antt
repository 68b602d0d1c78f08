-- ===== src/L2cap/Ertm/Input/Bounds.antt =====
-- The bounds that the receiving half of src/l2cap/ertm.rs keeps.
use swbt_bumble_backend.Base.{
  ℕ, ◌≤◌, ◌<◌, ◌≡◌, refl, false, List, [], ◌∷◌, length, All, Option, none, some,
}
use swbt_bumble_backend.L2cap.Ertm.State.{ErtmEngine}
use swbt_bumble_backend.L2cap.Ertm.Input.{is_assembling}

-- The SDU that is being put together, when its start announced `total` bytes.
abbrev pub Partial : (mtu : ℕ) → List ℕ → Option ℕ → Type 0
Partial mtu part none = part ≡ []
Partial mtu part (some total) = (length part < total) × (total ≤ mtu)

-- Whole SDUs are within the MTU, and a partial one is shorter than announced.
abbrev pub InputIsValid : ErtmEngine → Type 0
InputIsValid e =
    All (λ sdu. length sdu ≤ e.config.local_mtu) e.received
    × Partial e.config.local_mtu e.input_sdu e.input_sdu_length

not_assembling : (part : List ℕ) (total : Option ℕ) → is_assembling part total ≡ false → part ≡ []
unfolding is_assembling
not_assembling [] none h = refl
not_assembling [] (some n) h = cc
not_assembling (x ∷ xs) none h = cc
not_assembling (x ∷ xs) (some n) h = cc
