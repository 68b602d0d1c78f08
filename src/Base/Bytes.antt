-- ===== src/Base/Bytes.antt =====
-- Bytes and 16-bit words in little-endian order, and the bit operations on them.
use Prim.Native.Nat.{ℕ, zero, suc, ◌+◌, ◌*◌, ◌/◌, ◌%◌, ◌^◌, ◌<◌, bit_and}
use mathlib.Core.Path.{◌≡◌}
use mathlib.Core.Bool.{Bool, true, false, ◌&&◌}
use mathlib.Core.List.{List, [], ◌∷◌}
use native.Mathlib.Omega.{arith}
use swbt_bumble_backend.Base.Tests.{◌==◌}

abbrev pub IsByte : ℕ → Type 0
IsByte b = b < 256

abbrev pub IsU16 : ℕ → Type 0
IsU16 w = w < 65536

-- `u16::to_le_bytes`.
abbrev pub u16_to_le : ℕ → List ℕ
u16_to_le w = (w % 256) ∷ (w / 256 % 256) ∷ []

-- `u16::from_le_bytes`.
abbrev pub u16_from_le : ℕ → ℕ → ℕ
u16_from_le lo hi = lo + hi * 256

-- `x >> k`; `x << k` on a byte drops what leaves the eight bits.
abbrev pub shr : ℕ → ℕ → ℕ
shr x k = x / 2 ^ k

abbrev pub shl8 : ℕ → ℕ → ℕ
shl8 x k = x * 2 ^ k % 256

-- `u8::from(bool)` and `u16::from(bool)`.
abbrev pub from_bool : Bool → ℕ
from_bool true = 1
from_bool false = 0

-- `x & mask != 0`.
abbrev pub has_bits : ℕ → ℕ → Bool
has_bits x mask = elim (bit_and x mask == 0) [ true ↦ false | false ↦ true ]

-- A statement about all numbers below `n`, checked one by one.
unfoldable pub all_below : ℕ → (ℕ → Bool) → Bool
all_below zero p = true
all_below (suc n) p = p n && all_below n p

pub all_below_sound : (n : ℕ) (p : ℕ → Bool) → all_below n p ≡ true → (x : ℕ) → x < n → p x ≡ true
unfolding all_below
all_below_sound zero p h x lt = absurd (omega arith)
all_below_sound (suc n) p h x lt = ground (arith, all_below_sound n p (ground arith) x)

-- `x << k` on 16 bits.
abbrev pub shl16 : ℕ → ℕ → ℕ
shl16 x k = x * 2 ^ k % 65536
