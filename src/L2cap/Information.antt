-- ===== src/L2cap/Information.antt =====
-- `InformationCapabilities` of src/l2cap/mod.rs: what the host answers to an Information Request.
use swbt_bumble_backend.Base.{
  ℕ, zero, suc, ◌+◌, ◌-◌, ◌*◌, ◌/◌, ◌%◌, ◌^◌, ◌<◌, ◌≡◌, refl, ap, ◌∙◌, arith, bit_and, bit_or, Bool,
  true, false, not, List, [], ◌∷◌, Result, ok, err, leb, ◌==◌, if◌then◌else◌, has_bits, u16_to_le,
}
use native.Mathlib.Nat.{one-le-pow, pow-suc}
use swbt_bumble_backend.Base.Digits.{
  digit, digit-lt, digit-bit_or, digit-bit_and, digit-pow, digit-complement, bit_and-pow,
}
use swbt_bumble_backend.L2cap.{Error, invalid_packet, fixed_channel_out_of_range}
use swbt_bumble_backend.L2cap.Signaling.{ControlFrame, information_response}

pub record InformationCapabilities : Type 0 where
  pub connectionless_mtu : ℕ
  pub extended_features : ℕ
  pub fixed_channels : ℕ

unfoldable pub default_capabilities : InformationCapabilities
default_capabilities = record {
  connectionless_mtu = 1024;
  extended_features = 0;
  fixed_channels = 2 ^ 1;
}

abbrev pub sum : List ℕ → ℕ
sum [] = 0
sum (x ∷ xs) = x + sum xs

-- `sum()` on 32 bits.
unfoldable pub new : List ℕ → InformationCapabilities
unfolding default_capabilities
new features = record default_capabilities { extended_features = sum features % 2 ^ 32 }

unfoldable pub set_connectionless_mtu : ℕ → InformationCapabilities → InformationCapabilities
set_connectionless_mtu mtu c = record c { connectionless_mtu = mtu }

unfoldable pub register_fixed_channel :
    ℕ → InformationCapabilities → InformationCapabilities × Result Error (Unit {0})
register_fixed_channel cid c =
    if leb 64 cid
    then (c, err (invalid_packet (fixed_channel_out_of_range cid)))
    else (record c { fixed_channels = bit_or c.fixed_channels (2 ^ cid) }, ok tt)

-- `!bit` is the complement in 64 bits.
unfoldable pub deregister_fixed_channel :
    ℕ → InformationCapabilities → InformationCapabilities × Bool
deregister_fixed_channel cid c = if leb 64 cid then (c, false) else (
  record c { fixed_channels = bit_and c.fixed_channels (2 ^ 64 - 1 - 2 ^ cid) },
  has_bits c.fixed_channels (2 ^ cid),
)

-- `to_le_bytes` of a word of `count` bytes.
unfoldable pub le_bytes : (count w : ℕ) → List ℕ
le_bytes zero w = []
le_bytes (suc count) w = w % 256 ∷ le_bytes count (w / 256)

unfoldable pub response : (identifier info_type : ℕ) → InformationCapabilities → ControlFrame
unfolding le_bytes
response id info_type c =
    if info_type == 1
    then information_response id info_type 0 (u16_to_le c.connectionless_mtu)
    else if info_type == 2
    then information_response id info_type 0 (le_bytes 4 c.extended_features)
    else if info_type == 3
    then information_response id info_type 0 (le_bytes 8 c.fixed_channels)
    else information_response id info_type 1 []

-- The mask's digits after a registration, and after its withdrawal.
abbrev pub Set : ℕ → InformationCapabilities → InformationCapabilities → Type 0
Set cid c c' =
    (j : ℕ) → digit j c'.fixed_channels ≡ (if j == cid then 1 else digit j c.fixed_channels)

abbrev pub Cleared : ℕ → InformationCapabilities → InformationCapabilities → Type 0
Cleared cid c c' =
    (j : ℕ)
    → j < 64
    → digit j c'.fixed_channels ≡ (if j == cid then 0 else digit j c.fixed_channels)

in_range : (cid : ℕ) → cid < 64 → leb 64 cid ≡ false
in_range cid h = ground arith

register_fixed_channel_lem :
    (cid : ℕ) (c : InformationCapabilities)
    → cid < 64
    → ((register_fixed_channel cid c).1 ≡ ok tt) × Set cid c (register_fixed_channel cid c).0
unfolding register_fixed_channel
register_fixed_channel_lem cid c h = rw (in_range cid h) (
  refl,
  λ j.
      digit-bit_or j c.fixed_channels (2 ^ cid)
      ∙ ground (arith, digit-pow j cid, digit-lt j c.fixed_channels),
)

pow_lt : (c n : ℕ) → c < n → 2 ^ c < 2 ^ n
pow_lt c zero h = absurd (omega arith)
pow_lt zero (suc n) h = omega (arith, pow-suc 2 n, one-le-pow n 2)
pow_lt (suc c) (suc n) h = omega (arith, pow-suc 2 n, pow-suc 2 c, pow_lt c n (omega arith))

scaled_digit : (d p : ℕ) → d < 2 → 0 < p → (d * p == 0) ≡ not (d == 1)
scaled_digit zero p h k = ground arith
scaled_digit (suc zero) p h k = ground arith
scaled_digit (suc (suc d)) p h k = absurd (omega arith)

unfoldable flip : Bool → Bool
flip b = elim b [ true ↦ false | false ↦ true ]

flip-not : (b : Bool) → flip (not b) ≡ b
unfolding flip
flip-not true = refl
flip-not false = refl

has_bits-digit : (c x : ℕ) → has_bits x (2 ^ c) ≡ (digit c x == 1)
unfolding flip
has_bits-digit c x =
    ap (λ (w : ℕ). flip (w == 0)) (bit_and-pow c x)
    ∙ ap flip (scaled_digit (digit c x) (2 ^ c) (digit-lt c x) (omega (arith, one-le-pow c 2)))
    ∙ flip-not (digit c x == 1)

deregister_fixed_channel_lem :
    (cid : ℕ) (c : InformationCapabilities)
    → cid < 64
    → ((deregister_fixed_channel cid c).1 ≡ (digit cid c.fixed_channels == 1))
      × Cleared cid c (deregister_fixed_channel cid c).0
unfolding deregister_fixed_channel
deregister_fixed_channel_lem cid c h = rw (in_range cid h) (
  has_bits-digit cid c.fixed_channels,
  λ (j : ℕ) (k : j < 64).
      digit-bit_and j c.fixed_channels (2 ^ 64 - 1 - 2 ^ cid)
      ∙ ground (
        arith,
        digit-complement j 64 (2 ^ cid) k (pow_lt cid 64 h),
        digit-pow j cid,
        digit-lt j c.fixed_channels,
      ),
)

-- Registering a fixed channel below 64 succeeds and sets its digit of the mask, and no other;
-- withdrawing it says whether it was registered, and clears its digit, and no other of the 64
-- digits of the mask.
pub fixed_channel_lem :
    (cid : ℕ) (c : InformationCapabilities)
    → cid < 64
    → ((register_fixed_channel cid c).1 ≡ ok tt)
      × Set cid c (register_fixed_channel cid c).0
      × ((deregister_fixed_channel cid c).1 ≡ (digit cid c.fixed_channels == 1))
      × Cleared cid c (deregister_fixed_channel cid c).0
fixed_channel_lem cid c h =
    let (registered, sets) = register_fixed_channel_lem cid c h in
    let (withdrawn, clears) = deregister_fixed_channel_lem cid c h in
    (registered, sets, withdrawn, clears)
