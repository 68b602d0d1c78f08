-- ===== src/L2cap/Classic/Invariant/Frames.antt =====
-- The options of a Configuration Request that src/l2cap/mod.rs reads from bytes are bytes.
use swbt_bumble_backend.Base.{
  ℕ, Option, none, some, List, [], ◌∷◌, take, drop, All, All-drop, All-take, IsByte, Result, ok,
  OnOk, ◌>>=◌, ◌>>◌, >>=-OnOk, lookup, u16_from_le,
}
use swbt_bumble_backend.Base.OrderedMap.{AllEntries, OnSome, lookup-AllEntries}
use swbt_bumble_backend.L2cap.{Error}
use swbt_bumble_backend.L2cap.Psm.{parse_psm}
use swbt_bumble_backend.L2cap.Signaling.{ControlFrame, configure_request, generic}
use swbt_bumble_backend.L2cap.Signaling.Parser.{
  Arm, need, read_cid_list, connection_request_fields, arms, frame_fields, from_bytes,
}

abbrev pub OptionsAreBytes : ControlFrame → Type 0
OptionsAreBytes (configure_request _ _ _ options) = All IsByte options
OptionsAreBytes _ = Unit {0}

abbrev ReadsBytes : ℕ → Arm → Type 0
ReadsBytes frame_code arm =
    (identifier : ℕ) (bytes : List ℕ)
    → All IsByte bytes
    → OnOk OptionsAreBytes (arm identifier bytes)

connection_request_bytes :
    (id : ℕ) (p : List ℕ × ℕ) → OnOk OptionsAreBytes (connection_request_fields id p)
unfolding connection_request_fields
connection_request_bytes id ([], psm) = tt
connection_request_bytes id (_ ∷ [], psm) = tt
connection_request_bytes id (_ ∷ _ ∷ _, psm) = tt

infixr 5 ◌and◌
abbrev ◌and◌ : {A B : Type 0} → A → B → A × B
a and b = (a, b)

-- An arm that makes no Configuration Request behind the check of the length.
plain :
    (n : ℕ) (bytes : List ℕ) (f : Unit {0} → Result Error ControlFrame)
    → OnOk OptionsAreBytes (f tt)
    → OnOk OptionsAreBytes (need bytes n >>= f)
plain n bytes f h = >>=-OnOk OptionsAreBytes (need bytes n) f (λ _. h)

with_cids :
    (n k : ℕ) (bytes : List ℕ) (f : List ℕ → Result Error ControlFrame)
    → ((cids : List ℕ) → OnOk OptionsAreBytes (f cids))
    → OnOk OptionsAreBytes (need bytes n >> (read_cid_list (drop k bytes) >>= f))
with_cids n k bytes f h =
    >>=-OnOk OptionsAreBytes (need bytes n) _
      (λ _. >>=-OnOk OptionsAreBytes (read_cid_list (drop k bytes)) f h)

arms-ReadsBytes : AllEntries ReadsBytes arms
unfolding arms
arms-ReadsBytes =
    (λ id bytes h. plain 2 bytes _ tt)
    and (λ id bytes h. >>=-OnOk OptionsAreBytes (parse_psm bytes) _ (connection_request_bytes id))
    and (λ id bytes h. plain 8 bytes _ tt)
    and (λ id bytes h. plain 4 bytes _ (All-drop IsByte 4 bytes h))
    and (λ id bytes h. plain 6 bytes _ tt)
    and (λ id bytes h. plain 4 bytes _ tt)
    and (λ id bytes h. plain 4 bytes _ tt)
    and (λ id bytes h. tt)
    and (λ id bytes h. tt)
    and (λ id bytes h. plain 2 bytes _ tt)
    and (λ id bytes h. plain 4 bytes _ tt)
    and (λ id bytes h. plain 8 bytes _ tt)
    and (λ id bytes h. plain 2 bytes _ tt)
    and (λ id bytes h. plain 10 bytes _ tt)
    and (λ id bytes h. plain 10 bytes _ tt)
    and (λ id bytes h. plain 4 bytes _ tt)
    and (λ id bytes h. with_cids 8 8 bytes _ (λ _. tt))
    and (λ id bytes h. with_cids 8 8 bytes _ (λ _. tt))
    and (λ id bytes h. with_cids 4 4 bytes _ (λ _. tt))
    and (λ id bytes h. plain 2 bytes _ tt)
    and tt

read_fields :
    (id : ℕ) (bytes : List ℕ) (frame_code : ℕ) (o : Option Arm)
    → All IsByte bytes
    → OnSome (ReadsBytes frame_code) o
    → OnOk OptionsAreBytes
        (elim o [ some arm ↦ arm id bytes | none ↦ ok (generic frame_code id bytes) ])
read_fields id bytes frame_code none h k = tt
read_fields id bytes frame_code (some arm) h k = k id bytes h

frame_fields-bytes :
    (frame_code id : ℕ) (bytes : List ℕ)
    → All IsByte bytes
    → OnOk OptionsAreBytes (frame_fields frame_code id bytes)
unfolding frame_fields
frame_fields-bytes frame_code id bytes h =
    read_fields id bytes frame_code (lookup frame_code arms) h
      (lookup-AllEntries ReadsBytes frame_code arms arms-ReadsBytes)

pub from_bytes-OptionsAreBytes :
    (bytes : List ℕ) → All IsByte bytes → OnOk OptionsAreBytes (from_bytes bytes)
unfolding from_bytes
from_bytes-OptionsAreBytes [] h = tt
from_bytes-OptionsAreBytes (_ ∷ []) h = tt
from_bytes-OptionsAreBytes (_ ∷ _ ∷ []) h = tt
from_bytes-OptionsAreBytes (_ ∷ _ ∷ _ ∷ []) h = tt
from_bytes-OptionsAreBytes (frame_code ∷ id ∷ lo ∷ hi ∷ rest) h =
    frame_fields-bytes frame_code id (take (u16_from_le lo hi) rest)
      (All-take IsByte (u16_from_le lo hi) rest h.1.1.1.1)
