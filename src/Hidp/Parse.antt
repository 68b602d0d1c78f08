-- ===== src/Hidp/Parse.antt =====
-- What `from_bytes` of src/hidp.rs accepts is in the range that `to_bytes` can write.
use swbt_bumble_backend.Base.{
  ℕ, ◌≤◌, ◌≡◌, inl, inr, arith, Option, List, [], ◌∷◌, bit_and, All, shr, has_bits, Result, ok, err,
  ◌>>=◌, ◌>>◌, IsByte, Bool-cases, OnOk, OnOk-ok,
}
use swbt_bumble_backend.Hidp.{
  Error, Message, handshake, control, get_report, get_protocol, set_protocol, to_bytes, exact_empty,
  buffer_size_field, no_buffer_size, get_report_fields, message_fields, from_bytes,
}
use swbt_bumble_backend.Hidp.RoundTrip.{
  IsSize, IsCanonical, low_half, low_two, low_one, from_bytes-to_bytes,
}

exact_empty-OnOk :
    (P : Message → Type 0) (m : Message) (rest : List ℕ) → P m → OnOk P (exact_empty rest >> ok m)
unfolding exact_empty
exact_empty-OnOk P m [] h = h
exact_empty-OnOk P m (b ∷ bs) h = tt

no_buffer_size-OnOk : (rest : List ℕ) → OnOk IsSize (no_buffer_size rest)
unfolding no_buffer_size
no_buffer_size-OnOk [] = tt
no_buffer_size-OnOk (b ∷ more) = tt

buffer_size_field-OnOk : (rest : List ℕ) → All IsByte rest → OnOk IsSize (buffer_size_field rest)
unfolding buffer_size_field
buffer_size_field-OnOk [] h = tt
buffer_size_field-OnOk (_ ∷ []) h = tt
buffer_size_field-OnOk (lo ∷ hi ∷ []) h = omega arith
buffer_size_field-OnOk (_ ∷ _ ∷ b ∷ more) h = tt

size-OnOk :
    (parameter id : ℕ) (size : Result Error (Option ℕ))
    → OnOk IsSize size
    → OnOk IsCanonical (size >>= λ s. ok (get_report (bit_and parameter 3) id s))
size-OnOk parameter id (ok s) h = (omega (arith, low_two parameter), h)
size-OnOk parameter id (err e) h = tt

get_report_fields-OnOk :
    (parameter : ℕ) (rest : List ℕ)
    → All IsByte rest
    → OnOk IsCanonical (get_report_fields parameter rest)
unfolding get_report_fields
get_report_fields-OnOk parameter [] h = tt
get_report_fields-OnOk parameter (id ∷ rest) h = elim (Bool-cases (has_bits parameter 0x08)) [
  | inl e ↦ rw e (size-OnOk parameter id _ (buffer_size_field-OnOk rest h.1))
  | inr e ↦ rw e (size-OnOk parameter id _ (no_buffer_size-OnOk rest))
]

message_fields-OnOk :
    (t p : ℕ) (rest : List ℕ)
    → t ≤ 15
    → p ≤ 15
    → All IsByte rest
    → OnOk IsCanonical (message_fields t p rest)
unfolding message_fields
message_fields-OnOk t p rest ht hp h = ground (
  arith,
  exact_empty-OnOk IsCanonical (handshake p) rest,
  exact_empty-OnOk IsCanonical (control p) rest,
  exact_empty-OnOk IsCanonical get_protocol rest,
  exact_empty-OnOk IsCanonical (set_protocol (bit_and p 1)) rest,
  get_report_fields-OnOk p rest h,
  low_two p,
  low_one p,
)

from_bytes-OnOk :
    (header : ℕ) (rest : List ℕ)
    → IsByte header
    → All IsByte rest
    → OnOk IsCanonical (from_bytes (header ∷ rest))
unfolding from_bytes
from_bytes-OnOk header rest hb h =
    message_fields-OnOk (shr header 4) (bit_and header 0x0F) rest (omega arith)
      (omega (arith, low_half header)) h

-- Every message that `from_bytes` accepts, on any bytes, is canonical: it can be written again, and
-- the bytes written are read as the same message.
pub from_bytes-IsCanonical :
    (bytes : List ℕ) (m : Message)
    → All IsByte bytes
    → from_bytes bytes ≡ ok m
    → IsCanonical m × ((again : List ℕ) × (to_bytes m ≡ ok again) × (from_bytes again ≡ ok m))
from_bytes-IsCanonical [] m h e = unfold from_bytes in cc
from_bytes-IsCanonical (header ∷ rest) m h e =
    let canonical : IsCanonical m = OnOk-ok IsCanonical e (from_bytes-OnOk header rest h.0 h.1) in
    (canonical, from_bytes-to_bytes m canonical)
