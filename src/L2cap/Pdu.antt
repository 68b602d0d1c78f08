-- ===== src/L2cap/Pdu.antt =====
-- `L2capPdu` of src/l2cap/mod.rs.
use swbt_bumble_backend.Base.{
  ℕ, ◌+◌, ◌/◌, ◌%◌, ◌≤◌, ◌<◌, ◌≡◌, ap, ◌∙◌, arith, Bool, true, false, List, [], ◌∷◌, ◌++◌, length,
  length-append, take, take-append_left, All, IsByte, Result, ok, err, if◌then◌else◌, u16_to_le,
  u16_from_le,
}
use mathlib.Core.List.{append_assoc}
use swbt_bumble_backend.L2cap.{Error, invalid_packet, header_missing}
use swbt_bumble_backend.L2cap.Crc.{crc_16, crc_16_residue}

pub record L2capPdu : Type 0 where
  pub cid : ℕ
  pub payload : List ℕ

-- The payload is what there is of the bytes that the header declares.
unfoldable pub from_bytes : List ℕ → Result Error L2capPdu
from_bytes (l0 ∷ l1 ∷ c0 ∷ c1 ∷ body) =
    ok (record { cid = u16_from_le c0 c1; payload = take (u16_from_le l0 l1) body })
from_bytes _ = err (invalid_packet header_missing)

-- The frame without the check sequence; `as u16` drops what leaves the 16 bits.
unfoldable pub frame_body : Bool → L2capPdu → List ℕ
frame_body with_fcs p =
    u16_to_le ((length p.payload + (if with_fcs then 2 else 0)) % 65536)
    ++ (u16_to_le p.cid ++ p.payload)

unfoldable pub to_bytes : L2capPdu → Bool → List ℕ
unfolding frame_body
to_bytes p with_fcs =
    let body = frame_body with_fcs p in body ++ (if with_fcs then u16_to_le (crc_16 body) else [])

-- A frame with a 16-bit channel and at most 65533 bytes of payload is read back, whatever follows;
-- with a check sequence, the sequence is at the end of the payload.
pub pdu_from_bytes-to_bytes :
    (p : L2capPdu) (rest : List ℕ)
    → p.cid < 65536
    → length p.payload ≤ 65533
    → (from_bytes (to_bytes p false ++ rest) ≡ ok p)
      × (from_bytes (to_bytes p true ++ rest)
          ≡ ok (record p { payload = p.payload ++ u16_to_le (crc_16 (frame_body true p)) }))
unfolding from_bytes to_bytes
pdu_from_bytes-to_bytes p rest hc hl =
    let n = length p.payload in
    let fcs = u16_to_le (crc_16 (frame_body true p)) in
    let id : u16_from_le (p.cid % 256) (p.cid / 256 % 256) ≡ p.cid = omega arith in
    let plain : u16_from_le ((n + 0) % 65536 % 256) ((n + 0) % 65536 / 256 % 256) ≡ n =
      omega arith in
    let checked : u16_from_le ((n + 2) % 65536 % 256) ((n + 2) % 65536 / 256 % 256)
        ≡ length (p.payload ++ fcs) =
      omega (arith, length-append p.payload fcs) in
    (
      rw (id, plain)
          (ap (λ (bytes : List ℕ). ok (record p { payload = bytes }))
            (ap (λ (bytes : List ℕ). take n bytes) (append_assoc p.payload [] rest)
              ∙ take-append_left p.payload rest)),
      rw (id, checked)
          (ap (λ (bytes : List ℕ). ok (record p { payload = bytes }))
            (take-append_left (p.payload ++ fcs) rest)),
    )

-- The receiver's check: if the payload is bytes, the check sequence of a frame that was written with
-- one is 0.
pub crc_16-to_bytes : (p : L2capPdu) → All IsByte p.payload → crc_16 (to_bytes p true) ≡ 0
unfolding to_bytes frame_body
crc_16-to_bytes p h =
    crc_16_residue (frame_body true p) (omega arith, (omega arith, (omega arith, (omega arith, h))))
