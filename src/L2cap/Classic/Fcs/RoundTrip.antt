-- ===== src/L2cap/Classic/Fcs/RoundTrip.antt =====
-- The receiver's check of an ERTM frame (src/l2cap/classic.rs) undoes the sender's.
use swbt_bumble_backend.Base.{
  ℕ, ◌+◌, ◌-◌, ◌≤◌, ◌<◌, ◌≡◌, refl, ap, ◌∙◌, arith, List, ◌++◌, length, length-append, take,
  take-append_left, drop-append_left, All, IsByte, ok, err, le→ltb, ltb, ltb→lt, Bool-cases, ◌⊎◌,
  inl, inr, lt→ltb, eq→==, u16_to_le,
}
use swbt_bumble_backend.L2cap.{invalid_packet, ertm_frame_too_large}
use swbt_bumble_backend.L2cap.Crc.{crc_16, crc_16-lt}
use swbt_bumble_backend.L2cap.Signaling.Parser.{le16, first_word}
use swbt_bumble_backend.L2cap.Classic.Fcs.{checked_bytes, append_fcs, verify_and_strip_fcs}

checked_bytes-IsByte :
    (declared cid : ℕ) (bytes : List ℕ)
    → All IsByte bytes
    → All IsByte (checked_bytes declared cid bytes)
unfolding checked_bytes
checked_bytes-IsByte declared cid bytes h =
    (omega arith, (omega arith, (omega arith, (omega arith, h))))

-- The sequence of a frame, and the frame with it.
abbrev sequence : ℕ → List ℕ → ℕ
sequence cid payload = crc_16 (checked_bytes (length payload + 2) cid payload)

abbrev whole : ℕ → List ℕ → List ℕ
whole cid payload = payload ++ u16_to_le (sequence cid payload)

whole_word :
    (cid : ℕ) (payload : List ℕ)
    → All IsByte payload
    → le16 (whole cid payload) (length payload) ≡ sequence cid payload
unfolding le16 first_word
whole_word cid payload h =
    let lt =
      crc_16-lt (checked_bytes (length payload + 2) cid payload)
        (checked_bytes-IsByte (length payload + 2) cid payload h) in
    ap first_word (drop-append_left payload (u16_to_le (sequence cid payload))) ∙ omega (arith, lt)

-- A payload of bytes is extended by two bytes, and the receiver takes the frame and has the payload
-- back; or it has more than 65533 bytes, and is refused.
pub verify_and_strip_fcs-append_fcs :
    (cid : ℕ) (payload : List ℕ)
    → All IsByte payload
    → ((frame : List ℕ) × (append_fcs cid payload ≡ ok frame)
        × (length frame ≡ length payload + 2)
        × (verify_and_strip_fcs cid frame ≡ ok payload))
      ⊎ ((65533 < length payload)
          × (append_fcs cid payload ≡ err (invalid_packet ertm_frame_too_large)))
unfolding append_fcs verify_and_strip_fcs
verify_and_strip_fcs-append_fcs cid payload h =
    let n = length payload in
    let fcs = u16_to_le (sequence cid payload) in
    let size : length (whole cid payload) ≡ n + 2 = omega (arith, length-append payload fcs) in
    let split : length (whole cid payload) - 2 ≡ n = omega (arith, size) in
    let front : take n (whole cid payload) ≡ payload = take-append_left payload fcs in
    elim (Bool-cases (ltb 65533 n)) [
      | inr fits ↦
          let room : n ≤ 65533 = ground arith in
          inl (
            whole cid payload,
            rw (le→ltb 65535 (n + 2) (omega arith)) refl,
            size,
            rw
                (
                  split,
                  le→ltb (length (whole cid payload)) 2 (omega (arith, size)),
                  le→ltb 65535 (length (whole cid payload)) (omega (arith, size)),
                  size,
                  front,
                  whole_word cid payload h,
                  eq→== (sequence cid payload) (sequence cid payload) refl,
                )
                refl,
          )
      | inl above ↦
          let long : 65533 < n = ltb→lt 65533 n above in
          inr (long, rw (lt→ltb 65535 (n + 2) (omega arith)) refl)
    ]
