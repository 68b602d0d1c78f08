-- ===== src/L2cap/Ertm/Input/Segments.antt =====
-- The segments that `send_sdu` of src/l2cap/ertm.rs makes, received by `accept_information`.
use swbt_bumble_backend.Base.{
  ℕ, ◌%◌, ◌/◌, zero, suc, ◌+◌, ◌*◌, ◌≤◌, ◌<◌, ◌≡◌, inl, inr, refl, ap, ◌∙◌, arith, false, List, [],
  ◌∷◌, ◌++◌, length, length-append, length-take, length-drop, take, drop, take_all,
  take-append-drop, ok, leb, ◌==◌, eq→==, le→ltb, Bool-cases, chunks, chunks_fuel, none, some,
  u16_to_le, u16_from_le,
}
use mathlib.Core.List.{append_assoc}
use swbt_bumble_backend.L2cap.Ertm.Control.{start, continuation, end}
use swbt_bumble_backend.L2cap.Ertm.State.{
  PendingFrame, ErtmEngine, Action, done, ◌then_do◌, sequence_add, length_bytes,
}
use swbt_bumble_backend.L2cap.Ertm.Input.{
  accept_information, accept_start, accept_continuation, accept_end, is_assembling,
  check_partial_length,
}
use swbt_bumble_backend.L2cap.Ertm.Engine.{segment_sar, start_length}
use swbt_bumble_backend.L2cap.Ertm.Sending.Segments.{segment_frames}

-- The receiver takes in the body of each frame, in order.
abbrev pub accept_frames : List PendingFrame → Action
accept_frames [] = done
accept_frames (f ∷ fs) =
    accept_information f.sar (length_bytes f.sdu_length ++ f.payload) then_do accept_frames fs

-- The receiver with a part of an SDU of that length.
abbrev assembling : ErtmEngine → List ℕ → ℕ → ErtmEngine
assembling r part total = record r { input_sdu = part; input_sdu_length = some total }

-- The receiver with one more SDU, and none begun.
abbrev pub delivered : ErtmEngine → List ℕ → ErtmEngine
delivered r sdu = record r {
  received = r.received ++ sdu ∷ [];
  input_sdu = [];
  input_sdu_length = none;
}

then_ok :
    (first second : Action) (e e' : ErtmEngine)
    → first e ≡ (e', ok tt)
    → (first then_do second) e ≡ second e'
then_ok first second e e' h = λ i. ((λ (_ : ErtmEngine). h i) then_do second) e

not_leb : (a b : ℕ) → b < a → leb a b ≡ false
not_leb a b h = ground arith

not_eq : (a b : ℕ) → a < b → (a == b) ≡ false
not_eq a b h = ground arith

accept-continuation :
    (r : ErtmEngine) (part chunk : List ℕ) (total : ℕ)
    → length (part ++ chunk) < total
    → accept_information continuation chunk (assembling r part total)
      ≡ (assembling r (part ++ chunk) total, ok tt)
unfolding accept_information accept_continuation check_partial_length
accept-continuation r part chunk total h = rw (not_leb total _ h) refl

accept-end :
    (r : ErtmEngine) (part chunk : List ℕ) (total : ℕ)
    → length (part ++ chunk) ≡ total
    → accept_information end chunk (assembling r part total) ≡ (delivered r (part ++ chunk), ok tt)
unfolding accept_information accept_end
accept-end r part chunk total h = rw (eq→== _ _ h) refl

-- The receiver between two SDUs.
abbrev pub idle : ErtmEngine → ErtmEngine
idle r = record r { input_sdu = []; input_sdu_length = none }

u16_back : (total : ℕ) → total ≤ 65535 → u16_from_le (total % 256) (total / 256 % 256) ≡ total
u16_back total h = omega arith

accept-start :
    (r : ErtmEngine) (chunk : List ℕ) (total : ℕ)
    → total ≤ r.config.local_mtu
    → total ≤ 65535
    → length chunk < total
    → accept_information start (u16_to_le total ++ chunk) (idle r)
      ≡ (assembling r chunk total, ok tt)
unfolding accept_information accept_start check_partial_length is_assembling
accept-start r chunk total fits narrow h =
    rw (u16_back total narrow, le→ltb r.config.local_mtu total fits, not_leb total _ h) refl

chunks_fuel-nil : (f n : ℕ) → chunks_fuel {A = ℕ} f n [] ≡ []
unfolding chunks_fuel
chunks_fuel-nil zero n = refl
chunks_fuel-nil (suc f) n = refl

drop_all_nil : (n : ℕ) (xs : List ℕ) → length xs ≤ n → drop n xs ≡ []
drop_all_nil zero [] h = refl
drop_all_nil zero (x ∷ xs) h = absurd (omega arith)
drop_all_nil (suc n) [] h = refl
drop_all_nil (suc n) (x ∷ xs) h = drop_all_nil n xs (omega arith)

suc_not_zero : (n : ℕ) → (suc n == 0) ≡ false
suc_not_zero n = ground arith

segment_sar-end :
    (index n size total : ℕ)
    → suc index * n + size ≡ total
    → segment_sar (suc index) (suc index * n) size total ≡ end
unfolding segment_sar
segment_sar-end index n size total h = rw (suc_not_zero index, eq→== _ _ h) refl

segment_sar-continuation :
    (index n size total : ℕ)
    → suc index * n + size < total
    → segment_sar (suc index) (suc index * n) size total ≡ continuation
unfolding segment_sar
segment_sar-continuation index n size total h = rw (suc_not_zero index, not_eq _ _ h) refl

-- The frames after the first, when the receiver has `suc index` whole chunks.
accept_rest :
    (f n seq index total : ℕ) (ws part : List ℕ) (r : ErtmEngine)
    → 0 < n
    → 0 < length ws
    → length ws ≤ f
    → suc index * n + length ws ≡ total
    → length part ≡ suc index * n
    → accept_frames
        (segment_frames seq n total (suc index) (chunks_fuel f n ws))
        (assembling r part total)
      ≡ (delivered r (part ++ ws), ok tt)
unfolding chunks_fuel length_bytes start_length
accept_rest f n seq index total [] part r positive some_left enough reaches sofar =
    absurd (omega arith)
accept_rest zero n seq index total (x ∷ xs) part r positive some_left enough reaches sofar =
    absurd (omega arith)
accept_rest (suc f) n seq index total (x ∷ xs) part r positive some_left enough reaches sofar =
    let ws : List ℕ = x ∷ xs in
    elim (Bool-cases (leb (length ws) n)) [
      | inl last ↦
          let le : length ws ≤ n = ground arith in
          let whole : length (part ++ ws) ≡ total = omega (arith, length-append part ws) in
          rw
            (
              take_all n ws le,
              drop_all_nil n ws le,
              chunks_fuel-nil f n,
              segment_sar-end index n (length ws) total reaches,
            )
            (then_ok (accept_information end ws) done (assembling r part total)
              (delivered r (part ++ ws)) (accept-end r part ws total whole))
      | inr more ↦
          let gt : n < length ws = ground arith in
          let c = take n ws in
          let rest = drop n ws in
          let size : length c ≡ n = omega (arith, length-take n ws) in
          let left : length rest + n ≡ length ws = omega (arith, length-drop n ws) in
          let longer : length (part ++ c) ≡ suc (suc index) * n =
            omega (arith, length-append part c) in
          let next = sequence_add seq 1 in
          rw (segment_sar-continuation index n (length c) total (omega arith)) (
            then_ok (accept_information continuation c)
              (accept_frames (segment_frames next n total (suc (suc index)) (chunks_fuel f n rest)))
              (assembling r part total) (assembling r (part ++ c) total)
              (accept-continuation r part c total (omega arith))
            ∙ accept_rest f n next (suc index) total rest (part ++ c) r positive (omega arith)
                (omega arith) (omega arith) longer
            ∙ ap (λ w. (delivered r w, ok tt))
                (append_assoc part c rest ∙ ap (λ w. part ++ w) (take-append-drop n ws)))
    ]

-- An SDU larger than `mps` and of at most 65535 bytes, cut as `send_sdu` cuts it, is delivered once,
-- whole, to a receiver that is between two SDUs and whose MTU it fits in.
pub accept_frames-segment_frames :
    (seq mps : ℕ) (sdu : List ℕ) (r : ErtmEngine)
    → 0 < mps
    → mps < length sdu
    → length sdu ≤ 65535
    → length sdu ≤ r.config.local_mtu
    → accept_frames (segment_frames seq mps (length sdu) 0 (chunks mps sdu)) (idle r)
      ≡ (delivered r sdu, ok tt)
unfolding chunks chunks_fuel length_bytes start_length segment_sar
accept_frames-segment_frames seq mps [] r positive large narrow fits = absurd (omega arith)
accept_frames-segment_frames seq mps (x ∷ xs) r positive large narrow fits =
    let sdu : List ℕ = x ∷ xs in
    let c = take mps sdu in
    let rest = drop mps sdu in
    let total = length sdu in
    let size : length c ≡ mps = omega (arith, length-take mps sdu) in
    let left : length rest + mps ≡ total = omega (arith, length-drop mps sdu) in
    let next = sequence_add seq 1 in
    then_ok (accept_information start (u16_to_le total ++ c))
      (accept_frames (segment_frames next mps total 1 (chunks_fuel (length xs) mps rest))) (idle r)
      (assembling r c total) (accept-start r c total fits narrow (omega arith))
    ∙ accept_rest (length xs) mps next 0 total rest c r positive (omega arith) (omega arith)
        (omega arith) (omega arith)
    ∙ ap (λ w. (delivered r w, ok tt)) (take-append-drop mps sdu)
