-- ===== src/L2cap/Ertm/Sending/Segments.antt =====
-- The frames that `send_sdu` of src/l2cap/ertm.rs makes of an SDU.
use swbt_bumble_backend.Base.{
  ℕ, suc, ◌*◌, ◌≡◌, refl, sym, ap, ◌∙◌, List, [], ◌∷◌, ◌++◌, length, map,
}
use mathlib.Core.List.{append_assoc, append-nil}
use mathlib.Core.Path.{subst}
use swbt_bumble_backend.L2cap.Ertm.State.{PendingFrame, ErtmEngine, sequence_add}
use swbt_bumble_backend.L2cap.Ertm.Engine.{push_frame, push_segments, segment_sar, start_length}
use swbt_bumble_backend.L2cap.Ertm.Order.{frames, Numbered}
use swbt_bumble_backend.L2cap.Ertm.Sending.{SendIsValid, IsReady}

-- The frames of the chunks from the one with that index on, numbered from `seq`.
abbrev pub segment_frames : (seq mps total index : ℕ) → List (List ℕ) → List PendingFrame
segment_frames seq mps total index [] = []
segment_frames seq mps total index (chunk ∷ rest) =
    let sar = segment_sar index (index * mps) (length chunk) total in
    record { payload = chunk; tx_seq = seq; sar = sar; sdu_length = start_length sar total }
    ∷ segment_frames (sequence_add seq 1) mps total (suc index) rest

-- The state with more frames pending, of which `next` is the number that follows.
abbrev pub with_pending : List PendingFrame → ℕ → ErtmEngine → ErtmEngine
with_pending fs next e = record e { pending = e.pending ++ fs; next_tx_seq = next }

abbrev pub next_after : ℕ → List (List ℕ) → ℕ
next_after seq [] = seq
next_after seq (chunk ∷ rest) = next_after (sequence_add seq 1) rest

pub push_segments_lem :
    (mps total index : ℕ) (cs : List (List ℕ)) (e : ErtmEngine)
    → push_segments mps total index cs e
      ≡ with_pending
          (segment_frames e.next_tx_seq mps total index cs)
          (next_after e.next_tx_seq cs)
          e
unfolding push_segments push_frame
push_segments_lem mps total index [] e = λ i. record e { pending = sym (append-nil e.pending) i }
push_segments_lem mps total index (chunk ∷ rest) e =
    let sar = segment_sar index (index * mps) (length chunk) total in
    let e' = push_frame chunk sar (start_length sar total) e in
    let f : PendingFrame = record {
      payload = chunk;
      tx_seq = e.next_tx_seq;
      sar = sar;
      sdu_length = start_length sar total;
    } in
    let later = segment_frames e'.next_tx_seq mps total (suc index) rest in
    push_segments_lem mps total (suc index) rest e' ∙ λ i. record e {
      pending = append_assoc e.pending (f ∷ []) later i;
      next_tx_seq = next_after e'.next_tx_seq rest;
    }

-- The payloads are the chunks, in order.
pub segment_frames-payload :
    (seq mps total index : ℕ) (cs : List (List ℕ))
    → map (λ (f : PendingFrame). f.payload) (segment_frames seq mps total index cs) ≡ cs
segment_frames-payload seq mps total index [] = refl
segment_frames-payload seq mps total index (c ∷ cs) =
    ap (◌∷◌ c) (segment_frames-payload (sequence_add seq 1) mps total (suc index) cs)

segment_frames-Numbered :
    (seq mps total index : ℕ) (cs : List (List ℕ))
    → Numbered seq (segment_frames seq mps total index cs) (next_after seq cs)
segment_frames-Numbered seq mps total index [] = refl
segment_frames-Numbered seq mps total index (c ∷ cs) =
    (refl, segment_frames-Numbered (sequence_add seq 1) mps total (suc index) cs)

Numbered-join :
    (first middle next : ℕ) (fs gs : List PendingFrame)
    → Numbered first fs middle
    → Numbered middle gs next
    → Numbered first (fs ++ gs) next
Numbered-join first middle next [] gs h k = subst (λ n. Numbered n gs next) (sym h) k
Numbered-join first middle next (f ∷ fs) gs h k =
    (h.0, Numbered-join (sequence_add first 1) middle next fs gs h.1 k)

-- More pending frames, numbered on, keep a ready state ready, behind the frames that are there.
pub with_pending-IsReady :
    (fs : List PendingFrame) (next : ℕ) (e : ErtmEngine)
    → Numbered e.next_tx_seq fs next
    → IsReady e
    → IsReady (with_pending fs next e) × (frames (with_pending fs next e) ≡ frames e ++ fs)
with_pending-IsReady fs next e numbered (v, armed) =
    let window = map (λ t. t.frame) e.tx_window in
    let same = sym (append_assoc window e.pending fs) in
    let valid : SendIsValid (with_pending fs next e) = record {
      window_size = v.window_size;
      room = v.room;
      order =
          subst (λ gs. Numbered e.last_acked_tx_seq gs next) (sym same)
            (Numbered-join e.last_acked_tx_seq e.next_tx_seq next (frames e) fs v.order numbered);
      acked = v.acked;
      expected = v.expected;
      limits = v.limits;
      limit_width = v.limit_width;
      mps = v.mps;
    } in
    ((valid, armed), same)

pub push_segments-IsReady :
    (mps total : ℕ) (cs : List (List ℕ)) (e : ErtmEngine)
    → IsReady e
    → IsReady (push_segments mps total 0 cs e)
      × (frames (push_segments mps total 0 cs e)
          ≡ frames e ++ segment_frames e.next_tx_seq mps total 0 cs)
push_segments-IsReady mps total cs e ready =
    let fs = segment_frames e.next_tx_seq mps total 0 cs in
    let next = next_after e.next_tx_seq cs in
    subst (λ (e' : ErtmEngine). IsReady e' × (frames e' ≡ frames e ++ fs))
      (sym (push_segments_lem mps total 0 cs e))
      (with_pending-IsReady fs next e (segment_frames-Numbered e.next_tx_seq mps total 0 cs) ready)
