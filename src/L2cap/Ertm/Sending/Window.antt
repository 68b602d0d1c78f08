-- ===== src/L2cap/Ertm/Sending/Window.antt =====
-- `process_output` of src/l2cap/ertm.rs fills the window and loses nothing.
use swbt_bumble_backend.Base.{
  ℕ, ◌≤◌, ◌<◌, ◌≡◌, ◌⊎◌, inl, inr, refl, sym, ap, ◌∙◌, arith, true, false, List, [], ◌∷◌, ◌++◌,
  length, map, All, Result, ok, err, ltb, Bool-cases, ltb→lt, if◌then◌else◌,
}
use mathlib.Core.Path.{subst}
use swbt_bumble_backend.L2cap.{Error}
use swbt_bumble_backend.L2cap.Ertm.State.{PendingFrame, TransmittedFrame, ErtmEngine}
use swbt_bumble_backend.L2cap.Ertm.Output.{
  transmit, fill_window, and_refresh, process_output, refresh_retransmission_deadline, deadline_for,
}
use swbt_bumble_backend.L2cap.Ertm.Order.{frames, Numbered-lt, encode-ok}
use swbt_bumble_backend.L2cap.Ertm.Sending.{
  Armed, SendIsValid, pending_same, frames-transmit, transmit-SendIsValid,
}

-- The first pending frame has a number in range.
pending_head-lt :
    (w : List TransmittedFrame) (f : PendingFrame) (rest : List PendingFrame)
    → All
        (λ (g : PendingFrame). g.tx_seq < 64)
        (map (λ (u : TransmittedFrame). u.frame) w ++ f ∷ rest)
    → f.tx_seq < 64
pending_head-lt [] f rest h = h.0
pending_head-lt (x ∷ w) f rest h = pending_head-lt w f rest h.1

head_in_range :
    (e : ErtmEngine) (f : PendingFrame) (rest : List PendingFrame)
    → e.pending ≡ f ∷ rest
    → SendIsValid e
    → f.tx_seq < 64
head_in_range e f rest h v =
    let P : List PendingFrame → Type 0 = λ ps.
      All (λ (g : PendingFrame). g.tx_seq < 64)
        (map (λ (u : TransmittedFrame). u.frame) e.tx_window ++ ps) in
    pending_head-lt e.tx_window f rest
      (subst P h (Numbered-lt e.last_acked_tx_seq e.next_tx_seq (frames e) v.acked v.order))

-- The outcome of a run of the sending half that fails nowhere: the invariant, and the same frames.
abbrev pub Sends : ErtmEngine → ErtmEngine × Result Error (Unit {0}) → Type 0
Sends e (e', r) = (r ≡ ok tt) × SendIsValid e' × (frames e' ≡ frames e)

stay :
    (e : ErtmEngine) (fs : List PendingFrame)
    → e.pending ≡ fs
    → SendIsValid e
    → Sends e (record e { pending = fs }, ok tt)
stay e fs h v = subst (λ e'. Sends e (e', ok tt)) (sym (pending_same e fs h)) (refl, v, refl)

-- Once the window is full or nothing is pending.
abbrev pub IsFull : ErtmEngine → Type 0
IsFull e = (e.pending ≡ []) ⊎ (e.config.tx_window_size ≤ length e.tx_window)

fill_window-Sends :
    (todo : List PendingFrame) (e : ErtmEngine)
    → e.pending ≡ todo
    → SendIsValid e
    → Sends e (fill_window todo e)
unfolding fill_window
fill_window-Sends [] e h v = stay e [] h v
fill_window-Sends (f ∷ rest) e h v =
    elim (Bool-cases (ltb (length e.tx_window) e.config.tx_window_size)) [
      | inl open_slot ↦
          let lt = head_in_range e f rest h v in
          let (bytes, encoded) = encode-ok f e.expected_tx_seq false lt v.expected in
          let e' = transmit f rest bytes e in
          let (fine, valid, same) =
            fill_window-Sends rest e' refl
              (transmit-SendIsValid e f rest bytes h (ltb→lt _ _ open_slot) v) in
          rw (open_slot, encoded) (fine, valid, same ∙ frames-transmit e f rest bytes h)
      | inr full ↦ rw full (stay e (f ∷ rest) h v)
    ]

fill_window-IsFull :
    (todo : List PendingFrame) (e : ErtmEngine)
    → e.pending ≡ todo
    → SendIsValid e
    → IsFull (fill_window todo e).0
unfolding fill_window
fill_window-IsFull [] e h v = inl refl
fill_window-IsFull (f ∷ rest) e h v =
    elim (Bool-cases (ltb (length e.tx_window) e.config.tx_window_size)) [
      | inl open_slot ↦
          let lt = head_in_range e f rest h v in
          let (bytes, encoded) = encode-ok f e.expected_tx_seq false lt v.expected in
          let valid = transmit-SendIsValid e f rest bytes h (ltb→lt _ _ open_slot) v in
          rw (open_slot, encoded) (fill_window-IsFull rest (transmit f rest bytes e) refl valid)
      | inr full ↦ rw full (inr (ground arith))
    ]

pub refresh-SendIsValid :
    (e : ErtmEngine) → SendIsValid e → SendIsValid (refresh_retransmission_deadline e)
unfolding refresh_retransmission_deadline
refresh-SendIsValid e v = record {
  window_size = v.window_size;
  room = v.room;
  order = v.order;
  acked = v.acked;
  expected = v.expected;
  limits = v.limits;
  limit_width = v.limit_width;
  mps = v.mps;
}

deadline_for-Armed : (w : List TransmittedFrame) (deadline : ℕ) → Armed w (deadline_for w deadline)
unfolding deadline_for
deadline_for-Armed [] deadline = refl
deadline_for-Armed (t ∷ w) deadline = λ e. cc

pub refresh-Armed :
    (e : ErtmEngine)
    → Armed
        (refresh_retransmission_deadline e).tx_window
        (refresh_retransmission_deadline e).retransmission_deadline
unfolding refresh_retransmission_deadline
refresh-Armed e = deadline_for-Armed e.tx_window _

pub and_refresh-Sends :
    (e : ErtmEngine) (p : ErtmEngine × Result Error (Unit {0}))
    → Sends e p
    → Sends e (and_refresh p)
unfolding refresh_retransmission_deadline
and_refresh-Sends e (e', ok u) h =
    (refl, unfold refresh_retransmission_deadline in refresh-SendIsValid e' h.1, h.2)
and_refresh-Sends e (e', err x) h = h

-- A run that succeeded and refreshed the timer leaves it armed.
pub and_refresh-Armed :
    (p : ErtmEngine × Result Error (Unit {0}))
    → p.1 ≡ ok tt
    → Armed (and_refresh p).0.tx_window (and_refresh p).0.retransmission_deadline
and_refresh-Armed (e, ok u) h = refresh-Armed e
and_refresh-Armed (e, err x) h = cc

and_refresh-IsFull :
    (p : ErtmEngine × Result Error (Unit {0})) → IsFull p.0 → IsFull (and_refresh p).0
unfolding refresh_retransmission_deadline
and_refresh-IsFull (e, ok u) h = h
and_refresh-IsFull (e, err x) h = h

process_output_busy : (e : ErtmEngine) → e.remote_busy ≡ true → process_output e ≡ (e, ok tt)
unfolding process_output
process_output_busy e h =
    ap (λ busy. if busy then (e, ok tt) else and_refresh (fill_window e.pending e)) h

process_output_idle :
    (e : ErtmEngine)
    → e.remote_busy ≡ false
    → process_output e ≡ and_refresh (fill_window e.pending e)
unfolding process_output
process_output_idle e h = rw h

-- On a valid engine whose timer is armed `process_output` succeeds, keeps the invariant and every
-- frame in its order, and leaves the timer armed; unless the peer is busy, it stops only when
-- nothing is pending or the window is full.
pub process_output_lem :
    (e : ErtmEngine)
    → SendIsValid e
    → Armed e.tx_window e.retransmission_deadline
    → Sends e (process_output e)
      × Armed (process_output e).0.tx_window (process_output e).0.retransmission_deadline
      × ((e.remote_busy ≡ true) ⊎ IsFull (process_output e).0)
process_output_lem e v armed = elim (Bool-cases e.remote_busy) [
  | inl busy ↦ rw (process_output_busy e busy) ((refl, v, refl), armed, inl busy)
  | inr idle ↦
      let sends = fill_window-Sends e.pending e refl v in
      let full = and_refresh-IsFull _ (fill_window-IsFull e.pending e refl v) in
      rw (process_output_idle e idle)
        (and_refresh-Sends e _ sends, and_refresh-Armed _ sends.0, inr full)
]
