-- ===== src/L2cap/Ertm/Sending/Retransmit.antt =====
-- Retransmission in src/l2cap/ertm.rs: the same frames go out again, within the limit.
use swbt_bumble_backend.Base.{
  ℕ, ◌<◌, ◌≡◌, inl, inr, refl, sym, ap, ◌∙◌, arith, true, false, Option, none, some, List, [], ◌∷◌,
  ◌++◌, map, All, Result, ok, err, Bool-cases, Option-cases, if◌then◌else◌,
}
use mathlib.Core.Path.{subst}
use mathlib.Core.List.{append_assoc, append-nil}
use swbt_bumble_backend.L2cap.{Error}
use swbt_bumble_backend.L2cap.Ertm.State.{PendingFrame, TransmittedFrame, ErtmEngine}
use swbt_bumble_backend.L2cap.Ertm.Output.{
  transmit_again, send_again, resend, and_refresh, retransmission_limit_reached, find_limit_reached,
  retransmit_all, limit_error, refresh_retransmission_deadline,
}
use swbt_bumble_backend.L2cap.Ertm.Order.{frames, Numbered-lt, encode-ok}
use swbt_bumble_backend.L2cap.Ertm.Sending.{
  WithinLimit, SendIsValid, IsReady, window_frames, same_window-SendIsValid, unrelated-IsReady,
  Keeps,
}
use swbt_bumble_backend.L2cap.Ertm.Sending.Window.{refresh-SendIsValid, refresh-Armed}

abbrev pub InRange : PendingFrame → Type 0
InRange f = f.tx_seq < 64

window-InRange :
    (w : List TransmittedFrame) (rest : List PendingFrame)
    → All InRange (window_frames w ++ rest)
    → All (λ (t : TransmittedFrame). InRange t.frame) w
window-InRange [] rest h = tt
window-InRange (t ∷ w) rest h = (h.0, window-InRange w rest h.1)

-- Every frame of a valid window has a sequence number below 64.
pub tx_window-InRange :
    (e : ErtmEngine) → SendIsValid e → All (λ (t : TransmittedFrame). InRange t.frame) e.tx_window
tx_window-InRange e v =
    window-InRange e.tx_window e.pending
      (Numbered-lt e.last_acked_tx_seq e.next_tx_seq (frames e) v.acked v.order)

-- `resend` sends every frame of `todo` again, and changes the window, what goes out and the last
-- acknowledgment alone.
resend_lem :
    (sent todo : List TransmittedFrame) (e : ErtmEngine)
    → e.expected_tx_seq < 64
    → All (λ (t : TransmittedFrame). InRange t.frame) todo
    → let (e', r) = resend sent todo e in
      (r ≡ ok tt)
      × (e' ≡ record e {
        tx_window = sent ++ map transmit_again todo;
        outbound = e'.outbound;
        last_acked_rx_seq = e'.last_acked_rx_seq;
      })
unfolding resend
resend_lem sent [] e h range = (refl, λ i. record e { tx_window = sym (append-nil sent) i })
resend_lem sent (t ∷ rest) e h range =
    let (bytes, encoded) = encode-ok t.frame e.expected_tx_seq false range.0 h in
    let next = resend (sent ++ transmit_again t ∷ []) rest (send_again bytes e) in
    let (fine, same) =
      resend_lem (sent ++ transmit_again t ∷ []) rest (send_again bytes e) h range.1 in
    rw (encoded, resend)
      (
        fine,
        same ∙ λ i. record e {
          tx_window = append_assoc sent (transmit_again t ∷ []) (map transmit_again rest) i;
          outbound = next.0.outbound;
          last_acked_rx_seq = next.0.last_acked_rx_seq;
        },
      )

pub again-WithinLimit :
    (limit : ℕ) (t : TransmittedFrame)
    → limit < 256
    → retransmission_limit_reached limit t ≡ false
    → WithinLimit limit (transmit_again t)
unfolding retransmission_limit_reached
again-WithinLimit limit t h e = ground arith

find_limit_reached-none :
    (limit : ℕ) (w : List TransmittedFrame)
    → limit < 256
    → find_limit_reached limit w ≡ none
    → All (WithinLimit limit) (map transmit_again w)
unfolding find_limit_reached
find_limit_reached-none limit [] h e = tt
find_limit_reached-none limit (t ∷ w) h e =
    elim (Bool-cases (retransmission_limit_reached limit t)) [
      | inl reached ↦ cc (e, reached)
      | inr below ↦
          (again-WithinLimit limit t h below, find_limit_reached-none limit w h (rw below at e))
    ]

window_frames-again :
    (w : List TransmittedFrame) → window_frames (map transmit_again w) ≡ window_frames w
window_frames-again [] = refl
window_frames-again (t ∷ w) = ap (◌∷◌ t.frame) (window_frames-again w)

and_refresh-Keeps :
    (e : ErtmEngine) (p : ErtmEngine × Result Error (Unit {0}))
    → p.1 ≡ ok tt
    → SendIsValid p.0
    → frames p.0 ≡ frames e
    → Keeps e (and_refresh p).0
and_refresh-Keeps e (e', ok u) h v same =
    ((refresh-SendIsValid e' v, refresh-Armed e'), unfold refresh_retransmission_deadline in same)
and_refresh-Keeps e (e', err x) h v same = cc

resend-Keeps :
    (e : ErtmEngine)
    → SendIsValid e
    → All (WithinLimit e.config.max_retransmissions) (map transmit_again e.tx_window)
    → Keeps e (and_refresh (resend [] e.tx_window e)).0
resend-Keeps e v limits =
    let p = resend [] e.tx_window e in
    let (fine, same) = resend_lem [] e.tx_window e v.expected (tx_window-InRange e v) in
    let again = window_frames-again e.tx_window in
    and_refresh-Keeps e p fine
      (subst SendIsValid (sym same) (
        same_window-SendIsValid e (map transmit_again e.tx_window) p.0.outbound
          p.0.last_acked_rx_seq again limits v))
      (ap frames same ∙ ap (λ fs. fs ++ e.pending) again)

retransmit_all_busy : (e : ErtmEngine) → e.remote_busy ≡ true → retransmit_all e ≡ (e, ok tt)
unfolding retransmit_all
retransmit_all_busy e h =
    let resent : ErtmEngine × Result Error (Unit {0}) =
      elim (find_limit_reached e.config.max_retransmissions e.tx_window) [
        | some t ↦ (record e { failed = true }, err (limit_error t))
        | none ↦ and_refresh (resend [] e.tx_window e)
      ] in
    ap (λ busy. if busy then (e, ok tt) else resent) h

retransmit_all_reached :
    (e : ErtmEngine) (t : TransmittedFrame)
    → e.remote_busy ≡ false
    → find_limit_reached e.config.max_retransmissions e.tx_window ≡ some t
    → retransmit_all e ≡ (record e { failed = true }, err (limit_error t))
unfolding retransmit_all
retransmit_all_reached e t h found =
    let resent : Option TransmittedFrame → ErtmEngine × Result Error (Unit {0}) = λ o. elim o [
      | some t ↦ (record e { failed = true }, err (limit_error t))
      | none ↦ and_refresh (resend [] e.tx_window e)
    ] in
    λ i. if h i then (e, ok tt) else resent (found i)

retransmit_all_within :
    (e : ErtmEngine)
    → e.remote_busy ≡ false
    → find_limit_reached e.config.max_retransmissions e.tx_window ≡ none
    → retransmit_all e ≡ and_refresh (resend [] e.tx_window e)
unfolding retransmit_all
retransmit_all_within e h found =
    let resent : Option TransmittedFrame → ErtmEngine × Result Error (Unit {0}) = λ o. elim o [
      | some t ↦ (record e { failed = true }, err (limit_error t))
      | none ↦ and_refresh (resend [] e.tx_window e)
    ] in
    λ i. if h i then (e, ok tt) else resent (found i)

-- `retransmit_all` keeps the invariant and the frames, also when it gives up.
pub retransmit_all-Keeps : (e : ErtmEngine) → IsReady e → Keeps e (retransmit_all e).0
retransmit_all-Keeps e ready = elim (Bool-cases e.remote_busy) [
  | inl busy ↦ rw (retransmit_all_busy e busy) (ready, refl)
  | inr idle ↦ elim (Option-cases (find_limit_reached e.config.max_retransmissions e.tx_window)) [
    | inl within ↦
        rw (retransmit_all_within e idle within) (
          resend-Keeps e ready.0 (find_limit_reached-none _ e.tx_window ready.0.limit_width within))
    | inr (t, reached) ↦ rw (retransmit_all_reached e t idle reached) (
      unrelated-IsReady e (record e { failed = true }) e.expected_tx_seq ready.0.expected ready,
      refl,
    )
  ]
]
