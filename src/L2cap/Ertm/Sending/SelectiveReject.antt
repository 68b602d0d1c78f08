-- ===== src/L2cap/Ertm/Sending/SelectiveReject.antt =====
-- `retransmit_one` and `send_supervisory` of src/l2cap/ertm.rs keep the frames.
use swbt_bumble_backend.Base.{
  ℕ, ◌<◌, ◌≡◌, inl, inr, refl, sym, ap, ◌∙◌, Bool, true, false, Option, none, some, List, [], ◌∷◌,
  ◌++◌, All, Result, ok, err, Bool-cases, Option-cases, ◌==◌, if◌then◌else◌,
}
use mathlib.Core.Path.{subst}
use swbt_bumble_backend.L2cap.{Error}
use swbt_bumble_backend.L2cap.Ertm.Control.{SupervisoryFunction, supervisory, to_bytes}
use swbt_bumble_backend.L2cap.Ertm.Control.RoundTrip.{enhanced_from_bytes-to_bytes}
use swbt_bumble_backend.L2cap.Ertm.State.{TransmittedFrame, ErtmEngine}
use swbt_bumble_backend.L2cap.Ertm.Output.{
  transmit_again, send_again, retransmission_limit_reached, retransmit_one, resend_cut,
  send_supervisory, split_at_seq, resend_found, refresh_retransmission_deadline,
}
use swbt_bumble_backend.L2cap.Ertm.Order.{encode-ok}
use swbt_bumble_backend.L2cap.Ertm.Sending.{
  WithinLimit, SendIsValid, IsReady, window_frames, same_window-SendIsValid, unrelated-IsReady,
  Keeps,
}
use swbt_bumble_backend.L2cap.Ertm.Sending.Window.{refresh-SendIsValid, refresh-Armed}
use swbt_bumble_backend.L2cap.Ertm.Sending.Retransmit.{
  InRange, tx_window-InRange, again-WithinLimit,
}

-- What `split_at_seq` finds is the window, cut at a frame.
abbrev Joins :
    List TransmittedFrame
    → Option (List TransmittedFrame × TransmittedFrame × List TransmittedFrame)
    → Type 0
Joins w none = Unit {0}
Joins w (some (front, t, back)) = w ≡ front ++ t ∷ back

split_at_seq-Joins : (seq : ℕ) (w : List TransmittedFrame) → Joins w (split_at_seq seq w)
unfolding split_at_seq
split_at_seq-Joins seq [] = tt
split_at_seq-Joins seq (u ∷ w) = elim (Bool-cases (u.frame.tx_seq == seq)) [
  | inl found ↦ rw found refl
  | inr other ↦ elim (Option-cases (split_at_seq seq w)) [
    | inl missing ↦ rw (other, missing) tt
    | inr ((front, t, back), cut) ↦
        rw (other, cut) (ap (◌∷◌ u) (subst (Joins w) cut (split_at_seq-Joins seq w)))
  ]
]

-- One frame of the window in its place, sent once more.
again_at-WithinLimit :
    (limit : ℕ) (front : List TransmittedFrame) (t : TransmittedFrame)
    (back : List TransmittedFrame)
    → All (WithinLimit limit) (front ++ t ∷ back)
    → WithinLimit limit (transmit_again t)
    → All (WithinLimit limit) (front ++ transmit_again t ∷ back)
again_at-WithinLimit limit [] t back h again = (again, h.1)
again_at-WithinLimit limit (u ∷ front) t back h again =
    (h.0, again_at-WithinLimit limit front t back h.1 again)

window_frames-again_at :
    (front : List TransmittedFrame) (t : TransmittedFrame) (back : List TransmittedFrame)
    → window_frames (front ++ transmit_again t ∷ back) ≡ window_frames (front ++ t ∷ back)
window_frames-again_at [] t back = refl
window_frames-again_at (u ∷ front) t back = ap (◌∷◌ u.frame) (window_frames-again_at front t back)

middle-InRange :
    (front : List TransmittedFrame) (t : TransmittedFrame) (back : List TransmittedFrame)
    → All (λ (u : TransmittedFrame). InRange u.frame) (front ++ t ∷ back)
    → InRange t.frame
middle-InRange [] t back h = h.0
middle-InRange (u ∷ front) t back h = middle-InRange front t back h.1

resend_found-Keeps :
    (e : ErtmEngine) (front : List TransmittedFrame) (t : TransmittedFrame)
    (back : List TransmittedFrame)
    → e.tx_window ≡ front ++ t ∷ back
    → retransmission_limit_reached e.config.max_retransmissions t ≡ false
    → SendIsValid e
    → Keeps e (resend_found front t back e).0
unfolding send_again
resend_found-Keeps e front t back cut below v =
    let limit = e.config.max_retransmissions in
    let w = front ++ transmit_again t ∷ back in
    let same : window_frames w ≡ window_frames e.tx_window =
      window_frames-again_at front t back ∙ ap window_frames (sym cut) in
    let limits =
      again_at-WithinLimit limit front t back (subst (All (WithinLimit limit)) cut v.limits)
        (again-WithinLimit limit t v.limit_width below) in
    let range : InRange t.frame =
      middle-InRange front t back
        (subst (All (λ (u : TransmittedFrame). InRange u.frame)) cut (tx_window-InRange e v)) in
    let (bytes, encoded) = encode-ok t.frame e.expected_tx_seq false range v.expected in
    let valid =
      same_window-SendIsValid e w (e.outbound ++ bytes ∷ []) e.expected_tx_seq same limits v in
    rw (encoded, resend_found)
      (
        (refresh-SendIsValid _ valid, refresh-Armed _),
        unfold refresh_retransmission_deadline in ap (λ fs. fs ++ e.pending) same,
      )

resend_cut-Keeps :
    (seq : ℕ) (e : ErtmEngine)
    (cut : Option (List TransmittedFrame × TransmittedFrame × List TransmittedFrame))
    → Joins e.tx_window cut
    → IsReady e
    → Keeps e (resend_cut seq e cut).0
unfolding resend_cut
resend_cut-Keeps seq e none h ready = (ready, refl)
resend_cut-Keeps seq e (some (front, t, back)) h ready =
    elim (Bool-cases (retransmission_limit_reached e.config.max_retransmissions t)) [
      | inl reached ↦ rw reached (
        unrelated-IsReady e (record e { failed = true }) e.expected_tx_seq ready.0.expected ready,
        refl,
      )
      | inr below ↦ rw below (resend_found-Keeps e front t back h below ready.0)
    ]

-- So does `retransmit_one`, whichever frame the peer asks for.
pub retransmit_one-Keeps : (seq : ℕ) (e : ErtmEngine) → IsReady e → Keeps e (retransmit_one seq e).0
unfolding retransmit_one
retransmit_one-Keeps seq e ready =
    let cut = split_at_seq seq e.tx_window in
    let kept = resend_cut-Keeps seq e cut (split_at_seq-Joins seq e.tx_window) ready in
    let chosen : Bool → ErtmEngine × Result Error (Unit {0}) =
      λ busy. if busy then (e, ok tt) else resend_cut seq e cut in
    elim (Bool-cases e.remote_busy) [
      | inl busy ↦ subst (λ b. Keeps e (chosen b).0) (sym busy) (ready, refl)
      | inr idle ↦ subst (λ b. Keeps e (chosen b).0) (sym idle) kept
    ]

-- `send_supervisory` does not fail, and writes what goes out and the last acknowledgment alone.
pub send_supervisory_lem :
    (function : SupervisoryFunction) (poll final_bit : Bool) (e : ErtmEngine)
    → e.expected_tx_seq < 64
    → (bytes : List ℕ) × (to_bytes (supervisory function poll final_bit e.expected_tx_seq)
        ≡ ok bytes)
      × (send_supervisory function poll final_bit e ≡ (
        record e { outbound = e.outbound ++ bytes ∷ []; last_acked_rx_seq = e.expected_tx_seq },
        ok tt,
      ))
unfolding send_supervisory send_again
send_supervisory_lem function poll final_bit e h =
    let (bytes, written, _, _) =
      enhanced_from_bytes-to_bytes (supervisory function poll final_bit e.expected_tx_seq) [] h in
    let outcome : Result Error (List ℕ) → ErtmEngine × Result Error (Unit {0}) =
      λ r. elim r [ ok sent ↦ (send_again sent e, ok tt) | err x ↦ (e, err x) ] in
    (bytes, written, ap outcome written)

pub send_supervisory-Keeps :
    (function : SupervisoryFunction) (poll final_bit : Bool) (e : ErtmEngine)
    → IsReady e
    → Keeps e (send_supervisory function poll final_bit e).0
send_supervisory-Keeps function poll final_bit e ready =
    let (bytes, written, same) = send_supervisory_lem function poll final_bit e ready.0.expected in
    let e' = record e {
      outbound = e.outbound ++ bytes ∷ [];
      last_acked_rx_seq = e.expected_tx_seq;
    } in
    rw same (unrelated-IsReady e e' e.expected_tx_seq ready.0.expected ready, refl)
