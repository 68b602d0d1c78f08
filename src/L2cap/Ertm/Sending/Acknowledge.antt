-- ===== src/L2cap/Ertm/Sending/Acknowledge.antt =====
-- `acknowledge` of src/l2cap/ertm.rs drops exactly what the peer has acknowledged.
use swbt_bumble_backend.Base.{
  ℕ, zero, suc, ◌≤◌, ◌<◌, ◌≡◌, ◌⊎◌, inl, inr, refl, sym, ap, ◌∙◌, arith, Bool, true, false, not,
  List, [], ◌∷◌, ◌++◌, length, drop, All-drop, Result, ok, err, ltb, leb, ◌==◌, Bool-cases, ltb→lt,
}
use mathlib.Core.Path.{subst}
use swbt_bumble_backend.L2cap.{Error}
use swbt_bumble_backend.L2cap.Ertm.Control.{ertm_sequence_modulus}
use swbt_bumble_backend.L2cap.Ertm.State.{
  PendingFrame, TransmittedFrame, ErtmEngine, sequence_add, sequence_distance,
}
use swbt_bumble_backend.L2cap.Ertm.Output.{acknowledge, refresh_retransmission_deadline}
use swbt_bumble_backend.L2cap.Ertm.Order.{
  frames, Numbered, Numbered-drop, sequence_add-distance, sequence_add-zero, sequence_distance-lt,
}
use swbt_bumble_backend.L2cap.Ertm.Sending.{WithinLimit, SendIsValid, IsReady, window_frames}
use swbt_bumble_backend.L2cap.Ertm.Sending.Window.{refresh-SendIsValid, refresh-Armed}

drop_window :
    (k : ℕ) (w : List TransmittedFrame) (rest : List PendingFrame)
    → k ≤ length w
    → window_frames (drop k w) ++ rest ≡ drop k (window_frames w ++ rest)
drop_window zero w rest h = refl
drop_window (suc k) [] rest h = absurd (omega arith)
drop_window (suc k) (t ∷ w) rest h = drop_window k w rest (omega arith)

length-drop-le : (k : ℕ) (w : List TransmittedFrame) → length (drop k w) ≤ length w
length-drop-le zero w = omega arith
length-drop-le (suc k) [] = omega arith
length-drop-le (suc k) (t ∷ w) = omega (arith, length-drop-le k w)

frames_length :
    (w : List TransmittedFrame) (rest : List PendingFrame)
    → length w ≤ length (window_frames w ++ rest)
frames_length [] rest = omega arith
frames_length (t ∷ w) rest = omega (arith, frames_length w rest)

-- The state once `count` frames are acknowledged, `seq` being the number of the next one.
abbrev kept : ℕ → ℕ → ErtmEngine → ErtmEngine
kept seq count e = record e { tx_window = drop count e.tx_window; last_acked_tx_seq = seq }

kept-SendIsValid :
    (seq : ℕ) (e : ErtmEngine)
    → seq < 64
    → sequence_distance e.last_acked_tx_seq seq ≤ length e.tx_window
    → SendIsValid e
    → SendIsValid (kept seq (sequence_distance e.last_acked_tx_seq seq) e)
kept-SendIsValid seq e lt h v =
    let count = sequence_distance e.last_acked_tx_seq seq in
    let reached = sequence_add-distance e.last_acked_tx_seq seq v.acked lt in
    let order =
      Numbered-drop count e.last_acked_tx_seq e.next_tx_seq (frames e) v.acked
        (sequence_distance-lt e.last_acked_tx_seq seq)
        (omega (arith, frames_length e.tx_window e.pending)) v.order in
    record {
      window_size = v.window_size;
      room = omega (arith, length-drop-le count e.tx_window, v.room);
      order =
          subst (λ fs. Numbered seq fs e.next_tx_seq)
            (sym (drop_window count e.tx_window e.pending h))
            (subst (λ n. Numbered n (drop count (frames e)) e.next_tx_seq) reached order);
      acked = lt;
      expected = v.expected;
      limits = All-drop (WithinLimit e.config.max_retransmissions) count e.tx_window v.limits;
      limit_width = v.limit_width;
      mps = v.mps;
    }

-- What the outcome of `acknowledge` says of the states before and after it.
abbrev pub Acknowledged : (seq : ℕ) → ErtmEngine → ErtmEngine × Result Error Bool → Type 0
Acknowledged seq e (e', ok acked) =
    (seq < 64)
    × (sequence_distance e.last_acked_tx_seq seq ≤ length e.tx_window)
    × (e'.last_acked_tx_seq ≡ seq)
    × (frames e' ≡ drop (sequence_distance e.last_acked_tx_seq seq) (frames e))
    × (acked ≡ not (sequence_distance e.last_acked_tx_seq seq == 0))
Acknowledged seq e (e', err x) =
    (e' ≡ e) × ((64 ≤ seq) ⊎ (length e.tx_window < sequence_distance e.last_acked_tx_seq seq))

not_beyond : (a b : ℕ) → ltb a b ≡ false → b ≤ a
not_beyond a b h = ground arith

zero_when : (n : ℕ) → (n == 0) ≡ true → n ≡ 0
zero_when n h = ground arith

-- On a ready engine, which stays ready, an acknowledgment in range whose distance is at most the
-- window's length drops exactly that many frames, the oldest; any other is refused and changes
-- nothing.
pub acknowledge_lem :
    (seq : ℕ) (e : ErtmEngine)
    → IsReady e
    → IsReady (acknowledge seq e).0 × Acknowledged seq e (acknowledge seq e)
unfolding acknowledge
acknowledge_lem seq e (v, armed) =
    let count = sequence_distance e.last_acked_tx_seq seq in
    elim (Bool-cases (leb ertm_sequence_modulus seq)) [
      | inl out ↦ rw out ((v, armed), (refl, inl (ground arith)))
      | inr below ↦
          let lt : seq < 64 = ground arith in
          let reached = sequence_add-distance e.last_acked_tx_seq seq v.acked lt in
          elim (Bool-cases (ltb (length e.tx_window) count)) [
            | inl many ↦ rw (below, many) ((v, armed), (refl, inr (ltb→lt _ _ many)))
            | inr few ↦
                let within = not_beyond (length e.tx_window) count few in
                elim (Bool-cases (count == 0)) [
                  | inl nothing ↦
                      rw (below, few, nothing)
                        (
                          (v, armed),
                          (
                            lt,
                            within,
                            sym (sequence_add-zero e.last_acked_tx_seq v.acked)
                                ∙ ap (sequence_add e.last_acked_tx_seq)
                                    (sym (zero_when count nothing))
                                ∙ reached,
                            ap (λ k. drop k (frames e)) (sym (zero_when count nothing)),
                            sym (ap not nothing),
                          ),
                        )
                  | inr several ↦
                      rw (below, few, several)
                        (
                          (
                            refresh-SendIsValid (kept seq count e)
                                (kept-SendIsValid seq e lt within v),
                            refresh-Armed (kept seq count e),
                          ),
                          (
                            lt,
                            within,
                            unfold refresh_retransmission_deadline in refl,
                            unfold refresh_retransmission_deadline in
                                drop_window count e.tx_window e.pending within,
                            sym (ap not several),
                          ),
                        )
                ]
          ]
    ]
