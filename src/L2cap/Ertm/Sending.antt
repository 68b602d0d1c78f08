-- ===== src/L2cap/Ertm/Sending.antt =====
-- The invariant of the sending half of src/l2cap/ertm.rs, and what keeps it.
pub mod Window
pub mod Retransmit
pub mod SelectiveReject
pub mod Acknowledge
pub mod Operations
pub mod Receive
pub mod Segments
pub mod Sdu
use swbt_bumble_backend.Base.{
  ℕ, suc, ◌+◌, ◌≤◌, ◌<◌, ◌≡◌, ◌≢◌, ◌⊎◌, refl, sym, ap, ◌∙◌, arith, Option, none, some, List, [],
  ◌∷◌, ◌++◌, length, length-append, length-map, map, All, All-append, inl, inr,
}
use mathlib.Core.List.{append_assoc, map-append}
use mathlib.Core.Path.{subst}
use swbt_bumble_backend.L2cap.Ertm.State.{PendingFrame, TransmittedFrame, ErtmEngine, ErtmConfig}
use swbt_bumble_backend.L2cap.Ertm.Output.{transmit, deadline_for, refresh_retransmission_deadline}
use swbt_bumble_backend.L2cap.Ertm.Order.{frames, Numbered}

-- With a limit, no frame is sent more often than once and the retransmissions.
abbrev pub WithinLimit : ℕ → TransmittedFrame → Type 0
WithinLimit limit t = (limit ≡ 0) ⊎ (t.transmissions ≤ limit + 1)

-- The retransmission timer runs exactly while a frame waits for its acknowledgment.
abbrev pub Armed : List TransmittedFrame → Option ℕ → Type 0
Armed [] deadline = deadline ≡ none
Armed (_ ∷ _) deadline = deadline ≢ none

pub record SendIsValid (e : ErtmEngine) : Type 0 where
  pub window_size : e.config.tx_window_size ≤ 63
  pub room : length e.tx_window ≤ e.config.tx_window_size
  pub order : Numbered e.last_acked_tx_seq (frames e) e.next_tx_seq
  pub acked : e.last_acked_tx_seq < 64
  pub expected : e.expected_tx_seq < 64
  pub limits : All (WithinLimit e.config.max_retransmissions) e.tx_window
  pub limit_width : e.config.max_retransmissions < 256
  pub mps : 0 < e.config.peer_mps

-- A write of the value that is there changes nothing.
pub pending_same :
    (e : ErtmEngine) (fs : List PendingFrame) → e.pending ≡ fs → record e { pending = fs } ≡ e
pending_same e fs h = λ i. record e { pending = sym h i }

frames_move :
    (w : List TransmittedFrame) (t : TransmittedFrame) (rest : List PendingFrame)
    → map (λ (u : TransmittedFrame). u.frame) (w ++ t ∷ []) ++ rest
      ≡ map (λ (u : TransmittedFrame). u.frame) w ++ t.frame ∷ rest
frames_move [] t rest = refl
frames_move (x ∷ w) t rest = ap (◌∷◌ x.frame) (frames_move w t rest)

pub frames-transmit :
    (e : ErtmEngine) (f : PendingFrame) (rest : List PendingFrame) (bytes : List ℕ)
    → e.pending ≡ f ∷ rest
    → frames (transmit f rest bytes e) ≡ frames e
unfolding transmit
frames-transmit e f rest bytes h =
    frames_move e.tx_window (record { frame = f; transmissions = 1 }) rest
    ∙ ap (λ ps. map (λ (u : TransmittedFrame). u.frame) e.tx_window ++ ps) (sym h)

pub transmit-SendIsValid :
    (e : ErtmEngine) (f : PendingFrame) (rest : List PendingFrame) (bytes : List ℕ)
    → e.pending ≡ f ∷ rest
    → length e.tx_window < e.config.tx_window_size
    → SendIsValid e
    → SendIsValid (transmit f rest bytes e)
unfolding transmit
transmit-SendIsValid e f rest bytes h lt v = record {
  window_size = v.window_size;
  room = omega (arith, length-append e.tx_window (record { frame = f; transmissions = 1 } ∷ []));
  order =
      subst (λ fs. Numbered e.last_acked_tx_seq fs e.next_tx_seq)
        (sym (frames-transmit e f rest bytes h)) v.order;
  acked = v.acked;
  expected = v.expected;
  limits =
      All-append (WithinLimit e.config.max_retransmissions) e.tx_window _ v.limits
        (inr (omega arith), tt);
  limit_width = v.limit_width;
  mps = v.mps;
}

-- The invariant with the timer's.
abbrev pub IsReady : ErtmEngine → Type 0
IsReady e = SendIsValid e × Armed e.tx_window e.retransmission_deadline

abbrev pub window_frames : List TransmittedFrame → List PendingFrame
window_frames w = map (λ (t : TransmittedFrame). t.frame) w

-- A window of the same frames, within their limits, can take the window's place; what was sent, and
-- the acknowledgment that it carried, do not matter.
pub same_window-SendIsValid :
    (e : ErtmEngine) (w : List TransmittedFrame) (sent : List (List ℕ)) (request : ℕ)
    → window_frames w ≡ window_frames e.tx_window
    → All (WithinLimit e.config.max_retransmissions) w
    → SendIsValid e
    → SendIsValid (record e { tx_window = w; outbound = sent; last_acked_rx_seq = request })
same_window-SendIsValid e w sent request same limits v = record {
  window_size = v.window_size;
  room = omega (
    arith,
    v.room,
    ap length same,
    length-map w (λ (t : TransmittedFrame). t.frame),
    length-map e.tx_window (λ (t : TransmittedFrame). t.frame),
  );
  order =
      subst (λ fs. Numbered e.last_acked_tx_seq (fs ++ e.pending) e.next_tx_seq) (sym same) v.order;
  acked = v.acked;
  expected = v.expected;
  limits = limits;
  limit_width = v.limit_width;
  mps = v.mps;
}

-- The invariant does not look at the other fields of the state.
pub unrelated-SendIsValid :
    (e others : ErtmEngine) (expected : ℕ)
    → expected < 64
    → SendIsValid e
    → SendIsValid (record others {
      config = e.config;
      pending = e.pending;
      tx_window = e.tx_window;
      next_tx_seq = e.next_tx_seq;
      last_acked_tx_seq = e.last_acked_tx_seq;
      expected_tx_seq = expected;
    })
unrelated-SendIsValid e others expected h v = record {
  window_size = v.window_size;
  room = v.room;
  order = v.order;
  acked = v.acked;
  expected = h;
  limits = v.limits;
  limit_width = v.limit_width;
  mps = v.mps;
}

-- The state stays ready, and holds the same frames in the same order.
abbrev pub Keeps : ErtmEngine → ErtmEngine → Type 0
Keeps e e' = IsReady e' × (frames e' ≡ frames e)

-- The same when only fields have changed that the invariant does not look at.
pub unrelated-IsReady :
    (e others : ErtmEngine) (expected : ℕ)
    → expected < 64
    → IsReady e
    → IsReady (record others {
      config = e.config;
      pending = e.pending;
      tx_window = e.tx_window;
      next_tx_seq = e.next_tx_seq;
      last_acked_tx_seq = e.last_acked_tx_seq;
      expected_tx_seq = expected;
      retransmission_deadline = e.retransmission_deadline;
    })
unrelated-IsReady e others expected h ready = (
  unrelated-SendIsValid e (record others { retransmission_deadline = e.retransmission_deadline })
      expected h ready.0,
  ready.1,
)
