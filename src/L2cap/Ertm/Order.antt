-- ===== src/L2cap/Ertm/Order.antt =====
-- The order of the sequence numbers in src/l2cap/ertm.rs: which frames an engine still holds, and
-- that they are numbered one after the other modulo 64.
use swbt_bumble_backend.Base.{
  ℕ, zero, suc, ◌≤◌, ◌<◌, ◌≡◌, sym, ap, ◌∙◌, arith, Bool, List, [], ◌∷◌, ◌++◌, length, drop, map,
  All, ok,
}
use swbt_bumble_backend.L2cap.Ertm.Control.{information}
use swbt_bumble_backend.L2cap.Ertm.Control.RoundTrip.{enhanced_from_bytes-to_bytes}
use swbt_bumble_backend.L2cap.Ertm.State.{
  PendingFrame, TransmittedFrame, ErtmEngine, encode, length_bytes, sequence_add, sequence_distance,
}

-- What the engine holds and the peer has not acknowledged, oldest first.
abbrev pub frames : ErtmEngine → List PendingFrame
frames e = map (λ (t : TransmittedFrame). t.frame) e.tx_window ++ e.pending

-- The frames are numbered from `first` on, and `next` follows the last one.
abbrev pub Numbered : (first : ℕ) → List PendingFrame → (next : ℕ) → Type 0
Numbered first [] next = first ≡ next
Numbered first (f ∷ fs) next = (f.tx_seq ≡ first) × Numbered (sequence_add first 1) fs next

pub sequence_add-lt : (n d : ℕ) → sequence_add n d < 64
unfolding sequence_add
sequence_add-lt n d = omega arith

pub Numbered-append :
    (first next : ℕ) (fs : List PendingFrame) (f : PendingFrame)
    → Numbered first fs next
    → f.tx_seq ≡ next
    → Numbered first (fs ++ f ∷ []) (sequence_add next 1)
Numbered-append first next [] f h e = (e ∙ sym h, ap (λ n. sequence_add n 1) h)
Numbered-append first next (g ∷ fs) f h e =
    (h.0, Numbered-append (sequence_add first 1) next fs f h.1 e)

pub Numbered-lt :
    (first next : ℕ) (fs : List PendingFrame)
    → first < 64
    → Numbered first fs next
    → All (λ (f : PendingFrame). f.tx_seq < 64) fs
Numbered-lt first next [] lt h = tt
Numbered-lt first next (f ∷ fs) lt h =
    (omega (arith, h.0), Numbered-lt (sequence_add first 1) next fs (sequence_add-lt first 1) h.1)

pub sequence_add-zero : (n : ℕ) → n < 64 → sequence_add n 0 ≡ n
unfolding sequence_add
sequence_add-zero n h = omega arith

sequence_add-suc :
    (n k : ℕ) → n < 64 → suc k < 64 → sequence_add n (suc k) ≡ sequence_add (sequence_add n 1) k
unfolding sequence_add
sequence_add-suc n k l h = omega arith

-- After an acknowledgment of the first `k` frames the rest is numbered from `first + k` on.
pub Numbered-drop :
    (k first next : ℕ) (fs : List PendingFrame)
    → first < 64
    → k < 64
    → k ≤ length fs
    → Numbered first fs next
    → Numbered (sequence_add first k) (drop k fs) next
Numbered-drop zero first next fs lt bound h n = rw (sequence_add-zero first lt) n
Numbered-drop (suc k) first next [] lt bound h n = absurd (omega arith)
Numbered-drop (suc k) first next (f ∷ fs) lt bound h n = rw (sequence_add-suc first k lt bound) (
    Numbered-drop k (sequence_add first 1) next fs (sequence_add-lt first 1) (omega arith)
      (omega arith) n.1)

-- The distance is the number of steps.
pub sequence_add-distance :
    (from to : ℕ) → from < 64 → to < 64 → sequence_add from (sequence_distance from to) ≡ to
unfolding sequence_add sequence_distance
sequence_add-distance from to hf ht = omega arith

pub sequence_distance-lt : (from to : ℕ) → sequence_distance from to < 64
unfolding sequence_distance
sequence_distance-lt from to = omega arith

-- Frames with a sequence number in range can be encoded.
pub encode-ok :
    (f : PendingFrame) (request : ℕ) (final_bit : Bool)
    → f.tx_seq < 64
    → request < 64
    → (bytes : List ℕ) × (encode f request final_bit ≡ ok bytes)
unfolding encode
encode-ok f request final_bit ht hr =
    let (header, written, _, _) =
      enhanced_from_bytes-to_bytes (information f.tx_seq final_bit request f.sar) [] (ht, hr) in
    (header ++ (length_bytes f.sdu_length ++ f.payload), rw written)
