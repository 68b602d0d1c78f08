-- ===== src/L2cap/Ertm/Runs.antt =====
-- Runs of `ErtmEngine` (src/l2cap/ertm.rs): every state that its operations reach from `new`.
use swbt_bumble_backend.Base.{
  ℕ, ◌≤◌, ◌<◌, ◌≡◌, inl, inr, refl, ap, arith, Bool, true, false, ◌||◌, ◌&&◌, not, List, [], ◌∷◌,
  Option, none, some, Result, ok, err, OnOk, OnOk-ok, fail_if, ◌>>=◌, Result-cases, if◌then◌else◌,
  leb, ltb, ◌==◌,
}
use swbt_bumble_backend.L2cap.{
  Error, invalid_packet, engine_failed, zero_mtu, zero_mps, window_out_of_range, zero_timeout,
}
use swbt_bumble_backend.L2cap.Ertm.State.{
  ErtmConfig, ErtmEngine, Action, ◌then_do◌, validate, initial, new,
}
use swbt_bumble_backend.L2cap.Ertm.Control.{ertm_sequence_modulus}
use swbt_bumble_backend.L2cap.Ertm.Engine.{
  ensure_active, send_active, receive_active, advance, set_busy, send_sdu, receive_frame, tick,
  set_receiver_busy, poll_outbound, drain_outbound, pop_received,
}
use swbt_bumble_backend.L2cap.Ertm.Sending.{IsReady, unrelated-IsReady}
use swbt_bumble_backend.L2cap.Ertm.Sending.Operations.{tick-Keeps, set_receiver_busy-Keeps}
use swbt_bumble_backend.L2cap.Ertm.Sending.Receive.{receive_frame-Drops}
use swbt_bumble_backend.L2cap.Ertm.Sending.Sdu.{send_sdu_lem}

-- A call of the engine's owner.
pub data Call : Type 0 where
  send : (sdu : List ℕ) → Call
  receive : (frame : List ℕ) → Call
  elapse : (ticks : ℕ) → Call
  receiver_busy : (busy : Bool) → Call
  poll : Call
  drain : Call
  pop : Call

-- The state after the call, whether or not it returned an error.
unfoldable pub perform : Call → ErtmEngine → ErtmEngine
unfolding send_sdu receive_frame tick set_receiver_busy poll_outbound drain_outbound pop_received
perform (send sdu) e = (send_sdu sdu e).0
perform (receive frame) e = (receive_frame frame e).0
perform (elapse ticks) e = (tick ticks e).0
perform (receiver_busy busy) e = (set_receiver_busy busy e).0
perform poll e = (poll_outbound e).1
perform drain e = (drain_outbound e).1
perform pop e = (pop_received e).1

-- One call, and what a sequence of calls reaches.
pub data Reaches : ErtmEngine → ErtmEngine → Type 0 where
  here : {e : ErtmEngine} → Reaches e e
  later : {e e' : ErtmEngine} (call : Call) → Reaches (perform call e) e' → Reaches e e'

poll-IsReady : (e : ErtmEngine) → IsReady e → IsReady (poll_outbound e).1
unfolding poll_outbound
poll-IsReady e ready =
    let outcome : List (List ℕ) → Option (List ℕ) × ErtmEngine = λ out. elim out [
      | [] ↦ (none, e)
      | frame ∷ rest ↦ (some frame, record e { outbound = rest })
    ] in
    elim e.outbound as (λ out. IsReady (outcome out).1) [
      | [] ↦ ready
      | frame ∷ rest ↦
          unrelated-IsReady e (record e { outbound = rest }) e.expected_tx_seq ready.0.expected
            ready
    ]

drain-IsReady : (e : ErtmEngine) → IsReady e → IsReady (drain_outbound e).1
unfolding drain_outbound
drain-IsReady e ready =
    unrelated-IsReady e (record e { outbound = [] }) e.expected_tx_seq ready.0.expected ready

pop-IsReady : (e : ErtmEngine) → IsReady e → IsReady (pop_received e).1
unfolding pop_received
pop-IsReady e ready =
    let outcome : List (List ℕ) → Option (List ℕ) × ErtmEngine = λ sdus. elim sdus [
      | [] ↦ (none, e)
      | sdu ∷ rest ↦ (some sdu, record e { received = rest })
    ] in
    elim e.received as (λ sdus. IsReady (outcome sdus).1) [
      | [] ↦ ready
      | sdu ∷ rest ↦
          unrelated-IsReady e (record e { received = rest }) e.expected_tx_seq ready.0.expected
            ready
    ]

perform-IsReady : (call : Call) (e : ErtmEngine) → IsReady e → IsReady (perform call e)
unfolding perform
perform-IsReady (send sdu) e ready = (send_sdu_lem sdu e ready).0
perform-IsReady (receive frame) e ready = (receive_frame-Drops frame e ready).0
perform-IsReady (elapse ticks) e ready = (tick-Keeps ticks e ready).0
perform-IsReady (receiver_busy busy) e ready = (set_receiver_busy-Keeps busy e ready).0
perform-IsReady poll e ready = poll-IsReady e ready
perform-IsReady drain e ready = drain-IsReady e ready
perform-IsReady pop e ready = pop-IsReady e ready

Reaches-IsReady : (e e' : ErtmEngine) → Reaches e e' → IsReady e → IsReady e'
Reaches-IsReady e _ here ready = ready
Reaches-IsReady e e' (later call run) ready =
    Reaches-IsReady (perform call e) e' run (perform-IsReady call e ready)

-- What `validate` lets through.
abbrev IsUsable : ErtmConfig → ErtmConfig → Type 0
IsUsable c c' = (c' ≡ c) × (0 < c.peer_mps) × (c.tx_window_size ≤ 63)

guarded-OnOk :
    {A : Type 0} (P : A → Type 0) (b : Bool) (x : Error) (k : Unit {0} → Result Error A)
    → (b ≡ false → OnOk P (k tt))
    → OnOk P (fail_if b x >>= k)
guarded-OnOk P true x k h = tt
guarded-OnOk P false x k h = h refl

validate-IsUsable : (c : ErtmConfig) → OnOk (IsUsable c) (validate c)
unfolding validate
validate-IsUsable c =
    guarded-OnOk (IsUsable c) (c.local_mtu == 0 || c.peer_mtu == 0) (invalid_packet zero_mtu) _
      (λ mtus.
        guarded-OnOk (IsUsable c) (c.local_mps == 0 || c.peer_mps == 0) (invalid_packet zero_mps) _
          (λ mpss.
            guarded-OnOk (IsUsable c)
              (not (leb 1 c.tx_window_size && ltb c.tx_window_size ertm_sequence_modulus))
              (invalid_packet window_out_of_range) _
              (λ window.
                let usable : IsUsable c c = (refl, ground arith, ground arith) in
                guarded-OnOk (IsUsable c) (c.retransmission_timeout_ticks == 0)
                  (invalid_packet zero_timeout) (λ _. ok c) (λ timeout. usable))))

initial-IsReady :
    (c : ErtmConfig)
    → 0 < c.peer_mps
    → c.tx_window_size ≤ 63
    → c.max_retransmissions < 256
    → IsReady (initial c)
unfolding initial
initial-IsReady c positive window width = (
  record {
    window_size = window;
    room = omega arith;
    order = refl;
    acked = omega arith;
    expected = omega arith;
    limits = tt;
    limit_width = width;
    mps = positive;
  },
  refl,
)

new-OnOk :
    (c : ErtmConfig) → c.max_retransmissions < 256 → OnOk (λ (e : ErtmEngine). IsReady e) (new c)
unfolding new
new-OnOk c width = elim (Result-cases (validate c)) [
  | inl (c', valid) ↦
      let (same, positive, window) = OnOk-ok (IsUsable c) valid (validate-IsUsable c) in
      let ready = initial-IsReady c positive window width in rw (valid, same) ready
  | inr (x, wrong) ↦ rw wrong tt
]

-- Whatever calls follow `new`, and whatever bytes and times they bring, if the engine could be made
-- from the configuration, whose retransmission limit is a byte: the transmit window is within its
-- limit, its frames and the pending ones are numbered one after the other from the last
-- acknowledgment on, no frame has been sent more often than the limit allows, and the timer runs
-- exactly while a frame waits for its acknowledgment.
pub new-IsReady :
    (c : ErtmConfig) (e e' : ErtmEngine)
    → c.max_retransmissions < 256
    → new c ≡ ok e
    → Reaches e e'
    → IsReady e'
new-IsReady c e e' width made run =
    Reaches-IsReady e e' run (OnOk-ok (λ (e : ErtmEngine). IsReady e) made (new-OnOk c width))

refused :
    (action : Action) (e : ErtmEngine)
    → e.failed ≡ true
    → (ensure_active then_do action) e ≡ (e, err (invalid_packet engine_failed))
unfolding ensure_active
refused action e failed =
    let outcome : Bool → ErtmEngine × Result Error (Unit {0}) =
      λ b. ((λ _. (e, if b then err (invalid_packet engine_failed) else ok tt)) then_do action) e in
    ap outcome failed

pub failed_refuses :
    (e : ErtmEngine) (bytes : List ℕ) (ticks : ℕ) (busy : Bool)
    → e.failed ≡ true
    → let refusal : ErtmEngine × Result Error (Unit {0}) =
        (e, err (invalid_packet engine_failed)) in
      (send_sdu bytes e ≡ refusal)
      × (receive_frame bytes e ≡ refusal)
      × (tick ticks e ≡ refusal)
      × (set_receiver_busy busy e ≡ refusal)
unfolding send_sdu receive_frame tick set_receiver_busy
failed_refuses e bytes ticks busy failed = (
  refused (send_active bytes) e failed,
  refused (receive_active bytes) e failed,
  refused (advance ticks) e failed,
  refused (set_busy busy) e failed,
)
