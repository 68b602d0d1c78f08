-- ===== src/Host/AclFlow/Credits.antt =====
-- The credits of `AclFlow` in src/classic_host.rs are conserved, and packets leave in their order.
use swbt_bumble_backend.Base.{
  ℕ, ◌+◌, ◌-◌, ◌≤◌, ◌<◌, ◌≡◌, ◌⊎◌, refl, sym, ap, ◌∙◌, inl, inr, arith, List, [], ◌∷◌, ◌++◌, length,
  Bool, false, ltb, ltb→lt, ◌==◌, ==→eq, if◌then◌else◌, Bool-cases, Map, Result, ok, err,
}
use mathlib.Core.Path.{subst}
use mathlib.Core.List.{append_assoc, append-nil}
use swbt_bumble_backend.Hci.{AclPacket}
use swbt_bumble_backend.Host.AclFlow.{
  HostError, AclFlow, total, in_flight_total, count_of, take_credit, flush_queued, flush,
  with_remaining, complete,
}
use swbt_bumble_backend.Host.AclFlow.Totals.{
  IsUnique, total-insert, total-remove, insert-IsUnique, remove-IsUnique,
}

-- No more packets are in flight than the controller has buffers.
pub record IsValid (flow : AclFlow) : Type 0 where
  pub unique : IsUnique flow.in_flight
  pub within : total flow.in_flight ≤ flow.total_packets
  pub width : flow.total_packets < 65536

not_below : (a b : ℕ) → ltb a b ≡ false → b ≤ a
not_below a b h = ground arith

in_flight_total_lem : (flow : AclFlow) → IsValid flow → in_flight_total flow ≡ total flow.in_flight
unfolding in_flight_total
in_flight_total_lem flow v = omega (arith, v.within, v.width)

total-take_credit :
    (p : AclPacket) (rest : List AclPacket) (flow : AclFlow)
    → total (take_credit p rest flow).in_flight ≡ total flow.in_flight + 1
unfolding take_credit
total-take_credit p rest flow =
    let held = count_of p.connection_handle flow.in_flight in
    omega (arith, total-insert p.connection_handle (held + 1) flow.in_flight)

take_credit-IsValid :
    (p : AclPacket) (rest : List AclPacket) (flow : AclFlow)
    → total flow.in_flight < flow.total_packets
    → IsValid flow
    → IsValid (take_credit p rest flow)
unfolding take_credit
take_credit-IsValid p rest flow free v = record {
  unique = insert-IsUnique p.connection_handle _ flow.in_flight v.unique;
  within = omega (arith, total-take_credit p rest flow);
  width = v.width;
}

-- What a flush does: the packets that it sends are the first ones of the queue, each takes a
-- credit, and it stops only when nothing waits or no buffer is free.
abbrev pub Flushes : AclFlow → List AclPacket → List AclPacket → AclFlow × List AclPacket → Type 0
Flushes flow queued output (flow', output') =
    IsValid flow'
    × ((sent : List AclPacket) × (output' ≡ output ++ sent)
        × (queued ≡ sent ++ flow'.queued)
        × (total flow'.in_flight ≡ total flow.in_flight + length sent)
        × (flow'.total_packets ≡ flow.total_packets))
    × ((flow'.queued ≡ []) ⊎ (total flow'.in_flight ≡ flow'.total_packets))

-- The counts matter alone, not what waits.
requeued-IsValid :
    (flow : AclFlow) (queued : List AclPacket)
    → IsValid flow
    → IsValid (record flow { queued = queued })
requeued-IsValid flow queued v = record { unique = v.unique; within = v.within; width = v.width }

one_more :
    (p : AclPacket) (rest output : List AclPacket) (flow : AclFlow) (r : AclFlow × List AclPacket)
    → Flushes (take_credit p rest flow) rest (output ++ p ∷ []) r
    → Flushes flow (p ∷ rest) output r
unfolding take_credit
one_more p rest output flow (flow', output') (v, (sent, out, order, credits, same), stops) = (
  v,
  (
    p ∷ sent,
    out ∙ append_assoc output (p ∷ []) sent,
    ap (◌∷◌ p) order,
    omega (arith, credits, total-take_credit p rest flow),
    same,
  ),
  stops,
)

flush_queued_lem :
    (queued : List AclPacket) (flow : AclFlow) (output : List AclPacket)
    → IsValid flow
    → Flushes flow queued output (flush_queued queued flow output)
unfolding flush_queued
flush_queued_lem [] flow output v =
    (requeued-IsValid flow [] v, ([], sym (append-nil output), refl, omega arith, refl), inl refl)
flush_queued_lem (p ∷ rest) flow output v =
    let same = in_flight_total_lem flow v in
    let sent = flush_queued rest (take_credit p rest flow) (output ++ p ∷ []) in
    let waiting : AclFlow × List AclPacket = (record flow { queued = p ∷ rest }, output) in
    let outcome : Bool → AclFlow × List AclPacket = λ b. if b then sent else waiting in
    elim (Bool-cases (ltb (in_flight_total flow) flow.total_packets)) [
      | inl free ↦
          let below : total flow.in_flight < flow.total_packets =
            omega (arith, same, ltb→lt _ _ free) in
          subst (λ b. Flushes flow (p ∷ rest) output (outcome b)) (sym free)
            (one_more p rest output flow sent (
              flush_queued_lem rest (take_credit p rest flow) (output ++ p ∷ [])
                (take_credit-IsValid p rest flow below v)))
      | inr full ↦
          let all_used : total flow.in_flight ≡ flow.total_packets =
            omega (arith, same, v.within, not_below _ _ full) in
          subst (λ b. Flushes flow (p ∷ rest) output (outcome b)) (sym full)
            (
              requeued-IsValid flow (p ∷ rest) v,
              ([], sym (append-nil output), refl, omega arith, refl),
              inr all_used,
            )
    ]

-- `flush` sends the packets at the front of the queue in their order, and keeps the others; each
-- packet that it sends counts as one more in flight, never more than the controller's buffers; and
-- it stops only when nothing waits or every buffer is taken.
pub flush_lem :
    (flow : AclFlow) (output : List AclPacket)
    → IsValid flow
    → Flushes flow flow.queued output (flush flow output)
unfolding flush
flush_lem flow output v = flush_queued_lem flow.queued flow output v

-- The outcomes of `complete`.
abbrev pub Completes : ℕ → ℕ → AclFlow → AclFlow × Result HostError (Unit {0}) → Type 0
Completes handle completed flow (flow', ok _) =
    (completed ≤ count_of handle flow.in_flight)
    × (total flow'.in_flight + completed ≡ total flow.in_flight)
    × (flow'.queued ≡ flow.queued)
Completes handle completed flow (flow', err _) =
    (flow' ≡ flow) × (count_of handle flow.in_flight < completed)

with_remaining_lem :
    (handle n : ℕ) (m : Map ℕ)
    → IsUnique m
    → IsUnique (with_remaining handle n m)
      × (total (with_remaining handle n m) + count_of handle m ≡ total m + n)
unfolding with_remaining
with_remaining_lem handle n m u = elim (Bool-cases (n == 0)) [
  | inl nothing ↦
      let none_left = ==→eq n 0 nothing in
      rw nothing (remove-IsUnique handle m u, omega (arith, total-remove handle m u, none_left))
  | inr some_left ↦ rw some_left (insert-IsUnique handle n m u, total-insert handle n m)
]

-- `complete` gives back exactly as many buffers as the controller has completed, if the connection
-- had so many in flight; otherwise it fails and changes nothing. The invariant is kept.
pub complete_lem :
    (handle completed : ℕ) (flow : AclFlow)
    → IsValid flow
    → IsValid (complete handle completed flow).0
      × Completes handle completed flow (complete handle completed flow)
unfolding complete
complete_lem handle completed flow v =
    let held = count_of handle flow.in_flight in
    let (unique, balance) = with_remaining_lem handle (held - completed) flow.in_flight v.unique in
    elim (Bool-cases (ltb held completed)) [
      | inl many ↦ rw many (v, (refl, ltb→lt held completed many))
      | inr enough ↦
          let covered : completed ≤ held = not_below held completed enough in
          rw enough (
            record { unique = unique; within = omega (arith, balance, v.within); width = v.width },
            (covered, omega (arith, balance), refl),
          )
    ]
