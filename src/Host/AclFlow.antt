-- ===== src/Host/AclFlow.antt =====
-- `AclFlow` of src/classic_host.rs: packets wait until the controller has a buffer for them.
pub mod Totals
pub mod Credits
use swbt_bumble_backend.Base.{
  ℕ, ◌+◌, ◌-◌, ◌%◌, Option, none, some, List, [], ◌∷◌, ◌++◌, not, ltb, ◌==◌, if◌then◌else◌, Map,
  lookup, insert, remove, Result, ok, err,
}
use swbt_bumble_backend.Hci.{AclPacket}

-- The error of `HostError` that `complete` returns.
pub data HostError : Type 0 where
  acl_credit_underflow : (in_flight completed : ℕ) → HostError

pub record AclFlow : Type 0 where
  pub payload_size : ℕ
  pub total_packets : ℕ
  pub in_flight : Map ℕ
  pub queued : List AclPacket

unfoldable pub new : (payload_size total_packets : ℕ) → AclFlow
new payload_size total_packets = record {
  payload_size = payload_size;
  total_packets = total_packets;
  in_flight = [];
  queued = [];
}

abbrev pub total : Map ℕ → ℕ
total [] = 0
total ((_, n) ∷ m) = n + total m

-- `sum()` on 16 bits.
unfoldable pub in_flight_total : AclFlow → ℕ
in_flight_total flow = total flow.in_flight % 65536

unfoldable pub enqueue : List AclPacket → AclFlow → AclFlow
enqueue packets flow = record flow { queued = flow.queued ++ packets }

-- `unwrap_or_default`.
abbrev pub count_of : ℕ → Map ℕ → ℕ
count_of handle m = elim (lookup handle m) [ none ↦ 0 | some n ↦ n ]

-- `*entry(..).or_default() += 1`, and what stays queued.
unfoldable pub take_credit : AclPacket → List AclPacket → AclFlow → AclFlow
take_credit p rest flow = record flow {
  in_flight =
      insert p.connection_handle (count_of p.connection_handle flow.in_flight + 1) flow.in_flight;
  queued = rest;
}

-- The `while` of `flush`, on the queued packets; `output` has the packets that are sent.
unfoldable pub flush_queued :
    List AclPacket → AclFlow → (output : List AclPacket) → AclFlow × List AclPacket
unfolding in_flight_total take_credit
flush_queued [] flow output = (record flow { queued = [] }, output)
flush_queued (p ∷ rest) flow output =
    let sent = flush_queued rest (take_credit p rest flow) (output ++ p ∷ []) in
    if ltb (in_flight_total flow) flow.total_packets
    then sent
    else (record flow { queued = p ∷ rest }, output)

unfoldable pub flush : AclFlow → (output : List AclPacket) → AclFlow × List AclPacket
unfolding flush_queued
flush flow output = flush_queued flow.queued flow output

unfoldable pub with_remaining : ℕ → ℕ → Map ℕ → Map ℕ
with_remaining handle remaining m =
    if remaining == 0 then remove handle m else insert handle remaining m

unfoldable pub complete :
    (connection_handle completed : ℕ) → AclFlow → AclFlow × Result HostError (Unit {0})
unfolding with_remaining
complete handle completed flow =
    let held = count_of handle flow.in_flight in
    if ltb held completed then (flow, err (acl_credit_underflow held completed)) else (
      record flow { in_flight = with_remaining handle (held - completed) flow.in_flight },
      ok tt,
    )

unfoldable pub retain : ℕ → List AclPacket → List AclPacket
retain handle [] = []
retain handle (p ∷ rest) =
    let kept = retain handle rest in if p.connection_handle == handle then kept else p ∷ kept

unfoldable pub clear_handle : ℕ → AclFlow → AclFlow
unfolding retain
clear_handle handle flow = record flow {
  in_flight = remove handle flow.in_flight;
  queued = retain handle flow.queued;
}
