-- ===== src/L2cap/Classic/Agreement/Exchange.antt =====
-- The queues of two channel managers of src/l2cap/classic.rs during a connection: what each side
-- sends and becomes when it is handed the queue of the other.
use swbt_bumble_backend.Base.{
  ℕ, ◌≤◌, ◌<◌, ◌≡◌, refl, sym, arith, Bool, true, false, some, List, [], ◌∷◌, length, lookup,
  Result, ok, OnOk, OnOk-ok, u16_to_le,
}
use mathlib.Core.Path.{subst}
use swbt_bumble_backend.L2cap.{Error}
use swbt_bumble_backend.L2cap.Psm.{serialize_psm, psm_bytes}
use swbt_bumble_backend.L2cap.Configuration
use swbt_bumble_backend.L2cap.Configuration.{
  encode_configuration_options, decode_configuration_options,
}
use swbt_bumble_backend.L2cap.Signaling.{payload, connection_request}
use swbt_bumble_backend.L2cap.Classic.{
  ErtmChannelSpec, ChannelSpec, basic, ertm, ClassicChannel, ChannelManager, outgoing_channel,
  put_channel, next_identifier, following_identifier, allocate_cid,
}
use swbt_bumble_backend.L2cap.Classic.Options.{encode_ertm_option, ertm_options, request_options}
use swbt_bumble_backend.L2cap.Classic.Manager.{connect_from, connect_with_spec}
use swbt_bumble_backend.L2cap.Classic.Agreement.{Compatible, agreed, fcs_options}
use swbt_bumble_backend.L2cap.Classic.Agreement.Snapshots.{
  control_pdu, Snapshot, after_queue, after_number, after_put, now_open,
}
use swbt_bumble_backend.L2cap.Classic.Agreement.Steps.{connected_to}
use swbt_bumble_backend.L2cap.Classic.Agreement.Configuring.{responded}

short_bytes-ertm :
    (fcs : Bool) (s : ErtmChannelSpec)
    → OnOk
        (λ (bytes : List ℕ). length bytes ≤ 18)
        (encode_configuration_options (
          Configuration.new 1 (u16_to_le s.mtu)
          ∷ Configuration.new 4 (encode_ertm_option s)
          ∷ fcs_options fcs))
unfolding encode_configuration_options encode_ertm_option Configuration.new
short_bytes-ertm true s = omega arith
short_bytes-ertm false s = omega arith

short_bytes :
    (s : ChannelSpec)
    → OnOk
        (λ (bytes : List ℕ). length bytes ≤ 18)
        (encode_configuration_options (request_options s))
unfolding request_options ertm_options encode_configuration_options Configuration.new
short_bytes (basic s) = omega arith
short_bytes (ertm s) = short_bytes-ertm s.fcs_enabled s

pub short_request :
    (s : ChannelSpec) (bytes : List ℕ)
    → encode_configuration_options (request_options s) ≡ ok bytes
    → length bytes ≤ 18
short_request s bytes e = OnOk-ok (λ (b : List ℕ). length b ≤ 18) e (short_bytes s)

pub Compatible-sym : (s t : ChannelSpec) → Compatible s t → Compatible t s
Compatible-sym (basic s) (basic t) h = tt
Compatible-sym (ertm s) (ertm t) h = sym h
Compatible-sym (basic s) (ertm t) h = h
Compatible-sym (ertm s) (basic t) h = h

-- The client behind `connect`, with its request in the queue.
pub client_asks :
    (psm a : ℕ) (s : ChannelSpec) (m : ChannelManager)
    → m.outbound ≡ []
    → allocate_cid m ≡ ok a
    → let next = following_identifier m.identifier in
      Snapshot a
        (some (outgoing_channel psm a s))
        (control_pdu (connection_request next psm a) ∷ [])
        next
        m.accepted_channels
        (connect_with_spec psm s m).0
unfolding connect_with_spec connect_from
client_asks psm a s m empty free =
    let c = outgoing_channel psm a s in
    let next = following_identifier m.identifier in
    let before : Snapshot a (lookup a m.channels) [] m.identifier m.accepted_channels m = record {
      entry_is = refl;
      queue_is = empty;
      last_is = refl;
      announced_is = refl;
    } in
    let numbered =
      after_number a (lookup a m.channels) [] m.identifier m.accepted_channels m before in
    let written =
      after_put a (lookup a m.channels) [] next m.accepted_channels (next_identifier m) numbered
        c in
    subst
      (λ (r : Result Error ℕ).
        Snapshot a (some c) (control_pdu (connection_request next psm a) ∷ []) next
          m.accepted_channels (connect_from psm s r m).0)
      (sym free)
      (after_queue a (some c) [] next m.accepted_channels (put_channel a c (next_identifier m))
        written (connection_request next psm a))

pub request_fits :
    (psm a next : ℕ) → psm < 65536 → length (payload (connection_request next psm a)) ≤ 65535
unfolding payload serialize_psm psm_bytes
request_fits psm a next h = ground arith

-- The channel when both sides are settled.
abbrev pub joined : ChannelSpec → ChannelSpec → ClassicChannel → ClassicChannel
joined peer own c = now_open (responded (agreed peer own c))

abbrev pub client_channel : (psm a b : ℕ) → ChannelSpec → ClassicChannel
client_channel psm a b s = connected_to b (outgoing_channel psm a s)
