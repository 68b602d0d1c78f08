-- ===== src/L2cap/Classic/Invariant/Signals.antt =====
-- Connection and disconnection (src/l2cap/classic.rs) keep the channel manager's invariant.
use swbt_bumble_backend.Base.{
  ℕ, ◌≤◌, ◌≡◌, inr, refl, sym, arith, false, not, Option, none, some, [], lookup, Result, ok, err,
  OnOk,
}
use mathlib.Core.Path.{subst}
use swbt_bumble_backend.Base.OrderedMap.{OnSome, lookup-AllEntries}
use swbt_bumble_backend.L2cap.{Error}
use swbt_bumble_backend.L2cap.Signaling.{connection_response}
use swbt_bumble_backend.L2cap.Classic.{
  ChannelSpec, basic, ertm, spec_mode, ClassicChannelState, closed, wait_connect_response,
  configuring, opened, wait_disconnect, ChannelManager, put_channel, queue_control, is_opened,
  is_waiting, incoming_channel, outgoing_channel, allocate_cid,
}
use swbt_bumble_backend.L2cap.Classic.Allocation.{allocate_cid_lem, IsFreeCid}
use swbt_bumble_backend.L2cap.Classic.Diagram.{stay, Evolves}
use swbt_bumble_backend.L2cap.Classic.Signals.{
  no_resources_available, psm_not_supported, accept_connection, connect_server,
  on_connection_request,
}
use swbt_bumble_backend.L2cap.Classic.Invariant.{
  SpecIsValid, ServerIsValid, EngineIsValid, ReceivedFits, ChannelIsValid, ManagerIsValid, Keeps,
}
use swbt_bumble_backend.L2cap.Classic.Invariant.Pieces.{
  Keeps-trans, queue_control-Keeps, put_channel-Keeps,
}
use swbt_bumble_backend.L2cap.Classic.Invariant.Configure.{queue_configure_request-Keeps}

fresh_engine : (spec : ChannelSpec) → EngineIsValid (spec_mode spec) false none
fresh_engine (basic s) = tt
fresh_engine (ertm s) = tt

fresh_received : (spec : ChannelSpec) (mtu : ℕ) → ReceivedFits (spec_mode spec) mtu []
fresh_received (basic s) mtu = tt
fresh_received (ertm s) mtu = tt

pub outgoing-IsValid :
    (psm cid : ℕ) (spec : ChannelSpec)
    → (0x40 ≤ cid) × (cid ≤ 0xffff)
    → SpecIsValid spec
    → ChannelIsValid cid (outgoing_channel psm cid spec)
unfolding outgoing_channel
outgoing-IsValid psm cid spec r v = record {
  source = refl;
  range = r;
  specified = v;
  mode_valid = refl;
  mtu_valid = refl;
  peer_mtu_valid = omega arith;
  settled = λ was_opened. absurd was_opened;
  engine_valid = fresh_engine spec;
  received_fits = fresh_received spec _;
}

incoming-IsValid :
    (psm cid remote : ℕ) (spec : ChannelSpec)
    → (0x40 ≤ cid) × (cid ≤ 0xffff)
    → SpecIsValid spec
    → ChannelIsValid cid (incoming_channel psm cid remote spec)
unfolding incoming_channel
incoming-IsValid psm cid remote spec r v = record {
  source = refl;
  range = r;
  specified = v;
  mode_valid = refl;
  mtu_valid = refl;
  peer_mtu_valid = omega arith;
  settled = λ was_opened. absurd was_opened;
  engine_valid = fresh_engine spec;
  received_fits = fresh_received spec _;
}

incoming_enters :
    (psm cid remote : ℕ) (spec : ChannelSpec)
    → Evolves none (some (incoming_channel psm cid remote spec))
unfolding incoming_channel
incoming_enters psm cid remote spec = inr stay

accept_connection-Keeps :
    (identifier psm remote : ℕ) (spec : ChannelSpec) (r : Result Error ℕ) (m : ChannelManager)
    → SpecIsValid spec
    → OnOk (IsFreeCid m) r
    → ManagerIsValid m
    → Keeps m (accept_connection identifier psm remote spec r m).0
unfolding accept_connection
accept_connection-Keeps identifier psm remote spec (err _) m v free h =
    queue_control-Keeps (connection_response identifier 0 remote no_resources_available 0) m h
accept_connection-Keeps identifier psm remote spec (ok cid) m v (low, high, free) h =
    let c = incoming_channel psm cid remote spec in
    let frame = connection_response identifier cid remote 0 0 in
    let written =
      put_channel-Keeps cid c m h
        (subst (λ o. Evolves o (some c)) (sym free) (incoming_enters psm cid remote spec))
        (incoming-IsValid psm cid remote spec (low, high) v) in
    let queued = queue_control-Keeps frame (put_channel cid c m) written.valid in
    Keeps-trans written (
      Keeps-trans queued (
        queue_configure_request-Keeps cid (queue_control frame (put_channel cid c m)) queued.valid))

connect_server-Keeps :
    (identifier psm remote : ℕ) (o : Option ChannelSpec) (m : ChannelManager)
    → OnSome SpecIsValid o
    → ManagerIsValid m
    → Keeps m (connect_server identifier psm remote o m).0
unfolding connect_server
connect_server-Keeps identifier psm remote none m v h =
    queue_control-Keeps (connection_response identifier 0 remote psm_not_supported 0) m h
connect_server-Keeps identifier psm remote (some spec) m v h =
    accept_connection-Keeps identifier psm remote spec (allocate_cid m) m v (allocate_cid_lem m) h

pub on_connection_request-Keeps :
    (identifier psm remote : ℕ) (m : ChannelManager)
    → ManagerIsValid m
    → Keeps m (on_connection_request identifier psm remote m).0
unfolding on_connection_request
on_connection_request-Keeps identifier psm remote m h =
    connect_server-Keeps identifier psm remote (lookup psm m.servers) m
      (lookup-AllEntries ServerIsValid psm m.servers h.servers_valid) h

pub waiting_lem : (s : ClassicChannelState) → not (is_waiting s) ≡ false → s ≡ wait_connect_response
waiting_lem closed h = absurd (cc)
waiting_lem wait_connect_response h = refl
waiting_lem configuring h = absurd (cc)
waiting_lem opened h = absurd (cc)
waiting_lem wait_disconnect h = absurd (cc)

pub opened_lem : (s : ClassicChannelState) → not (is_opened s) ≡ false → s ≡ opened
opened_lem closed h = absurd (cc)
opened_lem wait_connect_response h = absurd (cc)
opened_lem configuring h = absurd (cc)
opened_lem opened h = refl
opened_lem wait_disconnect h = absurd (cc)
