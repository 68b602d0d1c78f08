-- ===== src/L2cap/Classic/Invariant/Disconnection.antt =====
-- Connection responses and disconnection (src/l2cap/classic.rs) keep the invariant.
use swbt_bumble_backend.Base.{
  ℕ, ◌≡◌, refl, sym, not, Option, none, some, lookup, Result, ◌==◌, if_both,
}
use mathlib.Core.Path.{subst}
use swbt_bumble_backend.Base.OrderedMap.{OnSome}
use swbt_bumble_backend.L2cap.{Error}
use swbt_bumble_backend.L2cap.Signaling.{disconnection_request, disconnection_response}
use swbt_bumble_backend.L2cap.Classic.{
  closed, configuring, opened, wait_disconnect, ClassicChannel, ChannelManager, put_channel,
  next_identifier, is_opened, is_waiting,
}
use swbt_bumble_backend.L2cap.Classic.Diagram.{
  Kept-refl, moved-Kept, close, respond, disconnect, ◌⟶◌,
}
use swbt_bumble_backend.L2cap.Classic.Signals.{
  no_resources_available, psm_not_supported, accept_connection, connect_server,
  on_connection_request, connected_found, on_connection_response, disconnect_requested,
  on_disconnection_request, disconnected_found, on_disconnection_response, disconnect_found,
}
use swbt_bumble_backend.L2cap.Classic.Signals
use swbt_bumble_backend.L2cap.Classic.Invariant.{WasOpened, ChannelIsValid, ManagerIsValid, Keeps}
use swbt_bumble_backend.L2cap.Classic.Invariant.Pieces.{
  Keeps-refl, Keeps-trans, found-IsValid, queue_control-Keeps, next_identifier-Keeps,
  put_found-Keeps, closed-IsValid,
}
use swbt_bumble_backend.L2cap.Classic.Invariant.Configure.{queue_configure_request-Keeps}
use swbt_bumble_backend.L2cap.Classic.Invariant.Signals.{waiting_lem, opened_lem}

-- A channel that is closed, with what else is written.
close_found-Keeps :
    (cid : ℕ) (c : ClassicChannel) (result : Option ℕ) (m : ChannelManager)
    → ManagerIsValid m
    → lookup cid m.channels ≡ some c
    → Keeps m (put_channel cid (record c { connection_result = result; state = closed }) m)
close_found-Keeps cid c result m h here =
    let v = subst (OnSome (ChannelIsValid cid)) here (found-IsValid cid m h) in
    let others : ClassicChannel = record c { connection_result = result } in
    put_found-Keeps cid c (record others { state = closed }) m h here
      (moved-Kept c c others closed (Kept-refl c) close) (closed-IsValid cid c others v)

connected-IsValid :
    (cid destination_cid result : ℕ) (c : ClassicChannel)
    → ChannelIsValid cid c
    → ChannelIsValid cid (record c {
      connection_result = some result;
      destination_cid = destination_cid;
      state = configuring;
    })
connected-IsValid cid destination_cid result c v = record {
  source = v.source;
  range = v.range;
  specified = v.specified;
  mode_valid = v.mode_valid;
  mtu_valid = v.mtu_valid;
  peer_mtu_valid = v.peer_mtu_valid;
  settled = λ was_opened. absurd was_opened;
  engine_valid = v.engine_valid;
  received_fits = v.received_fits;
}

connected_found-Keeps :
    (destination_cid cid result : ℕ) (o : Option ClassicChannel) (m : ChannelManager)
    → ManagerIsValid m
    → lookup cid m.channels ≡ o
    → Keeps m (connected_found destination_cid cid result o m).0
unfolding connected_found
connected_found-Keeps destination_cid cid result none m h here = Keeps-refl m h
connected_found-Keeps destination_cid cid result (some c) m h here =
    let v = subst (OnSome (ChannelIsValid cid)) here (found-IsValid cid m h) in
    let others : ClassicChannel = record c {
      connection_result = some result;
      destination_cid = destination_cid;
    } in
    let c' : ClassicChannel = record others { state = configuring } in
    let P : ChannelManager × Result Error (Unit {0}) → Type 0 = λ p. Keeps m p.0 in
    if_both P (not (is_waiting c.state)) _ _ (λ _. Keeps-refl m h)
      λ waiting.
        let edge : c.state ⟶ configuring =
          subst (λ s. s ⟶ configuring) (sym (waiting_lem c.state waiting)) respond in
        if_both P (not (result == 0)) _ _ (λ _. close_found-Keeps cid c (some result) m h here)
          λ _.
            let written =
              put_found-Keeps cid c c' m h here
                (moved-Kept c c others configuring (Kept-refl c) edge)
                (connected-IsValid cid destination_cid result c v) in
            Keeps-trans written
              (queue_configure_request-Keeps cid (put_channel cid c' m) written.valid)

pub on_connection_response-Keeps :
    (destination_cid cid result : ℕ) (m : ChannelManager)
    → ManagerIsValid m
    → Keeps m (on_connection_response destination_cid cid result m).0
unfolding on_connection_response
on_connection_response-Keeps destination_cid cid result m h =
    connected_found-Keeps destination_cid cid result (lookup cid m.channels) m h refl

disconnect_requested-Keeps :
    (identifier cid remote : ℕ) (o : Option ClassicChannel) (m : ChannelManager)
    → ManagerIsValid m
    → lookup cid m.channels ≡ o
    → Keeps m (disconnect_requested identifier cid remote o m).0
unfolding disconnect_requested
disconnect_requested-Keeps identifier cid remote none m h here = Keeps-refl m h
disconnect_requested-Keeps identifier cid remote (some c) m h here =
    let P : ChannelManager × Result Error (Unit {0}) → Type 0 = λ p. Keeps m p.0 in
    if_both P (not (c.destination_cid == remote)) _ _ (λ _. Keeps-refl m h)
      λ _.
        let written = close_found-Keeps cid c c.connection_result m h here in
        Keeps-trans written (
          queue_control-Keeps (disconnection_response identifier cid remote)
            (put_channel cid (record c { state = closed }) m) written.valid)

pub on_disconnection_request-Keeps :
    (identifier cid remote : ℕ) (m : ChannelManager)
    → ManagerIsValid m
    → Keeps m (on_disconnection_request identifier cid remote m).0
unfolding on_disconnection_request
on_disconnection_request-Keeps identifier cid remote m h =
    disconnect_requested-Keeps identifier cid remote (lookup cid m.channels) m h refl

disconnected_found-Keeps :
    (destination_cid cid : ℕ) (o : Option ClassicChannel) (m : ChannelManager)
    → ManagerIsValid m
    → lookup cid m.channels ≡ o
    → Keeps m (disconnected_found destination_cid cid o m).0
unfolding disconnected_found
disconnected_found-Keeps destination_cid cid none m h here = Keeps-refl m h
disconnected_found-Keeps destination_cid cid (some c) m h here =
    let P : ChannelManager × Result Error (Unit {0}) → Type 0 = λ p. Keeps m p.0 in
    if_both P (not (c.destination_cid == destination_cid)) _ _ (λ _. Keeps-refl m h)
      (λ _. close_found-Keeps cid c c.connection_result m h here)

pub on_disconnection_response-Keeps :
    (destination_cid cid : ℕ) (m : ChannelManager)
    → ManagerIsValid m
    → Keeps m (on_disconnection_response destination_cid cid m).0
unfolding on_disconnection_response
on_disconnection_response-Keeps destination_cid cid m h =
    disconnected_found-Keeps destination_cid cid (lookup cid m.channels) m h refl

waiting-IsValid :
    (cid : ℕ) (c : ClassicChannel)
    → c.state ≡ opened
    → ChannelIsValid cid c
    → ChannelIsValid cid (record c { state = wait_disconnect })
waiting-IsValid cid c e v = record {
  source = v.source;
  range = v.range;
  specified = v.specified;
  mode_valid = v.mode_valid;
  mtu_valid = v.mtu_valid;
  peer_mtu_valid = v.peer_mtu_valid;
  settled = λ _. v.settled (subst WasOpened (sym e) tt);
  engine_valid = v.engine_valid;
  received_fits = v.received_fits;
}

disconnect_found-Keeps :
    (cid : ℕ) (o : Option ClassicChannel) (m : ChannelManager)
    → ManagerIsValid m
    → lookup cid m.channels ≡ o
    → Keeps m (disconnect_found cid o m).0
unfolding disconnect_found
disconnect_found-Keeps cid none m h here = Keeps-refl m h
disconnect_found-Keeps cid (some c) m h here =
    let v = subst (OnSome (ChannelIsValid cid)) here (found-IsValid cid m h) in
    let c' : ClassicChannel = record c { state = wait_disconnect } in
    let P : ChannelManager × Result Error (Unit {0}) → Type 0 = λ p. Keeps m p.0 in
    if_both P (not (is_opened c.state)) _ _ (λ _. Keeps-refl m h)
      λ was_open.
        let e = opened_lem c.state was_open in
        let edge : c.state ⟶ wait_disconnect =
          subst (λ s. s ⟶ wait_disconnect) (sym e) disconnect in
        let written =
          put_found-Keeps cid c c' m h here (moved-Kept c c c wait_disconnect (Kept-refl c) edge)
            (waiting-IsValid cid c e v) in
        let numbered = next_identifier-Keeps (put_channel cid c' m) written.valid in
        let waiting = next_identifier (put_channel cid c' m) in
        Keeps-trans written (
          Keeps-trans numbered (
            queue_control-Keeps (disconnection_request waiting.identifier c.destination_cid cid)
              waiting numbered.valid))

pub disconnect-Keeps :
    (cid : ℕ) (m : ChannelManager) → ManagerIsValid m → Keeps m (Signals.disconnect cid m).0
unfolding Signals.disconnect
disconnect-Keeps cid m h = disconnect_found-Keeps cid (lookup cid m.channels) m h refl
