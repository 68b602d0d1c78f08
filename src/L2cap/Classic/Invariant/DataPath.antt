-- ===== src/L2cap/Classic/Invariant/DataPath.antt =====
-- Engine calls, frames, SDUs and time in the channel manager (src/l2cap/classic.rs) keep the
-- invariant.
use swbt_bumble_backend.Base.{
  ℕ, ◌≡◌, inl, inr, refl, arith, Bool, false, Option, none, some, List, [], ◌∷◌, ◌++◌, length,
  All-append, lookup, Result, ok, err, OnOk, ltb, Bool-cases,
}
use mathlib.Core.Path.{subst}
use swbt_bumble_backend.Base.OrderedMap.{OnSome}
use swbt_bumble_backend.L2cap.{Error}
use swbt_bumble_backend.L2cap.Pdu.{L2capPdu}
use swbt_bumble_backend.L2cap.Ertm.State
use swbt_bumble_backend.L2cap.Ertm.State.{ErtmEngine}
use swbt_bumble_backend.L2cap.Ertm.Engine
use swbt_bumble_backend.L2cap.Ertm.Sending.Operations.{
  tick-Keeps as engine_tick-Keeps, set_receiver_busy-Keeps as engine_busy-Keeps,
}
use swbt_bumble_backend.L2cap.Ertm.Sending.Receive.{receive_frame-Drops}
use swbt_bumble_backend.L2cap.Ertm.Sending.Sdu.{send_sdu_lem}
use swbt_bumble_backend.L2cap.Classic.{
  ClassicChannelMode, basic_mode, enhanced_retransmission, ClassicChannel, ChannelManager,
  put_channel, is_opened,
}
use swbt_bumble_backend.L2cap.Classic.Diagram.{stay}
use swbt_bumble_backend.L2cap.Classic.Transfer.{
  find_engine, run_engine, run_found, set_receiver_busy, engine_cids, tick_channels, tick,
  stripped_payload, receive_stripped, receive_open, receive_found, process_data, send_open,
  send_found, send,
}
use swbt_bumble_backend.L2cap.Classic.Invariant.{
  ReceivedFits, FitsIn, ChannelIsValid, ManagerIsValid, Keeps,
}
use swbt_bumble_backend.L2cap.Classic.Invariant.Pieces.{
  Keeps-refl, Keeps-trans, found-IsValid, push_outbound-Keeps, put_found-Keeps,
}
use swbt_bumble_backend.L2cap.Classic.Invariant.Transfer.{
  KeepsReady, with_engine, engine-ChannelIsValid, with_engine-Kept, Found, find_engine-Found,
  then_go_on-Keeps, flush_if_ok-Keeps,
}

run_engine-Keeps :
    (call : State.Action) (cid : ℕ) (c : ClassicChannel) (e : ErtmEngine) (m : ChannelManager)
    → KeepsReady call
    → ManagerIsValid m
    → Found cid m (c, e)
    → Keeps m (run_engine call cid c e m).0
unfolding run_engine
run_engine-Keeps call cid c e m k h (here, running) =
    let v = subst (OnSome (ChannelIsValid cid)) here (found-IsValid cid m h) in
    let c' = with_engine (call e).0 c.received c in
    let written =
      put_found-Keeps cid c c' m h here (with_engine-Kept c (call e).0 c.received)
        (engine-ChannelIsValid cid c e (call e).0 c.received v running (k e)) in
    Keeps-trans written (flush_if_ok-Keeps cid (call e).1 (put_channel cid c' m) written.valid)

run_found-Keeps :
    (call : State.Action) (cid : ℕ) (r : Result Error (ClassicChannel × ErtmEngine))
    (m : ChannelManager)
    → KeepsReady call
    → ManagerIsValid m
    → OnOk (Found cid m) r
    → Keeps m (run_found call cid r m).0
unfolding run_found
run_found-Keeps call cid (ok (c, e)) m k h f = run_engine-Keeps call cid c e m k h f
run_found-Keeps call cid (err x) m k h f = Keeps-refl m h

pub set_receiver_busy-Keeps :
    (cid : ℕ) (busy : Bool) (m : ChannelManager)
    → ManagerIsValid m
    → Keeps m (set_receiver_busy cid busy m).0
unfolding set_receiver_busy
set_receiver_busy-Keeps cid busy m h =
    run_found-Keeps (Engine.set_receiver_busy busy) cid (find_engine cid m) m
      (λ e ready. (engine_busy-Keeps busy e ready).0) h (find_engine-Found cid m)

tick_channels-Keeps :
    (ticks : ℕ) (cids : List ℕ) (m : ChannelManager)
    → ManagerIsValid m
    → Keeps m (tick_channels ticks cids m).0
unfolding tick_channels
tick_channels-Keeps ticks [] m h = Keeps-refl m h
tick_channels-Keeps ticks (cid ∷ rest) m h =
    then_go_on-Keeps m (tick_channels ticks rest)
      (run_found (Engine.tick ticks) cid (find_engine cid m) m)
      (run_found-Keeps (Engine.tick ticks) cid (find_engine cid m) m
        (λ e ready. (engine_tick-Keeps ticks e ready).0) h (find_engine-Found cid m))
      (tick_channels-Keeps ticks rest)

pub tick-Keeps : (ticks : ℕ) (m : ChannelManager) → ManagerIsValid m → Keeps m (tick ticks m).0
unfolding tick
tick-Keeps ticks m h = tick_channels-Keeps ticks (engine_cids m.channels) m h

receive_stripped-Keeps :
    (cid : ℕ) (c : ClassicChannel) (e : ErtmEngine) (r : Result Error (List ℕ)) (m : ChannelManager)
    → ManagerIsValid m
    → Found cid m (c, e)
    → Keeps m (receive_stripped cid c e r m).0
unfolding receive_stripped
receive_stripped-Keeps cid c e (ok payload) m h f =
    run_engine-Keeps (Engine.receive_frame payload) cid c e m
      (λ d ready. (receive_frame-Drops payload d ready).0) h f
receive_stripped-Keeps cid c e (err x) m h f = Keeps-refl m h

-- An SDU that the test lets through is within the MTU.
received_one :
    (mode : ClassicChannelMode) (mtu : ℕ) (received : List (List ℕ)) (sdu : List ℕ)
    → ltb mtu (length sdu) ≡ false
    → ReceivedFits mode mtu received
    → ReceivedFits mode mtu (received ++ sdu ∷ [])
received_one basic_mode mtu received sdu h k =
    All-append (FitsIn mtu) received (sdu ∷ []) k (ground arith, tt)
received_one enhanced_retransmission mtu received sdu h k = tt

receive_open-Keeps :
    (cid : ℕ) (c : ClassicChannel) (o : Option ErtmEngine) (payload : List ℕ) (m : ChannelManager)
    → ManagerIsValid m
    → lookup cid m.channels ≡ some c
    → c.engine ≡ o
    → Keeps m (receive_open cid c o payload m).0
unfolding receive_open
receive_open-Keeps cid c (some e) payload m h here running =
    receive_stripped-Keeps cid c e (stripped_payload c.fcs_enabled cid payload) m h (here, running)
receive_open-Keeps cid c none payload m h here running =
    elim (Bool-cases (ltb c.mtu (length payload))) [
      | inl long ↦ rw long (Keeps-refl m h)
      | inr fits ↦
          let v = subst (OnSome (ChannelIsValid cid)) here (found-IsValid cid m h) in
          let c' : ClassicChannel = record c { received = c.received ++ payload ∷ [] } in
          rw fits (
            put_found-Keeps cid c c' m h here
              (record {
                psm_kept = refl;
                source_kept = refl;
                spec_kept = refl;
                mode_kept = refl;
                mtu_kept = refl;
                incoming_kept = refl;
                moved = stay;
              })
              (record {
                source = v.source;
                range = v.range;
                specified = v.specified;
                mode_valid = v.mode_valid;
                mtu_valid = v.mtu_valid;
                peer_mtu_valid = v.peer_mtu_valid;
                settled = v.settled;
                engine_valid = v.engine_valid;
                received_fits = received_one c.mode c.mtu c.received payload fits v.received_fits;
              }))
    ]

receive_found-Keeps :
    (cid : ℕ) (o : Option ClassicChannel) (payload : List ℕ) (m : ChannelManager)
    → ManagerIsValid m
    → lookup cid m.channels ≡ o
    → Keeps m (receive_found cid o payload m).0
unfolding receive_found
receive_found-Keeps cid none payload m h here = Keeps-refl m h
receive_found-Keeps cid (some c) payload m h here = elim (Bool-cases (is_opened c.state)) [
  | inl open_now ↦ rw open_now (receive_open-Keeps cid c c.engine payload m h here refl)
  | inr shut ↦ rw shut (Keeps-refl m h)
]

pub process_data-Keeps :
    (pdu : L2capPdu) (m : ChannelManager) → ManagerIsValid m → Keeps m (process_data pdu m).0
unfolding process_data
process_data-Keeps pdu m h =
    receive_found-Keeps pdu.cid (lookup pdu.cid m.channels) pdu.payload m h refl

send_open-Keeps :
    (cid : ℕ) (c : ClassicChannel) (o : Option ErtmEngine) (sdu : List ℕ) (m : ChannelManager)
    → ManagerIsValid m
    → lookup cid m.channels ≡ some c
    → c.engine ≡ o
    → Keeps m (send_open cid c o sdu m).0
unfolding send_open
send_open-Keeps cid c (some e) sdu m h here running =
    run_engine-Keeps (Engine.send_sdu sdu) cid c e m (λ d ready. (send_sdu_lem sdu d ready).0) h
      (here, running)
send_open-Keeps cid c none sdu m h here running = elim (Bool-cases (ltb c.peer_mtu (length sdu))) [
  | inl long ↦ rw long (Keeps-refl m h)
  | inr fits ↦ rw fits (push_outbound-Keeps (record { cid = c.destination_cid; payload = sdu }) m h)
]

send_found-Keeps :
    (cid : ℕ) (o : Option ClassicChannel) (sdu : List ℕ) (m : ChannelManager)
    → ManagerIsValid m
    → lookup cid m.channels ≡ o
    → Keeps m (send_found cid o sdu m).0
unfolding send_found
send_found-Keeps cid none sdu m h here = Keeps-refl m h
send_found-Keeps cid (some c) sdu m h here = elim (Bool-cases (is_opened c.state)) [
  | inl open_now ↦ rw open_now (send_open-Keeps cid c c.engine sdu m h here refl)
  | inr shut ↦ rw shut (Keeps-refl m h)
]

pub send-Keeps :
    (cid : ℕ) (sdu : List ℕ) (m : ChannelManager) → ManagerIsValid m → Keeps m (send cid sdu m).0
unfolding send
send-Keeps cid sdu m h = send_found-Keeps cid (lookup cid m.channels) sdu m h refl
