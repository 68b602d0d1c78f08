-- ===== src/L2cap/Classic/Transfer.antt =====
-- The data path of the channel manager (src/l2cap/classic.rs): what its engines put out, the frames
-- that arrive for a channel, sending, and time.
use swbt_bumble_backend.Base.{
  ℕ, Bool, Option, none, some, List, [], ◌∷◌, ◌++◌, length, Map, lookup, Result, ok, err,
  if◌then◌else◌, ltb, not,
}
use swbt_bumble_backend.L2cap.{
  Error, invalid_packet, channel_not_found, channel_not_open, not_open, not_using_ertm,
  incoming_sdu_exceeds_mtu, sdu_exceeds_peer_mtu,
}
use swbt_bumble_backend.L2cap.Pdu.{L2capPdu}
use swbt_bumble_backend.L2cap.Ertm.State.{ErtmEngine}
use swbt_bumble_backend.L2cap.Ertm.State
use swbt_bumble_backend.L2cap.Ertm.Engine
use swbt_bumble_backend.L2cap.Classic.{
  ClassicChannel, ChannelManager, Action, put_channel, push_outbound, is_opened,
}
use swbt_bumble_backend.L2cap.Classic.Fcs.{append_fcs, verify_and_strip_fcs}

-- The channel and its engine, or why there is none.
unfoldable pub engine_of :
    ClassicChannel → Option ErtmEngine → Result Error (ClassicChannel × ErtmEngine)
engine_of c none = err (invalid_packet not_using_ertm)
engine_of c (some e) = ok (c, e)

unfoldable pub engine_in : ℕ → Option ClassicChannel → Result Error (ClassicChannel × ErtmEngine)
unfolding engine_of
engine_in cid none = err (invalid_packet (channel_not_found cid))
engine_in cid (some c) = engine_of c c.engine

unfoldable pub find_engine : ℕ → ChannelManager → Result Error (ClassicChannel × ErtmEngine)
unfolding engine_in
find_engine cid m = engine_in cid (lookup cid m.channels)

unfoldable pub frame_payload : Bool → ℕ → List ℕ → Result Error (List ℕ)
unfolding append_fcs
frame_payload fcs_enabled cid frame = if fcs_enabled then append_fcs cid frame else ok frame

-- `first?`, and the rest of a loop.
abbrev pub then_go_on :
    (ChannelManager → ChannelManager × Result Error (Unit {0}))
    → ChannelManager × Result Error (Unit {0})
    → ChannelManager × Result Error (Unit {0})
then_go_on rest (m, ok _) = rest m
then_go_on rest (m, err x) = (m, err x)

unfoldable pub push_payload : (cid : ℕ) → Result Error (List ℕ) → Action (Unit {0})
unfolding push_outbound
push_payload cid (ok payload) m = (push_outbound (record { cid = cid; payload = payload }) m, ok tt)
push_payload cid (err x) m = (m, err x)

-- The `for` of `flush_ertm`.
unfoldable pub push_frames : (fcs_enabled : Bool) (cid : ℕ) → List (List ℕ) → Action (Unit {0})
unfolding frame_payload push_payload
push_frames fcs_enabled cid [] m = (m, ok tt)
push_frames fcs_enabled cid (frame ∷ rest) m =
    then_go_on (push_frames fcs_enabled cid rest)
      (push_payload cid (frame_payload fcs_enabled cid frame) m)

-- The engine behind `drain_outbound` and the `while` over `pop_received`.
unfoldable pub drained : ErtmEngine → ErtmEngine
drained e = record e { outbound = []; received = [] }

unfoldable pub flush_engine : ℕ → ClassicChannel → ErtmEngine → Action (Unit {0})
unfolding push_frames drained put_channel
flush_engine cid c e m = push_frames c.fcs_enabled c.destination_cid e.outbound (
    put_channel cid (record c { engine = some (drained e); received = c.received ++ e.received }) m)

unfoldable pub flush_found : ℕ → Result Error (ClassicChannel × ErtmEngine) → Action (Unit {0})
unfolding flush_engine
flush_found cid (ok (c, e)) m = flush_engine cid c e m
flush_found cid (err x) m = (m, err x)

unfoldable pub flush_ertm : ℕ → Action (Unit {0})
unfolding find_engine flush_found
flush_ertm cid m = flush_found cid (find_engine cid m) m

-- A method of the channel's engine, `?`, and `flush_ertm`.
unfoldable pub flush_if_ok : ℕ → Result Error (Unit {0}) → Action (Unit {0})
unfolding flush_ertm
flush_if_ok cid (ok _) m = flush_ertm cid m
flush_if_ok cid (err x) m = (m, err x)

unfoldable pub run_engine : State.Action → ℕ → ClassicChannel → ErtmEngine → Action (Unit {0})
unfolding flush_if_ok put_channel
run_engine call cid c e m =
    flush_if_ok cid (call e).1 (put_channel cid (record c { engine = some (call e).0 }) m)

unfoldable pub run_found :
    State.Action → ℕ → Result Error (ClassicChannel × ErtmEngine) → Action (Unit {0})
unfolding run_engine
run_found call cid (ok (c, e)) m = run_engine call cid c e m
run_found call cid (err x) m = (m, err x)

unfoldable pub set_receiver_busy : ℕ → Bool → Action (Unit {0})
unfolding run_found find_engine Engine.set_receiver_busy
set_receiver_busy cid busy m = run_found (Engine.set_receiver_busy busy) cid (find_engine cid m) m

-- The channels with an engine, in the order of their identifiers.
unfoldable pub engine_cids : Map ClassicChannel → List ℕ
engine_cids [] = []
engine_cids ((cid, c) ∷ rest) = elim c.engine [
  | none ↦ engine_cids rest
  | some _ ↦ cid ∷ engine_cids rest
]

-- The `for` of `tick`; the listed channels have engines, so its two `expect` find them.
unfoldable pub tick_channels : ℕ → List ℕ → Action (Unit {0})
unfolding run_found find_engine Engine.tick
tick_channels ticks [] m = (m, ok tt)
tick_channels ticks (cid ∷ rest) m =
    then_go_on (tick_channels ticks rest) (run_found (Engine.tick ticks) cid (find_engine cid m) m)

unfoldable pub tick : ℕ → Action (Unit {0})
unfolding tick_channels engine_cids
tick ticks m = tick_channels ticks (engine_cids m.channels) m

unfoldable pub stripped_payload : Bool → ℕ → List ℕ → Result Error (List ℕ)
unfolding verify_and_strip_fcs
stripped_payload fcs_enabled cid payload =
    if fcs_enabled then verify_and_strip_fcs cid payload else ok payload

unfoldable pub receive_stripped :
    ℕ → ClassicChannel → ErtmEngine → Result Error (List ℕ) → Action (Unit {0})
unfolding run_engine Engine.receive_frame
receive_stripped cid c e (ok payload) m = run_engine (Engine.receive_frame payload) cid c e m
receive_stripped cid c e (err x) m = (m, err x)

-- An open channel takes a frame: through its engine, or as an SDU.
unfoldable pub receive_open : ℕ → ClassicChannel → Option ErtmEngine → List ℕ → Action (Unit {0})
unfolding receive_stripped stripped_payload put_channel
receive_open cid c (some e) payload m =
    receive_stripped cid c e (stripped_payload c.fcs_enabled cid payload) m
receive_open cid c none payload m =
    if ltb c.mtu (length payload)
    then (m, err (invalid_packet (incoming_sdu_exceeds_mtu c.mtu)))
    else (put_channel cid (record c { received = c.received ++ payload ∷ [] }) m, ok tt)

unfoldable pub receive_found : ℕ → Option ClassicChannel → List ℕ → Action (Unit {0})
unfolding receive_open
receive_found cid none payload m = (m, err (invalid_packet (channel_not_found cid)))
receive_found cid (some c) payload m =
    if not (is_opened c.state)
    then (m, err (invalid_packet (channel_not_open cid)))
    else receive_open cid c c.engine payload m

-- `process_pdu` on a channel that is not the signaling channel.
unfoldable pub process_data : L2capPdu → Action (Unit {0})
unfolding receive_found
process_data pdu m = receive_found pdu.cid (lookup pdu.cid m.channels) pdu.payload m

unfoldable pub send_open : ℕ → ClassicChannel → Option ErtmEngine → List ℕ → Action (Unit {0})
unfolding run_engine Engine.send_sdu push_outbound
send_open cid c (some e) sdu m = run_engine (Engine.send_sdu sdu) cid c e m
send_open cid c none sdu m =
    if ltb c.peer_mtu (length sdu)
    then (m, err (invalid_packet (sdu_exceeds_peer_mtu c.peer_mtu)))
    else (push_outbound (record { cid = c.destination_cid; payload = sdu }) m, ok tt)

unfoldable pub send_found : ℕ → Option ClassicChannel → List ℕ → Action (Unit {0})
unfolding send_open
send_found cid none sdu m = (m, err (invalid_packet (channel_not_found cid)))
send_found cid (some c) sdu m =
    if not (is_opened c.state)
    then (m, err (invalid_packet not_open))
    else send_open cid c c.engine sdu m

unfoldable pub send : ℕ → List ℕ → Action (Unit {0})
unfolding send_found
send cid sdu m = send_found cid (lookup cid m.channels) sdu m
