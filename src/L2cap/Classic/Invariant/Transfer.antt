-- ===== src/L2cap/Classic/Invariant/Transfer.antt =====
-- The data path of the channel manager (src/l2cap/classic.rs) keeps the invariant.
use swbt_bumble_backend.Base.{
  ℕ, ◌≡◌, refl, sym, Bool, true, false, Option, none, some, List, [], ◌∷◌, ◌++◌, lookup, Result, ok,
  err, OnOk,
}
use mathlib.Core.Path.{subst}
use swbt_bumble_backend.Base.OrderedMap.{OnSome}
use swbt_bumble_backend.L2cap.{Error}
use swbt_bumble_backend.L2cap.Ertm.State
use swbt_bumble_backend.L2cap.Ertm.State.{ErtmEngine}
use swbt_bumble_backend.L2cap.Ertm.Sending.{IsReady, unrelated-IsReady}
use swbt_bumble_backend.L2cap.Classic.{
  ClassicChannelMode, basic_mode, enhanced_retransmission, ClassicChannel, ChannelManager, Action,
  put_channel,
}
use swbt_bumble_backend.L2cap.Classic.Diagram.{Kept, stay}
use swbt_bumble_backend.L2cap.Classic.Transfer.{
  engine_of, engine_in, find_engine, push_payload, frame_payload, push_frames, drained,
  flush_engine, flush_found, flush_ertm, flush_if_ok, then_go_on,
}
use swbt_bumble_backend.L2cap.Classic.Invariant.{
  EngineIsValid, ReceivedFits, ChannelIsValid, ManagerIsValid, Keeps,
}
use swbt_bumble_backend.L2cap.Classic.Invariant.Pieces.{
  Keeps-refl, Keeps-trans, found-IsValid, push_outbound-Keeps, put_found-Keeps,
}

-- A method of the engine leaves it ready.
abbrev pub KeepsReady : State.Action → Type 0
KeepsReady call = (e : ErtmEngine) → IsReady e → IsReady (call e).0

engine_facts :
    (mode : ClassicChannelMode) (received : Bool) (o : Option ErtmEngine) (e : ErtmEngine)
    → o ≡ some e
    → EngineIsValid mode received o
    → (mode ≡ enhanced_retransmission) × IsReady e
engine_facts basic_mode received none e h v = absurd (cc)
engine_facts basic_mode received (some d) e h v = absurd v
engine_facts enhanced_retransmission true none e h v = absurd v
engine_facts enhanced_retransmission false none e h v = absurd (cc)
engine_facts enhanced_retransmission true (some d) e h v = (refl, subst IsReady (cc) v)
engine_facts enhanced_retransmission false (some d) e h v = (refl, subst IsReady (cc) v)

engine_ready :
    (received : Bool) (e : ErtmEngine)
    → IsReady e
    → EngineIsValid enhanced_retransmission received (some e)
engine_ready true e h = h
engine_ready false e h = h

-- The channel with its engine and its received SDUs replaced.
abbrev pub with_engine : ErtmEngine → List (List ℕ) → ClassicChannel → ClassicChannel
with_engine e received c = record c { engine = some e; received = received }

pub engine-ChannelIsValid :
    (cid : ℕ) (c : ClassicChannel) (e e' : ErtmEngine) (received : List (List ℕ))
    → ChannelIsValid cid c
    → c.engine ≡ some e
    → (IsReady e → IsReady e')
    → ChannelIsValid cid (with_engine e' received c)
engine-ChannelIsValid cid c e e' received v h k =
    let (mode, ready) =
      engine_facts c.mode c.peer_configuration_received c.engine e h v.engine_valid in
    record {
      source = v.source;
      range = v.range;
      specified = v.specified;
      mode_valid = v.mode_valid;
      mtu_valid = v.mtu_valid;
      peer_mtu_valid = v.peer_mtu_valid;
      settled = v.settled;
      engine_valid =
          subst (λ mode. EngineIsValid mode c.peer_configuration_received (some e')) (sym mode)
            (engine_ready c.peer_configuration_received e' (k ready));
      received_fits = subst (λ mode. ReceivedFits mode c.mtu received) (sym mode) tt;
    }

pub with_engine-Kept :
    (c : ClassicChannel) (e : ErtmEngine) (received : List (List ℕ))
    → Kept c (with_engine e received c)
with_engine-Kept c e received = record {
  psm_kept = refl;
  source_kept = refl;
  spec_kept = refl;
  mode_kept = refl;
  mtu_kept = refl;
  incoming_kept = refl;
  moved = stay;
}

abbrev pub Found : ℕ → ChannelManager → ClassicChannel × ErtmEngine → Type 0
Found cid m (c, e) = (lookup cid m.channels ≡ some c) × (c.engine ≡ some e)

engine_of-Found :
    (cid : ℕ) (m : ChannelManager) (c : ClassicChannel) (o : Option ErtmEngine)
    → lookup cid m.channels ≡ some c
    → c.engine ≡ o
    → OnOk (Found cid m) (engine_of c o)
unfolding engine_of
engine_of-Found cid m c none h k = tt
engine_of-Found cid m c (some e) h k = (h, k)

engine_in-Found :
    (cid : ℕ) (m : ChannelManager) (o : Option ClassicChannel)
    → lookup cid m.channels ≡ o
    → OnOk (Found cid m) (engine_in cid o)
unfolding engine_in
engine_in-Found cid m none h = tt
engine_in-Found cid m (some c) h = engine_of-Found cid m c c.engine h refl

pub find_engine-Found : (cid : ℕ) (m : ChannelManager) → OnOk (Found cid m) (find_engine cid m)
unfolding find_engine
find_engine-Found cid m = engine_in-Found cid m (lookup cid m.channels) refl

pub then_go_on-Keeps :
    (m : ChannelManager) (rest : Action (Unit {0})) (p : ChannelManager × Result Error (Unit {0}))
    → Keeps m p.0
    → ((n : ChannelManager) → ManagerIsValid n → Keeps n (rest n).0)
    → Keeps m (then_go_on rest p).0
then_go_on-Keeps m rest (n, ok _) h k = Keeps-trans h (k n h.valid)
then_go_on-Keeps m rest (n, err x) h k = h

push_payload-Keeps :
    (cid : ℕ) (r : Result Error (List ℕ)) (m : ChannelManager)
    → ManagerIsValid m
    → Keeps m (push_payload cid r m).0
unfolding push_payload
push_payload-Keeps cid (ok payload) m h =
    push_outbound-Keeps (record { cid = cid; payload = payload }) m h
push_payload-Keeps cid (err x) m h = Keeps-refl m h

push_frames-Keeps :
    (fcs_enabled : Bool) (cid : ℕ) (frames : List (List ℕ)) (m : ChannelManager)
    → ManagerIsValid m
    → Keeps m (push_frames fcs_enabled cid frames m).0
unfolding push_frames
push_frames-Keeps fcs_enabled cid [] m h = Keeps-refl m h
push_frames-Keeps fcs_enabled cid (frame ∷ rest) m h =
    then_go_on-Keeps m (push_frames fcs_enabled cid rest)
      (push_payload cid (frame_payload fcs_enabled cid frame) m)
      (push_payload-Keeps cid (frame_payload fcs_enabled cid frame) m h)
      (push_frames-Keeps fcs_enabled cid rest)

drained-IsReady : (e : ErtmEngine) → IsReady e → IsReady (drained e)
unfolding drained
drained-IsReady e ready = unrelated-IsReady e (drained e) e.expected_tx_seq ready.0.expected ready

flush_engine-Keeps :
    (cid : ℕ) (c : ClassicChannel) (e : ErtmEngine) (m : ChannelManager)
    → ManagerIsValid m
    → Found cid m (c, e)
    → Keeps m (flush_engine cid c e m).0
unfolding flush_engine
flush_engine-Keeps cid c e m h (here, running) =
    let v = subst (OnSome (ChannelIsValid cid)) here (found-IsValid cid m h) in
    let c' = with_engine (drained e) (c.received ++ e.received) c in
    let written =
      put_found-Keeps cid c c' m h here (with_engine-Kept c (drained e) (c.received ++ e.received))
        (engine-ChannelIsValid cid c e (drained e) (c.received ++ e.received) v running
          (drained-IsReady e)) in
    Keeps-trans written (
      push_frames-Keeps c.fcs_enabled c.destination_cid e.outbound (put_channel cid c' m)
        written.valid)

flush_found-Keeps :
    (cid : ℕ) (r : Result Error (ClassicChannel × ErtmEngine)) (m : ChannelManager)
    → ManagerIsValid m
    → OnOk (Found cid m) r
    → Keeps m (flush_found cid r m).0
unfolding flush_found
flush_found-Keeps cid (ok (c, e)) m h f = flush_engine-Keeps cid c e m h f
flush_found-Keeps cid (err x) m h f = Keeps-refl m h

pub flush_ertm-Keeps :
    (cid : ℕ) (m : ChannelManager) → ManagerIsValid m → Keeps m (flush_ertm cid m).0
unfolding flush_ertm
flush_ertm-Keeps cid m h = flush_found-Keeps cid (find_engine cid m) m h (find_engine-Found cid m)

pub flush_if_ok-Keeps :
    (cid : ℕ) (r : Result Error (Unit {0})) (m : ChannelManager)
    → ManagerIsValid m
    → Keeps m (flush_if_ok cid r m).0
unfolding flush_if_ok
flush_if_ok-Keeps cid (ok _) m h = flush_ertm-Keeps cid m h
flush_if_ok-Keeps cid (err x) m h = Keeps-refl m h
