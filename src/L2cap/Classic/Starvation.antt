-- ===== src/L2cap/Classic/Starvation.antt =====
-- A failed engine and the clock of the channel manager (src/l2cap/classic.rs).
use swbt_bumble_backend.Base.{
  ℕ, ◌≡◌, inl, inr, refl, sym, ap, ◌∙◌, true, Option, some, List, [], ◌∷◌, lookup, Result, ok, err,
  ◌==◌, Bool-cases, ==→eq,
}
use swbt_bumble_backend.Base.OrderedMap.{lookup-insert}
use swbt_bumble_backend.L2cap.{Error, invalid_packet, engine_failed}
use swbt_bumble_backend.L2cap.Ertm.State.{ErtmEngine}
use swbt_bumble_backend.L2cap.Ertm.Engine
use swbt_bumble_backend.L2cap.Ertm.Runs.{failed_refuses}
use swbt_bumble_backend.L2cap.Classic.{ClassicChannel, ChannelManager, put_channel}
use swbt_bumble_backend.L2cap.Classic.Transfer.{
  engine_of, engine_in, find_engine, run_engine, run_found, flush_if_ok, engine_cids, tick_channels,
  tick, then_go_on,
}

found_lem :
    (cid : ℕ) (m : ChannelManager) (c : ClassicChannel) (e : ErtmEngine)
    → lookup cid m.channels ≡ some c
    → c.engine ≡ some e
    → find_engine cid m ≡ ok (c, e)
unfolding find_engine engine_in engine_of
found_lem cid m c e here running = ap (engine_in cid) here ∙ ap (engine_of c) running

same_channel :
    (c : ClassicChannel) (o : Option ErtmEngine) → c.engine ≡ o → record c { engine = o } ≡ c
same_channel c o e = λ i. record c { engine = sym e i }

rewritten :
    (cid : ℕ) (c : ClassicChannel) (m : ChannelManager) (j : ℕ)
    → lookup cid m.channels ≡ some c
    → lookup j (put_channel cid c m).channels ≡ lookup j m.channels
unfolding put_channel
rewritten cid c m j here = elim (Bool-cases (j == cid)) [
  | inl same ↦ lookup-insert j cid c m.channels ∙ rw (same, ==→eq j cid same) (sym here)
  | inr other ↦ lookup-insert j cid c m.channels ∙ rw other refl
]

run_failed :
    (ticks cid : ℕ) (c : ClassicChannel) (e : ErtmEngine) (m : ChannelManager)
    → c.engine ≡ some e
    → e.failed ≡ true
    → run_engine (Engine.tick ticks) cid c e m
      ≡ (put_channel cid c m, err (invalid_packet engine_failed))
unfolding run_engine flush_if_ok
run_failed ticks cid c e m running failed =
    let refused = (failed_refuses e [] ticks true failed).2 in
    ap
      (λ (p : ErtmEngine × Result Error (Unit {0})).
        flush_if_ok cid p.1 (put_channel cid (record c { engine = some p.0 }) m))
      refused
    ∙ ap (λ (d : ClassicChannel). (put_channel cid d m, err (invalid_packet engine_failed)))
        (same_channel c (some e) running)

-- If the first of the channels with an engine has one that has failed, time stands still for all
-- channels: `tick` fails, no channel changes, and nothing is sent, however many other channels have
-- timers that are due.
pub tick_starved :
    (ticks cid : ℕ) (rest : List ℕ) (c : ClassicChannel) (e : ErtmEngine) (m : ChannelManager)
    → engine_cids m.channels ≡ cid ∷ rest
    → lookup cid m.channels ≡ some c
    → c.engine ≡ some e
    → e.failed ≡ true
    → ((tick ticks m).1 ≡ err (invalid_packet engine_failed))
      × ((j : ℕ) → lookup j (tick ticks m).0.channels ≡ lookup j m.channels)
      × ((tick ticks m).0.outbound ≡ m.outbound)
unfolding tick tick_channels run_found put_channel
tick_starved ticks cid rest c e m cids here running failed =
    let stopped : tick ticks m ≡ (put_channel cid c m, err (invalid_packet engine_failed)) =
      ap (λ l. tick_channels ticks l m) cids
      ∙ ap (λ r. then_go_on (tick_channels ticks rest) (run_found (Engine.tick ticks) cid r m))
          (found_lem cid m c e here running)
      ∙ ap (then_go_on (tick_channels ticks rest)) (run_failed ticks cid c e m running failed) in
    (
      ap (λ (p : ChannelManager × Result Error (Unit {0})). p.1) stopped,
      λ j.
          ap (λ (p : ChannelManager × Result Error (Unit {0})). lookup j p.0.channels) stopped
          ∙ rewritten cid c m j here,
      ap (λ (p : ChannelManager × Result Error (Unit {0})). p.0.outbound) stopped,
    )
