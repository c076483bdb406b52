-- ===== src/Main/Serves.antt =====
-- Runs of the program of engine/src/main.rs, and where the events of the simulator are after them.
use telemetry_threat_engine.Base.{
  ℕ, ◌+◌, ◌^◌, ◌<◌, ◌≡◌, refl, sym, ap, ◌∙◌, List, ◌++◌, some, length, length-append, All, ◌>>=◌,
  some_injective, arith,
}
use telemetry_threat_engine.Models.{NetworkEvent}
use telemetry_threat_engine.Detection.Hasher.{FxHasher}
use telemetry_threat_engine.Detection.Float.{Float64}
use telemetry_threat_engine.Detection.Signature.{AhoCorasick}
use telemetry_threat_engine.Ingestion.{Environment}
use telemetry_threat_engine.Pipeline.Engine as Live
use telemetry_threat_engine.Pipeline.Engine.{Engine, Action, run}
use telemetry_threat_engine.Pipeline.Engine.Plan.{arrivals}
use telemetry_threat_engine.Pipeline.Engine.Contents.{in_flight}
use telemetry_threat_engine.Pipeline.Engine.Runs.{new-run_in_order}
use telemetry_threat_engine.Main.{worker_count, queue_capacity, capacity-power}
use telemetry_threat_engine.Main.Program.{Program, Turn, turns, launch, batches}
use telemetry_threat_engine.Main.Came.{TurnSettles, turns-Came, launch-Came}

module _ (env : Environment) (after_epoch : (i : ℕ) → (ms : ℕ) × (env.clock i ≡ some ms))
    (ac : AhoCorasick) (fx : FxHasher) (fl : Float64) where
  -- The program that `main` starts, with four workers and queues of 2^16 slots, runs any interleaving
  -- of its producer, which generates batches and routes their events, and of its workers, at whatever
  -- readings of the clock, if the clock is never before the epoch, the exchanges of the queues settle
  -- and the turns are fewer than 2^62. Nothing panics. The events of all batches so far are, in their
  -- order, those that the producer has routed and those of the current batch that it has still to
  -- route, and the state of the pipeline is that of a run in which the routed events arrive. Each
  -- generated event is counted once: as processed, as dropped, as in a queue, or as still to be routed.
  pub launch-turns :
      (start : ℕ) (ts : List Turn)
      → length ts < 2 ^ 62
      → All TurnSettles ts
      → (p : Program env.Rng fl.F) × (n : ℕ) × (events : List NetworkEvent) × (actions : List
          Action)
        × ((launch env ac fx fl start >>= λ p. turns env ac fx fl ts p) ≡ some p)
        × (batches env n ≡ some (events, p.simulator))
        × (arrivals actions ++ p.pending ≡ events)
        × ((Live.new ac fx fl worker_count queue_capacity start >>= λ e. run ac fx fl actions e)
            ≡ some p.engine)
        × (p.engine.state.stats.events_processed
              + p.engine.state.stats.events_dropped
              + in_flight p.engine.state.queues
              + length p.pending
            ≡ length events)
  launch-turns start ts short settles =
      let (first, launched, came) = launch-Came env after_epoch ac fx fl start in
      let (p, ran, c) =
        turns-Came env after_epoch ac fx fl start 0 ts first came (omega arith) settles in
      let (engine, accepted, made, _, counted, dropped, _, _, _, _, _, _, _) =
        new-run_in_order ac fx fl worker_count queue_capacity start c.actions (omega arith)
          (omega arith) (omega (arith, c.short)) capacity-power c.settles 0 (omega arith) in
      let same : engine ≡ p.engine = some_injective engine p.engine (sym made ∙ c.ran) in
      (
        p,
        c.count,
        c.events,
        c.actions,
        rw (launched, ran) refl,
        c.made,
        c.routed,
        c.ran,
        omega (
          arith,
          counted,
          dropped,
          ap (λ (e : Engine fl.F). e.state.stats.events_processed) same,
          ap (λ (e : Engine fl.F). e.state.stats.events_dropped) same,
          ap (λ (e : Engine fl.F). in_flight e.state.queues) same,
          length-append (arrivals c.actions) p.pending,
          ap length c.routed,
        ),
      )
