-- ===== src/Main.antt =====
-- The constants of engine/src/main.rs, and the first batch of events.
pub mod Program
pub mod Came
pub mod Serves
pub mod Exploits
use telemetry_threat_engine.Base.{
  ℕ, ◌+◌, ◌*◌, ◌^◌, ◌≤◌, ◌<◌, ◌≡◌, refl, ap, true, List, some, Option, length, All, ◌>>=◌, arith,
}
use telemetry_threat_engine.Models.{NetworkEvent}
use telemetry_threat_engine.Queue.{is_power_of_two}
use telemetry_threat_engine.Detection.Hasher.{FxHasher}
use telemetry_threat_engine.Detection.Float.{Float64}
use telemetry_threat_engine.Detection.Signature.{AhoCorasick}
use telemetry_threat_engine.Ingestion.{Environment, Simulator, next_batch}
use telemetry_threat_engine.Ingestion.Sizes.{next_batch-Valid}
use telemetry_threat_engine.Pipeline.Engine.{Engine, Action, run, new}
use telemetry_threat_engine.Pipeline.Engine.Plan.{arrivals}
use telemetry_threat_engine.Pipeline.Engine.Contents.{in_flight}
use telemetry_threat_engine.Pipeline.Engine.Refines.{ActionSettles}
use telemetry_threat_engine.Pipeline.Engine.Room.{new-run_room}

-- `1 << 16`.
abbrev pub queue_capacity : ℕ
queue_capacity = 1 * 2 ^ 16

abbrev pub worker_count : ℕ
worker_count = 4

pub capacity-power : is_power_of_two queue_capacity ≡ true
unfolding is_power_of_two
capacity-power = refl

same_batch :
    {R : Type 0} (r : Option (List NetworkEvent × Simulator R)) (e e' : List NetworkEvent)
    (s s' : Simulator R)
    → r ≡ some (e, s)
    → r ≡ some (e', s')
    → e ≡ e'
same_batch r e e' s s' h h' = cc

module _ (env : Environment) (after_epoch : (i : ℕ) → (ms : ℕ) × (env.clock i ≡ some ms))
    (ac : AhoCorasick) (fx : FxHasher) (fl : Float64) where
  -- If the clock is never before the epoch, the first batch of the simulator goes through the engine
  -- that `main` starts without a drop: however the producer, which routes the events of the batch, and
  -- the four workers alternate, nothing panics, at least 20 and at most 181 events arrive, and each of
  -- them has been processed or is in a queue. The steps are fewer than 2^62, and exchanges settle.
  pub first_batch :
      (start : ℕ) (sim sim' : Simulator env.Rng) (events : List NetworkEvent)
      (actions : List Action)
      → next_batch env sim ≡ some (events, sim')
      → arrivals actions ≡ events
      → length actions < 2 ^ 62
      → All ActionSettles actions
      → (engine : Engine fl.F) × ((new ac fx fl worker_count queue_capacity start >>= λ e.
            run ac fx fl actions e)
          ≡ some engine)
        × (engine.state.stats.events_dropped ≡ 0)
        × (engine.state.stats.events_processed + in_flight engine.state.queues ≡ length events)
        × (20 ≤ length events)
        × (length events ≤ 181)
  first_batch start sim sim' events actions made routed short settles =
      let (batch, next, e, some_events, few, valid) = next_batch-Valid env after_epoch sim in
      let same = ap length (same_batch (next_batch env sim) batch events next sim' e made) in
      let count = ap length routed in
      let (engine, ran, dropped, counts) =
        new-run_room ac fx fl worker_count queue_capacity start actions (omega arith) (omega arith)
          (omega arith) capacity-power settles (omega (arith, same, count)) in
      (engine, ran, dropped, omega (arith, counts, count), omega (arith, same), omega (arith, same))
