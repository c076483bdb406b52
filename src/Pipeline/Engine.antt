-- ===== src/Pipeline/Engine.antt =====
-- The producer and the workers of engine/src/pipeline.rs together. A schedule says what happens next:
-- the producer routes an event, or a worker goes round its loop. Each is one step here, since what
-- threads do inside the queue is the subject of Queue.Threads. A `none` is a panic, or a call of the
-- queue that does not return.
pub mod Plan
pub mod Contents
pub mod Refines
pub mod Arrive
pub mod Wake
pub mod Refine
pub mod Order
pub mod Accepted
pub mod Runs
pub mod Room
pub mod Everywhere
pub mod Watch
pub mod Payloads
pub mod Invariant
pub mod Tallies
pub mod Sources
pub mod Sized
pub mod Guards
pub mod Alarm
use telemetry_threat_engine.Base.{
  ℕ, zero, suc, Bool, List, [], ◌∷◌, Option, none, some, length, replicate, get_elem?, set, ◌>>=◌,
}
use telemetry_threat_engine.Models.{NetworkEvent}
use telemetry_threat_engine.Queue.{MpmcQueue, Outcome, done, panic, running, pop}
use telemetry_threat_engine.Detection.Hasher.{FxHasher}
use telemetry_threat_engine.Detection.Float.{Float64}
use telemetry_threat_engine.Detection.Signature.{AhoCorasick}
use telemetry_threat_engine.Pipeline
use telemetry_threat_engine.Pipeline.{AppState, Worker, new_worker, route, handle}

pub record Engine (F : Type 0) : Type 0 where
  pub state : AppState
  pub workers : List (Worker F)

-- A step, with how the exchanges of its call of the queue fare, and a worker's readings of the clock.
pub data Action : Type 0 where
  arrive : (rounds : List Bool) (event : NetworkEvent) → Action
  wake : (worker : ℕ) (rounds : List Bool) (now restart cep_now : ℕ) → Action

module _ (ac : AhoCorasick) (fx : FxHasher) (fl : Float64) where
  -- What the producer's push comes to.
  abbrev after_route : Engine fl.F → Outcome AppState → Option (Engine fl.F)
  after_route engine (done state) = some (record engine { state = state })
  after_route engine panic = none
  after_route engine running = none

  -- The branch of a worker's loop for what `pop` returned, with the state after the pop.
  unfoldable pub work :
      ℕ → ℕ → ℕ → ℕ → Engine fl.F → AppState → Option NetworkEvent → Option (Engine fl.F)
  unfolding handle
  work i now restart cep_now engine state none = some (record engine { state = state })
  work i now restart cep_now engine state (some event) = do
    worker ← get_elem? engine.workers i
    r ← handle ac fx fl now restart cep_now event worker state
    some (record { state = r.1; workers = set engine.workers i r.0 })

  abbrev after_pop :
      ℕ
      → ℕ
      → ℕ
      → ℕ
      → Engine fl.F
      → Outcome (Option NetworkEvent × MpmcQueue NetworkEvent)
      → Option (Engine fl.F)
  after_pop i now restart cep_now engine (done (item, q)) =
      work i now restart cep_now engine
        (record engine.state { queues = set engine.state.queues i q }) item
  after_pop i now restart cep_now engine panic = none
  after_pop i now restart cep_now engine running = none

  -- A worker that is not there does nothing.
  unfoldable pub step : Action → Engine fl.F → Option (Engine fl.F)
  unfolding route pop work
  step (arrive rounds event) engine = after_route engine (route rounds event engine.state)
  step (wake i rounds now restart cep_now) engine = elim (get_elem? engine.state.queues i) [
    | none ↦ some engine
    | some q ↦ after_pop i now restart cep_now engine (pop rounds q)
  ]

  unfoldable pub run : List Action → Engine fl.F → Option (Engine fl.F)
  unfolding step
  run [] engine = some engine
  run (action ∷ actions) engine = step action engine >>= λ next. run actions next

  -- `AppState::new`, `spawn_producer` and `spawn_workers`, at a reading of the clock.
  unfoldable pub new : ℕ → ℕ → ℕ → Option (Engine fl.F)
  unfolding Pipeline.new new_worker
  new worker_count queue_capacity start = Pipeline.new worker_count queue_capacity >>= λ state.
      some (record { state = state; workers = replicate worker_count (new_worker ac fx fl start) })
