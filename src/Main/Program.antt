-- ===== src/Main/Program.antt =====
-- The running program of engine/src/main.rs: the producer's thread in engine/src/pipeline.rs, with its
-- simulator and the events of a batch that it has still to route, and the workers.
use telemetry_threat_engine.Base.{ℕ, zero, suc, Bool, List, [], ◌∷◌, ◌++◌, Option, some, ◌>>=◌}
use telemetry_threat_engine.Models.{NetworkEvent}
use telemetry_threat_engine.Detection.Hasher.{FxHasher}
use telemetry_threat_engine.Detection.Float.{Float64}
use telemetry_threat_engine.Detection.Signature.{AhoCorasick}
use telemetry_threat_engine.Ingestion
use telemetry_threat_engine.Ingestion.{Environment, Simulator, next_batch}
use telemetry_threat_engine.Pipeline.Engine
use telemetry_threat_engine.Pipeline.Engine.{Engine, arrive, wake, step}
use telemetry_threat_engine.Main.{worker_count, queue_capacity}

pub record Program (Rng F : Type 0) : Type 0 where
  pub simulator : Simulator Rng
  pub pending : List NetworkEvent
  pub engine : Engine F

-- The producer goes on, or a worker goes round its loop.
pub data Turn : Type 0 where
  produce : (rounds : List Bool) → Turn
  consume : (worker : ℕ) (rounds : List Bool) (now restart cep_now : ℕ) → Turn

module _ (env : Environment) (ac : AhoCorasick) (fx : FxHasher) (fl : Float64) where
  -- The producer routes the next event of the batch, or sleeps and takes the next batch.
  unfoldable pub produce_next :
      List Bool → List NetworkEvent → Program env.Rng fl.F → Option (Program env.Rng fl.F)
  unfolding next_batch step
  produce_next rounds [] p = next_batch env p.simulator >>= λ batch.
      some (record p { simulator = batch.1; pending = batch.0 })
  produce_next rounds (event ∷ events) p =
      step ac fx fl (arrive rounds event) p.engine >>= λ engine.
      some (record p { pending = events; engine = engine })

  unfoldable pub turn : Turn → Program env.Rng fl.F → Option (Program env.Rng fl.F)
  unfolding produce_next
  turn (produce rounds) p = produce_next rounds p.pending p
  turn (consume worker rounds now restart cep_now) p =
      step ac fx fl (wake worker rounds now restart cep_now) p.engine >>= λ engine.
      some (record p { engine = engine })

  unfoldable pub turns : List Turn → Program env.Rng fl.F → Option (Program env.Rng fl.F)
  unfolding turn
  turns [] p = some p
  turns (first ∷ rest) p = turn first p >>= λ next. turns rest next

  -- The state, the producer and the workers that `main` starts, at a reading of the clock.
  unfoldable pub launch : ℕ → Option (Program env.Rng fl.F)
  unfolding Engine.new Ingestion.new
  launch start = Engine.new ac fx fl worker_count queue_capacity start >>= λ engine.
      some (record { simulator = Ingestion.new env; pending = []; engine = engine })

-- The events of the first batches of a simulator, in their order, and the simulator after them.
unfoldable pub batches : (env : Environment) → ℕ → Option (List NetworkEvent × Simulator env.Rng)
unfolding Ingestion.new next_batch
batches env zero = some ([], Ingestion.new env)
batches env (suc n) = batches env n >>= λ before.
    next_batch env before.1 >>= λ batch. some (before.0 ++ batch.0, batch.1)
