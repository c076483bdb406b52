-- ===== src/Pipeline/Engine/Refines.antt =====
-- When a state of the producer and the workers of engine/src/pipeline.rs is what the plan says.
use telemetry_threat_engine.Base.{ℕ, ◌+◌, ◌%◌, ◌^◌, ◌≡◌, some, length, All, get_elem?, set, ◌⊎◌}
use telemetry_threat_engine.Queue.Push.{Settles}
use telemetry_threat_engine.Detection.Hasher.{FxHasher}
use telemetry_threat_engine.Detection.Float.{Float64}
use telemetry_threat_engine.Detection.Signature.{AhoCorasick}
use telemetry_threat_engine.Models.{NetworkEvent}
use telemetry_threat_engine.Pipeline.{AppState, Worker, handle}
use telemetry_threat_engine.Pipeline.Handling.{Ready}
use telemetry_threat_engine.Pipeline.Engine.{Engine, Action, arrive, wake, step}
use telemetry_threat_engine.Pipeline.Engine.Plan.{Plan, plan_step, total, add_to}
use telemetry_threat_engine.Pipeline.Engine.Contents.{AllHold}

-- Each step's call of a queue meets an exchange that does not fail spuriously.
abbrev pub ActionSettles : Action → Type 0
ActionSettles (arrive rounds event) = Settles rounds
ActionSettles (wake i rounds now restart cep_now) = Settles rounds

module _ (ac : AhoCorasick) (fx : FxHasher) (fl : Float64) where
  -- The queues hold what the plan has queued, the workers are ready, and the counters count.
  pub record Refines (k cap : ℕ) (engine : Engine fl.F) (p : Plan) : Type 0 where
    pub queues : AllHold k cap engine.state.queues p.queued
    pub workers : All (Ready fx fl) engine.workers
    pub one_each : length engine.workers ≡ length engine.state.queues
    pub handlers : length p.handled ≡ length engine.state.queues
    pub processed : engine.state.stats.events_processed ≡ total p.handled % 2 ^ 64
    pub dropped : engine.state.stats.events_dropped ≡ p.dropped % 2 ^ 64

  -- A step that leaves the workers, the alerts and what is handled as they are.
  pub record Quiet (engine engine' : Engine fl.F) (p p' : Plan) : Type 0 where
    pub workers : engine'.workers ≡ engine.workers
    pub alerts : engine'.state.alerts ≡ engine.state.alerts
    pub fired : engine'.state.stats.alerts_fired ≡ engine.state.stats.alerts_fired
    pub handled : p'.handled ≡ p.handled

  -- A step in which a worker handles an event.
  pub record Busy (i now restart cep_now : ℕ) (engine engine' : Engine fl.F) (p p' : Plan)
      : Type 0 where
    pub event : NetworkEvent
    pub worker : Worker fl.F
    pub taken : AppState
    pub answer : Worker fl.F × AppState
    pub own : get_elem? engine.workers i ≡ some worker
    pub alerts : taken.alerts ≡ engine.state.alerts
    pub fired : taken.stats.alerts_fired ≡ engine.state.stats.alerts_fired
    pub answered : handle ac fx fl now restart cep_now event worker taken ≡ some answer
    pub state : engine'.state ≡ answer.1
    pub workers : engine'.workers ≡ set engine.workers i answer.0
    pub handled : p'.handled ≡ add_to p.handled i event

  -- What a step does to the workers and the alerts.
  abbrev pub Effect : Action → Engine fl.F → Engine fl.F → Plan → Plan → Type 0
  Effect (arrive rounds event) engine engine' p p' = Quiet engine engine' p p'
  Effect (wake i rounds now restart cep_now) engine engine' p p' =
      Quiet engine engine' p p' ⊎ Busy i now restart cep_now engine engine' p p'

  -- What one step comes to, and that the number of workers stays.
  abbrev pub Next : ℕ → ℕ → Engine fl.F → Plan → Action → Type 0
  Next k cap engine p action =
      (engine' : Engine fl.F) × (step ac fx fl action engine ≡ some engine')
      × Refines (k + 1) cap engine' (plan_step cap action p)
      × (length engine'.state.queues ≡ length engine.state.queues)
      × Effect action engine engine' p (plan_step cap action p)
