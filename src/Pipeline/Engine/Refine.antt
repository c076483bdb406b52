-- ===== src/Pipeline/Engine/Refine.antt =====
-- One step of the engine of engine/src/pipeline.rs beside that of the plan.
use native.Mathlib.Decide.{dec_lt}
use telemetry_threat_engine.Base.{ℕ, ◌+◌, ◌^◌, ◌<◌, length, arith}
use telemetry_threat_engine.Detection.Hasher.{FxHasher}
use telemetry_threat_engine.Detection.Float.{Float64}
use telemetry_threat_engine.Detection.Signature.{AhoCorasick}
use telemetry_threat_engine.Pipeline.Engine.{Engine, Action, arrive, wake}
use telemetry_threat_engine.Pipeline.Engine.Plan.{Plan}
use telemetry_threat_engine.Pipeline.Engine.Contents.{AllHold-get_elem?}
use telemetry_threat_engine.Pipeline.Engine.Refines.{ActionSettles, Refines, Next}
use telemetry_threat_engine.Pipeline.Engine.Arrive.{arrive-Next}
use telemetry_threat_engine.Pipeline.Engine.Wake.{wake_holding, wake_nobody}

module _ (ac : AhoCorasick) (fx : FxHasher) (fl : Float64) where
  module _ {k cap : ℕ} {engine : Engine fl.F} {p : Plan} (r : Refines ac fx fl k cap engine p)
      (some_worker : 0 < length engine.state.queues) (small : k + cap + 1 < 2 ^ 63) where
    pub step-Next : (action : Action) → ActionSettles action → Next ac fx fl k cap engine p action
    step-Next (arrive rounds event) settles =
        arrive-Next ac fx fl r some_worker small rounds event settles
    step-Next (wake i rounds now restart cep_now) settles =
        elim (dec_lt i (length engine.state.queues)) [
          | yes below ↦
              let (q, xs, at_q, at_xs, h) =
                AllHold-get_elem? k cap engine.state.queues p.queued i r.queues below in
              wake_holding ac fx fl r some_worker small i rounds now restart cep_now q xs settles
                at_q at_xs h
          | no past ↦
              wake_nobody ac fx fl r some_worker small i rounds now restart cep_now (omega arith)
        ]
