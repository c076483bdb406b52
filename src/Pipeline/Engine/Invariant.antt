-- ===== src/Pipeline/Engine/Invariant.antt =====
-- Invariants over the runs of the producer and the workers of engine/src/pipeline.rs.
use telemetry_threat_engine.Base.{
  ℕ, ◌+◌, ◌^◌, ◌<◌, ◌≡◌, refl, subst, List, [], ◌∷◌, some, length, All, arith,
}
use telemetry_threat_engine.Detection.Hasher.{FxHasher}
use telemetry_threat_engine.Detection.Float.{Float64}
use telemetry_threat_engine.Detection.Signature.{AhoCorasick}
use telemetry_threat_engine.Pipeline.Engine.{Engine, Action, run}
use telemetry_threat_engine.Pipeline.Engine.Plan.{Plan, plan_step, plan_run}
use telemetry_threat_engine.Pipeline.Engine.Refines.{ActionSettles, Refines, Effect}
use telemetry_threat_engine.Pipeline.Engine.Refine.{step-Next}

-- No condition on the actions.
abbrev pub Any : Action → Type 0
Any action = Unit

pub all-Any : (actions : List Action) → All Any actions
all-Any [] = tt
all-Any (action ∷ actions) = (tt, all-Any actions)

module _ (ac : AhoCorasick) (fx : FxHasher) (fl : Float64) where
  -- A property of a state and its plan that each step keeps up, if its action is as it should be.
  pub record Invariant (Fine : Action → Type 0) : Type 1 where
    pub Inv : Engine fl.F → Plan → Type 0
    pub kept :
        (k cap : ℕ) (action : Action) (engine engine' : Engine fl.F) (p : Plan)
        → Fine action
        → Refines ac fx fl k cap engine p
        → Effect ac fx fl action engine engine' p (plan_step cap action p)
        → Inv engine p
        → Inv engine' (plan_step cap action p)

  -- A state that a plan describes, with an invariant.
  pub record Stands (Inv : Engine fl.F → Plan → Type 0) (k cap : ℕ) (engine : Engine fl.F)
      (p : Plan) : Type 0 where
    pub refines : Refines ac fx fl k cap engine p
    pub some_worker : 0 < length engine.state.queues
    pub holds : Inv engine p

  module _ (Fine : Action → Type 0) (invariant : Invariant Fine) where
    pub run-Stands :
        (actions : List Action) (k cap : ℕ) (engine : Engine fl.F) (p : Plan)
        → k + length actions + cap < 2 ^ 63
        → All ActionSettles actions
        → All Fine actions
        → Stands invariant.Inv k cap engine p
        → (last : Engine fl.F) × (run ac fx fl actions engine ≡ some last)
          × Stands invariant.Inv (k + length actions) cap last (plan_run cap actions p)
    unfolding run plan_run
    run-Stands [] k cap engine p below settles fine s =
        (engine, refl, subst (λ n. Stands invariant.Inv n cap engine p) (omega arith) s)
    run-Stands (action ∷ actions) k cap engine p below settles fine s =
        let (next, stepped, r, same, effect) =
          step-Next ac fx fl s.refines (omega (arith, s.some_worker)) (omega arith) action
            settles.0 in
        let (last, ran, final) =
          run-Stands actions (k + 1) cap next (plan_step cap action p) (omega arith) settles.1
            fine.1
            (record {
              refines = r;
              some_worker = omega (arith, same, s.some_worker);
              holds = invariant.kept k cap action engine next p fine.0 s.refines effect s.holds;
            }) in
        (
          last,
          rw (stepped, ran) refl,
          subst
              (λ n. Stands invariant.Inv n cap last (plan_run cap actions (plan_step cap action p)))
              (omega arith) final,
        )
