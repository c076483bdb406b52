-- ===== src/Pipeline/Engine/Sized.antt =====
-- The sizes of the plan for engine/src/pipeline.rs, and how many events it drops.
use telemetry_threat_engine.Base.{
  ℕ, ◌+◌, ◌%◌, ◌≤◌, ◌≡◌, List, [], ◌∷◌, length, length-replicate, Option-cases, get_elem?, ltb,
  Bool-cases, inl, inr, arith,
}
use telemetry_threat_engine.Models.{NetworkEvent, shard_key}
use telemetry_threat_engine.Pipeline.Engine.{Action, arrive, wake}
use telemetry_threat_engine.Pipeline.Engine.Plan.{
  Plan, plan_arrive, plan_wake, plan_step, plan_run, empty_plan,
}
use telemetry_threat_engine.Pipeline.Engine.Room.{wake-dropped}

pub record Sized (workers : ℕ) (p : Plan) : Type 0 where
  pub queued : length p.queued ≡ workers
  pub handled : length p.handled ≡ workers

pub empty-Sized : (workers : ℕ) → Sized workers (empty_plan workers)
empty-Sized workers = record {
  queued = length-replicate {A = List NetworkEvent} workers [];
  handled = length-replicate {A = List NetworkEvent} workers [];
}

arrive-dropped_le :
    (cap : ℕ) (event : NetworkEvent) (p : Plan) → (plan_arrive cap event p).dropped ≤ p.dropped + 1
unfolding plan_arrive
arrive-dropped_le capacity event p =
    let j = shard_key event % length p.queued in
    elim (Option-cases (get_elem? p.queued j)) [
      | inl absent ↦ rw (plan_arrive, absent) (omega arith)
      | inr (xs, at) ↦ elim (Bool-cases (ltb (length xs) capacity)) [
        | inl room ↦ rw (plan_arrive, at, room) (omega arith)
        | inr full ↦ rw (plan_arrive, at, full) (omega arith)
      ]
    ]

-- A plan drops no more events than there are steps.
pub plan_run-dropped_le :
    (cap : ℕ) (actions : List Action) (p : Plan)
    → (plan_run cap actions p).dropped ≤ p.dropped + length actions
unfolding plan_run plan_step
plan_run-dropped_le _ [] p = omega arith
plan_run-dropped_le capacity (arrive rounds event ∷ actions) p = omega (
  arith,
  plan_run-dropped_le capacity actions (plan_arrive capacity event p),
  arrive-dropped_le capacity event p,
)
plan_run-dropped_le capacity (wake j rounds now restart cep_now ∷ actions) p = omega (
  arith,
  plan_run-dropped_le capacity actions (plan_wake capacity j p),
  wake-dropped capacity j p,
)
