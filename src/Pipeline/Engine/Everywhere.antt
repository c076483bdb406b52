-- ===== src/Pipeline/Engine/Everywhere.antt =====
-- A property of all events that the plan for engine/src/pipeline.rs has queued or handled.
use telemetry_threat_engine.Base.{
  ℕ, zero, suc, ◌%◌, List, [], ◌∷◌, ◌++◌, ltb, length, get_elem?, All, All-append, All-get_elem?,
  All-set, Bool-cases, Option-cases, inl, inr,
}
use telemetry_threat_engine.Models.{NetworkEvent, shard_key}
use telemetry_threat_engine.Pipeline.Engine.{Action, arrive, wake}
use telemetry_threat_engine.Pipeline.Engine.Plan.{
  Plan, add_to, plan_arrive, plan_wake, plan_step, taken, arrivals,
}

module _ (P : NetworkEvent → Type 0) where
  abbrev pub AllIn : List (List NetworkEvent) → Type 0
  AllIn xss = All (All P) xss

  abbrev pub Everywhere : Plan → Type 0
  Everywhere p = AllIn p.queued × AllIn p.handled

  add_to-AllIn :
      (xss : List (List NetworkEvent)) (i : ℕ) (event : NetworkEvent)
      → AllIn xss
      → P event
      → AllIn (add_to xss i event)
  unfolding add_to
  add_to-AllIn [] i event a e = tt
  add_to-AllIn (xs ∷ xss) zero event a e = (All-append P xs (event ∷ []) a.0 (e, tt), a.1)
  add_to-AllIn (xs ∷ xss) (suc i) event a e = (a.0, add_to-AllIn xss i event a.1 e)

  plan_arrive-Everywhere :
      (cap : ℕ) (event : NetworkEvent) (p : Plan)
      → P event
      → Everywhere p
      → Everywhere (plan_arrive cap event p)
  unfolding plan_arrive
  plan_arrive-Everywhere capacity event p e (queued, handled) =
      let shard = shard_key event % length p.queued in
      elim (Option-cases (get_elem? p.queued shard)) [
        | inl absent ↦ rw (plan_arrive, absent) (queued, handled)
        | inr (xs, at) ↦ elim (Bool-cases (ltb (length xs) capacity)) [
          | inl room ↦
              rw (plan_arrive, at, room)
                (
                  All-set (All P) p.queued shard (xs ++ event ∷ []) queued (
                      All-append P xs (event ∷ [])
                        (All-get_elem? (All P) p.queued shard xs queued at) (e, tt)),
                  handled,
                )
          | inr full ↦ rw (plan_arrive, at, full) (queued, handled)
        ]
      ]

  taken-Everywhere :
      (cap i : ℕ) (p : Plan) (xs : List NetworkEvent)
      → All P xs
      → Everywhere p
      → Everywhere (taken cap i p xs)
  taken-Everywhere _ i p [] a e = e
  taken-Everywhere _ i p (event ∷ xs) a (queued, handled) =
      (All-set (All P) p.queued i xs queued a.1, add_to-AllIn p.handled i event handled a.0)

  plan_wake-Everywhere : (cap i : ℕ) (p : Plan) → Everywhere p → Everywhere (plan_wake cap i p)
  unfolding plan_wake
  plan_wake-Everywhere capacity i p (queued, handled) = elim (Option-cases (get_elem? p.queued i)) [
    | inl absent ↦ rw (plan_wake, absent) (queued, handled)
    | inr (xs, at) ↦
        rw (plan_wake, at)
          (taken-Everywhere capacity i p xs (All-get_elem? (All P) p.queued i xs queued at)
            (queued, handled))
  ]

  pub plan_step-Everywhere :
      (cap : ℕ) (action : Action) (p : Plan)
      → All P (arrivals (action ∷ []))
      → Everywhere p
      → Everywhere (plan_step cap action p)
  unfolding plan_step
  plan_step-Everywhere capacity (arrive rounds event) p a e =
      plan_arrive-Everywhere capacity event p a.0 e
  plan_step-Everywhere capacity (wake i rounds now restart cep_now) p a e =
      plan_wake-Everywhere capacity i p e
