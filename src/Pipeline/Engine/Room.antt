-- ===== src/Pipeline/Engine/Room.antt =====
-- The drops of the producer of engine/src/pipeline.rs while few events arrive.
use native.Mathlib.Nat.{mod-lt}
use native.Mathlib.Decide.{dec_lt}
use telemetry_threat_engine.Base.{
  some_injective, ℕ, zero, suc, ◌+◌, ◌%◌, ◌^◌, ◌≤◌, ◌<◌, ◌≡◌, refl, sym, ap, ◌∙◌, true, List, [],
  ◌∷◌, ◌++◌, some, length, length-append, get_elem?, get_elem?-some, get_elem?-past, All, ◌>>=◌,
  arith,
}
use telemetry_threat_engine.Models.{NetworkEvent, shard_key}
use telemetry_threat_engine.Queue.{is_power_of_two}
use telemetry_threat_engine.Detection.Hasher.{FxHasher}
use telemetry_threat_engine.Detection.Float.{Float64}
use telemetry_threat_engine.Detection.Signature.{AhoCorasick}
use telemetry_threat_engine.Pipeline.Engine.{Engine, Action, arrive, wake, run, new}
use telemetry_threat_engine.Pipeline.Engine.Plan.{
  Plan, plan_arrive, plan_wake, plan_step, plan_run, plan_arrive-room, taken, total, empty_plan,
  arrivals,
}
use telemetry_threat_engine.Pipeline.Engine.Contents.{in_flight, in_flight-total}
use telemetry_threat_engine.Pipeline.Engine.Accepted.{
  Accepts, plan_step-Accepts, empty_plan-Accepts,
}
use telemetry_threat_engine.Pipeline.Engine.Refines.{ActionSettles}
use telemetry_threat_engine.Pipeline.Engine.Runs.{length-arrivals, arrivals-first, new-run}

pub total-at :
    (xss : List (List NetworkEvent)) (i : ℕ) (xs : List NetworkEvent)
    → get_elem? xss i ≡ some xs
    → length xs ≤ total xss
total-at [] i xs at = cc
total-at (ys ∷ xss) zero xs at = omega (arith, ap length (some_injective ys xs at))
total-at (ys ∷ xss) (suc i) xs at = omega (arith, total-at xss i xs at)

taken-dropped :
    (cap i : ℕ) (p : Plan) (xs : List NetworkEvent) → (taken cap i p xs).dropped ≡ p.dropped
taken-dropped _ i p [] = refl
taken-dropped _ i p (event ∷ xs) = refl

pub wake-dropped : (cap i : ℕ) (p : Plan) → (plan_wake cap i p).dropped ≡ p.dropped
unfolding plan_wake
wake-dropped capacity i p = elim (dec_lt i (length p.queued)) [
  | yes below ↦
      let (xs, at) = get_elem?-some p.queued i below in
      rw (plan_wake, at) (taken-dropped capacity i p xs)
  | no past ↦ rw (plan_wake, get_elem?-past p.queued i (omega arith)) refl
]

module _ {workers : ℕ} {arrived : List NetworkEvent} {p : Plan} (a : Accepts workers arrived p)
    (some_worker : 0 < workers) where
  arrive-dropped :
      (cap : ℕ) (event : NetworkEvent)
      → length arrived < cap
      → (plan_arrive cap event p).dropped ≡ p.dropped
  arrive-dropped capacity event below =
      let (xs, at) =
        get_elem?-some p.queued (shard_key event % workers)
          (omega (arith, a.queues, mod-lt (shard_key event) some_worker)) in
      let short = total-at p.queued (shard_key event % workers) xs at in
      ap (λ (q : Plan). q.dropped)
        (plan_arrive-room capacity event p workers (sym a.queues) xs at
          (omega (arith, short, a.all, a.others)))

  step-dropped :
      (cap : ℕ) (action : Action)
      → length arrived + length (arrivals (action ∷ [])) ≤ cap
      → (plan_step cap action p).dropped ≡ p.dropped
  unfolding plan_step
  step-dropped capacity (arrive rounds event) below = arrive-dropped capacity event (omega arith)
  step-dropped capacity (wake i rounds now restart cep_now) below = wake-dropped capacity i p

  below_cap :
      (cap : ℕ)
      → length arrived ≤ cap
      → (i : ℕ) (xs : List NetworkEvent) → get_elem? p.queued i ≡ some xs
      → length xs ≤ cap
  below_cap capacity few i xs at = omega (arith, total-at p.queued i xs at, a.all, a.others)

run-dropped :
    (cap workers : ℕ) (actions : List Action) (arrived : List NetworkEvent) (p : Plan)
    → Accepts workers arrived p
    → 0 < workers
    → length arrived + length (arrivals actions) ≤ cap
    → (plan_run cap actions p).dropped ≡ p.dropped
unfolding plan_run
run-dropped capacity workers [] arrived p a some_worker few = refl
run-dropped capacity workers (action ∷ actions) arrived p a some_worker few =
    let split =
      ap length (arrivals-first action actions)
      ∙ length-append (arrivals (action ∷ [])) (arrivals actions) in
    let longer = length-append arrived (arrivals (action ∷ [])) in
    run-dropped capacity workers actions (arrived ++ arrivals (action ∷ []))
      (plan_step capacity action p)
      (plan_step-Accepts a some_worker capacity action
        (below_cap a some_worker capacity (omega arith)))
      some_worker (omega (arith, split, longer))
    ∙ step-dropped a some_worker capacity action (omega (arith, split))

module _ (ac : AhoCorasick) (fx : FxHasher) (fl : Float64) where
  -- From a start with at least one worker, as long as no more events arrive than one queue has slots,
  -- nothing is dropped, however the producer and the workers alternate: every event that arrived has
  -- been processed or is in a queue. Exchanges settle, the capacity is a power of two of at least two,
  -- and the steps and the slots of a queue are fewer than 2^63 together.
  pub new-run_room :
      (w cap start : ℕ) (actions : List Action)
      → 0 < w
      → 2 ≤ cap
      → length actions + cap < 2 ^ 63
      → is_power_of_two cap ≡ true
      → All ActionSettles actions
      → length (arrivals actions) ≤ cap
      → (engine : Engine fl.F) × ((new ac fx fl w cap start >>= λ e. run ac fx fl actions e)
          ≡ some engine)
        × (engine.state.stats.events_dropped ≡ 0)
        × (engine.state.stats.events_processed + in_flight engine.state.queues
            ≡ length (arrivals actions))
  new-run_room w cap start actions some_worker several small power settles few =
      let (engine, ran, r, a) =
        new-run ac fx fl w cap start actions some_worker several small power settles in
      let final = plan_run cap actions (empty_plan w) in
      let none_dropped =
        run-dropped cap w actions [] (empty_plan w) (empty_plan-Accepts w) some_worker
          (omega arith) in
      let flight = in_flight-total (length actions) cap engine.state.queues final.queued r.queues in
      let most = length-arrivals actions in
      (
        engine,
        ran,
        omega (arith, r.dropped, none_dropped),
        omega (arith, r.processed, flight, a.all, a.others, none_dropped, most),
      )
