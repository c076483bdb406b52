-- ===== src/Pipeline/Engine/Tallies.antt =====
-- How many events of a kind the plan for engine/src/pipeline.rs has queued and handled.
use native.Mathlib.Decide.{dec_lt}
use native.Mathlib.Nat.{mod-lt}
use telemetry_threat_engine.Base.{
  ℕ, zero, suc, Bool, ◌+◌, ◌%◌, ◌≤◌, ◌<◌, ◌≡◌, refl, sym, ap, ◌∙◌, subst, false, List, [], ◌∷◌,
  ◌++◌, some, length, replicate, get_elem?, get_elem?-some, get_elem?-past, get_elem?-lt,
  length-set, set, ltb, count, count-append, count-le, some_injective, arith,
}
use telemetry_threat_engine.Models.{NetworkEvent, shard_key}
use telemetry_threat_engine.Pipeline.Engine.{Action, arrive, wake}
use telemetry_threat_engine.Pipeline.Engine.Plan.{
  Plan, plan_arrive, plan_wake, plan_step, plan_run, plan_arrive-room, plan_wake-some, taken,
  add_to, length-add_to, arrivals, total,
}
use telemetry_threat_engine.Pipeline.Engine.Sized.{Sized}

module _ (kind : NetworkEvent → Bool) where
  abbrev pub tally : List (List NetworkEvent) → ℕ
  tally [] = 0
  tally (xs ∷ xss) = count kind xs + tally xss

  pub tally-le : (xss : List (List NetworkEvent)) → tally xss ≤ total xss
  tally-le [] = omega arith
  tally-le (xs ∷ xss) = omega (arith, count-le kind xs, tally-le xss)

  pub tally-replicate : (n : ℕ) → tally (replicate n []) ≡ 0
  tally-replicate zero = refl
  tally-replicate (suc n) = omega (arith, tally-replicate n)

  tally-set :
      (xss : List (List NetworkEvent)) (i : ℕ) (xs ys : List NetworkEvent)
      → get_elem? xss i ≡ some xs
      → tally (set xss i ys) + count kind xs ≡ tally xss + count kind ys
  tally-set [] i xs ys e = cc
  tally-set (zs ∷ xss) zero xs ys e = omega (arith, ap (count kind) (some_injective zs xs e))
  tally-set (zs ∷ xss) (suc i) xs ys e = omega (arith, tally-set xss i xs ys e)

  pub tally-add_to :
      (xss : List (List NetworkEvent)) (i : ℕ) (event : NetworkEvent)
      → i < length xss
      → tally (add_to xss i event) ≡ tally xss + count kind (event ∷ [])
  unfolding add_to
  tally-add_to [] i event h = elim h [ ]
  tally-add_to (xs ∷ xss) zero event h = omega (arith, count-append kind xs (event ∷ []))
  tally-add_to (xs ∷ xss) (suc i) event h = omega (arith, tally-add_to xss i event (omega arith))

  abbrev pub met : Plan → ℕ
  met p = tally p.handled + tally p.queued + p.dropped

  module _ (workers : ℕ) (some_worker : 0 < workers) where
    arrive-met :
        (cap : ℕ) (event : NetworkEvent) (p : Plan)
        → Sized workers p
        → Sized workers (plan_arrive cap event p)
          × (met p + count kind (event ∷ []) ≤ met (plan_arrive cap event p))
    unfolding plan_arrive
    arrive-met capacity event p z =
        let j = shard_key event % workers in
        let (xs, at) =
          get_elem?-some p.queued j
            (omega (arith, z.queued, mod-lt (shard_key event) some_worker)) in
        elim (dec_lt (length xs) capacity) [
          | yes room ↦ rw (plan_arrive-room capacity event p workers (sym z.queued) xs at room) (
            record {
              queued = length-set p.queued j (xs ++ event ∷ []) ∙ z.queued;
              handled = z.handled;
            },
            omega (
              arith,
              tally-set p.queued j xs (xs ++ event ∷ []) at,
              count-append kind xs (event ∷ []),
            ),
          )
          | no full ↦
              let no_room : ltb (length xs) capacity ≡ false = ground (arith, full) in
              let at_length : get_elem? p.queued (shard_key event % length p.queued) ≡ some xs =
                subst (λ n. get_elem? p.queued (shard_key event % n) ≡ some xs) (sym z.queued) at in
              rw (plan_arrive, at_length, no_room)
                (
                  record { queued = z.queued; handled = z.handled },
                  omega (arith, count-le kind (event ∷ [])),
                )
        ]

    taken-met :
        (cap j : ℕ) (p : Plan) (xs : List NetworkEvent)
        → get_elem? p.queued j ≡ some xs
        → Sized workers p
        → Sized workers (taken cap j p xs) × (met p ≤ met (taken cap j p xs))
    taken-met _ j p [] at z = (z, omega arith)
    taken-met capacity j p (event ∷ xs) at z = (
      record {
        queued = length-set p.queued j xs ∙ z.queued;
        handled = length-add_to p.handled j event ∙ z.handled;
      },
      omega (
        arith,
        tally-set p.queued j (event ∷ xs) xs at,
        tally-add_to p.handled j event
            (omega (arith, get_elem?-lt p.queued j (event ∷ xs) at, z.queued, z.handled)),
      ),
    )

    wake-met :
        (cap j : ℕ) (p : Plan)
        → Sized workers p
        → Sized workers (plan_wake cap j p) × (met p ≤ met (plan_wake cap j p))
    unfolding plan_wake
    wake-met capacity j p z = elim (dec_lt j (length p.queued)) [
      | yes below ↦
          let (xs, at) = get_elem?-some p.queued j below in
          rw (plan_wake-some capacity j p xs at) (taken-met capacity j p xs at z)
      | no past ↦ rw (plan_wake, get_elem?-past p.queued j (omega arith)) (z, omega arith)
    ]

    -- The events of the kind that arrive are handled, wait in a queue, or are among the drops.
    pub plan_run-met :
        (cap : ℕ) (actions : List Action) (p : Plan)
        → Sized workers p
        → Sized workers (plan_run cap actions p)
          × (met p + count kind (arrivals actions) ≤ met (plan_run cap actions p))
    unfolding plan_run plan_step
    plan_run-met _ [] p z = (z, omega arith)
    plan_run-met capacity (arrive rounds event ∷ actions) p z =
        let (z', more) = arrive-met capacity event p z in
        let (z'', rest) = plan_run-met capacity actions (plan_arrive capacity event p) z' in
        (z'', omega (arith, more, rest))
    plan_run-met capacity (wake j rounds now restart cep_now ∷ actions) p z =
        let (z', more) = wake-met capacity j p z in
        let (z'', rest) = plan_run-met capacity actions (plan_wake capacity j p) z' in
        (z'', omega (arith, more, rest))
