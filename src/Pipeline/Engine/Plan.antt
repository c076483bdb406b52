-- ===== src/Pipeline/Engine/Plan.antt =====
-- What engine/src/pipeline.rs promises: each worker has a bounded first-in first-out queue and handles
-- the events of its shard, and an event that finds its queue full is dropped and counted.
use telemetry_threat_engine.Base.{
  ℕ, zero, suc, ◌+◌, ◌%◌, ◌<◌, ◌≡◌, refl, ap, subst, false, List, [], ◌∷◌, ◌++◌, none, some, ltb,
  if◌then◌else◌, length, replicate, get_elem?, set, length-append, lt→ltb, arith,
}
use telemetry_threat_engine.Models.{NetworkEvent, shard_key}
use telemetry_threat_engine.Pipeline.Engine.{Action, arrive, wake}

pub record Plan : Type 0 where
  pub queued : List (List NetworkEvent)
  pub handled : List (List NetworkEvent)
  pub dropped : ℕ

-- An event goes to the end of one list of a family.
unfoldable pub add_to : List (List NetworkEvent) → ℕ → NetworkEvent → List (List NetworkEvent)
add_to [] i event = []
add_to (xs ∷ xss) zero event = (xs ++ event ∷ []) ∷ xss
add_to (xs ∷ xss) (suc i) event = xs ∷ add_to xss i event

module _ (cap : ℕ) where
  unfoldable pub plan_arrive : NetworkEvent → Plan → Plan
  plan_arrive event p =
      let shard = shard_key event % length p.queued in
      elim (get_elem? p.queued shard) [
        | none ↦ p
        | some xs ↦
            if ltb (length xs) cap
            then record p { queued = set p.queued shard (xs ++ event ∷ []) }
            else record p { dropped = p.dropped + 1 }
      ]

  abbrev pub taken : ℕ → Plan → List NetworkEvent → Plan
  taken i p [] = p
  taken i p (event ∷ xs) = record p {
    queued = set p.queued i xs;
    handled = add_to p.handled i event;
  }

  unfoldable pub plan_wake : ℕ → Plan → Plan
  plan_wake i p = elim (get_elem? p.queued i) [ none ↦ p | some xs ↦ taken i p xs ]

  unfoldable pub plan_step : Action → Plan → Plan
  unfolding plan_arrive plan_wake
  plan_step (arrive rounds event) p = plan_arrive event p
  plan_step (wake i rounds now restart cep_now) p = plan_wake i p

  unfoldable pub plan_run : List Action → Plan → Plan
  unfolding plan_step
  plan_run [] p = p
  plan_run (action ∷ actions) p = plan_run actions (plan_step action p)

module _ (cap : ℕ) (event : NetworkEvent) (p : Plan) (n : ℕ) (same : n ≡ length p.queued)
    (xs : List NetworkEvent) (at : get_elem? p.queued (shard_key event % n) ≡ some xs) where
  at_length : get_elem? p.queued (shard_key event % length p.queued) ≡ some xs
  at_length = subst (λ m. get_elem? p.queued (shard_key event % m) ≡ some xs) same at

  pub plan_arrive-room :
      length xs < cap
      → plan_arrive cap event p
        ≡ record p { queued = set p.queued (shard_key event % n) (xs ++ event ∷ []) }
  unfolding plan_arrive
  plan_arrive-room room = rw (same, plan_arrive, at_length, lt→ltb (length xs) cap room) refl

  pub plan_arrive-full :
      length xs ≡ cap → plan_arrive cap event p ≡ record p { dropped = p.dropped + 1 }
  unfolding plan_arrive
  plan_arrive-full full =
      let no_room : ltb (length xs) cap ≡ false = ground (arith, full) in
      rw (plan_arrive, at_length, no_room) refl

pub plan_wake-some :
    (cap i : ℕ) (p : Plan) (xs : List NetworkEvent)
    → get_elem? p.queued i ≡ some xs
    → plan_wake cap i p ≡ taken cap i p xs
unfolding plan_wake
plan_wake-some _ i p xs at = rw (plan_wake, at) refl

abbrev pub empty_plan : ℕ → Plan
empty_plan workers = record {
  queued = replicate workers [];
  handled = replicate workers [];
  dropped = 0;
}

-- The events of a schedule, in their order.
abbrev pub arrivals : List Action → List NetworkEvent
arrivals [] = []
arrivals (arrive rounds event ∷ actions) = event ∷ arrivals actions
arrivals (wake i rounds now restart cep_now ∷ actions) = arrivals actions

abbrev pub total : List (List NetworkEvent) → ℕ
total [] = 0
total (xs ∷ xss) = length xs + total xss

pub length-add_to :
    (xss : List (List NetworkEvent)) (i : ℕ) (event : NetworkEvent)
    → length (add_to xss i event) ≡ length xss
unfolding add_to
length-add_to [] i event = refl
length-add_to (xs ∷ xss) zero event = refl
length-add_to (xs ∷ xss) (suc i) event = ap suc (length-add_to xss i event)

pub total-add_to :
    (xss : List (List NetworkEvent)) (i : ℕ) (event : NetworkEvent)
    → i < length xss
    → total (add_to xss i event) ≡ total xss + 1
unfolding add_to
total-add_to [] i event h = elim h [ ]
total-add_to (xs ∷ xss) zero event h = omega (arith, length-append xs (event ∷ []))
total-add_to (xs ∷ xss) (suc i) event h = omega (arith, total-add_to xss i event (omega arith))

pub total-set :
    (xss : List (List NetworkEvent)) (i : ℕ) (xs ys : List NetworkEvent)
    → get_elem? xss i ≡ some xs
    → total (set xss i ys) + length xs ≡ total xss + length ys
total-set [] i xs ys e = cc
total-set (zs ∷ xss) zero xs ys e = ground (arith, ap length (some_list zs xs e))
  where
    some_list : (zs xs : List NetworkEvent) → some zs ≡ some xs → zs ≡ xs
    some_list zs xs e = cc
total-set (zs ∷ xss) (suc i) xs ys e = omega (arith, total-set xss i xs ys e)

pub total-replicate : (n : ℕ) → total (replicate n []) ≡ 0
total-replicate zero = refl
total-replicate (suc n) = omega (arith, total-replicate n)
