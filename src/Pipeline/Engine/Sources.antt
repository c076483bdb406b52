-- ===== src/Pipeline/Engine/Sources.antt =====
-- Where the SYNs of one source are in the plan for engine/src/pipeline.rs.
use native.Mathlib.Decide.{dec_lt, ℕ_discrete}
use native.Mathlib.Nat.{mod-lt}
use telemetry_threat_engine.Base.{
  ℕ, ◌+◌, ◌%◌, ◌≤◌, ◌<◌, ◌≡◌, ◌≢◌, refl, sym, ap, ◌∙◌, subst, true, false, count-le, List, [], ◌∷◌,
  ◌++◌, Option, none, some, length, length-set, get_elem?, get_elem?-some, get_elem?-past,
  get_elem?-lt, get_elem?-set_self, get_elem?-set_ne, set, ltb, Bool-cases, inl, inr, count,
  count-append, foldl, arith,
}
use telemetry_threat_engine.Models.{NetworkEvent, ip_bytes, fnv_step, fnv_offset, shard_key}
use telemetry_threat_engine.Detection.Anomaly.Flood.Steps.{is_syn_of}
use telemetry_threat_engine.Pipeline.Engine.{Action, arrive, wake}
use telemetry_threat_engine.Pipeline.Engine.Plan.{
  Plan, plan_arrive, plan_wake, plan_step, plan_run, plan_arrive-room, plan_wake-some, taken,
  add_to, length-add_to, arrivals,
}
use telemetry_threat_engine.Pipeline.Engine.Order.{get_elem?-add_to_self, get_elem?-add_to_ne}
use telemetry_threat_engine.Pipeline.Engine.Sized.{Sized}

-- The worker that handles the events of a source.
abbrev pub worker_of : ℕ → ℕ → ℕ
worker_of workers s = foldl fnv_step fnv_offset (ip_bytes s) % workers

-- The list of a worker.
abbrev pub or_empty : Option (List NetworkEvent) → List NetworkEvent
or_empty none = []
or_empty (some xs) = xs

abbrev pub line : List (List NetworkEvent) → ℕ → List NetworkEvent
line xss i = or_empty (get_elem? xss i)

module _ (xss : List (List NetworkEvent)) (j : ℕ) where
  line-set_self : (ys : List NetworkEvent) → j < length xss → line (set xss j ys) j ≡ ys
  line-set_self ys below = ap or_empty (get_elem?-set_self xss j ys below)

  line-set_ne : (ys : List NetworkEvent) (i : ℕ) → j ≢ i → line (set xss j ys) i ≡ line xss i
  line-set_ne ys i ne = ap or_empty (get_elem?-set_ne xss j i ys ne)

  line-add_to_self :
      (event : NetworkEvent)
      → j < length xss
      → line (add_to xss j event) j ≡ line xss j ++ event ∷ []
  line-add_to_self event below =
      let (xs, at) = get_elem?-some xss j below in
      let (ys, at_later) =
        get_elem?-some (add_to xss j event) j (omega (arith, below, length-add_to xss j event)) in
      ap or_empty at_later
      ∙ get_elem?-add_to_self xss j event xs ys at at_later
      ∙ ap (λ l. or_empty l ++ event ∷ []) (sym at)

  line-add_to_ne : (event : NetworkEvent) (i : ℕ) → j ≢ i → line (add_to xss j event) i ≡ line xss i
  line-add_to_ne event i ne = ap or_empty (get_elem?-add_to_ne xss j i event ne)

module _ (s workers : ℕ) (some_worker : 0 < workers) where
  abbrev i : ℕ
  i = worker_of workers s

  -- The SYNs of the source that were handled or wait, and what was dropped.
  abbrev pub placed : Plan → ℕ
  placed p =
      count (is_syn_of s) (line p.handled i) + count (is_syn_of s) (line p.queued i) + p.dropped

  syn-shard : (event : NetworkEvent) → is_syn_of s event ≡ true → shard_key event % workers ≡ i
  unfolding shard_key
  syn-shard event syn =
      let same : s ≡ event.src_ip = ground (arith, syn) in ap (λ x. worker_of workers x) (sym same)

  no_syn : (event : NetworkEvent) → shard_key event % workers ≢ i → is_syn_of s event ≡ false
  no_syn event other = elim (Bool-cases (is_syn_of s event)) [
    | inl syn ↦ absurd (other (syn-shard event syn))
    | inr none_of_s ↦ none_of_s
  ]

  -- A queue that gets an event has one more SYN of the source, if the event is one.
  set-line :
      (xss : List (List NetworkEvent)) (event : NetworkEvent) (xs : List NetworkEvent)
      → get_elem? xss (shard_key event % workers) ≡ some xs
      → count (is_syn_of s) (line (set xss (shard_key event % workers) (xs ++ event ∷ [])) i)
        ≡ count (is_syn_of s) (line xss i) + count (is_syn_of s) (event ∷ [])
  set-line xss event xs at =
      let j = shard_key event % workers in
      elim (ℕ_discrete j i) [
        | yes same ↦
            let new =
              subst (λ k. line (set xss j (xs ++ event ∷ [])) k ≡ xs ++ event ∷ []) same
                (line-set_self xss j (xs ++ event ∷ []) (get_elem?-lt xss j xs at)) in
            let old : line xss i ≡ xs = subst (λ k. line xss k ≡ xs) same (ap or_empty at) in
            omega (
              arith,
              ap (count (is_syn_of s)) new,
              ap (count (is_syn_of s)) old,
              count-append (is_syn_of s) xs (event ∷ []),
            )
        | no other ↦ omega (
          arith,
          ap (count (is_syn_of s)) (line-set_ne xss j (xs ++ event ∷ []) i other),
          no_mark (no_syn event other),
        )
      ]
    where
      no_mark : is_syn_of s event ≡ false → count (is_syn_of s) (event ∷ []) ≡ 0
      no_mark h = rw h refl

  arrive-placed :
      (cap : ℕ) (event : NetworkEvent) (p : Plan)
      → Sized workers p
      → Sized workers (plan_arrive cap event p)
        × (placed p + count (is_syn_of s) (event ∷ []) ≤ placed (plan_arrive cap event p))
  unfolding plan_arrive
  arrive-placed capacity event p z =
      let j = shard_key event % workers in
      let (xs, at) =
        get_elem?-some p.queued j (omega (arith, z.queued, mod-lt (shard_key event) some_worker)) in
      elim (dec_lt (length xs) capacity) [
        | yes room ↦ rw (plan_arrive-room capacity event p workers (sym z.queued) xs at room) (
          record {
            queued = length-set p.queued j (xs ++ event ∷ []) ∙ z.queued;
            handled = z.handled;
          },
          omega (arith, set-line p.queued event xs at),
        )
        | no full ↦
            let no_room : ltb (length xs) capacity ≡ false = ground (arith, full) in
            let at_length : get_elem? p.queued (shard_key event % length p.queued) ≡ some xs =
              subst (λ n. get_elem? p.queued (shard_key event % n) ≡ some xs) (sym z.queued) at in
            rw (plan_arrive, at_length, no_room)
              (
                record { queued = z.queued; handled = z.handled },
                omega (arith, count-le (is_syn_of s) (event ∷ [])),
              )
      ]

  taken-placed :
      (cap j : ℕ) (p : Plan) (xs : List NetworkEvent)
      → get_elem? p.queued j ≡ some xs
      → Sized workers p
      → Sized workers (taken cap j p xs) × (placed p ≤ placed (taken cap j p xs))
  taken-placed _ j p [] at z = (z, omega arith)
  taken-placed capacity j p (event ∷ xs) at z = (
    record {
      queued = length-set p.queued j xs ∙ z.queued;
      handled = length-add_to p.handled j event ∙ z.handled;
    },
    elim (ℕ_discrete j i) [
      | yes same ↦
          let below = get_elem?-lt p.queued j (event ∷ xs) at in
          let waits = ap (count (is_syn_of s)) (line-set_self p.queued j xs below) in
          let held = ap (λ o. count (is_syn_of s) (or_empty o)) at in
          let done =
            ap (count (is_syn_of s))
              (line-add_to_self p.handled j event (omega (arith, below, z.queued, z.handled))) in
          let split = count-append (is_syn_of s) (line p.handled j) (event ∷ []) in
          subst
            (λ k.
              count (is_syn_of s) (line p.handled k)
                + count (is_syn_of s) (line p.queued k)
                + p.dropped
              ≤ count (is_syn_of s) (line (add_to p.handled j event) k)
                + count (is_syn_of s) (line (set p.queued j xs) k)
                + p.dropped)
            same (omega (arith, waits, held, done, split))
      | no other ↦ omega (
        arith,
        ap (count (is_syn_of s)) (line-set_ne p.queued j xs i other),
        ap (count (is_syn_of s)) (line-add_to_ne p.handled j event i other),
      )
    ],
  )

  wake-placed :
      (cap j : ℕ) (p : Plan)
      → Sized workers p
      → Sized workers (plan_wake cap j p) × (placed p ≤ placed (plan_wake cap j p))
  unfolding plan_wake
  wake-placed capacity j p z = elim (dec_lt j (length p.queued)) [
    | yes below ↦
        let (xs, at) = get_elem?-some p.queued j below in
        rw (plan_wake-some capacity j p xs at) (taken-placed capacity j p xs at z)
    | no past ↦ rw (plan_wake, get_elem?-past p.queued j (omega arith)) (z, omega arith)
  ]

  -- The SYNs of the source that arrive are handled, wait for the worker, or are among the drops.
  pub plan_run-placed :
      (cap : ℕ) (actions : List Action) (p : Plan)
      → Sized workers p
      → Sized workers (plan_run cap actions p)
        × (placed p + count (is_syn_of s) (arrivals actions) ≤ placed (plan_run cap actions p))
  unfolding plan_run plan_step
  plan_run-placed _ [] p z = (z, omega arith)
  plan_run-placed capacity (arrive rounds event ∷ actions) p z =
      let (z', more) = arrive-placed capacity event p z in
      let (z'', rest) = plan_run-placed capacity actions (plan_arrive capacity event p) z' in
      (z'', omega (arith, more, rest))
  plan_run-placed capacity (wake j rounds now restart cep_now ∷ actions) p z =
      let (z', more) = wake-placed capacity j p z in
      let (z'', rest) = plan_run-placed capacity actions (plan_wake capacity j p) z' in
      (z'', omega (arith, more, rest))
