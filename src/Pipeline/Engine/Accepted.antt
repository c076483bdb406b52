-- ===== src/Pipeline/Engine/Accepted.antt =====
-- The events that the plan for engine/src/pipeline.rs accepts, and where each of them is.
use mathlib.Core.List.{Sublist}
use mathlib.Core.List.Sublist as Sublist
use native.Mathlib.Decide.{dec_lt}
use native.Mathlib.Nat.{mod-lt}
use telemetry_threat_engine.Base.{
  some_injective, ℕ, ◌+◌, ◌%◌, ◌<◌, ◌≤◌, ◌≡◌, refl, sym, ◌∙◌, subst, List, [], ◌∷◌, ◌++◌, some,
  length, replicate, length-replicate, get_elem?, length-append, length-set, get_elem?-lt,
  get_elem?-some, get_elem?-past, get_elem?-replicate, append-nil, arith,
}
use telemetry_threat_engine.Models.{NetworkEvent, shard_key}
use telemetry_threat_engine.Pipeline.Engine.{Action, arrive, wake}
use telemetry_threat_engine.Pipeline.Engine.Plan.{
  Plan, plan_arrive, plan_wake, plan_step, plan_arrive-room, plan_arrive-full, plan_wake-some,
  taken, length-add_to, total, total-add_to, total-set, total-replicate, empty_plan, arrivals,
}
use telemetry_threat_engine.Pipeline.Engine.Order.{InOrder, queue_up-InOrder, take-InOrder}

-- The events accepted of those that arrived; all others are counted as dropped.
pub record Accepts (workers : ℕ) (arrived : List NetworkEvent) (p : Plan) : Type 0 where
  pub accepted : List NetworkEvent
  pub among : Sublist accepted arrived
  pub others : length accepted + p.dropped ≡ length arrived
  pub all : total p.handled + total p.queued ≡ length accepted
  pub in_order : InOrder workers accepted p
  pub queues : length p.queued ≡ workers
  pub handlers : length p.handled ≡ workers

module _ {workers : ℕ} {arrived : List NetworkEvent} {p : Plan} (a : Accepts workers arrived p)
    (some_worker : 0 < workers) where
  -- How a step of the plan changes what is accepted.
  arrive-Accepts :
      (cap : ℕ) (event : NetworkEvent) (xs : List NetworkEvent)
      → get_elem? p.queued (shard_key event % workers) ≡ some xs
      → length xs ≤ cap
      → Accepts workers (arrived ++ event ∷ []) (plan_arrive cap event p)
  arrive-Accepts cap event xs at fits =
      let shard = shard_key event % workers in
      elim (dec_lt (length xs) cap) [
        | yes room ↦ rw (plan_arrive-room cap event p workers (sym a.queues) xs at room) (record {
          accepted = a.accepted ++ event ∷ [];
          among = Sublist.append a.among (Sublist.refl (event ∷ []));
          others = omega (
            arith,
            a.others,
            length-append a.accepted (event ∷ []),
            length-append arrived (event ∷ []),
          );
          all = omega (
            arith,
            a.all,
            length-append a.accepted (event ∷ []),
            length-append xs (event ∷ []),
            total-set p.queued shard xs (xs ++ event ∷ []) at,
          );
          in_order = queue_up-InOrder workers p a.accepted a.in_order event xs at;
          queues = length-set p.queued shard (xs ++ event ∷ []) ∙ a.queues;
          handlers = a.handlers;
        })
        | no full ↦
            rw (plan_arrive-full cap event p workers (sym a.queues) xs at (omega (arith, fits)))
              (record {
                accepted = a.accepted;
                among =
                    subst (λ l. Sublist l (arrived ++ event ∷ [])) (append-nil a.accepted)
                      (Sublist.append a.among (Sublist.cons event (Sublist.refl [])));
                others = omega (arith, a.others, length-append arrived (event ∷ []));
                all = a.all;
                in_order = a.in_order;
                queues = a.queues;
                handlers = a.handlers;
              })
      ]

  taken-Accepts :
      (cap i : ℕ) (xs : List NetworkEvent)
      → get_elem? p.queued i ≡ some xs
      → Accepts workers arrived (taken cap i p xs)
  taken-Accepts _ i [] at = a
  taken-Accepts _ i (event ∷ xs) at = record {
    accepted = a.accepted;
    among = a.among;
    others = a.others;
    all = omega (
      arith,
      a.all,
      total-set p.queued i (event ∷ xs) xs at,
      total-add_to p.handled i event
          (omega (arith, a.queues, a.handlers, get_elem?-lt p.queued i (event ∷ xs) at)),
    );
    in_order =
        take-InOrder workers p a.accepted a.in_order i event xs (a.handlers ∙ sym a.queues) at;
    queues = length-set p.queued i xs ∙ a.queues;
    handlers = length-add_to p.handled i event ∙ a.handlers;
  }

  wake-Accepts : (cap i : ℕ) → Accepts workers arrived (plan_wake cap i p)
  unfolding plan_wake
  wake-Accepts capacity i = elim (dec_lt i (length p.queued)) [
    | yes below ↦
        let (xs, at) = get_elem?-some p.queued i below in
        rw (plan_wake-some capacity i p xs at) (taken-Accepts capacity i xs at)
    | no past ↦ rw (plan_wake, get_elem?-past p.queued i (omega arith)) a
  ]

  pub plan_step-Accepts :
      (cap : ℕ) (action : Action)
      → ((i : ℕ) (xs : List NetworkEvent) → get_elem? p.queued i ≡ some xs → length xs ≤ cap)
      → Accepts workers (arrived ++ arrivals (action ∷ [])) (plan_step cap action p)
  unfolding plan_step
  plan_step-Accepts capacity (arrive rounds event) fits =
      let (xs, at) =
        get_elem?-some p.queued (shard_key event % workers)
          (omega (arith, a.queues, mod-lt (shard_key event) some_worker)) in
      arrive-Accepts capacity event xs at (fits (shard_key event % workers) xs at)
  plan_step-Accepts capacity (wake i rounds now restart cep_now) fits =
      subst (λ l. Accepts workers l (plan_wake capacity i p)) (sym (append-nil arrived))
        (wake-Accepts capacity i)

pub empty_plan-Accepts : (workers : ℕ) → Accepts workers [] (empty_plan workers)
empty_plan-Accepts workers = record {
  accepted = [];
  among = Sublist.refl [];
  others = refl;
  all = omega (arith, total-replicate workers);
  in_order = λ i done waiting at_done at_waiting. none_yet i done waiting at_done at_waiting;
  queues = length-replicate {A = List NetworkEvent} workers [];
  handlers = length-replicate {A = List NetworkEvent} workers [];
}
  where
    nothing_at :
        (i : ℕ) (xs : List NetworkEvent) → get_elem? (replicate workers []) i ≡ some xs → xs ≡ []
    nothing_at i xs at = some_injective xs [] (
        sym at
        ∙ get_elem?-replicate workers i [] (
            omega (
              arith,
              get_elem?-lt (replicate workers []) i xs at,
              length-replicate {A = List NetworkEvent} workers [],
            )))

    none_yet : InOrder workers [] (empty_plan workers)
    none_yet i done waiting at_done at_waiting =
        rw (nothing_at i done at_done, nothing_at i waiting at_waiting) refl
