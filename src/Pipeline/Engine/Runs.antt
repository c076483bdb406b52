-- ===== src/Pipeline/Engine/Runs.antt =====
-- Whole runs of the producer and the workers of engine/src/pipeline.rs.
use mathlib.Core.List.{Sublist}
use telemetry_threat_engine.Base.{
  ℕ, ◌+◌, ◌^◌, ◌≤◌, ◌<◌, ◌≡◌, refl, sym, ap, ◌∙◌, subst, true, List, [], ◌∷◌, some, length,
  replicate, length-replicate, All, ◌>>=◌, false, ◌++◌, Option, get_elem?, get_elem?-some,
  filter_by, append-nil, append_assoc, ◌==◌, Option-cases, inl, inr, arith,
}
use telemetry_threat_engine.Models.{NetworkEvent}
use telemetry_threat_engine.Queue.{MpmcQueue, is_power_of_two}
use telemetry_threat_engine.Queue.Inv.{Holds, fresh_queue, new-defined, new-Holds, enqueue_pos-new}
use telemetry_threat_engine.Detection.Hasher.{FxHasher}
use telemetry_threat_engine.Detection.Float.{Float64}
use telemetry_threat_engine.Detection.Signature.{AhoCorasick}
use telemetry_threat_engine.Pipeline
use telemetry_threat_engine.Pipeline.{new_worker}
use telemetry_threat_engine.Pipeline.Handling.{Ready, new_worker-Ready}
use telemetry_threat_engine.Pipeline.Engine.{Engine, Action, arrive, wake, step, run, new}
use telemetry_threat_engine.Pipeline.Engine.Plan.{
  Plan, plan_step, plan_run, empty_plan, total-replicate, arrivals,
}
use telemetry_threat_engine.Pipeline.Engine.Contents.{
  AllHold-length, AllHold-get_elem?, AllHold-replicate, AllHold-fits, in_flight, in_flight-total,
}
use telemetry_threat_engine.Pipeline.Engine.Order.{is_for}
use telemetry_threat_engine.Pipeline.Engine.Accepted.{
  Accepts, plan_step-Accepts, empty_plan-Accepts,
}
use telemetry_threat_engine.Pipeline.Engine.Refines.{ActionSettles, Refines}
use telemetry_threat_engine.Pipeline.Engine.Refine.{step-Next}
use telemetry_threat_engine.Base.{All-replicate}

not_zero : (n : ℕ) → 0 < n → (n == 0) ≡ false
not_zero n h = ground arith

pub length-arrivals : (actions : List Action) → length (arrivals actions) ≤ length actions
length-arrivals [] = omega arith
length-arrivals (arrive rounds event ∷ actions) = omega (arith, length-arrivals actions)
length-arrivals (wake i rounds now restart cep_now ∷ actions) =
    omega (arith, length-arrivals actions)

pub arrivals-first :
    (action : Action) (actions : List Action)
    → arrivals (action ∷ actions) ≡ arrivals (action ∷ []) ++ arrivals actions
arrivals-first (arrive rounds event) actions = refl
arrivals-first (wake i rounds now restart cep_now) actions = refl

module _ (ac : AhoCorasick) (fx : FxHasher) (fl : Float64) where
  abbrev pub fresh_engine : ℕ → ℕ → ℕ → Engine fl.F
  fresh_engine w capacity start = record {
    state = record {
      queues = replicate w (fresh_queue NetworkEvent capacity);
      alerts = [];
      stats = record { events_processed = 0; events_dropped = 0; alerts_fired = 0 };
    };
    workers = replicate w (new_worker ac fx fl start);
  }

  pub new-fresh_engine :
      (w cap start : ℕ)
      → 0 < w
      → is_power_of_two cap ≡ true
      → new ac fx fl w cap start ≡ some (fresh_engine w cap start)
  unfolding new Pipeline.new
  new-fresh_engine w capacity start some_worker power =
      rw (not_zero w some_worker, new-defined capacity power) refl

  pub new-Refines :
      (w cap start : ℕ)
      → 0 < w
      → 2 ≤ cap
      → cap < 2 ^ 63
      → is_power_of_two cap ≡ true
      → (engine : Engine fl.F) × (new ac fx fl w cap start ≡ some engine)
        × Refines ac fx fl 0 cap engine (empty_plan w)
        × (length engine.state.queues ≡ w)
  new-Refines w cap start some_worker several small power =
      let made = new-defined cap power in
      let q = fresh_queue NetworkEvent cap in
      let holds = new-Holds cap q several small made in
      (
        fresh_engine w cap start,
        new-fresh_engine w cap start some_worker power,
        record {
          queues = AllHold-replicate 0 cap w q (holds, omega (arith, enqueue_pos-new cap q made));
          workers =
              All-replicate (Ready fx fl) w (new_worker ac fx fl start)
                (new_worker-Ready ac fx fl start);
          one_each = length-replicate w (new_worker ac fx fl start) ∙ sym (length-replicate w q);
          handlers = length-replicate w [] ∙ sym (length-replicate w q);
          processed = omega (arith, total-replicate w);
          dropped = refl;
        },
        length-replicate w q,
      )

  pub run-append :
      (before after : List Action) (engine : Engine fl.F)
      → run ac fx fl (before ++ after) engine
        ≡ (run ac fx fl before engine >>= λ e. run ac fx fl after e)
  unfolding run
  run-append [] after engine = refl
  run-append (action ∷ before) after engine = elim (Option-cases (step ac fx fl action engine)) [
    | inl stuck ↦ rw stuck refl
    | inr (next, stepped) ↦ rw stepped (run-append before after next)
  ]

  -- What a run comes to, the plan after it, and the events that the plan has accepted.
  pub run-Refines :
      (actions : List Action) (k cap w : ℕ) (engine : Engine fl.F) (p : Plan)
      (arrived : List NetworkEvent)
      → Refines ac fx fl k cap engine p
      → length engine.state.queues ≡ w
      → Accepts w arrived p
      → 0 < w
      → k + length actions + cap < 2 ^ 63
      → All ActionSettles actions
      → (engine' : Engine fl.F) × (run ac fx fl actions engine ≡ some engine')
        × Refines ac fx fl (k + length actions) cap engine' (plan_run cap actions p)
        × Accepts w (arrived ++ arrivals actions) (plan_run cap actions p)
  unfolding run plan_run
  run-Refines [] k cap w engine p arrived r same a some_worker small settles = (
    engine,
    refl,
    subst (λ n. Refines ac fx fl n cap engine p) (omega arith) r,
    subst (λ l. Accepts w l p) (sym (append-nil arrived)) a,
  )
  run-Refines (action ∷ actions) k cap w engine p arrived r same a some_worker small settles =
      let (next, stepped, r', same', effect) =
        step-Next ac fx fl r (omega arith) (omega arith) action settles.0 in
      let fits = AllHold-fits k cap engine.state.queues p.queued r.queues in
      let a' = plan_step-Accepts a some_worker cap action fits in
      let (last, ran, r'', a'') =
        run-Refines actions (k + 1) cap w next (plan_step cap action p)
          (arrived ++ arrivals (action ∷ [])) r' (same' ∙ same) a' some_worker (omega arith)
          settles.1 in
      (
        last,
        rw (stepped, ran) refl,
        subst (λ n. Refines ac fx fl n cap last (plan_run cap actions (plan_step cap action p)))
            (omega arith) r'',
        subst (λ l. Accepts w l (plan_run cap actions (plan_step cap action p)))
            (append_assoc arrived (arrivals (action ∷ [])) (arrivals actions)
              ∙ ap (λ l. arrived ++ l) (sym (arrivals-first action actions)))
            a'',
      )

  module _ (w cap start : ℕ) (actions : List Action) (some_worker : 0 < w) (several : 2 ≤ cap)
      (small : length actions + cap < 2 ^ 63) (power : is_power_of_two cap ≡ true)
      (settles : All ActionSettles actions) where
    abbrev whole : Option (Engine fl.F)
    whole = new ac fx fl w cap start >>= λ engine. run ac fx fl actions engine

    abbrev final_plan : Plan
    final_plan = plan_run cap actions (empty_plan w)

    pub new-run :
        (engine : Engine fl.F) × (whole ≡ some engine)
        × Refines ac fx fl (length actions) cap engine final_plan
        × Accepts w (arrivals actions) final_plan
    new-run =
        let (first, made, r, same) =
          new-Refines w cap start some_worker several (omega arith) power in
        let (last, ran, r', a) =
          run-Refines actions 0 cap w first (empty_plan w) [] r same (empty_plan-Accepts w)
            some_worker (omega arith) settles in
        (last, rw made ran, subst (λ n. Refines ac fx fl n cap last final_plan) (omega arith) r', a)

    -- From a start with at least one worker and queues of a power of two of at least two slots, if
    -- the exchanges of each call of a queue settle and the steps and the slots of a queue are fewer
    -- than 2^63 together: whatever the producer and the workers do, in whatever order and at
    -- whatever readings of the clock, nothing panics, and the state is what the plan says. Each
    -- worker's queue holds what the plan has queued for it, each worker is ready for the next
    -- event, and the counters of processed and of dropped events are those of the plan modulo 2^64.
    pub new-run_plan :
        (engine : Engine fl.F) × ((new ac fx fl w cap start >>= λ e. run ac fx fl actions e)
          ≡ some engine)
        × Refines ac fx fl (length actions) cap engine (plan_run cap actions (empty_plan w))
    new-run_plan = let (engine, ran, r, a) = new-run in (engine, ran, r)

    -- From a start with at least one worker and queues of a power of two of at least two slots, if
    -- the exchanges of each call of a queue settle and the steps and the slots of a queue are fewer
    -- than 2^63 together: whatever the producer and the workers do, in whatever order and at
    -- whatever readings of the clock, every worker's queue is first-in first-out for the events of
    -- its shard. The events that the worker has handled by the plan, followed by those that its
    -- queue holds, are the events of its shard among the accepted ones, in the order of their
    -- arrival. No event is lost or duplicated: the accepted events are as many as those that are
    -- counted as processed or are in a queue, and all others are counted as dropped.
    pub new-run_in_order :
        (i : ℕ)
        → i < w
        → (engine : Engine fl.F) × (accepted : List NetworkEvent) × ((new ac fx fl w cap start
              >>= λ e. run ac fx fl actions e)
            ≡ some engine)
          × Sublist accepted (arrivals actions)
          × (engine.state.stats.events_processed + in_flight engine.state.queues ≡ length accepted)
          × (length accepted + engine.state.stats.events_dropped ≡ length (arrivals actions))
          × (q : MpmcQueue NetworkEvent) × (done : List NetworkEvent) × (waiting : List
              NetworkEvent)
          × (get_elem? engine.state.queues i ≡ some q)
          × (get_elem? (plan_run cap actions (empty_plan w)).handled i ≡ some done)
          × Holds cap q waiting
          × (done ++ waiting ≡ filter_by (is_for w i) accepted)
    new-run_in_order i below =
        let (engine, ran, r, a) = new-run in
        let count =
          AllHold-length (length actions) cap engine.state.queues final_plan.queued r.queues in
        let (q, waiting, at_q, at_waiting, holds) =
          AllHold-get_elem? (length actions) cap engine.state.queues final_plan.queued i r.queues
            (omega (arith, count, a.queues)) in
        let (done, at_done) = get_elem?-some final_plan.handled i (omega (arith, a.handlers)) in
        let flight =
          in_flight-total (length actions) cap engine.state.queues final_plan.queued r.queues in
        let most = length-arrivals actions in
        (
          engine,
          a.accepted,
          ran,
          a.among,
          omega (arith, r.processed, flight, a.all, a.others, most),
          omega (arith, r.dropped, a.others, most),
          q,
          done,
          waiting,
          at_q,
          at_done,
          holds.0,
          a.in_order i done waiting at_done at_waiting,
        )
