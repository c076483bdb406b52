-- ===== src/Pipeline/Engine/Wake.antt =====
-- A step of a worker of engine/src/pipeline.rs beside that of the plan.
use telemetry_threat_engine.Base.{
  ℕ, ◌+◌, ◌^◌, ◌≤◌, ◌<◌, ◌≡◌, refl, sym, ap, ◌∙◌, subst, Bool, List, [], ◌∷◌, some, length,
  get_elem?, get_elem?-lt, get_elem?-some, get_elem?-past, set, length-set, All-get_elem?, All-set,
  arith, inl, inr,
}
use telemetry_threat_engine.Models.{NetworkEvent}
use telemetry_threat_engine.Queue.{MpmcQueue}
use telemetry_threat_engine.Queue.Push.{Settles}
use telemetry_threat_engine.Queue.Pop.{pop-Popped}
use telemetry_threat_engine.Detection.Hasher.{FxHasher}
use telemetry_threat_engine.Detection.Float.{Float64}
use telemetry_threat_engine.Detection.Signature.{AhoCorasick}
use telemetry_threat_engine.Pipeline.{AppState}
use telemetry_threat_engine.Pipeline.Routing.{set-same}
use telemetry_threat_engine.Pipeline.Handling.{Ready, handle-Ready}
use telemetry_threat_engine.Pipeline.Engine.{Engine, wake, work, step}
use telemetry_threat_engine.Pipeline.Engine.Plan.{
  Plan, plan_wake, plan_wake-some, plan_step, total-add_to, length-add_to,
}
use telemetry_threat_engine.Pipeline.Engine.Contents.{
  HoldsBy, AllHold, AllHold-length, AllHold-set, AllHold-next,
}
use telemetry_threat_engine.Pipeline.Engine.Refines.{Refines, Next}

module _ (ac : AhoCorasick) (fx : FxHasher) (fl : Float64) where
  module _ {k cap : ℕ} {engine : Engine fl.F} {p : Plan} (r : Refines ac fx fl k cap engine p)
      (some_worker : 0 < length engine.state.queues) (small : k + cap + 1 < 2 ^ 63) where
    same_length : length engine.state.queues ≡ length p.queued
    same_length = AllHold-length k cap engine.state.queues p.queued r.queues

    -- A worker finds its queue empty.
    pub wake_idle :
        (i : ℕ) (rounds : List Bool) (now restart cep_now : ℕ) (q : MpmcQueue NetworkEvent)
        → Settles rounds
        → get_elem? engine.state.queues i ≡ some q
        → get_elem? p.queued i ≡ some []
        → HoldsBy k cap q []
        → Next ac fx fl k cap engine p (wake i rounds now restart cep_now)
    unfolding step plan_step work
    wake_idle i rounds now restart cep_now q settles at_q at_xs (holds, pushes) = (
      engine,
      rw
          (
            step,
            at_q,
            pop-Popped [] holds rounds settles,
            work,
            set-same engine.state.queues i q at_q,
          )
          refl,
      rw (plan_wake-some cap i p [] at_xs) (record {
        queues = AllHold-next k cap engine.state.queues p.queued r.queues;
        workers = r.workers;
        one_each = r.one_each;
        handlers = r.handlers;
        processed = r.processed;
        dropped = r.dropped;
      }),
      refl,
      inl (record {
        workers = refl;
        alerts = refl;
        fired = refl;
        handled = ap (λ (x : Plan). x.handled) (plan_wake-some cap i p [] at_xs);
      }),
    )

    -- A worker takes the event at the head of its queue and handles it.
    pub wake_busy :
        (i : ℕ) (rounds : List Bool) (now restart cep_now : ℕ) (q : MpmcQueue NetworkEvent)
        (event : NetworkEvent) (xs : List NetworkEvent)
        → Settles rounds
        → get_elem? engine.state.queues i ≡ some q
        → get_elem? p.queued i ≡ some (event ∷ xs)
        → HoldsBy k cap q (event ∷ xs)
        → Next ac fx fl k cap engine p (wake i rounds now restart cep_now)
    unfolding step plan_step work
    wake_busy i rounds now restart cep_now q event xs settles at_q at_xs (holds, pushes) =
        let (q', popped, holds', next) = pop-Popped (event ∷ xs) holds rounds settles in
        let present = get_elem?-lt engine.state.queues i q at_q in
        let (w, at_w) = get_elem?-some engine.workers i (omega (arith, r.one_each)) in
        let state : AppState = record engine.state { queues = set engine.state.queues i q' } in
        let (w', state', handled, ready', processed', dropped', queues') =
          handle-Ready ac fx fl now restart cep_now event w state
            (All-get_elem? (Ready fx fl) engine.workers i w r.workers at_w) in
        let same : length state'.queues ≡ length engine.state.queues =
          ap length queues' ∙ length-set engine.state.queues i q' in
        (
          record { state = state'; workers = set engine.workers i w' },
          rw (step, at_q, popped, work, at_w, handled) refl,
          rw (plan_wake-some cap i p (event ∷ xs) at_xs) (record {
            queues =
                subst (λ qs. AllHold (k + 1) cap qs (set p.queued i xs)) (sym queues')
                  (AllHold-set (k + 1) cap engine.state.queues p.queued i q' xs
                    (AllHold-next k cap engine.state.queues p.queued r.queues)
                    (holds', omega (arith, next)));
            workers = All-set (Ready fx fl) engine.workers i w' r.workers ready';
            one_each = length-set engine.workers i w' ∙ r.one_each ∙ sym same;
            handlers = length-add_to p.handled i event ∙ r.handlers ∙ sym same;
            processed = omega (
              arith,
              processed',
              r.processed,
              total-add_to p.handled i event (omega (arith, r.handlers)),
            );
            dropped = dropped' ∙ r.dropped;
          }),
          same,
          inr (record {
            event = event;
            worker = w;
            taken = state;
            answer = (w', state');
            own = at_w;
            alerts = refl;
            fired = refl;
            answered = handled;
            state = refl;
            workers = refl;
            handled = ap (λ (x : Plan). x.handled) (plan_wake-some cap i p (event ∷ xs) at_xs);
          }),
        )

    pub wake_holding :
        (i : ℕ) (rounds : List Bool) (now restart cep_now : ℕ) (q : MpmcQueue NetworkEvent)
        (xs : List NetworkEvent)
        → Settles rounds
        → get_elem? engine.state.queues i ≡ some q
        → get_elem? p.queued i ≡ some xs
        → HoldsBy k cap q xs
        → Next ac fx fl k cap engine p (wake i rounds now restart cep_now)
    wake_holding i rounds now restart cep_now q [] settles at_q at_xs h =
        wake_idle i rounds now restart cep_now q settles at_q at_xs h
    wake_holding i rounds now restart cep_now q (event ∷ xs) settles at_q at_xs h =
        wake_busy i rounds now restart cep_now q event xs settles at_q at_xs h

    -- A worker that is not there.
    pub wake_nobody :
        (i : ℕ) (rounds : List Bool) (now restart cep_now : ℕ)
        → length engine.state.queues ≤ i
        → Next ac fx fl k cap engine p (wake i rounds now restart cep_now)
    unfolding step plan_step
    wake_nobody i rounds now restart cep_now past = (
      engine,
      rw (step, get_elem?-past engine.state.queues i past) refl,
      rw (plan_wake, get_elem?-past p.queued i (omega (arith, same_length)))
          (record {
            queues = AllHold-next k cap engine.state.queues p.queued r.queues;
            workers = r.workers;
            one_each = r.one_each;
            handlers = r.handlers;
            processed = r.processed;
            dropped = r.dropped;
          }),
      refl,
      inl (record {
        workers = refl;
        alerts = refl;
        fired = refl;
        handled = rw (plan_wake, get_elem?-past p.queued i (omega (arith, same_length))) refl;
      }),
    )
