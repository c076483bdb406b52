-- ===== src/Main/Came.antt =====
-- How the running program of engine/src/main.rs comes to a state: a schedule of the pipeline in
-- engine/src/pipeline.rs, and the batches of the simulator.
use telemetry_threat_engine.Base.{
  ℕ, suc, ◌+◌, ◌^◌, ◌≤◌, ◌<◌, ◌≡◌, refl, sym, ap, ◌∙◌, subst, Bool, List, [], ◌∷◌, ◌++◌, some,
  Option, length, length-append, append-nil, append_assoc, All, All-append, ◌>>=◌, >>=-eq-some,
  Option-cases, inl, inr, arith,
}
use telemetry_threat_engine.Models.{NetworkEvent}
use telemetry_threat_engine.Queue.Push.{Settles}
use telemetry_threat_engine.Detection.Hasher.{FxHasher}
use telemetry_threat_engine.Detection.Float.{Float64}
use telemetry_threat_engine.Detection.Signature.{AhoCorasick}
use telemetry_threat_engine.Ingestion
use telemetry_threat_engine.Ingestion.{Environment, Simulator, next_batch}
use telemetry_threat_engine.Ingestion.Sizes.{next_batch-Valid}
use telemetry_threat_engine.Pipeline.Engine as Live
use telemetry_threat_engine.Pipeline.Engine.{Engine, Action, arrive, wake, run, step}
use telemetry_threat_engine.Pipeline.Engine.Plan.{arrivals}
use telemetry_threat_engine.Pipeline.Engine.Refines.{ActionSettles}
use telemetry_threat_engine.Pipeline.Engine.Runs.{new-run, run-append}
use telemetry_threat_engine.Main.{worker_count, queue_capacity, capacity-power}
use telemetry_threat_engine.Main.Program.{
  Program, Turn, produce, consume, produce_next, turn, turns, launch, batches,
}

-- Each turn's call of a queue meets an exchange that does not fail spuriously.
abbrev pub TurnSettles : Turn → Type 0
TurnSettles (produce rounds) = Settles rounds
TurnSettles (consume worker rounds now restart cep_now) = Settles rounds

arrivals-append :
    (before after : List Action) → arrivals (before ++ after) ≡ arrivals before ++ arrivals after
arrivals-append [] after = refl
arrivals-append (arrive rounds event ∷ before) after =
    ap (λ l. event ∷ l) (arrivals-append before after)
arrivals-append (wake i rounds now restart cep_now ∷ before) after = arrivals-append before after

module _ (env : Environment) (after_epoch : (i : ℕ) → (ms : ℕ) × (env.clock i ≡ some ms))
    (ac : AhoCorasick) (fx : FxHasher) (fl : Float64) (start : ℕ) where
  abbrev pub schedule : List Action → Option (Engine fl.F)
  schedule actions =
      Live.new ac fx fl worker_count queue_capacity start >>= λ e. run ac fx fl actions e

  -- How the program has come here: the batches so far are what the producer has routed, by a schedule
  -- of the pipeline, and what it has still to route.
  pub record Came (k : ℕ) (p : Program env.Rng fl.F) : Type 0 where
    pub actions : List Action
    pub count : ℕ
    pub events : List NetworkEvent
    pub made : batches env count ≡ some (events, p.simulator)
    pub routed : arrivals actions ++ p.pending ≡ events
    pub ran : schedule actions ≡ some p.engine
    pub short : length actions ≤ k
    pub few : count ≤ k
    pub settles : All ActionSettles actions

  run-single :
      (action : Action) (engine : Engine fl.F)
      → run ac fx fl (action ∷ []) engine ≡ step ac fx fl action engine
  unfolding run
  run-single action engine = elim (Option-cases (step ac fx fl action engine)) [
    | inl stuck ↦ rw stuck refl
    | inr (next, stepped) ↦ rw stepped refl
  ]

  schedule-snoc :
      (actions : List Action) (action : Action) (engine : Engine fl.F)
      → schedule actions ≡ some engine
      → schedule (actions ++ action ∷ []) ≡ step ac fx fl action engine
  schedule-snoc actions action engine ran =
      let (first, made, on) =
        >>=-eq-some (Live.new ac fx fl worker_count queue_capacity start)
          (λ e. run ac fx fl actions e) engine ran in
      ap (λ o. o >>= λ e. run ac fx fl (actions ++ action ∷ []) e) made
      ∙ run-append ac fx fl actions (action ∷ []) first
      ∙ ap (λ o. o >>= λ e. run ac fx fl (action ∷ []) e) on
      ∙ run-single action engine

  -- One more step of the pipeline.
  next_step :
      (actions : List Action) (action : Action) (engine : Engine fl.F)
      → length actions + 1 < 2 ^ 62
      → All ActionSettles actions
      → ActionSettles action
      → schedule actions ≡ some engine
      → (engine' : Engine fl.F) × (step ac fx fl action engine ≡ some engine')
        × (schedule (actions ++ action ∷ []) ≡ some engine')
  next_step actions action engine short settles settle ran =
      let (last, whole, _, _) =
        new-run ac fx fl worker_count queue_capacity start (actions ++ action ∷ []) (omega arith)
          (omega arith) (omega (arith, length-append actions (action ∷ []))) capacity-power
          (All-append ActionSettles actions (action ∷ []) settles (settle, tt)) in
      (last, sym (schedule-snoc actions action engine ran) ∙ whole, whole)

  step-Came :
      (k : ℕ) (p : Program env.Rng fl.F) (action : Action) (pending : List NetworkEvent)
      (c : Came k p)
      → k + 1 < 2 ^ 62
      → ActionSettles action
      → arrivals (action ∷ []) ++ pending ≡ p.pending
      → (engine : Engine fl.F) × (step ac fx fl action p.engine ≡ some engine)
        × Came (k + 1) (record p { pending = pending; engine = engine })
  step-Came k p action pending c below settle left =
      let (engine, stepped, ran) =
        next_step c.actions action p.engine (omega (arith, c.short)) c.settles settle c.ran in
      (
        engine,
        stepped,
        record {
          actions = c.actions ++ action ∷ [];
          count = c.count;
          events = c.events;
          made = c.made;
          routed =
              ap (λ l. l ++ pending) (arrivals-append c.actions (action ∷ []))
              ∙ append_assoc (arrivals c.actions) (arrivals (action ∷ [])) pending
              ∙ ap (λ l. arrivals c.actions ++ l) left
              ∙ c.routed;
          ran = ran;
          short = omega (arith, c.short, length-append c.actions (action ∷ []));
          few = omega (arith, c.few);
          settles = All-append ActionSettles c.actions (action ∷ []) c.settles (settle, tt);
        },
      )

  produce-Came :
      (k : ℕ) (rounds : List Bool) (pending : List NetworkEvent) (p : Program env.Rng fl.F)
      (c : Came k p)
      → k + 1 < 2 ^ 62
      → Settles rounds
      → p.pending ≡ pending
      → (p' : Program env.Rng fl.F) × (produce_next env ac fx fl rounds pending p ≡ some p')
        × Came (k + 1) p'
  unfolding produce_next batches
  produce-Came k rounds [] p c below settle idle =
      let (events, sim, made, _, _, _) = next_batch-Valid env after_epoch p.simulator in
      (
        record { simulator = sim; pending = events; engine = p.engine },
        rw made refl,
        record {
          actions = c.actions;
          count = suc c.count;
          events = c.events ++ events;
          made = rw (batches, c.made, made) refl;
          routed =
              ap (λ l. l ++ events)
                (sym (append-nil (arrivals c.actions))
                  ∙ ap (λ l. arrivals c.actions ++ l) (sym idle)
                  ∙ c.routed);
          ran = c.ran;
          short = omega (arith, c.short);
          few = omega (arith, c.few);
          settles = c.settles;
        },
      )
  produce-Came k rounds (event ∷ events) p c below settle some_left =
      let (engine, stepped, came) =
        step-Came k p (arrive rounds event) events c below settle (sym some_left) in
      (record p { pending = events; engine = engine }, rw stepped refl, came)

  turn-Came :
      (k : ℕ) (t : Turn) (p : Program env.Rng fl.F) (c : Came k p)
      → k + 1 < 2 ^ 62
      → TurnSettles t
      → (p' : Program env.Rng fl.F) × (turn env ac fx fl t p ≡ some p') × Came (k + 1) p'
  unfolding turn
  turn-Came k (produce rounds) p c below settle =
      produce-Came k rounds p.pending p c below settle refl
  turn-Came k (consume worker rounds now restart cep_now) p c below settle =
      let (engine, stepped, came) =
        step-Came k p (wake worker rounds now restart cep_now) p.pending c below settle refl in
      (record p { engine = engine }, rw stepped refl, came)

  pub turns-Came :
      (k : ℕ) (ts : List Turn) (p : Program env.Rng fl.F)
      → Came k p
      → k + length ts < 2 ^ 62
      → All TurnSettles ts
      → (p' : Program env.Rng fl.F) × (turns env ac fx fl ts p ≡ some p') × Came (k + length ts) p'
  unfolding turns
  turns-Came k [] p c below settles = (p, refl, subst (λ n. Came n p) (omega arith) c)
  turns-Came k (t ∷ ts) p c below settles =
      let (next, turned, c') = turn-Came k t p c (omega arith) settles.0 in
      let (last, ran, c'') = turns-Came (k + 1) ts next c' (omega arith) settles.1 in
      (last, rw (turned, ran) refl, subst (λ n. Came n last) (omega arith) c'')

  pub launch-Came : (p : Program env.Rng fl.F) × (launch env ac fx fl start ≡ some p) × Came 0 p
  unfolding launch batches run
  launch-Came =
      let (engine, made, _, _) =
        new-run ac fx fl worker_count queue_capacity start [] (omega arith) (omega arith)
          (omega arith) capacity-power tt in
      let (first, fresh, same) =
        >>=-eq-some (Live.new ac fx fl worker_count queue_capacity start) (λ e. run ac fx fl [] e)
          engine made in
      (
        record { simulator = Ingestion.new env; pending = []; engine = first },
        rw fresh refl,
        record {
          actions = [];
          count = 0;
          events = [];
          made = refl;
          routed = refl;
          ran = rw fresh refl;
          short = omega arith;
          few = omega arith;
          settles = tt;
        },
      )
