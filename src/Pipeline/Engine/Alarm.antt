-- ===== src/Pipeline/Engine/Alarm.antt =====
-- The worker of one source in engine/src/pipeline.rs over whole runs: what its anomaly detector keeps
-- up from the start on, and in the last part of a run.
use telemetry_threat_engine.Base.{
  ℕ, ◌+◌, ◌*◌, ◌^◌, ◌≤◌, ◌<◌, ◌≡◌, refl, sym, ap, ◌∙◌, subst, true, List, [], ◌∷◌, some, length,
  get_elem?, get_elem?-replicate, All, All-replicate, ◌>>=◌, some_injective, arith,
}
use telemetry_threat_engine.Models.{NetworkEvent}
use telemetry_threat_engine.Queue.{is_power_of_two}
use telemetry_threat_engine.Detection.Hasher.{FxHasher}
use telemetry_threat_engine.Detection.Float.{Float64}
use telemetry_threat_engine.Detection.Signature.{AhoCorasick}
use telemetry_threat_engine.Detection.Anomaly
use telemetry_threat_engine.Detection.Anomaly.Window.{new-InWindow}
use telemetry_threat_engine.Detection.Anomaly.Flood.Rolls.{Steady}
use telemetry_threat_engine.Pipeline.{new_worker}
use telemetry_threat_engine.Pipeline.Engine.{Engine, Action, arrive, wake, run, new}
use telemetry_threat_engine.Pipeline.Engine.Plan.{Plan, plan_step, plan_run, empty_plan, arrivals}
use telemetry_threat_engine.Pipeline.Engine.Refines.{ActionSettles, Refines}
use telemetry_threat_engine.Pipeline.Engine.Invariant.{Invariant, Stands, run-Stands}
use telemetry_threat_engine.Pipeline.Engine.Everywhere.{Everywhere, plan_step-Everywhere}
use telemetry_threat_engine.Pipeline.Engine.Watch.{
  HasU32, Guard, ClockReads, Watching, step-Watching,
}
use telemetry_threat_engine.Pipeline.Engine.Guards.{steady_guard, burst_guard, Within, begin-Bursts}
use telemetry_threat_engine.Pipeline.Engine.Runs.{new-Refines, fresh_engine, new-fresh_engine}

-- A worker that wakes up reads its clock as the guard wants, and an event has a u32 source.
abbrev pub FineFor : (ℕ → ℕ → Type 0) → Action → Type 0
FineFor C action = ClockReads C action × All HasU32 (arrivals (action ∷ []))

all-FineFor :
    (C : ℕ → ℕ → Type 0) (actions : List Action)
    → All (ClockReads C) actions
    → All HasU32 (arrivals actions)
    → All (FineFor C) actions
all-FineFor C [] reads small = tt
all-FineFor C (arrive rounds event ∷ actions) reads small =
    ((reads.0, (small.0, tt)), all-FineFor C actions reads.1 small.1)
all-FineFor C (wake i rounds now restart cep_now ∷ actions) reads small =
    ((reads.0, tt), all-FineFor C actions reads.1 small)

module _ (ac : AhoCorasick) (fx : FxHasher) (fl : Float64) (s : ℕ) where
  -- The worker `i` keeps up a guard.
  abbrev pub Watched : Guard fx fl s → ℕ → Engine fl.F → Plan → Type 0
  Watched g i engine p = Everywhere HasU32 p × Watching ac fx fl s g i engine p

  abbrev watched_invariant : (g : Guard fx fl s) → ℕ → Invariant ac fx fl (FineFor g.Reads)
  watched_invariant g i = record {
    Inv = Watched g i;
    kept = λ k cap action engine engine' p fine r effect (small, watching).
        let small' = plan_step-Everywhere HasU32 cap action p fine.1 small in
        (
          small',
          step-Watching ac fx fl s g i action engine engine' p (plan_step cap action p) fine.0
              small'.1 effect watching,
        );
  }

  -- A state that a plan describes, with a worker that keeps up a guard.
  abbrev pub Guarded : Guard fx fl s → ℕ → ℕ → ℕ → Engine fl.F → Plan → Type 0
  Guarded g k capacity i engine p = Stands ac fx fl (Watched g i) k capacity engine p

  run-Guarded :
      (g : Guard fx fl s) (actions : List Action) (k cap i : ℕ) (engine : Engine fl.F) (p : Plan)
      → k + length actions + cap < 2 ^ 63
      → All ActionSettles actions
      → All (ClockReads g.Reads) actions
      → All HasU32 (arrivals actions)
      → Guarded g k cap i engine p
      → (last : Engine fl.F) × (run ac fx fl actions engine ≡ some last)
        × Guarded g (k + length actions) cap i last (plan_run cap actions p)
  run-Guarded g actions k capacity i engine p below settles reads small w =
      run-Stands ac fx fl (FineFor g.Reads) (watched_invariant g i) actions k capacity engine p
        below settles (all-FineFor g.Reads actions reads small) w

  module _ (source : s < 2 ^ 32) where
    new_worker-Steady :
        (start : ℕ) → Steady fx fl s source (new_worker ac fx fl start).anomalies [] []
    unfolding new_worker Anomaly.new
    new_worker-Steady start = record {
      valid = new-InWindow fx fl (5 * 10 ^ 9) start;
      due = λ reached. absurd (omega (arith, reached));
      threshold = refl;
      window = refl;
      found = omega arith;
    }

    new-Guarded :
        (w cap start i : ℕ)
        → 0 < w
        → 2 ≤ cap
        → cap < 2 ^ 63
        → is_power_of_two cap ≡ true
        → i < w
        → (engine : Engine fl.F) × (new ac fx fl w cap start ≡ some engine)
          × Guarded (steady_guard fx fl s source) 0 cap i engine (empty_plan w)
    new-Guarded w cap start i some_worker several small power below =
        let (engine, made, r, same) =
          new-Refines ac fx fl w cap start some_worker several small power in
        let fresh =
          some_injective (fresh_engine ac fx fl w cap start) engine
            (sym (new-fresh_engine ac fx fl w cap start some_worker power) ∙ made) in
        (
          engine,
          made,
          record {
            refines = r;
            some_worker = omega (arith, same);
            holds = (
              (All-replicate (All HasU32) w [] tt, All-replicate (All HasU32) w [] tt),
              subst (λ x. Watching ac fx fl s (steady_guard fx fl s source) i x (empty_plan w))
                  fresh
                  (record {
                    worker = new_worker ac fx fl start;
                    done = [];
                    seen = [];
                    own = get_elem?-replicate w i (new_worker ac fx fl start) below;
                    served = get_elem?-replicate w i [] below;
                    upheld = ([], new_worker-Steady start);
                    keeps = (refl, refl);
                  }),
            );
          },
        )

    -- From here on the detector is watched for a burst.
    begin-Guarded :
        (T k cap i : ℕ) (engine : Engine fl.F) (p : Plan)
        (w : Guarded (steady_guard fx fl s source) k cap i engine p)
        → Guarded (burst_guard fx fl s source T w.holds.1.done) k cap i engine p
    begin-Guarded T k cap i engine p w = record {
      refines = w.refines;
      some_worker = w.some_worker;
      holds = (
        w.holds.0,
        record {
          worker = w.holds.1.worker;
          done = w.holds.1.done;
          seen = w.holds.1.seen;
          own = w.holds.1.own;
          served = w.holds.1.served;
          upheld =
              begin-Bursts fx fl s source T w.holds.1.done w.holds.1.worker.anomalies w.holds.1.seen
                w.holds.1.upheld;
          keeps = w.holds.1.keeps;
        },
      );
    }

  any_time : (actions : List Action) → All (ClockReads (λ now restart. Unit)) actions
  any_time [] = tt
  any_time (arrive rounds event ∷ actions) = (tt, any_time actions)
  any_time (wake i rounds now restart cep_now ∷ actions) = (tt, any_time actions)

  -- What a worker has seen when the last part of a run begins, and what its detector keeps up to the end.
  pub new-run-Bursts :
      (w cap start T i : ℕ) (before after : List Action) (mid last : Engine fl.F)
      (source : s < 2 ^ 32)
      → 0 < w
      → 2 ≤ cap
      → length before + length after + cap < 2 ^ 63
      → is_power_of_two cap ≡ true
      → i < w
      → All ActionSettles before
      → All ActionSettles after
      → All (ClockReads (Within T)) after
      → All HasU32 (arrivals before)
      → All HasU32 (arrivals after)
      → (new ac fx fl w cap start >>= λ e. run ac fx fl before e) ≡ some mid
      → run ac fx fl after mid ≡ some last
      → (old : List NetworkEvent) × (k : ℕ) × (k' : ℕ) × (get_elem?
            (plan_run cap before (empty_plan w)).handled
            i
          ≡ some old)
        × Refines ac fx fl k cap mid (plan_run cap before (empty_plan w))
        × Guarded
            (burst_guard fx fl s source T old)
            k'
            cap
            i
            last
            (plan_run cap after (plan_run cap before (empty_plan w)))
  new-run-Bursts w cap start T i before after mid last source some_worker several small power below
        settles settles' reads addresses addresses' started ran_on =
      let (first, made, guarded) =
        new-Guarded source w cap start i some_worker several (omega arith) power below in
      let (mid', ran, guarded') =
        run-Guarded (steady_guard fx fl s source) before 0 cap i first (empty_plan w) (omega arith)
          settles (any_time before) addresses guarded in
      let whole = ap (λ o. o >>= λ e. run ac fx fl before e) made ∙ ran in
      let half = plan_run cap before (empty_plan w) in
      let here =
        subst (λ x. Guarded (steady_guard fx fl s source) (0 + length before) cap i x half)
          (some_injective mid' mid (sym whole ∙ started)) guarded' in
      let old = here.holds.1.done in
      let (last', ran', final) =
        run-Guarded (burst_guard fx fl s source T old) after (0 + length before) cap i mid half
          (omega arith) settles' reads addresses'
          (begin-Guarded source T (0 + length before) cap i mid half here) in
      (
        old,
        0 + length before,
        0 + length before + length after,
        here.holds.1.served,
        here.refines,
        subst
            (λ x.
              Guarded (burst_guard fx fl s source T old) (0 + length before + length after) cap i x
                (plan_run cap after half))
            (some_injective last' last (sym ran' ∙ ran_on)) final,
      )
