-- ===== src/Pipeline/Engine/Watch.antt =====
-- The worker of one source in engine/src/pipeline.rs: what its anomaly detector keeps up, and what
-- stands in the alert store.
use telemetry_threat_engine.Base.{
  ℕ, ◌+◌, ◌%◌, ◌^◌, ◌≤◌, ◌<◌, ◌≡◌, ◌≢◌, sym, ap, ◌∙◌, subst, List, [], ◌∷◌, ◌++◌, some, length,
  get_elem?, get_elem?-set_self, get_elem?-set_ne, get_elem?-lt, count, count-append, All,
  All-get_elem?, All-last, some_injective, get_elem?-some, inl, inr, arith,
}
use native.Mathlib.Decide.{ℕ_discrete}
use telemetry_threat_engine.Models.{NetworkEvent, Alert}
use telemetry_threat_engine.Detection.Hasher.{FxHasher}
use telemetry_threat_engine.Detection.Float.{Float64}
use telemetry_threat_engine.Detection.Signature.{AhoCorasick}
use telemetry_threat_engine.Detection.Anomaly.{WindowedAnomalyDetector, observe}
use telemetry_threat_engine.Detection.Anomaly.Flood.{is_flood_of}
use telemetry_threat_engine.Pipeline.{AppState, alert_history_cap, Worker}
use telemetry_threat_engine.Pipeline.Store.{newest, record_alerts-newest_from}
use telemetry_threat_engine.Pipeline.Handled.{counted, Handled, handle-Handled}
use telemetry_threat_engine.Pipeline.Engine.{Engine, Action, arrive, wake}
use telemetry_threat_engine.Pipeline.Engine.Plan.{Plan, add_to, length-add_to}
use telemetry_threat_engine.Pipeline.Engine.Order.{get_elem?-add_to_self, get_elem?-add_to_ne}
use telemetry_threat_engine.Pipeline.Engine.Refines.{Quiet, Busy, Effect}
use telemetry_threat_engine.Pipeline.Engine.Everywhere.{AllIn}

-- A u32 source address.
abbrev pub HasU32 : NetworkEvent → Type 0
HasU32 e = e.src_ip < 2 ^ 32

-- What a worker's readings of the clock satisfy.
abbrev pub ClockReads : (ℕ → ℕ → Type 0) → Action → Type 0
ClockReads C (arrive rounds event) = Unit
ClockReads C (wake i rounds now restart cep_now) = C now restart

-- The store keeps the newest of all alerts so far.
abbrev pub Keeps : List Alert → AppState → Type 0
Keeps seen state =
    (state.alerts ≡ newest alert_history_cap seen)
    × (state.stats.alerts_fired ≡ length seen % 2 ^ 64)

-- What a detector keeps up about the flood alerts of one source, as it sees events at readings of the
-- clock: `done` are the events it has seen, and `seen` are the alerts so far, of which some may come
-- from elsewhere.
pub record Guard (fx : FxHasher) (fl : Float64) (s : ℕ) : Type 1 where
  pub Reads : ℕ → ℕ → Type 0
  pub Upholds : WindowedAnomalyDetector fl.F → List NetworkEvent → List Alert → Type 0
  pub next :
      (now restart : ℕ) (d : WindowedAnomalyDetector fl.F) (event : NetworkEvent)
      (done : List NetworkEvent) (seen seen' : List Alert)
      (r : List Alert × WindowedAnomalyDetector fl.F)
      → observe fx fl now restart d event ≡ some r
      → Reads now restart
      → HasU32 event
      → count (is_flood_of s) seen + count (is_flood_of s) r.0 ≤ count (is_flood_of s) seen'
      → Upholds d done seen
      → Upholds r.1 (done ++ event ∷ []) seen'
  pub later :
      (d : WindowedAnomalyDetector fl.F) (done : List NetworkEvent) (seen seen' : List Alert)
      → count (is_flood_of s) seen ≤ count (is_flood_of s) seen'
      → Upholds d done seen
      → Upholds d done seen'

module _ (ac : AhoCorasick) (fx : FxHasher) (fl : Float64) where
  -- The alerts of one call of `handle` go to the store in their order.
  pub Handled-Keeps :
      (now restart : ℕ) (event : NetworkEvent) (worker : Worker fl.F) (state : AppState)
      (r : Worker fl.F × AppState) (seen : List Alert)
      (h : Handled ac fx fl now restart event worker state r)
      → Keeps seen state
      → Keeps (((seen ++ h.by_signature) ++ h.by_count.0) ++ h.by_sequence) r.1
  Handled-Keeps now restart event worker state r seen h (kept, fired) =
      let (k1, f1) = record_alerts-newest_from (counted state) seen h.by_signature kept fired in
      let (k2, f2) = record_alerts-newest_from _ (seen ++ h.by_signature) h.by_count.0 k1 f1 in
      subst (Keeps (((seen ++ h.by_signature) ++ h.by_count.0) ++ h.by_sequence)) (sym h.recorded)
        (record_alerts-newest_from _ ((seen ++ h.by_signature) ++ h.by_count.0) h.by_sequence k2 f2)

  module _ (s : ℕ) (g : Guard fx fl s) where
    -- The detector of the worker `i` keeps up the guard, and the store keeps the newest alerts.
    pub record Watching (i : ℕ) (engine : Engine fl.F) (p : Plan) : Type 0 where
      pub worker : Worker fl.F
      pub done : List NetworkEvent
      pub seen : List Alert
      pub own : get_elem? engine.workers i ≡ some worker
      pub served : get_elem? p.handled i ≡ some done
      pub upheld : g.Upholds worker.anomalies done seen
      pub keeps : Keeps seen engine.state

    Quiet-Watching :
        (i : ℕ) (engine engine' : Engine fl.F) (p p' : Plan)
        → Quiet ac fx fl engine engine' p p'
        → Watching i engine p
        → Watching i engine' p'
    Quiet-Watching i engine engine' p p' q w = record {
      worker = w.worker;
      done = w.done;
      seen = w.seen;
      own = ap (λ l. get_elem? l i) q.workers ∙ w.own;
      served = ap (λ l. get_elem? l i) q.handled ∙ w.served;
      upheld = w.upheld;
      keeps = (q.alerts ∙ w.keeps.0, q.fired ∙ w.keeps.1);
    }

    served_next :
        (i : ℕ) (p p' : Plan) (event : NetworkEvent) (done : List NetworkEvent)
        → p'.handled ≡ add_to p.handled i event
        → get_elem? p.handled i ≡ some done
        → get_elem? p'.handled i ≡ some (done ++ event ∷ [])
    served_next i p p' event done handled at =
        let (later, at_later) =
          get_elem?-some (add_to p.handled i event) i
            (omega (arith, get_elem?-lt p.handled i done at, length-add_to p.handled i event)) in
        ap (λ l. get_elem? l i) handled
        ∙ at_later
        ∙ ap some (get_elem?-add_to_self p.handled i event done later at at_later)

    more_alerts :
        (seen xs ys zs : List Alert)
        → count (is_flood_of s) (((seen ++ xs) ++ ys) ++ zs)
          ≡ count (is_flood_of s) seen
            + count (is_flood_of s) xs
            + count (is_flood_of s) ys
            + count (is_flood_of s) zs
    more_alerts seen xs ys zs = omega (
      arith,
      count-append (is_flood_of s) ((seen ++ xs) ++ ys) zs,
      count-append (is_flood_of s) (seen ++ xs) ys,
      count-append (is_flood_of s) seen xs,
    )

    -- The worker itself handles an event.
    own-Watching :
        (i now restart cep_now : ℕ) (engine engine' : Engine fl.F) (p p' : Plan)
        (b : Busy ac fx fl i now restart cep_now engine engine' p p')
        → g.Reads now restart
        → HasU32 b.event
        → Watching i engine p
        → Watching i engine' p'
    own-Watching i now restart cep_now engine engine' p p' b reads small w =
        let h =
          handle-Handled ac fx fl now restart cep_now b.event b.worker b.taken b.answer
            b.answered in
        let same : w.worker ≡ b.worker = some_injective w.worker b.worker (sym w.own ∙ b.own) in
        let seen = ((w.seen ++ h.by_signature) ++ h.by_count.0) ++ h.by_sequence in
        let upheld =
          g.next now restart b.worker.anomalies b.event w.done w.seen seen h.by_count h.observed
            reads small
            (omega (arith, more_alerts w.seen h.by_signature h.by_count.0 h.by_sequence))
            (subst (λ (x : Worker fl.F). g.Upholds x.anomalies w.done w.seen) same w.upheld) in
        record {
          worker = b.answer.0;
          done = w.done ++ b.event ∷ [];
          seen = seen;
          own =
              ap (λ l. get_elem? l i) b.workers
              ∙ get_elem?-set_self engine.workers i b.answer.0
                  (get_elem?-lt engine.workers i b.worker b.own);
          served = served_next i p p' b.event w.done b.handled w.served;
          upheld = subst (λ d. g.Upholds d (w.done ++ b.event ∷ []) seen) (sym h.anomalies) upheld;
          keeps = subst (Keeps seen) (sym b.state) (
              Handled-Keeps now restart b.event b.worker b.taken b.answer w.seen h
                (b.alerts ∙ w.keeps.0, b.fired ∙ w.keeps.1));
        }

    -- Another worker handles an event.
    other-Watching :
        (i j now restart cep_now : ℕ) (engine engine' : Engine fl.F) (p p' : Plan)
        (b : Busy ac fx fl j now restart cep_now engine engine' p p')
        → j ≢ i
        → Watching i engine p
        → Watching i engine' p'
    other-Watching i j now restart cep_now engine engine' p p' b ne w =
        let h =
          handle-Handled ac fx fl now restart cep_now b.event b.worker b.taken b.answer
            b.answered in
        record {
          worker = w.worker;
          done = w.done;
          seen = ((w.seen ++ h.by_signature) ++ h.by_count.0) ++ h.by_sequence;
          own =
              ap (λ l. get_elem? l i) b.workers
              ∙ get_elem?-set_ne engine.workers j i b.answer.0 ne
              ∙ w.own;
          served =
              ap (λ l. get_elem? l i) b.handled
              ∙ get_elem?-add_to_ne p.handled j i b.event ne
              ∙ w.served;
          upheld =
              g.later w.worker.anomalies w.done w.seen
                (((w.seen ++ h.by_signature) ++ h.by_count.0) ++ h.by_sequence)
                (omega (arith, more_alerts w.seen h.by_signature h.by_count.0 h.by_sequence))
                w.upheld;
          keeps =
              subst (Keeps (((w.seen ++ h.by_signature) ++ h.by_count.0) ++ h.by_sequence))
                (sym b.state)
                (Handled-Keeps now restart b.event b.worker b.taken b.answer w.seen h
                  (b.alerts ∙ w.keeps.0, b.fired ∙ w.keeps.1));
        }

    pub step-Watching :
        (i : ℕ) (action : Action) (engine engine' : Engine fl.F) (p p' : Plan)
        → ClockReads g.Reads action
        → AllIn HasU32 p'.handled
        → Effect ac fx fl action engine engine' p p'
        → Watching i engine p
        → Watching i engine' p'
    step-Watching i (arrive rounds event) engine engine' p p' reads small q w =
        Quiet-Watching i engine engine' p p' q w
    step-Watching i (wake j rounds now restart cep_now) engine engine' p p' reads small (inl q) w =
        Quiet-Watching i engine engine' p p' q w
    step-Watching i (wake j rounds now restart cep_now) engine engine' p p' reads small (inr b) w =
        elim (ℕ_discrete j i) [
          | yes same ↦
              let b' =
                subst (λ k. Busy ac fx fl k now restart cep_now engine engine' p p') same b in
              let served = served_next i p p' b'.event w.done b'.handled w.served in
              own-Watching i now restart cep_now engine engine' p p' b' reads
                (All-last HasU32 w.done b'.event
                  (All-get_elem? (All HasU32) p'.handled i (w.done ++ b'.event ∷ []) small served))
                w
          | no other ↦ other-Watching i j now restart cep_now engine engine' p p' b other w
        ]
