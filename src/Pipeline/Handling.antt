-- ===== src/Pipeline/Handling.antt =====
-- When a worker of engine/src/pipeline.rs is ready for the next event, and its step at an event.
use telemetry_threat_engine.Base.{
  ℕ, ◌*◌, ◌^◌, ◌-◌, ◌≡◌, refl, sym, ap, ◌∙◌, List, [], ◌∷◌, ◌++◌, some, length, arith, Bool-cases,
  inl, inr, subst,
}
use native.Mathlib.Decide.{dec_lt}
use telemetry_threat_engine.Models.{NetworkEvent, Alert, is_syn, ip_bytes}
use telemetry_threat_engine.Detection.Hasher.{FxHasher}
use telemetry_threat_engine.Detection.Float.{Float64}
use telemetry_threat_engine.Detection.Signature
use telemetry_threat_engine.Detection.Signature.{AhoCorasick, SignatureDetector}
use telemetry_threat_engine.Detection.Signature.Scan.{scan-raised_all}
use telemetry_threat_engine.Detection.Anomaly.{
  WindowedAnomalyDetector, maybe_roll_window, raise_flood, watch_flood, raise_scan, observe,
}
use telemetry_threat_engine.Detection.Anomaly.Window.{
  InWindow, new-InWindow, maybe_roll_window-early, maybe_roll_window-late, raise_flood-InWindow,
  count_syn-InWindow, raise_scan-InWindow, watch_scan-InWindow,
}
use telemetry_threat_engine.Detection.Cep
use telemetry_threat_engine.Detection.Cep.{CepEngine}
use telemetry_threat_engine.Detection.Cep.Sources.{process-total}
use telemetry_threat_engine.Pipeline.{
  AppState, fetch_inc, record_alert, record_alerts, Worker, new_worker, handle,
}

record_alerts-rest :
    (state : AppState) (alerts : List Alert)
    → ((record_alerts state alerts).queues ≡ state.queues)
      × ((record_alerts state alerts).stats.events_processed ≡ state.stats.events_processed)
      × ((record_alerts state alerts).stats.events_dropped ≡ state.stats.events_dropped)
unfolding record_alerts
record_alerts-rest state [] = (refl, refl, refl)
record_alerts-rest state (alert ∷ alerts) = record_alerts-rest (record_alert state alert) alerts

module _ (fx : FxHasher) (fl : Float64) where
  watch_flood-InWindow :
      (d : WindowedAnomalyDetector fl.F) (event : NetworkEvent) (syns : List (List ℕ))
      → InWindow fx d syns
      → (r : List Alert × WindowedAnomalyDetector fl.F) × (syns' : List (List ℕ)) × (watch_flood fx
            fl d event
          ≡ some r)
        × InWindow fx r.1 syns'
  unfolding watch_flood
  watch_flood-InWindow d event syns h = elim (Bool-cases (is_syn event)) [
    | inl syn ↦
        let (sketch, est, e, ge, h') = count_syn-InWindow fx fl d event syns h in
        let counted = record d { syn_counts = sketch } in
        rw syn (
          raise_flood counted event est,
          ip_bytes event.src_ip ∷ syns,
          e,
          raise_flood-InWindow fx fl counted event est (ip_bytes event.src_ip ∷ syns) h',
        )
    | inr other ↦ rw other (([], d), syns, refl, h)
  ]

  rolled-InWindow :
      (now restart : ℕ) (d : WindowedAnomalyDetector fl.F) (syns : List (List ℕ))
      → InWindow fx d syns
      → (syns' : List (List ℕ)) × InWindow fx (maybe_roll_window now restart d) syns'
  rolled-InWindow now restart d syns h = elim (dec_lt (now - d.window_start) d.window) [
    | yes early ↦ (
      syns,
      subst (λ d'. InWindow fx d' syns) (sym (maybe_roll_window-early now restart d early)) h,
    )
    | no late ↦ ([], (maybe_roll_window-late fx now restart d syns h (omega arith)).0)
  ]

  -- Whatever the clock reads, `observe` returns, and its sketches stay well-formed.
  observe-InWindow :
      (now restart : ℕ) (d : WindowedAnomalyDetector fl.F) (event : NetworkEvent)
      (syns : List (List ℕ))
      → InWindow fx d syns
      → (r : List Alert × WindowedAnomalyDetector fl.F) × (syns' : List (List ℕ)) × (observe fx fl
            now restart d event
          ≡ some r)
        × InWindow fx r.1 syns'
  unfolding observe
  observe-InWindow now restart d event syns h =
      let (rolled, h0) = rolled-InWindow now restart d syns h in
      let (flood, counted, e, h1) =
        watch_flood-InWindow (maybe_roll_window now restart d) event rolled h0 in
      let (distinct, ports, e', h2) = watch_scan-InWindow fx fl flood.1 event counted h1 in
      let seen = record flood.1 { port_cardinality = ports } in
      let scan = raise_scan fx fl seen event distinct in
      (
        (flood.0 ++ scan.0, scan.1),
        counted,
        rw (e, e'),
        raise_scan-InWindow fx fl seen event distinct counted h2,
      )

  -- The default signatures, well-formed sketches, and a map of partial matches for each sequence rule.
  pub record Ready (w : Worker fl.F) : Type 0 where
    pub signatures :
        w.signatures ≡ record Signature.with_default_rules { next_id = w.signatures.next_id }
    pub syns : List (List ℕ)
    pub sketches : InWindow fx w.anomalies syns
    pub tables : length w.sequences.active ≡ length w.sequences.rules

module _ (ac : AhoCorasick) (fx : FxHasher) (fl : Float64) where
  pub new_worker-Ready : (start : ℕ) → Ready fx fl (new_worker ac fx fl start)
  unfolding new_worker Cep.with_default_rules
  new_worker-Ready start = record {
    signatures = refl;
    syns = [];
    sketches = new-InWindow fx fl (5 * 10 ^ 9) start;
    tables = refl;
  }

  -- A worker that is ready handles any event without a panic, whatever the clock reads, and is ready
  -- again; it counts the event as processed, and leaves the queues and the drop counter as they are.
  pub handle-Ready :
      (now restart cep_now : ℕ) (event : NetworkEvent) (worker : Worker fl.F) (state : AppState)
      → Ready fx fl worker
      → (worker' : Worker fl.F) × (state' : AppState) × (handle ac fx fl now restart cep_now event
            worker state
          ≡ some (worker', state'))
        × Ready fx fl worker'
        × (state'.stats.events_processed ≡ fetch_inc state.stats.events_processed)
        × (state'.stats.events_dropped ≡ state.stats.events_dropped)
        × (state'.queues ≡ state.queues)
  unfolding handle
  handle-Ready now restart cep_now event worker state ready =
      let (s, es, kept, _) = scan-raised_all ac event worker.signatures.next_id in
      let (a, syns', ea, h) =
        observe-InWindow fx fl now restart worker.anomalies event ready.syns ready.sketches in
      let (alerts, c, ec, same_rules, tables, _, _) =
        process-total cep_now event worker.sequences ready.tables in
      let counted = record state {
        stats = record state.stats { events_processed = fetch_inc state.stats.events_processed };
      } in
      let (q1, p1, d1) = record_alerts-rest counted s.0 in
      let (q2, p2, d2) = record_alerts-rest (record_alerts counted s.0) a.0 in
      let (q3, p3, d3) =
        record_alerts-rest (record_alerts (record_alerts counted s.0) a.0) alerts in
      (
        record { signatures = s.1; anomalies = a.1; sequences = c },
        record_alerts (record_alerts (record_alerts counted s.0) a.0) alerts,
        rw (ready.signatures, es, ea, ec),
        record {
          signatures = kept;
          syns = syns';
          sketches = h;
          tables = tables ∙ ap length (sym same_rules);
        },
        p3 ∙ p2 ∙ p1,
        d3 ∙ d2 ∙ d1,
        q3 ∙ q2 ∙ q1,
      )
