-- ===== src/Pipeline/Handled.antt =====
-- What a call of `handle` that returned has done to the worker and to the alert store.
use telemetry_threat_engine.Base.{ℕ, ◌≡◌, sym, ap, List, some, some_injective, >>=-eq-some}
use telemetry_threat_engine.Models.{NetworkEvent, Alert}
use telemetry_threat_engine.Detection.Hasher.{FxHasher}
use telemetry_threat_engine.Detection.Float.{Float64}
use telemetry_threat_engine.Detection.Signature.{AhoCorasick, SignatureDetector, scan}
use telemetry_threat_engine.Detection.Anomaly.{WindowedAnomalyDetector, observe}
use telemetry_threat_engine.Detection.Cep.{process}
use telemetry_threat_engine.Pipeline.{AppState, fetch_inc, record_alerts, Worker, handle}

-- The state after `events_processed` is counted up.
abbrev pub counted : AppState → AppState
counted state = record state {
  stats = record state.stats { events_processed = fetch_inc state.stats.events_processed };
}

module _ (ac : AhoCorasick) (fx : FxHasher) (fl : Float64) where
  -- The answers of the three detectors, the worker after them and the alerts recorded in their order.
  pub record Handled (now restart : ℕ) (event : NetworkEvent) (worker : Worker fl.F)
      (state : AppState) (r : Worker fl.F × AppState) : Type 0 where
    pub by_signature : List Alert
    pub by_count : List Alert × WindowedAnomalyDetector fl.F
    pub by_sequence : List Alert
    pub scanner : SignatureDetector
    pub scanned : scan ac worker.signatures event ≡ some (by_signature, scanner)
    pub observed : observe fx fl now restart worker.anomalies event ≡ some by_count
    pub anomalies : r.0.anomalies ≡ by_count.1
    pub recorded :
        r.1
        ≡ record_alerts
            (record_alerts (record_alerts (counted state) by_signature) by_count.0)
            by_sequence

  pub handle-Handled :
      (now restart cep_now : ℕ) (event : NetworkEvent) (worker : Worker fl.F) (state : AppState)
      (r : Worker fl.F × AppState)
      → handle ac fx fl now restart cep_now event worker state ≡ some r
      → Handled now restart event worker state r
  unfolding handle
  handle-Handled now restart cep_now event worker state r e =
      let (s, scanned, e0) = >>=-eq-some (scan ac worker.signatures event) _ r e in
      let (a, observed, e1) =
        >>=-eq-some (observe fx fl now restart worker.anomalies event) _ r e0 in
      let (c, processed, e2) = >>=-eq-some (process cep_now worker.sequences event) _ r e1 in
      let same = some_injective _ _ e2 in
      record {
        by_signature = s.0;
        by_count = a;
        by_sequence = c.0;
        scanner = s.1;
        scanned = scanned;
        observed = observed;
        anomalies = sym (ap (λ (x : Worker fl.F × AppState). x.0.anomalies) same);
        recorded = sym (ap (λ (x : Worker fl.F × AppState). x.1) same);
      }
