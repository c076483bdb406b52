-- ===== src/Detection/Anomaly/Scans.antt =====
-- The port-scan alerts of engine/src/detection/anomaly.rs within one window, and the marks of the
-- sources that go with them.
use telemetry_threat_engine.Base.{
  ℕ, ◌+◌, ◌-◌, ◌^◌, ◌≤◌, ◌<◌, ◌≡◌, refl, sym, ap, ◌∙◌, subst, Bool, true, false, ◌&&◌, List, [],
  ◌∷◌, ◌++◌, some, contains, All, count, count-append, Bool-cases, inl, inr, >>=-eq-some,
  some_injective, ◌==◌, arith,
}
use telemetry_threat_engine.Base.Text.{text_eq}
use telemetry_threat_engine.Models.{
  NetworkEvent, Alert, is_syn, ip_bytes, port_bytes, ip_to_string, src_ip_str,
}
use telemetry_threat_engine.Detection.Hasher.{FxHasher}
use telemetry_threat_engine.Detection.Float.{Float64}
use telemetry_threat_engine.Base.{insert, get_or}
use telemetry_threat_engine.Detection.HyperLogLog
use telemetry_threat_engine.Detection.Anomaly.{
  WindowedAnomalyDetector, maybe_roll_window, scan_rule, flood_alert, is_flood, mark_flood,
  raise_flood, count_syn, watch_flood, is_scan, scan_alert, mark_scan, raise_scan, watch_scan,
  observe, new,
}
use telemetry_threat_engine.Detection.CountMin.{increment, estimate}
use telemetry_threat_engine.Detection.Anomaly.Window.{maybe_roll_window-early}
use telemetry_threat_engine.Detection.Anomaly.Flood.{bit, new_mark, text_eq-ip_to_string}
use telemetry_threat_engine.Detection.Anomaly.Flood.Run.{Tick, InTime, run, run-flood_once}

-- A port-scan alert about the source `s`.
abbrev pub is_scan_of : ℕ → Alert → Bool
is_scan_of s a = text_eq a.rule_name scan_rule && text_eq a.src_ip (ip_to_string s)

module _ (fx : FxHasher) (fl : Float64) (s : ℕ) (source : s < 2 ^ 32) where
  -- What a part of `observe` does to the marks of the port scans.
  record Marks (d : WindowedAnomalyDetector fl.F) (r : List Alert × WindowedAnomalyDetector fl.F)
      : Type 0 where
    pub marks :
        count (is_scan_of s) r.0 + bit (contains d.alerted_scan_this_window s)
        ≡ bit (contains r.1.alerted_scan_this_window s)
    pub same_window : r.1.window ≡ d.window
    pub same_start : r.1.window_start ≡ d.window_start

  raise_flood-Marks :
      (d : WindowedAnomalyDetector fl.F) (event : NetworkEvent) (est : ℕ)
      → Marks d (raise_flood d event est)
  unfolding raise_flood mark_flood flood_alert
  raise_flood-Marks d event est = elim (Bool-cases (is_flood d event est)) [
    | inl fires ↦ rw fires (record { marks = omega arith; same_window = refl; same_start = refl })
    | inr quiet ↦ rw quiet (record { marks = omega arith; same_window = refl; same_start = refl })
  ]

  watch_flood-Marks :
      (d : WindowedAnomalyDetector fl.F) (event : NetworkEvent)
      (r : List Alert × WindowedAnomalyDetector fl.F)
      → watch_flood fx fl d event ≡ some r
      → Marks d r
  unfolding watch_flood count_syn
  watch_flood-Marks d event r e = elim (Bool-cases (is_syn event)) [
    | inl syn ↦
        let (sketch, _, e1) =
          >>=-eq-some (increment fx d.syn_counts (ip_bytes event.src_ip)) _ r (branch_syn syn) in
        let (est, _, e2) = >>=-eq-some (estimate fx sketch (ip_bytes event.src_ip)) _ r e1 in
        let m = raise_flood-Marks (record d { syn_counts = sketch }) event est in
        subst (Marks d)
          (some_injective (raise_flood (record d { syn_counts = sketch }) event est) r e2)
          (record { marks = m.marks; same_window = m.same_window; same_start = m.same_start })
    | inr other ↦
        subst (Marks d) (some_injective ([], d) r (branch_other other))
          (record { marks = omega arith; same_window = refl; same_start = refl })
  ]
    where
      branch_syn : is_syn event ≡ true → count_syn fx fl d event ≡ some r
      branch_syn syn = sym (rw syn refl) ∙ e

      branch_other : is_syn event ≡ false → some ([], d) ≡ some r
      branch_other other = sym (rw other refl) ∙ e

  is_scan_of-scan_alert :
      (d : WindowedAnomalyDetector fl.F) (event : NetworkEvent) (distinct : fl.F)
      → event.src_ip < 2 ^ 32
      → is_scan_of s (scan_alert fx fl d event distinct) ≡ (event.src_ip == s)
  unfolding scan_alert src_ip_str
  is_scan_of-scan_alert d event distinct h = text_eq-ip_to_string event.src_ip s h source

  raise_scan-Marks :
      (d : WindowedAnomalyDetector fl.F) (event : NetworkEvent) (distinct : fl.F)
      → event.src_ip < 2 ^ 32
      → Marks d (raise_scan fx fl d event distinct)
  unfolding raise_scan mark_scan is_scan
  raise_scan-Marks d event distinct h = elim (Bool-cases (is_scan fx fl d event distinct)) [
    | inl fires ↦
        let free : contains d.alerted_scan_this_window event.src_ip ≡ false = unmarked fires in
        rw fires (record {
          marks =
              rw (is_scan_of-scan_alert d event distinct h)
                (new_mark d.alerted_scan_this_window event.src_ip s free);
          same_window = refl;
          same_start = refl;
        })
    | inr quiet ↦ rw quiet (record { marks = omega arith; same_window = refl; same_start = refl })
  ]
    where
      unmarked :
          is_scan fx fl d event distinct ≡ true
          → contains d.alerted_scan_this_window event.src_ip ≡ false
      unmarked fires = ground arith

  watch_scan-Marks :
      (d : WindowedAnomalyDetector fl.F) (event : NetworkEvent)
      (r : List Alert × WindowedAnomalyDetector fl.F)
      → event.src_ip < 2 ^ 32
      → watch_scan fx fl d event ≡ some r
      → Marks d r
  unfolding watch_scan
  watch_scan-Marks d event r h e =
      let (hll, _, e1) =
        >>=-eq-some
          (HyperLogLog.add fx (get_or d.port_cardinality event.src_ip (HyperLogLog.new 10))
            (port_bytes event.dst_port))
          _ r e in
      let m =
        raise_scan-Marks
          (record d { port_cardinality = insert d.port_cardinality event.src_ip hll }) event
          (HyperLogLog.estimate fl hll) h in
      subst (Marks d)
        (some_injective
          (raise_scan fx fl
            (record d { port_cardinality = insert d.port_cardinality event.src_ip hll }) event
            (HyperLogLog.estimate fl hll))
          r e1)
        (record { marks = m.marks; same_window = m.same_window; same_start = m.same_start })

  -- One call of `observe` that does not roll the window.
  observe-Marks :
      (now restart : ℕ) (d : WindowedAnomalyDetector fl.F) (event : NetworkEvent)
      (r : List Alert × WindowedAnomalyDetector fl.F)
      → now - d.window_start < d.window
      → event.src_ip < 2 ^ 32
      → observe fx fl now restart d event ≡ some r
      → Marks d r
  unfolding observe
  observe-Marks now restart d event r early h e =
      let (f, flooded, e1) =
        >>=-eq-some (watch_flood fx fl (maybe_roll_window now restart d) event) _ r e in
      let (sc, scanned, e2) = >>=-eq-some (watch_scan fx fl f.1 event) _ r e1 in
      let m = watch_flood-Marks d event f (
        ap (λ x. watch_flood fx fl x event) (sym (maybe_roll_window-early now restart d early))
        ∙ flooded) in
      let m' = watch_scan-Marks f.1 event sc h scanned in
      subst (Marks d) (some_injective (f.0 ++ sc.0, sc.1) r e2) (record {
        marks = omega (arith, m.marks, m'.marks, count-append (is_scan_of s) f.0 sc.0);
        same_window = m'.same_window ∙ m.same_window;
        same_start = m'.same_start ∙ m.same_start;
      })

  run-Marks :
      (d : WindowedAnomalyDetector fl.F) (ticks : List Tick)
      (r : List Alert × WindowedAnomalyDetector fl.F)
      → All (InTime d.window d.window_start) ticks
      → run fx fl d ticks ≡ some r
      → Marks d r
  unfolding run
  run-Marks d [] r a e =
      subst (Marks d) (some_injective ([], d) r e)
        (record { marks = omega arith; same_window = refl; same_start = refl })
  run-Marks d (t ∷ ticks) r a e =
      let (first, observed, e1) = >>=-eq-some (observe fx fl t.now t.restart d t.event) _ r e in
      let (rest, ran, e2) = >>=-eq-some (run fx fl first.1 ticks) _ r e1 in
      let m = observe-Marks t.now t.restart d t.event first a.0.0 a.0.1 observed in
      let in_time : All (InTime first.1.window first.1.window_start) ticks =
        subst (λ w. All (InTime w first.1.window_start) ticks) (sym m.same_window)
          (subst (λ w. All (InTime d.window w) ticks) (sym m.same_start) a.1) in
      let m' = run-Marks first.1 ticks rest in_time ran in
      subst (Marks d) (some_injective (first.0 ++ rest.0, rest.1) r e2) (record {
        marks = omega (arith, m.marks, m'.marks, count-append (is_scan_of s) first.0 rest.0);
        same_window = m'.same_window ∙ m.same_window;
        same_start = m'.same_start ∙ m.same_start;
      })

module _ (fx : FxHasher) (fl : Float64) where
  -- A new detector that sees any events with u32 sources within its first window does not panic, and
  -- raises at most one port-scan alert about any u32 source, however the cardinality is estimated.
  pub run-scan_once :
      (window start s : ℕ) (ticks : List Tick)
      → s < 2 ^ 32
      → All (InTime window start) ticks
      → (r : List Alert × WindowedAnomalyDetector fl.F) × (run fx fl (new fl window start) ticks
          ≡ some r)
        × (count (is_scan_of s) r.0 ≤ 1)
  unfolding new
  run-scan_once window start s ticks source a =
      let (r, e, _) = run-flood_once fx fl window start s ticks source a in
      let m = run-Marks fx fl s source (new fl window start) ticks r a e in
      (r, e, ground (arith, m.marks))
