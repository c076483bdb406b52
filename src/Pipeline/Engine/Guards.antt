-- ===== src/Pipeline/Engine/Guards.antt =====
-- What the anomaly detector of a worker in engine/src/pipeline.rs keeps up about a source: at any time,
-- and during a period shorter than its window.
use telemetry_threat_engine.Base.{
  ℕ, ◌+◌, ◌-◌, ◌*◌, ◌^◌, ◌≤◌, ◌<◌, ◌≡◌, sym, ap, ◌∙◌, List, [], ◌∷◌, ◌++◌, some, count,
  count-append, append_assoc, append-nil, ◌⊎◌, inl, inr, Bool-cases, arith,
}
use native.Mathlib.Decide.{dec_lt}
use telemetry_threat_engine.Models.{NetworkEvent, Alert, is_syn, ip_bytes}
use telemetry_threat_engine.Detection.Hasher.{FxHasher}
use telemetry_threat_engine.Detection.Float.{Float64}
use telemetry_threat_engine.Detection.CountMin.Estimate.{occurrences}
use telemetry_threat_engine.Detection.Anomaly.{WindowedAnomalyDetector, observe}
use telemetry_threat_engine.Detection.Anomaly.Flood.{bit, is_flood_of}
use telemetry_threat_engine.Detection.Anomaly.Flood.Steps.{is_syn_of, syns_after, occurrences-cons}
use telemetry_threat_engine.Detection.Anomaly.Flood.Rolls.{Steady, observe-Goes}
use telemetry_threat_engine.Pipeline.Engine.Watch.{HasU32, Guard}

-- A period of less than five seconds.
abbrev pub Within : ℕ → ℕ → ℕ → Type 0
Within T now restart = (T ≤ restart) × (now < T + 5 * 10 ^ 9)

module _ (fx : FxHasher) (fl : Float64) (s : ℕ) (source : s < 2 ^ 32) where
  abbrev Counted : WindowedAnomalyDetector fl.F → List Alert → Type 0
  Counted d seen = (syns : List (List ℕ)) × Steady fx fl s source d syns seen

  pub Steady-later :
      (d : WindowedAnomalyDetector fl.F) (syns : List (List ℕ)) (seen seen' : List Alert)
      → count (is_flood_of s) seen ≤ count (is_flood_of s) seen'
      → Steady fx fl s source d syns seen
      → Steady fx fl s source d syns seen'
  Steady-later d syns seen seen' more st = record {
    valid = st.valid;
    due = st.due;
    threshold = st.threshold;
    window = st.window;
    found = omega (arith, st.found, more);
  }

  abbrev pub steady_guard : Guard fx fl s
  steady_guard = record {
    Reads = λ now restart. Unit;
    Upholds = λ d done seen. Counted d seen;
    next = λ now restart d event done seen seen' r observed reads small more (syns, st).
        elim (observe-Goes fx fl s source now restart d event syns seen seen' r observed small more
          st) [
            | inl (early, st', start) ↦ (syns_after fx fl s source syns event, st')
            | inr (late, st', start) ↦ (syns_after fx fl s source [] event, st')
          ];
    later = λ d done seen seen' more (syns, st). (syns, Steady-later d syns seen seen' more st);
  }

  -- The SYNs of the source that the detector has seen in the period are counted in its window, or it
  -- has rolled the window in the period after fewer than 50 of them, or an alert is recorded.
  abbrev pub Progress :
      ℕ → WindowedAnomalyDetector fl.F → List (List ℕ) → List NetworkEvent → List Alert → Type 0
  Progress T d syns burst seen =
      (1 ≤ count (is_flood_of s) seen)
      ⊎ ((count (is_syn_of s) burst ≤ occurrences (ip_bytes s) syns)
          ⊎ ((T ≤ d.window_start)
              × (count (is_syn_of s) burst ≤ 49 + occurrences (ip_bytes s) syns)))

  syns_after-counts :
      (event : NetworkEvent) (syns : List (List ℕ)) (burst : List NetworkEvent)
      → HasU32 event
      → occurrences (ip_bytes s) (syns_after fx fl s source syns event) + count (is_syn_of s) burst
        ≡ occurrences (ip_bytes s) syns + count (is_syn_of s) (burst ++ event ∷ [])
  syns_after-counts event syns burst small =
      rw (count-append (is_syn_of s) burst (event ∷ [])) (elim (Bool-cases (is_syn event)) [
        | inl syn ↦ rw syn (omega (arith, occurrences-cons fx fl s source event syns small))
        | inr other ↦ rw other (omega arith)
      ])

  -- Fifty counted SYNs come with an alert.
  counted-found :
      (d : WindowedAnomalyDetector fl.F) (syns : List (List ℕ)) (seen : List Alert)
      → Steady fx fl s source d syns seen
      → 50 ≤ occurrences (ip_bytes s) syns
      → 1 ≤ count (is_flood_of s) seen
  counted-found d syns seen st many =
      omega (arith, st.found, ap bit (st.due (omega (arith, st.threshold, many))))

  module _ (T now restart : ℕ) (reads : Within T now restart) (d d' : WindowedAnomalyDetector fl.F)
      (event : NetworkEvent) (small : HasU32 event) (syns : List (List ℕ))
      (burst : List NetworkEvent) (seen seen' : List Alert)
      (more : count (is_flood_of s) seen ≤ count (is_flood_of s) seen')
      (st : Steady fx fl s source d syns seen) where
    within-Progress :
        d'.window_start ≡ d.window_start
        → Progress T d syns burst seen
        → Progress T d' (syns_after fx fl s source syns event) (burst ++ event ∷ []) seen'
    within-Progress start (inl found) = inl (omega (arith, found, more))
    within-Progress start (inr (inl all)) =
        inr (inl (omega (arith, all, syns_after-counts event syns burst small)))
    within-Progress start (inr (inr (open_since, most))) = inr (
        inr (
          omega (arith, open_since, start),
          omega (arith, most, syns_after-counts event syns burst small),
        ))

    rolled-Progress :
        d'.window_start ≡ restart
        → 5 * 10 ^ 9 ≤ now - d.window_start
        → Progress T d syns burst seen
        → Progress T d' (syns_after fx fl s source [] event) (burst ++ event ∷ []) seen'
    rolled-Progress start late (inl found) = inl (omega (arith, found, more))
    rolled-Progress start late (inr (inl all)) = elim (dec_lt (count (is_syn_of s) burst) 50) [
      | yes few ↦ inr (
          inr (
            omega (arith, reads.0, start),
            omega (arith, few, syns_after-counts event [] burst small),
          ))
      | no many ↦ inl (omega (arith, more, counted-found d syns seen st (omega (arith, many, all))))
    ]
    rolled-Progress start late (inr (inr (open_since, most))) =
        absurd (omega (arith, open_since, reads.1, late))

  -- At least 99 SYNs in the period come with an alert.
  pub Progress-found :
      (T : ℕ) (d : WindowedAnomalyDetector fl.F) (syns : List (List ℕ)) (burst : List NetworkEvent)
      (seen : List Alert)
      → Steady fx fl s source d syns seen
      → 99 ≤ count (is_syn_of s) burst
      → Progress T d syns burst seen
      → 1 ≤ count (is_flood_of s) seen
  Progress-found T d syns burst seen st many (inl found) = found
  Progress-found T d syns burst seen st many (inr (inl all)) =
      counted-found d syns seen st (omega (arith, many, all))
  Progress-found T d syns burst seen st many (inr (inr (open_since, most))) =
      counted-found d syns seen st (omega (arith, many, most))

  pub Progress-later :
      (T : ℕ) (d : WindowedAnomalyDetector fl.F) (syns : List (List ℕ)) (burst : List NetworkEvent)
      (seen seen' : List Alert)
      → count (is_flood_of s) seen ≤ count (is_flood_of s) seen'
      → Progress T d syns burst seen
      → Progress T d syns burst seen'
  Progress-later T d syns burst seen seen' more (inl found) = inl (omega (arith, found, more))
  Progress-later T d syns burst seen seen' more (inr (inl all)) = inr (inl all)
  Progress-later T d syns burst seen seen' more (inr (inr rolled)) = inr (inr rolled)

  -- What the detector keeps up in a period that begins after it has seen the events `old`.
  pub record Bursts (T : ℕ) (old : List NetworkEvent) (d : WindowedAnomalyDetector fl.F)
      (done : List NetworkEvent) (seen : List Alert) : Type 0 where
    pub syns : List (List ℕ)
    pub burst : List NetworkEvent
    pub split : done ≡ old ++ burst
    pub steady : Steady fx fl s source d syns seen
    pub progress : Progress T d syns burst seen

  pub begin-Bursts :
      (T : ℕ) (old : List NetworkEvent) (d : WindowedAnomalyDetector fl.F) (seen : List Alert)
      → Counted d seen
      → Bursts T old d old seen
  begin-Bursts T old d seen (syns, st) = record {
    syns = syns;
    burst = [];
    split = sym (append-nil old);
    steady = st;
    progress = inr (inl (omega arith));
  }

  pub next-Bursts :
      (T : ℕ) (old : List NetworkEvent) (now restart : ℕ) (d : WindowedAnomalyDetector fl.F)
      (event : NetworkEvent) (done : List NetworkEvent) (seen seen' : List Alert)
      (r : List Alert × WindowedAnomalyDetector fl.F)
      → observe fx fl now restart d event ≡ some r
      → Within T now restart
      → HasU32 event
      → count (is_flood_of s) seen + count (is_flood_of s) r.0 ≤ count (is_flood_of s) seen'
      → Bursts T old d done seen
      → Bursts T old r.1 (done ++ event ∷ []) seen'
  next-Bursts T old now restart d event done seen seen' r observed reads small more b =
      let split = ap (λ l. l ++ event ∷ []) b.split ∙ append_assoc old b.burst (event ∷ []) in
      elim (observe-Goes fx fl s source now restart d event b.syns seen seen' r observed small more
        b.steady) [
          | inl (early, st, start) ↦ record {
            syns = syns_after fx fl s source b.syns event;
            burst = b.burst ++ event ∷ [];
            split = split;
            steady = st;
            progress =
                within-Progress T now restart reads d r.1 event small b.syns b.burst seen seen'
                  (omega (arith, more)) b.steady start b.progress;
          }
          | inr (late, st, start) ↦ record {
            syns = syns_after fx fl s source [] event;
            burst = b.burst ++ event ∷ [];
            split = split;
            steady = st;
            progress =
                rolled-Progress T now restart reads d r.1 event small b.syns b.burst seen seen'
                  (omega (arith, more)) b.steady start late b.progress;
          }
        ]

  abbrev pub burst_guard : ℕ → List NetworkEvent → Guard fx fl s
  burst_guard T old = record {
    Reads = Within T;
    Upholds = Bursts T old;
    next = next-Bursts T old;
    later = λ d done seen seen' more b. record {
      syns = b.syns;
      burst = b.burst;
      split = b.split;
      steady = Steady-later d b.syns seen seen' more b.steady;
      progress = Progress-later T d b.syns b.burst seen seen' more b.progress;
    };
  }
