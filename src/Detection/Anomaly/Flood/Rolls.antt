-- ===== src/Detection/Anomaly/Flood/Rolls.antt =====
-- What `observe` of engine/src/detection/anomaly.rs does at any reading of the clock, seen by one source.
use telemetry_threat_engine.Base.{
  ℕ, ◌+◌, ◌-◌, ◌*◌, ◌^◌, ◌≤◌, ◌<◌, ◌≡◌, refl, sym, ap, ◌∙◌, subst, List, [], some, contains, count,
  ◌⊎◌, inl, inr, le→leb, arith, some_injective,
}
use native.Mathlib.Decide.{dec_lt}
use telemetry_threat_engine.Models.{NetworkEvent, Alert}
use telemetry_threat_engine.Detection.Hasher.{FxHasher}
use telemetry_threat_engine.Detection.Float.{Float64}
use telemetry_threat_engine.Detection.Anomaly.{WindowedAnomalyDetector, maybe_roll_window, observe}
use telemetry_threat_engine.Detection.Anomaly.Window.{
  InWindow, maybe_roll_window-early, maybe_roll_window-late,
}
use telemetry_threat_engine.Detection.Anomaly.Flood.{bit, is_flood_of}
use telemetry_threat_engine.Detection.Anomaly.Flood.Steps.{syns_after, Due, observe-Step}

maybe_roll_window-same :
    {F : Type 0} (now restart : ℕ) (d : WindowedAnomalyDetector F)
    → d.window ≤ now - d.window_start
    → ((maybe_roll_window now restart d).window ≡ d.window)
      × ((maybe_roll_window now restart d).syn_flood_threshold ≡ d.syn_flood_threshold)
unfolding maybe_roll_window
maybe_roll_window-same now restart d reached =
    rw (le→leb d.window (now - d.window_start) reached) (refl, refl)

module _ (fx : FxHasher) (fl : Float64) where
  -- A call that rolls the window is one on the rolled detector.
  observe-maybe_roll_window :
      (now restart : ℕ) (d : WindowedAnomalyDetector fl.F) (event : NetworkEvent)
      → 0 < (maybe_roll_window now restart d).window
      → (maybe_roll_window now restart d).window_start ≡ restart
      → observe fx fl now restart d event
        ≡ observe fx fl restart restart (maybe_roll_window now restart d) event
  unfolding observe
  observe-maybe_roll_window now restart d event long fresh =
      rw
        (maybe_roll_window-early restart restart (maybe_roll_window now restart d)
          (omega (arith, long, fresh)))
        refl

  module _ (s : ℕ) (source : s < 2 ^ 32) where
    -- The detector has counted the SYNs of its window, and the alerts so far hold one about the source
    -- if it is marked.
    pub record Steady (d : WindowedAnomalyDetector fl.F) (syns : List (List ℕ)) (seen : List Alert)
        : Type 0 where
      pub valid : InWindow fx d syns
      pub due : Due fx fl s source d syns
      pub threshold : d.syn_flood_threshold ≡ 50
      pub window : d.window ≡ 5 * 10 ^ 9
      pub found : bit (contains d.alerted_flood_this_window s) ≤ count (is_flood_of s) seen

    -- What an event does to the detector, with or without a roll.
    abbrev pub Goes :
        ℕ
        → ℕ
        → WindowedAnomalyDetector fl.F
        → List (List ℕ)
        → NetworkEvent
        → WindowedAnomalyDetector fl.F
        → List Alert
        → Type 0
    Goes now restart d syns event d' seen =
        ((now - d.window_start < 5 * 10 ^ 9)
          × Steady d' (syns_after fx fl s source syns event) seen
          × (d'.window_start ≡ d.window_start))
        ⊎ ((5 * 10 ^ 9 ≤ now - d.window_start)
            × Steady d' (syns_after fx fl s source [] event) seen
            × (d'.window_start ≡ restart))

    module _ (now restart : ℕ) (d : WindowedAnomalyDetector fl.F) (event : NetworkEvent)
        (syns : List (List ℕ)) (seen seen' : List Alert) (small : event.src_ip < 2 ^ 32) where
      within-Steady :
          (r : List Alert × WindowedAnomalyDetector fl.F)
          → observe fx fl now restart d event ≡ some r
          → now - d.window_start < d.window
          → count (is_flood_of s) seen + count (is_flood_of s) r.0 ≤ count (is_flood_of s) seen'
          → Steady d syns seen
          → Steady r.1 (syns_after fx fl s source syns event) seen'
            × (r.1.window_start ≡ d.window_start)
      within-Steady r observed early more st =
          let (r', observed', step) =
            observe-Step fx fl s source now restart d event syns early small
              (omega (arith, st.threshold)) st.valid st.due in
          let same : r ≡ r' = some_injective r r' (sym observed ∙ observed') in
          let fewer =
            ap (λ (x : List Alert × WindowedAnomalyDetector fl.F). count (is_flood_of s) x.0)
              same in
          subst
            (λ x.
              Steady x.1 (syns_after fx fl s source syns event) seen'
              × (x.1.window_start ≡ d.window_start))
            (sym same)
            (
              record {
                valid = step.valid;
                due = step.due;
                threshold = step.same_threshold ∙ st.threshold;
                window = step.same_window ∙ st.window;
                found = omega (arith, st.found, step.marks, more, fewer);
              },
              step.same_start,
            )

    rolled-Steady :
        (now restart : ℕ) (d : WindowedAnomalyDetector fl.F) (syns : List (List ℕ))
        (seen : List Alert)
        → d.window ≤ now - d.window_start
        → Steady d syns seen
        → Steady (maybe_roll_window now restart d) [] seen
          × ((maybe_roll_window now restart d).window_start ≡ restart)
    rolled-Steady now restart d syns seen reached st =
        let (valid, fresh, unmarked, _, _, _) =
          maybe_roll_window-late fx now restart d syns st.valid reached in
        let (window, threshold) = maybe_roll_window-same now restart d reached in
        let no_mark = ap (λ l. bit (contains l s)) unmarked in
        (
          record {
            valid = valid;
            due = λ many. absurd (omega (arith, many, threshold, st.threshold));
            threshold = threshold ∙ st.threshold;
            window = window ∙ st.window;
            found = omega (arith, no_mark);
          },
          fresh,
        )

    -- One more event, at any reading of the clock.
    pub observe-Goes :
        (now restart : ℕ) (d : WindowedAnomalyDetector fl.F) (event : NetworkEvent)
        (syns : List (List ℕ)) (seen seen' : List Alert)
        (r : List Alert × WindowedAnomalyDetector fl.F)
        → observe fx fl now restart d event ≡ some r
        → event.src_ip < 2 ^ 32
        → count (is_flood_of s) seen + count (is_flood_of s) r.0 ≤ count (is_flood_of s) seen'
        → Steady d syns seen
        → Goes now restart d syns event r.1 seen'
    observe-Goes now restart d event syns seen seen' r observed small more st =
        elim (dec_lt (now - d.window_start) (5 * 10 ^ 9)) [
          | yes early ↦
              let (st', start) =
                within-Steady now restart d event syns seen seen' small r observed
                  (omega (arith, early, st.window)) more st in
              inl (early, st', start)
          | no late ↦
              let (st', fresh) =
                rolled-Steady now restart d syns seen (omega (arith, late, st.window)) st in
              let d' = maybe_roll_window now restart d in
              let (last, start) =
                within-Steady restart restart d' event [] seen seen' small r
                  (sym (
                      observe-maybe_roll_window now restart d event (omega (arith, st'.window))
                        fresh)
                    ∙ observed)
                  (omega (arith, fresh, st'.window)) more st' in
              inr (omega arith, last, start ∙ fresh)
        ]
