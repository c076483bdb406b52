-- ===== src/Detection/Anomaly/Flood/Run.antt =====
-- The SYN-flood alerts of a whole window.
use telemetry_threat_engine.Base.{
  ℕ, ◌+◌, ◌-◌, ◌^◌, ◌≤◌, ◌<◌, ◌≡◌, refl, sym, ◌∙◌, true, ◌&&◌, List, [], ◌∷◌, ◌++◌, Option, some,
  ◌==◌, contains, ◌>>=◌, All, count, count-append, arith, Bool-cases, inl, inr, subst,
}
use telemetry_threat_engine.Models.{NetworkEvent, Alert, is_syn, ip_bytes}
use telemetry_threat_engine.Detection.Hasher.{FxHasher}
use telemetry_threat_engine.Detection.Float.{Float64}
use telemetry_threat_engine.Detection.CountMin.{u32_max}
use telemetry_threat_engine.Detection.CountMin.Estimate.{occurrences}
use telemetry_threat_engine.Detection.Anomaly.{WindowedAnomalyDetector, observe, new}
use telemetry_threat_engine.Detection.Anomaly.Window.{InWindow, new-InWindow}
use telemetry_threat_engine.Detection.Anomaly.Flood.{is_flood_of}
use telemetry_threat_engine.Detection.Anomaly.Flood.Steps.{
  syns_after, occurrences-cons, Step, observe-Step,
}

-- An event with the two readings of the clock that `observe` may take.
pub record Tick : Type 0 where
  pub now : ℕ
  pub restart : ℕ
  pub event : NetworkEvent

-- The SYNs of a source among some events.
abbrev pub syn_count : ℕ → List Tick → ℕ
syn_count s ticks = count (λ t. is_syn t.event && s == t.event.src_ip) ticks

-- An event that the window does not roll at, with an address of 32 bits.
abbrev pub InTime : ℕ → ℕ → Tick → Type 0
InTime window start t = (t.now - start < window) × (t.event.src_ip < 2 ^ 32)

module _ (fx : FxHasher) (fl : Float64) where
  -- The calls of `observe` on some events, and all the alerts.
  unfoldable pub run :
      WindowedAnomalyDetector fl.F → List Tick → Option (List Alert × WindowedAnomalyDetector fl.F)
  unfolding observe
  run d [] = some ([], d)
  run d (t ∷ ticks) = do
    r ← observe fx fl t.now t.restart d t.event
    rest ← run r.1 ticks
    some (r.0 ++ rest.0, rest.1)

  module _ (s : ℕ) (source : s < 2 ^ 32) where
    abbrev syns_of : List (List ℕ) → List Tick → List (List ℕ)
    syns_of syns [] = syns
    syns_of syns (t ∷ ticks) = syns_of (syns_after fx fl s source syns t.event) ticks

    occurrences-syns_of :
        (window start : ℕ) (syns : List (List ℕ)) (ticks : List Tick)
        → All (InTime window start) ticks
        → occurrences (ip_bytes s) (syns_of syns ticks)
          ≡ occurrences (ip_bytes s) syns + syn_count s ticks
    occurrences-syns_of window start syns [] a = omega arith
    occurrences-syns_of window start syns (t ∷ ticks) a = elim (Bool-cases (is_syn t.event)) [
      | inl syn ↦ rw syn (
          omega (
            arith,
            occurrences-syns_of window start (ip_bytes t.event.src_ip ∷ syns) ticks a.1,
            occurrences-cons fx fl s source t.event syns a.0.1,
          ))
      | inr other ↦ rw other (omega (arith, occurrences-syns_of window start syns ticks a.1))
    ]

    run-Step :
        (d : WindowedAnomalyDetector fl.F) (syns : List (List ℕ)) (ticks : List Tick)
        → All (InTime d.window d.window_start) ticks
        → d.syn_flood_threshold ≤ u32_max
        → InWindow fx d syns
        → (d.syn_flood_threshold ≤ occurrences (ip_bytes s) syns
            → contains d.alerted_flood_this_window s ≡ true)
        → (r : List Alert × WindowedAnomalyDetector fl.F) × (run d ticks ≡ some r)
          × Step fx fl s source d (syns_of syns ticks) r
    unfolding run
    run-Step d syns [] a small v due = (
      ([], d),
      refl,
      record {
        valid = v;
        marks = omega arith;
        due = due;
        same_threshold = refl;
        same_window = refl;
        same_start = refl;
      },
    )
    run-Step d syns (t ∷ ticks) a small v due =
        let (r, e, st) =
          observe-Step fx fl s source t.now t.restart d t.event syns a.0.0 a.0.1 small v due in
        let in_time : All (InTime r.1.window r.1.window_start) ticks =
          subst (λ w. All (InTime w r.1.window_start) ticks) (sym st.same_window)
            (subst (λ w. All (InTime d.window w) ticks) (sym st.same_start) a.1) in
        let (rest, e', st') =
          run-Step r.1 (syns_after fx fl s source syns t.event) ticks in_time
            (omega (arith, st.same_threshold)) st.valid st.due in
        (
          (r.0 ++ rest.0, rest.1),
          rw (e, e'),
          record {
            valid = st'.valid;
            marks = omega (arith, st.marks, st'.marks, count-append (is_flood_of s) r.0 rest.0);
            due = st'.due;
            same_threshold = st'.same_threshold ∙ st.same_threshold;
            same_window = st'.same_window ∙ st.same_window;
            same_start = st'.same_start ∙ st.same_start;
          },
        )

  -- A new detector that sees any events with u32 sources within its first window does not panic, and
  -- raises at most one SYN-flood alert about any u32 source.
  pub run-flood_once :
      (window start s : ℕ) (ticks : List Tick)
      → s < 2 ^ 32
      → All (InTime window start) ticks
      → (r : List Alert × WindowedAnomalyDetector fl.F) × (run (new fl window start) ticks ≡ some r)
        × (count (is_flood_of s) r.0 ≤ 1)
  unfolding new
  run-flood_once window start s ticks source a =
      let (r, e, st) =
        run-Step s source (new fl window start) [] ticks a (omega arith)
          (new-InWindow fx fl window start) (λ h. absurd (omega arith)) in
      (r, e, ground (arith, st.marks))

  -- A new detector that sees events with u32 sources within its first window, at least 50 of them SYNs
  -- of one source, does not panic and raises exactly one SYN-flood alert about that source, wherever
  -- the SYNs stand among the other events and whatever the hasher.
  pub run-flood_raised :
      (window start s : ℕ) (ticks : List Tick)
      → s < 2 ^ 32
      → All (InTime window start) ticks
      → 50 ≤ syn_count s ticks
      → (r : List Alert × WindowedAnomalyDetector fl.F) × (run (new fl window start) ticks ≡ some r)
        × (count (is_flood_of s) r.0 ≡ 1)
  unfolding new
  run-flood_raised window start s ticks source a many =
      let (r, e, st) =
        run-Step s source (new fl window start) [] ticks a (omega arith)
          (new-InWindow fx fl window start) (λ h. absurd (omega arith)) in
      (
        r,
        e,
        ground (
          arith,
          st.marks,
          st.due (
              omega
                (arith, st.same_threshold, occurrences-syns_of s source window start [] ticks a)),
        ),
      )
