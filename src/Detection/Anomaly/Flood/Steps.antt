-- ===== src/Detection/Anomaly/Flood/Steps.antt =====
-- What `observe` of engine/src/detection/anomaly.rs does within a window, seen by one source.
use telemetry_threat_engine.Base.{
  Bool, ◌&&◌, ℕ, ◌+◌, ◌-◌, ◌^◌, ◌≤◌, ◌<◌, min, ◌≡◌, refl, sym, ap, ◌∙◌, true, List, [], ◌∷◌, ◌++◌,
  some, ◌==◌, if◌then◌else◌, contains, count, count-append, arith, Bool-cases, inl, inr, ==_iff,
}
use telemetry_threat_engine.Models.{NetworkEvent, Alert, is_syn, ip_bytes}
use telemetry_threat_engine.Detection.Hasher.{FxHasher}
use telemetry_threat_engine.Detection.Float.{Float64}
use telemetry_threat_engine.Detection.CountMin.{u32_max}
use telemetry_threat_engine.Detection.CountMin.Estimate.{occurrences}
use telemetry_threat_engine.Detection.Anomaly.{
  WindowedAnomalyDetector, raise_flood, watch_flood, raise_scan, watch_scan, observe,
}
use telemetry_threat_engine.Detection.Anomaly.Window.{
  InWindow, maybe_roll_window-early, raise_flood-InWindow, count_syn-InWindow, raise_scan-InWindow,
  watch_scan-InWindow,
}
use telemetry_threat_engine.Detection.Anomaly.Flood.{
  bit, is_flood_of, text_eq-ip_bytes, raise_flood-marks, raise_scan-marks, raise_flood-same,
  raise_flood-marked,
}

-- A SYN of the source `s`.
abbrev pub is_syn_of : ℕ → NetworkEvent → Bool
is_syn_of s e = is_syn e && s == e.src_ip

module _ (fx : FxHasher) (fl : Float64) (s : ℕ) (source : s < 2 ^ 32) where
  -- The stream of SYN keys after an event.
  abbrev pub syns_after : List (List ℕ) → NetworkEvent → List (List ℕ)
  syns_after syns event = if is_syn event then ip_bytes event.src_ip ∷ syns else syns

  -- A source is marked once its SYNs in the window reach the threshold.
  abbrev pub Due : WindowedAnomalyDetector fl.F → List (List ℕ) → Type 0
  Due d syns =
      d.syn_flood_threshold ≤ occurrences (ip_bytes s) syns
      → contains d.alerted_flood_this_window s ≡ true

  -- What a part of `observe` does within a window.
  pub record Step (d : WindowedAnomalyDetector fl.F) (syns : List (List ℕ))
      (r : List Alert × WindowedAnomalyDetector fl.F) : Type 0 where
    pub valid : InWindow fx r.1 syns
    pub marks :
        count (is_flood_of s) r.0 + bit (contains d.alerted_flood_this_window s)
        ≡ bit (contains r.1.alerted_flood_this_window s)
    pub due : Due r.1 syns
    pub same_threshold : r.1.syn_flood_threshold ≡ d.syn_flood_threshold
    pub same_window : r.1.window ≡ d.window
    pub same_start : r.1.window_start ≡ d.window_start

  -- The count of a source goes up with its own SYNs only.
  pub occurrences-cons :
      (event : NetworkEvent) (syns : List (List ℕ))
      → event.src_ip < 2 ^ 32
      → occurrences (ip_bytes s) (ip_bytes event.src_ip ∷ syns)
        ≡ bit (s == event.src_ip) + occurrences (ip_bytes s) syns
  occurrences-cons event syns h = rw (text_eq-ip_bytes s event.src_ip source h)

  raise_flood-Due :
      (d : WindowedAnomalyDetector fl.F) (event : NetworkEvent) (syns : List (List ℕ)) (est : ℕ)
      → event.src_ip < 2 ^ 32
      → d.syn_flood_threshold ≤ u32_max
      → min u32_max (occurrences (ip_bytes event.src_ip) (ip_bytes event.src_ip ∷ syns)) ≤ est
      → Due d syns
      → Due (raise_flood d event est).1 (ip_bytes event.src_ip ∷ syns)
  raise_flood-Due d event syns est h small ge due reached =
      raise_flood-marked fx fl s source d event est (elim (Bool-cases (s == event.src_ip)) [
        | inl same ↦
            let e : s ≡ event.src_ip = (==_iff s event.src_ip).0 same in
            inr (
              sym e,
              omega (
                arith,
                (raise_flood-same fx fl s source d event est).0,
                ap (λ x. occurrences (ip_bytes x) (ip_bytes event.src_ip ∷ syns)) e,
              ),
            )
        | inr other ↦ inl (
            due (
              ground (
                arith,
                (raise_flood-same fx fl s source d event est).0,
                occurrences-cons event syns h,
              )))
      ])

  watch_flood-Step :
      (d : WindowedAnomalyDetector fl.F) (event : NetworkEvent) (syns : List (List ℕ))
      → event.src_ip < 2 ^ 32
      → d.syn_flood_threshold ≤ u32_max
      → InWindow fx d syns
      → Due d syns
      → (r : List Alert × WindowedAnomalyDetector fl.F) × (watch_flood fx fl d event ≡ some r)
        × Step d (syns_after syns event) r
  unfolding watch_flood
  watch_flood-Step d event syns h small v due = elim (Bool-cases (is_syn event)) [
    | inl syn ↦
        let (sketch, est, e, ge, v') = count_syn-InWindow fx fl d event syns v in
        let counted = record d { syn_counts = sketch } in
        let same = raise_flood-same fx fl s source counted event est in
        rw syn (
          raise_flood counted event est,
          e,
          record {
            valid = raise_flood-InWindow fx fl counted event est (ip_bytes event.src_ip ∷ syns) v';
            marks = raise_flood-marks fx fl s source counted event est h;
            due = raise_flood-Due counted event syns est h small ge due;
            same_threshold = same.0;
            same_window = same.1;
            same_start = same.2;
          },
        )
    | inr other ↦ rw other (
      ([], d),
      refl,
      record {
        valid = v;
        marks = omega arith;
        due = due;
        same_threshold = refl;
        same_window = refl;
        same_start = refl;
      },
    )
  ]

  watch_scan-Step :
      (d : WindowedAnomalyDetector fl.F) (event : NetworkEvent) (syns : List (List ℕ))
      → InWindow fx d syns
      → Due d syns
      → (r : List Alert × WindowedAnomalyDetector fl.F) × (watch_scan fx fl d event ≡ some r)
        × Step d syns r
  watch_scan-Step d event syns v due =
      let (distinct, ports, e, v') = watch_scan-InWindow fx fl d event syns v in
      let seen = record d { port_cardinality = ports } in
      let (none_of, marks, threshold, window, start) =
        raise_scan-marks fx fl s source seen event distinct in
      (
        raise_scan fx fl seen event distinct,
        e,
        record {
          valid = raise_scan-InWindow fx fl seen event distinct syns v';
          marks = omega (arith, ap (λ l. bit (contains l s)) marks);
          due = λ reached. ap (λ l. contains l s) marks ∙ due (omega arith);
          same_threshold = threshold;
          same_window = window;
          same_start = start;
        },
      )

  -- One call of `observe` that does not roll the window.
  pub observe-Step :
      (now restart : ℕ) (d : WindowedAnomalyDetector fl.F) (event : NetworkEvent)
      (syns : List (List ℕ))
      → now - d.window_start < d.window
      → event.src_ip < 2 ^ 32
      → d.syn_flood_threshold ≤ u32_max
      → InWindow fx d syns
      → Due d syns
      → (r : List Alert × WindowedAnomalyDetector fl.F) × (observe fx fl now restart d event
          ≡ some r)
        × Step d (syns_after syns event) r
  unfolding observe
  observe-Step now restart d event syns early h small v due =
      let (flood, e, st) = watch_flood-Step d event syns h small v due in
      let (scan, e', st') = watch_scan-Step flood.1 event (syns_after syns event) st.valid st.due in
      (
        (flood.0 ++ scan.0, scan.1),
        rw (maybe_roll_window-early now restart d early, e, e'),
        record {
          valid = st'.valid;
          marks = omega (arith, st.marks, st'.marks, count-append (is_flood_of s) flood.0 scan.0);
          due = st'.due;
          same_threshold = st'.same_threshold ∙ st.same_threshold;
          same_window = st'.same_window ∙ st.same_window;
          same_start = st'.same_start ∙ st.same_start;
        },
      )
