-- ===== src/Detection/Anomaly/Window.antt =====
-- The state of the anomaly detector of engine/src/detection/anomaly.rs within a window: what its
-- Count-Min sketch and its HyperLogLogs count.
use telemetry_threat_engine.Base.{
  ℕ, ◌-◌, ◌≤◌, ◌<◌, min, ◌≡◌, refl, false, List, [], ◌∷◌, some, leb, ◌==◌, get_or, insert, arith,
  Bool-cases, inl, inr, le→leb,
}
use telemetry_threat_engine.Models.{NetworkEvent, ip_bytes, port_bytes}
use telemetry_threat_engine.Detection.Hasher.{FxHasher}
use telemetry_threat_engine.Detection.Float.{Float64}
use telemetry_threat_engine.Detection.CountMin.{CountMinSketch, u32_max}
use telemetry_threat_engine.Detection.CountMin.Counts.{
  Counts, new-Counts, increment-Counts, clear-Counts,
}
use telemetry_threat_engine.Detection.CountMin.Estimate.{occurrences, estimate_bounds}
use telemetry_threat_engine.Detection.HyperLogLog
use telemetry_threat_engine.Detection.HyperLogLog.{HyperLogLog}
use telemetry_threat_engine.Detection.HyperLogLog.Ranks.{Ranks, new-Ranks, add-Ranks}
use telemetry_threat_engine.Detection.Anomaly.{
  WindowedAnomalyDetector, maybe_roll_window, is_flood, mark_flood, raise_flood, count_syn, is_scan,
  mark_scan, raise_scan, watch_scan, new,
}

module _ {ℓ κ} {V : Type ℓ} (P : V → Type κ) where
  abbrev pub AllValues : List (ℕ × V) → Type κ
  AllValues [] = Unit
  AllValues ((k, v) ∷ m) = P v × AllValues m

  pub get_or-AllValues : (m : List (ℕ × V)) (k : ℕ) (d : V) → AllValues m → P d → P (get_or m k d)
  get_or-AllValues [] k d a p = p
  get_or-AllValues ((j, v) ∷ m) k d a p = elim (Bool-cases (j == k)) [
    | inl here ↦ rw here a.0
    | inr there ↦ rw there (get_or-AllValues m k d a.1 p)
  ]

  pub insert-AllValues :
      (m : List (ℕ × V)) (k : ℕ) (v : V) → AllValues m → P v → AllValues (insert m k v)
  insert-AllValues [] k v a p = (p, tt)
  insert-AllValues ((j, w) ∷ m) k v a p = elim (Bool-cases (j == k)) [
    | inl here ↦ rw here (p, a.1)
    | inr there ↦ rw there (a.0, insert-AllValues m k v a.1 p)
  ]

module _ (fx : FxHasher) {F : Type 0} where
  -- `syns` are the keys of the SYNs of the window, the newest first.
  pub record InWindow (d : WindowedAnomalyDetector F) (syns : List (List ℕ)) : Type 0 where
    pub counted : Counts fx d.syn_counts syns
    pub deep : 0 < d.syn_counts.depth
    pub ports : AllValues (λ hll. (keys : List (List ℕ)) × Ranks fx 10 hll keys) d.port_cardinality

pub new-InWindow :
    (fx : FxHasher) (fl : Float64) (window start : ℕ) → InWindow fx (new fl window start) []
unfolding new
new-InWindow fx fl window start = record {
  counted = new-Counts fx 2048 4 (omega arith);
  deep = omega arith;
  ports = tt;
}

-- The window does not roll before its end, and a rolled window starts empty.
pub maybe_roll_window-early :
    {F : Type 0} (now restart : ℕ) (d : WindowedAnomalyDetector F)
    → now - d.window_start < d.window
    → maybe_roll_window now restart d ≡ d
unfolding maybe_roll_window
maybe_roll_window-early now restart d early = rw late
  where
    late : leb d.window (now - d.window_start) ≡ false
    late = ground arith

-- Once the window's length has passed, `maybe_roll_window` starts the next window at the second clock
-- reading: the Count-Min sketch counts no key, no source has a HyperLogLog or is marked as alerted,
-- and the alert number goes on. The condition is that the sketches were well-formed.
pub maybe_roll_window-late :
    (fx : FxHasher) {F : Type 0} (now restart : ℕ) (d : WindowedAnomalyDetector F)
    (syns : List (List ℕ))
    → InWindow fx d syns
    → d.window ≤ now - d.window_start
    → let d' = maybe_roll_window now restart d in
      InWindow fx d' []
      × (d'.window_start ≡ restart)
      × (d'.alerted_flood_this_window ≡ [])
      × (d'.alerted_scan_this_window ≡ [])
      × (d'.port_cardinality ≡ [])
      × (d'.next_id ≡ d.next_id)
unfolding maybe_roll_window
maybe_roll_window-late fx now restart d syns h reached =
    rw (le→leb d.window (now - d.window_start) reached) (
      record { counted = clear-Counts fx d.syn_counts syns h.counted; deep = h.deep; ports = tt },
      refl,
      refl,
      refl,
      refl,
      refl,
    )

module _ (fx : FxHasher) (fl : Float64) where
  pub raise_flood-InWindow :
      (d : WindowedAnomalyDetector fl.F) (event : NetworkEvent) (est : ℕ) (syns : List (List ℕ))
      → InWindow fx d syns
      → InWindow fx (raise_flood d event est).1 syns
  unfolding raise_flood mark_flood
  raise_flood-InWindow d event est syns h = elim (Bool-cases (is_flood d event est)) [
    | inl fires ↦ rw fires (record { counted = h.counted; deep = h.deep; ports = h.ports })
    | inr quiet ↦ rw quiet h
  ]

  -- A SYN is counted, and the estimate is at least the number of SYNs of its source.
  pub count_syn-InWindow :
      (d : WindowedAnomalyDetector fl.F) (event : NetworkEvent) (syns : List (List ℕ))
      → InWindow fx d syns
      → let key = ip_bytes event.src_ip in
        (syn : CountMinSketch) × (est : ℕ) × (count_syn fx fl d event
          ≡ some (raise_flood (record d { syn_counts = syn }) event est))
        × (min u32_max (occurrences key (key ∷ syns)) ≤ est)
        × InWindow fx (record d { syn_counts = syn }) (key ∷ syns)
  unfolding count_syn
  count_syn-InWindow d event syns h =
      let key = ip_bytes event.src_ip in
      let (syn, e, t, depth, _, _) = increment-Counts fx d.syn_counts syns key h.counted in
      let (est, e', ge, le) = estimate_bounds fx syn (key ∷ syns) key t (omega (arith, h.deep)) in
      (
        syn,
        est,
        rw (e, e'),
        ge,
        record { counted = t; deep = omega (arith, h.deep); ports = h.ports },
      )

  pub raise_scan-InWindow :
      (d : WindowedAnomalyDetector fl.F) (event : NetworkEvent) (distinct : fl.F)
      (syns : List (List ℕ))
      → InWindow fx d syns
      → InWindow fx (raise_scan fx fl d event distinct).1 syns
  unfolding raise_scan mark_scan
  raise_scan-InWindow d event distinct syns h = elim (Bool-cases (is_scan fx fl d event distinct)) [
    | inl fires ↦ rw fires (record { counted = h.counted; deep = h.deep; ports = h.ports })
    | inr quiet ↦ rw quiet h
  ]

  -- The ports are counted, and nothing that the SYN count reads is touched.
  pub watch_scan-InWindow :
      (d : WindowedAnomalyDetector fl.F) (event : NetworkEvent) (syns : List (List ℕ))
      → InWindow fx d syns
      → (distinct : fl.F) × (ports : List (ℕ × HyperLogLog)) × (watch_scan fx fl d event
          ≡ some (raise_scan fx fl (record d { port_cardinality = ports }) event distinct))
        × InWindow fx (record d { port_cardinality = ports }) syns
  unfolding watch_scan
  watch_scan-InWindow d event syns h =
      let P : HyperLogLog → Type 0 = λ hll. (keys : List (List ℕ)) × Ranks fx 10 hll keys in
      let old = get_or d.port_cardinality event.src_ip (HyperLogLog.new 10) in
      let (keys, ranks) =
        get_or-AllValues P d.port_cardinality event.src_ip (HyperLogLog.new 10) h.ports
          ([], new-Ranks fx 10 (omega arith)) in
      let (hll, e, ranks') =
        add-Ranks fx 10 (omega arith) (omega arith) old keys (port_bytes event.dst_port) ranks in
      (
        HyperLogLog.estimate fl hll,
        insert d.port_cardinality event.src_ip hll,
        rw e,
        record {
          counted = h.counted;
          deep = h.deep;
          ports =
              insert-AllValues P d.port_cardinality event.src_ip hll h.ports
                (port_bytes event.dst_port ∷ keys, ranks');
        },
      )
