-- ===== src/Detection/Anomaly/Flood.antt =====
-- The SYN-flood alerts of engine/src/detection/anomaly.rs within one window, and the marks of the
-- sources that go with them.
pub mod Steps
pub mod Rolls
pub mod Run
use telemetry_threat_engine.Base.{
  ℕ, zero, suc, ◌+◌, ◌-◌, ◌%◌, ◌^◌, ◌≤◌, ◌<◌, min, ◌≡◌, refl, sym, ap, ◌∙◌, ◌⊎◌, Bool, true, false,
  not, ◌&&◌, ◌||◌, List, [], ◌∷◌, ◌++◌, Option, none, some, leb, ◌==◌, if◌then◌else◌, contains,
  ◌>>=◌, All, count, count-append, arith, Bool-cases, inl, inr, ==_iff, ==_refl,
}
use telemetry_threat_engine.Base.Text.{text_eq, text_eq_sound, text_eq_refl}
use telemetry_threat_engine.Models.{NetworkEvent, Alert, is_syn, ip_bytes, ip_to_string, src_ip_str}
use telemetry_threat_engine.Models.Address.{ip_to_string-injective}
use telemetry_threat_engine.Detection.Hasher.{FxHasher}
use telemetry_threat_engine.Detection.Float.{Float64}
use telemetry_threat_engine.Detection.CountMin.{CountMinSketch, u32_max}
use telemetry_threat_engine.Detection.CountMin.Estimate.{occurrences}
use telemetry_threat_engine.Detection.HyperLogLog.{HyperLogLog}
use telemetry_threat_engine.Detection.Anomaly.{
  WindowedAnomalyDetector, flood_rule, scan_rule, maybe_roll_window, alert, is_flood, flood_alert,
  mark_flood, raise_flood, count_syn, watch_flood, is_scan, scan_alert, mark_scan, raise_scan,
  watch_scan, observe, new,
}
use telemetry_threat_engine.Detection.Anomaly.Window.{
  InWindow, new-InWindow, raise_flood-InWindow, count_syn-InWindow, raise_scan-InWindow,
  watch_scan-InWindow,
}

abbrev pub bit : Bool → ℕ
bit b = if b then 1 else 0

-- A SYN-flood alert about the source `s`.
abbrev pub is_flood_of : ℕ → Alert → Bool
is_flood_of s a = text_eq a.rule_name flood_rule && text_eq a.src_ip (ip_to_string s)

ip_bytes-injective : (a b : ℕ) → a < 2 ^ 32 → b < 2 ^ 32 → ip_bytes a ≡ ip_bytes b → a ≡ b
unfolding ip_bytes
ip_bytes-injective a b ha hb e = ground arith

pub text_eq-ip_to_string :
    (a b : ℕ) → a < 2 ^ 32 → b < 2 ^ 32 → text_eq (ip_to_string a) (ip_to_string b) ≡ (a == b)
text_eq-ip_to_string a b ha hb = elim (Bool-cases (text_eq (ip_to_string a) (ip_to_string b))) [
  | inl same ↦
      same ∙ sym ((==_iff a b).1 (ip_to_string-injective a b ha hb (text_eq_sound _ _ same)))
  | inr other ↦ elim (Bool-cases (a == b)) [
    | inl e ↦ cc (
      text_eq_refl (ip_to_string a),
      ap (λ x. text_eq (ip_to_string a) (ip_to_string x)) ((==_iff a b).0 e),
    )
    | inr ne ↦ other ∙ sym ne
  ]
]

text_eq-ip_bytes :
    (a b : ℕ) → a < 2 ^ 32 → b < 2 ^ 32 → text_eq (ip_bytes a) (ip_bytes b) ≡ (a == b)
text_eq-ip_bytes a b ha hb = elim (Bool-cases (text_eq (ip_bytes a) (ip_bytes b))) [
  | inl same ↦ same ∙ sym ((==_iff a b).1 (ip_bytes-injective a b ha hb (text_eq_sound _ _ same)))
  | inr other ↦ elim (Bool-cases (a == b)) [
    | inl e ↦
        cc (
          text_eq_refl (ip_bytes a),
          ap (λ x. text_eq (ip_bytes a) (ip_bytes x)) ((==_iff a b).0 e),
        )
    | inr ne ↦ other ∙ sym ne
  ]
]

-- One more source is marked.
pub new_mark :
    (marked : List ℕ) (a s : ℕ)
    → contains marked a ≡ false
    → bit (a == s) + 0 + bit (contains marked s) ≡ bit ((a == s) || contains marked s)
new_mark marked a s free = elim (Bool-cases (a == s)) [
  | inl same ↦ rw (same, sym (ap (contains marked) ((==_iff a s).0 same)) ∙ free)
  | inr other ↦ rw other (omega arith)
]

module _ (fx : FxHasher) (fl : Float64) (s : ℕ) (source : s < 2 ^ 32) where
  is_flood_of-flood_alert :
      (d : WindowedAnomalyDetector fl.F) (event : NetworkEvent) (est : ℕ)
      → event.src_ip < 2 ^ 32
      → is_flood_of s (flood_alert d event est) ≡ (event.src_ip == s)
  unfolding flood_alert src_ip_str
  is_flood_of-flood_alert d event est h = text_eq-ip_to_string event.src_ip s h source

  is_flood_of-scan_alert :
      (d : WindowedAnomalyDetector fl.F) (event : NetworkEvent) (distinct : fl.F)
      → is_flood_of s (scan_alert fx fl d event distinct) ≡ false
  unfolding scan_alert
  is_flood_of-scan_alert d event distinct = refl

  unmarked :
      (d : WindowedAnomalyDetector fl.F) (event : NetworkEvent) (est : ℕ)
      → is_flood d event est ≡ true
      → contains d.alerted_flood_this_window event.src_ip ≡ false
  unfolding is_flood
  unmarked d event est fires = ground arith

  -- Each alert about a source goes with its mark.
  raise_flood-marks :
      (d : WindowedAnomalyDetector fl.F) (event : NetworkEvent) (est : ℕ)
      → event.src_ip < 2 ^ 32
      → let (alerts, d') = raise_flood d event est in
        count (is_flood_of s) alerts + bit (contains d.alerted_flood_this_window s)
        ≡ bit (contains d'.alerted_flood_this_window s)
  unfolding raise_flood mark_flood is_flood
  raise_flood-marks d event est h = elim (Bool-cases (is_flood d event est)) [
    | inl fires ↦ rw fires (
        rw (is_flood_of-flood_alert d event est h)
          (new_mark d.alerted_flood_this_window event.src_ip s (unmarked d event est fires)))
    | inr quiet ↦ rw quiet (omega arith)
  ]

  raise_scan-marks :
      (d : WindowedAnomalyDetector fl.F) (event : NetworkEvent) (distinct : fl.F)
      → let (alerts, d') = raise_scan fx fl d event distinct in
        (count (is_flood_of s) alerts ≡ 0)
        × (d'.alerted_flood_this_window ≡ d.alerted_flood_this_window)
        × (d'.syn_flood_threshold ≡ d.syn_flood_threshold)
        × (d'.window ≡ d.window)
        × (d'.window_start ≡ d.window_start)
  unfolding raise_scan mark_scan
  raise_scan-marks d event distinct = elim (Bool-cases (is_scan fx fl d event distinct)) [
    | inl fires ↦ rw (fires, is_flood_of-scan_alert d event distinct) (refl, refl, refl, refl, refl)
    | inr quiet ↦ rw quiet (refl, refl, refl, refl, refl)
  ]

  raise_flood-same :
      (d : WindowedAnomalyDetector fl.F) (event : NetworkEvent) (est : ℕ)
      → let d' = (raise_flood d event est).1 in
        (d'.syn_flood_threshold ≡ d.syn_flood_threshold)
        × (d'.window ≡ d.window)
        × (d'.window_start ≡ d.window_start)
  unfolding raise_flood mark_flood
  raise_flood-same d event est = elim (Bool-cases (is_flood d event est)) [
    | inl fires ↦ rw fires (refl, refl, refl)
    | inr quiet ↦ rw quiet (refl, refl, refl)
  ]

  -- A source with an estimate at the threshold is marked after the test, and marks stay.
  raise_flood-marked :
      (d : WindowedAnomalyDetector fl.F) (event : NetworkEvent) (est : ℕ)
      → (contains d.alerted_flood_this_window s ≡ true)
        ⊎ ((event.src_ip ≡ s) × (d.syn_flood_threshold ≤ est))
      → contains (raise_flood d event est).1.alerted_flood_this_window s ≡ true
  unfolding raise_flood mark_flood is_flood
  raise_flood-marked d event est (inl old) = elim (Bool-cases (is_flood d event est)) [
    | inl fires ↦ rw fires (ground arith)
    | inr quiet ↦ rw quiet old
  ]
  raise_flood-marked d event est (inr (same, reached)) = elim (Bool-cases (is_flood d event est)) [
    | inl fires ↦ rw fires (ground arith)
    | inr quiet ↦ rw quiet (ground (arith, ap (contains d.alerted_flood_this_window) same))
  ]
