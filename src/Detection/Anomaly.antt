-- ===== src/Detection/Anomaly.antt =====
-- `WindowedAnomalyDetector` of engine/src/detection/anomaly.rs. An `Instant` is a number of
-- nanoseconds on the monotonic clock, and a clock reading is an argument. A `none` is a panic.
pub mod Window
pub mod Flood
pub mod Scans
use telemetry_threat_engine.Base.{
  ℕ, ◌+◌, ◌-◌, ◌*◌, ◌%◌, ◌^◌, Bool, true, false, not, ◌&&◌, List, [], ◌∷◌, ◌++◌, Option, none, some,
  leb, if◌then◌else◌, get_or, insert, contains, ◌>>=◌,
}
use telemetry_threat_engine.Base.Text.{codes, decimal, debug_duration}
use telemetry_threat_engine.Models.{
  NetworkEvent, Alert, Severity, critical, high, anomaly, is_syn, ip_bytes, port_bytes,
  ip_to_string, src_ip_str, dst_ip_str,
}
use telemetry_threat_engine.Detection.Hasher.{FxHasher}
use telemetry_threat_engine.Detection.Float.{Float64}
use telemetry_threat_engine.Detection.CountMin
use telemetry_threat_engine.Detection.CountMin.{CountMinSketch}
use telemetry_threat_engine.Detection.HyperLogLog
use telemetry_threat_engine.Detection.HyperLogLog.{HyperLogLog}

pub record WindowedAnomalyDetector (F : Type 0) : Type 0 where
  pub window : ℕ  -- nanoseconds
  pub window_start : ℕ
  pub syn_counts : CountMinSketch
  pub port_cardinality : List (ℕ × HyperLogLog)
  pub syn_flood_threshold : ℕ
  pub port_scan_threshold : F
  pub alerted_flood_this_window : List ℕ
  pub alerted_scan_this_window : List ℕ
  pub next_id : ℕ

abbrev pub flood_rule : List ℕ
flood_rule = codes "syn-flood-anomaly"

abbrev pub scan_rule : List ℕ
scan_rule = codes "port-scan-anomaly"

module _ {F : Type 0} where
  -- `maybe_roll_window`: `now` is what `elapsed` reads, `restart` the second reading of the clock.
  unfoldable pub maybe_roll_window : ℕ → ℕ → WindowedAnomalyDetector F → WindowedAnomalyDetector F
  unfolding CountMin.clear
  maybe_roll_window now restart d =
      if leb d.window (now - d.window_start)
      then record d {
        syn_counts = CountMin.clear d.syn_counts;
        port_cardinality = [];
        alerted_flood_this_window = [];
        alerted_scan_this_window = [];
        window_start = restart;
      }
      else d

  -- `alert`, and the counter after its `fetch_add`.
  unfoldable pub alert :
      WindowedAnomalyDetector F → NetworkEvent → List ℕ → Severity → List ℕ → Alert
  unfolding src_ip_str dst_ip_str
  alert d event rule severity detail = record {
    id = d.next_id;
    timestamp_ms = event.timestamp_ms;
    rule_name = rule;
    severity = severity;
    src_ip = src_ip_str event;
    dst_ip = dst_ip_str event;
    detail = detail;
    detector = anomaly;
  }

  unfoldable pub id_taken : WindowedAnomalyDetector F → ℕ
  id_taken d = (d.next_id + 1) % 2 ^ 64

  -- The test of the estimate in `observe`, the alert of its branch and the state after it.
  unfoldable pub is_flood : WindowedAnomalyDetector F → NetworkEvent → ℕ → Bool
  is_flood d event est =
      leb d.syn_flood_threshold est && not (contains d.alerted_flood_this_window event.src_ip)

  unfoldable pub flood_alert : WindowedAnomalyDetector F → NetworkEvent → ℕ → Alert
  unfolding alert
  flood_alert d event est = alert d event flood_rule critical (
      codes "source "
      ++ (src_ip_str event
          ++ (codes " sent an estimated "
              ++ (decimal est
                  ++ (codes "+ SYNs within " ++ (debug_duration d.window ++ codes " window"))))))

  unfoldable pub mark_flood : WindowedAnomalyDetector F → NetworkEvent → WindowedAnomalyDetector F
  unfolding id_taken
  mark_flood d event = record d {
    alerted_flood_this_window = event.src_ip ∷ d.alerted_flood_this_window;
    next_id = id_taken d;
  }

  unfoldable pub raise_flood :
      WindowedAnomalyDetector F → NetworkEvent → ℕ → List Alert × WindowedAnomalyDetector F
  raise_flood d event est =
      if is_flood d event est then (flood_alert d event est ∷ [], mark_flood d event) else ([], d)

-- `WindowedAnomalyDetector::new`, at a reading of the clock.
unfoldable pub new : (fl : Float64) → ℕ → ℕ → WindowedAnomalyDetector fl.F
unfolding CountMin.new
new fl window start = record {
  window = window;
  window_start = start;
  syn_counts = CountMin.new 2048 4;
  port_cardinality = [];
  syn_flood_threshold = 50;
  port_scan_threshold = fl.literal 250 1;
  alerted_flood_this_window = [];
  alerted_scan_this_window = [];
  next_id = 1;
}

module _ (fx : FxHasher) (fl : Float64) where
  open fl use {F, ge, show0}

  -- The branch of `observe` for a SYN: the count, the estimate and the test.
  unfoldable pub count_syn :
      WindowedAnomalyDetector F → NetworkEvent → Option (List Alert × WindowedAnomalyDetector F)
  count_syn d event = do
    syn ← CountMin.increment fx d.syn_counts (ip_bytes event.src_ip)
    est ← CountMin.estimate fx syn (ip_bytes event.src_ip)
    some (raise_flood (record d { syn_counts = syn }) event est)

  unfoldable pub watch_flood :
      WindowedAnomalyDetector F → NetworkEvent → Option (List Alert × WindowedAnomalyDetector F)
  watch_flood d event = if is_syn event then count_syn d event else some ([], d)

  -- The test of the cardinality in `observe`, the alert of its branch and the state after it.
  unfoldable pub is_scan : WindowedAnomalyDetector F → NetworkEvent → F → Bool
  is_scan d event distinct =
      ge distinct d.port_scan_threshold && not (contains d.alerted_scan_this_window event.src_ip)

  unfoldable pub scan_alert : WindowedAnomalyDetector F → NetworkEvent → F → Alert
  unfolding alert
  scan_alert d event distinct = alert d event scan_rule high (
      codes "source "
      ++ (src_ip_str event
          ++ (codes " touched an estimated "
              ++ (show0 distinct
                  ++ (codes " distinct destination ports within "
                      ++ (debug_duration d.window ++ codes " window"))))))

  unfoldable pub mark_scan : WindowedAnomalyDetector F → NetworkEvent → WindowedAnomalyDetector F
  unfolding id_taken
  mark_scan d event = record d {
    alerted_scan_this_window = event.src_ip ∷ d.alerted_scan_this_window;
    next_id = id_taken d;
  }

  unfoldable pub raise_scan :
      WindowedAnomalyDetector F → NetworkEvent → F → List Alert × WindowedAnomalyDetector F
  raise_scan d event distinct =
      if is_scan d event distinct
      then (scan_alert d event distinct ∷ [], mark_scan d event)
      else ([], d)

  -- The second half of `observe`: the destination ports.
  unfoldable pub watch_scan :
      WindowedAnomalyDetector F → NetworkEvent → Option (List Alert × WindowedAnomalyDetector F)
  watch_scan d event = do
    hll ←
        HyperLogLog.add fx (get_or d.port_cardinality event.src_ip (HyperLogLog.new 10))
          (port_bytes event.dst_port)
    some (
        raise_scan (record d { port_cardinality = insert d.port_cardinality event.src_ip hll })
          event (HyperLogLog.estimate fl hll))

  -- `observe`, with the readings of the clock in `maybe_roll_window`.
  unfoldable pub observe :
      ℕ
      → ℕ
      → WindowedAnomalyDetector F
      → NetworkEvent
      → Option (List Alert × WindowedAnomalyDetector F)
  observe now restart d event = do
    flood ← watch_flood (maybe_roll_window now restart d) event
    scan ← watch_scan flood.1 event
    some (flood.0 ++ scan.0, scan.1)
