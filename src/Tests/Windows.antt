-- ===== src/Tests/Windows.antt =====
-- A window with fifty SYNs, and the roll at its end.
use telemetry_threat_engine.Base.{
  ℕ, zero, suc, ◌≤◌, ◌≡◌, List, [], some, replicate, count, All, arith,
}
use telemetry_threat_engine.Models.{Alert, is_syn}
use telemetry_threat_engine.Detection.Anomaly.{WindowedAnomalyDetector, new, maybe_roll_window}
use telemetry_threat_engine.Detection.Anomaly.Window.{
  InWindow, new-InWindow, maybe_roll_window-late,
}
use telemetry_threat_engine.Detection.Anomaly.Flood.{is_flood_of}
use telemetry_threat_engine.Detection.Anomaly.Flood.Run.{
  Tick, InTime, syn_count, run, run-flood_once, run-flood_raised,
}
use telemetry_threat_engine.Detection.Anomaly.Scans.{is_scan_of, run-scan_once}
use telemetry_threat_engine.Tests.Parameters.{sums, rounded, syn_event}

abbrev tick : Tick
tick = record { now = 100; restart = 101; event = syn_event }

-- Fifty SYNs within a window of 1000 nanoseconds that starts at 7.
abbrev fifty : List Tick
fifty = replicate 50 tick

replicate-InTime : (n : ℕ) → All (InTime 1000 7) (replicate n tick)
replicate-InTime zero = tt
replicate-InTime (suc n) = ((omega arith, omega arith), replicate-InTime n)

fifty-syn_count : 50 ≤ syn_count 0x0A000005 fifty
unfolding is_syn
fifty-syn_count = omega arith

run-flood_once_example :
    (r : List Alert × WindowedAnomalyDetector ℕ) × (run sums rounded (new rounded 1000 7) fifty
      ≡ some r)
    × (count (is_flood_of 0x0A000005) r.0 ≤ 1)
run-flood_once_example =
    run-flood_once sums rounded 1000 7 0x0A000005 fifty (omega arith) (replicate-InTime 50)

run-scan_once_example :
    (r : List Alert × WindowedAnomalyDetector ℕ) × (run sums rounded (new rounded 1000 7) fifty
      ≡ some r)
    × (count (is_scan_of 0x0A000005) r.0 ≤ 1)
run-scan_once_example =
    run-scan_once sums rounded 1000 7 0x0A000005 fifty (omega arith) (replicate-InTime 50)

run-flood_raised_example :
    (r : List Alert × WindowedAnomalyDetector ℕ) × (run sums rounded (new rounded 1000 7) fifty
      ≡ some r)
    × (count (is_flood_of 0x0A000005) r.0 ≡ 1)
run-flood_raised_example =
    run-flood_raised sums rounded 1000 7 0x0A000005 fifty (omega arith) (replicate-InTime 50)
      fifty-syn_count

maybe_roll_window-late_example :
    let d = new rounded 1000 7 in
    let d' = maybe_roll_window 1500 1501 d in
    InWindow sums d' []
    × (d'.window_start ≡ 1501)
    × (d'.alerted_flood_this_window ≡ [])
    × (d'.alerted_scan_this_window ≡ [])
    × (d'.port_cardinality ≡ [])
    × (d'.next_id ≡ d.next_id)
unfolding new
maybe_roll_window-late_example =
    maybe_roll_window-late sums 1500 1501 (new rounded 1000 7) [] (new-InWindow sums rounded 1000 7)
      (omega arith)
