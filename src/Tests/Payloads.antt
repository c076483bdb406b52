-- ===== src/Tests/Payloads.antt =====
-- Two workers with queues of four slots, and a payload with the name of the password file.
use telemetry_threat_engine.Base.{
  ℕ, ◌+◌, ◌%◌, ◌^◌, ◌<◌, ◌≤◌, ◌≡◌, ◌⊎◌, refl, some, ◌>>=◌, List, length, count, arith,
}
use telemetry_threat_engine.Base.Text.{codes}
use telemetry_threat_engine.Models.{Alert}
use telemetry_threat_engine.Pipeline.{alert_history_cap}
use telemetry_threat_engine.Pipeline.Store.{newest}
use telemetry_threat_engine.Pipeline.Engine.{Engine, run, new}
use telemetry_threat_engine.Pipeline.Engine.Plan.{arrivals}
use telemetry_threat_engine.Pipeline.Engine.Contents.{in_flight}
use telemetry_threat_engine.Pipeline.Engine.Runs.{new-run_plan}
use telemetry_threat_engine.Pipeline.Engine.Payloads.{carries, is_named}
use telemetry_threat_engine.Api.{alerts}
use telemetry_threat_engine.Api.Payloads.{payloads_reported}
use telemetry_threat_engine.Tests.Parameters.{sums, rounded, searches}
use telemetry_threat_engine.Tests.Engines.{busy_day, busy_day-ActionSettles, power_of_two-4}

abbrev password_file : List ℕ
password_file = codes "/etc/passwd"

abbrev rule_name : List ℕ
rule_name = codes "path-traversal-passwd"

busy_run :
    (engine : Engine ℕ) × ((new searches sums rounded 2 4 7 >>= λ e.
    run searches sums rounded busy_day e)
      ≡ some engine)
busy_run =
    let (engine, ran, r) =
      new-run_plan searches sums rounded 2 4 7 busy_day (omega arith) (omega arith) (omega arith)
        power_of_two-4 busy_day-ActionSettles in
    (engine, ran)

payloads_reported_example :
    (seen : List Alert) × (busy_run.0.state.alerts ≡ newest alert_history_cap seen)
    × (busy_run.0.state.stats.alerts_fired ≡ length seen % 2 ^ 64)
    × (count (carries password_file) (arrivals busy_day)
        ≤ count (is_named rule_name) seen
          + busy_run.0.state.stats.events_dropped
          + in_flight busy_run.0.state.queues)
    × ((5000 < length seen)
        ⊎ (count (is_named rule_name) (alerts (some 5000) busy_run.0.state)
            ≡ count (is_named rule_name) seen))
payloads_reported_example =
    payloads_reported searches sums rounded 2 4 7 0 rule_name password_file busy_day busy_run.0 refl
      refl (omega arith) (omega arith) (omega arith) power_of_two-4 busy_day-ActionSettles
      busy_run.1
