-- ===== src/Tests/Launches.antt =====
-- The program takes a batch and routes three of its events, and each worker wakes up once.
use telemetry_threat_engine.Base.{
  ℕ, ◌+◌, ◌≡◌, false, true, List, [], ◌∷◌, ◌++◌, some, length, All, count, ◌/◌, ◌≤◌, ◌<◌, ◌⊎◌,
  ◌>>=◌, arith,
}
use telemetry_threat_engine.Base.Text.{codes}
use telemetry_threat_engine.Models.{NetworkEvent, Alert}
use telemetry_threat_engine.Pipeline.{alert_history_cap}
use telemetry_threat_engine.Pipeline.Store.{newest}
use telemetry_threat_engine.Pipeline.Engine.Payloads.{is_named}
use telemetry_threat_engine.Api.{alerts}
use telemetry_threat_engine.Main.Exploits.{launch-exploits}
use telemetry_threat_engine.Pipeline.Engine as Live
use telemetry_threat_engine.Pipeline.Engine.{Engine, Action, run}
use telemetry_threat_engine.Pipeline.Engine.Plan.{arrivals}
use telemetry_threat_engine.Pipeline.Engine.Contents.{in_flight}
use telemetry_threat_engine.Main.{worker_count, queue_capacity}
use telemetry_threat_engine.Main.Program.{Program, Turn, produce, consume, turns, launch, batches}
use telemetry_threat_engine.Main.Came.{TurnSettles}
use telemetry_threat_engine.Main.Serves.{launch-turns}
use telemetry_threat_engine.Tests.Parameters.{sums, rounded, searches}
use telemetry_threat_engine.Tests.Traffic.{counting, counting-after_epoch}

abbrev morning : List Turn
morning =
    produce (false ∷ [])
    ∷ produce (false ∷ [])
    ∷ consume 2 (false ∷ []) 8 9 10
    ∷ produce (true ∷ false ∷ [])
    ∷ consume 0 (false ∷ []) 11 12 13
    ∷ consume 1 (false ∷ []) 14 15 16
    ∷ produce (false ∷ [])
    ∷ consume 3 (false ∷ []) 17 18 19
    ∷ []

morning-TurnSettles : All TurnSettles morning
morning-TurnSettles = (tt, (tt, (tt, (tt, (tt, (tt, (tt, (tt, tt))))))))

launch-turns_example :
    (p : Program ℕ ℕ) × (n : ℕ) × (events : List NetworkEvent) × (actions : List Action) × ((launch
          counting searches sums rounded 7
        >>= λ p. turns counting searches sums rounded morning p)
      ≡ some p)
    × (batches counting n ≡ some (events, p.simulator))
    × (arrivals actions ++ p.pending ≡ events)
    × ((Live.new searches sums rounded worker_count queue_capacity 7 >>= λ e.
          run searches sums rounded actions e)
        ≡ some p.engine)
    × (p.engine.state.stats.events_processed
          + p.engine.state.stats.events_dropped
          + in_flight p.engine.state.queues
          + length p.pending
        ≡ length events)
launch-turns_example =
    launch-turns counting counting-after_epoch searches sums rounded 7 morning (omega arith)
      morning-TurnSettles

launch-exploits_example :
    (p : Program ℕ ℕ) × (n : ℕ) × (events : List NetworkEvent) × (seen : List Alert) × ((launch
          counting searches sums rounded 7
        >>= λ p. turns counting searches sums rounded morning p)
      ≡ some p)
    × (batches counting n ≡ some (events, p.simulator))
    × (p.engine.state.alerts ≡ newest alert_history_cap seen)
    × (n / 733 + n / 900
        ≤ count (is_named (codes "path-traversal-passwd")) seen
          + p.engine.state.stats.events_dropped
          + in_flight p.engine.state.queues
          + length p.pending)
    × ((5000 < length seen)
        ⊎ (count (is_named (codes "path-traversal-passwd")) (alerts (some 5000) p.engine.state)
            ≡ count (is_named (codes "path-traversal-passwd")) seen))
launch-exploits_example =
    launch-exploits counting counting-after_epoch searches sums rounded 7 morning (omega arith)
      morning-TurnSettles
