-- ===== src/Tests/Traffic.antt =====
-- The simulator with a counter for the random numbers, and a clock that starts after the epoch.
use telemetry_threat_engine.Base.{
  ℕ, suc, ◌+◌, ◌-◌, ◌%◌, ◌≤◌, ◌<◌, ◌≡◌, refl, true, false, List, [], ◌∷◌, ◌++◌, some, length, count,
  All, ltb, if◌then◌else◌, ◌>>=◌, arith, ap,
}
use telemetry_threat_engine.Models.{NetworkEvent, Alert}
use telemetry_threat_engine.Detection.Anomaly.{WindowedAnomalyDetector, new}
use telemetry_threat_engine.Detection.Anomaly.Flood.{is_flood_of}
use telemetry_threat_engine.Detection.Anomaly.Flood.Run.{run}
use telemetry_threat_engine.Detection.Cep.{default_rule, process_rule}
use telemetry_threat_engine.Detection.Cep.TwoSteps.{waiting}
use telemetry_threat_engine.Ingestion.{Environment, Simulator, next_batch}
use telemetry_threat_engine.Ingestion.Shapes.{Valid, IsInside, Batch}
use telemetry_threat_engine.Ingestion.Batches.{next_batch-Batch}
use telemetry_threat_engine.Ingestion.Sizes.{next_batch-Valid}
use telemetry_threat_engine.Ingestion.Attacks.{ticks_at, next_batch-flood}
use telemetry_threat_engine.Ingestion.Sequences.{next_batch-sequence}
use telemetry_threat_engine.Pipeline.Engine as Live
use telemetry_threat_engine.Pipeline.Engine.{Engine, Action, arrive, wake}
use telemetry_threat_engine.Pipeline.Engine.Plan.{arrivals}
use telemetry_threat_engine.Pipeline.Engine.Contents.{in_flight}
use telemetry_threat_engine.Pipeline.Engine.Refines.{ActionSettles}
use telemetry_threat_engine.Main.{worker_count, queue_capacity, first_batch}
use telemetry_threat_engine.Tests.Parameters.{sums, rounded, searches}

abbrev pub counted : ℕ → ℕ → ℕ → ℕ × ℕ
counted lo hi rng = ((if ltb lo hi then lo + rng % (hi - lo) else 0), suc rng)

pub counted_in :
    (lo hi rng : ℕ) → lo < hi → (lo ≤ (counted lo hi rng).0) × ((counted lo hi rng).0 < hi)
counted_in lo hi rng below = ground arith

abbrev pub counting : Environment
counting = record {
  Rng = ℕ;
  thread_rng = 0;
  gen_range = counted;
  gen_range_in = counted_in;
  clock = λ i. some (1700000000000 + i);
}

pub counting-after_epoch : (i : ℕ) → (ms : ℕ) × (counting.clock i ≡ some ms)
counting-after_epoch i = (1700000000000 + i, refl)

abbrev before_tick : ℕ → Simulator ℕ
before_tick n = record { rng = 3; tick = n; readings = 8 }

next_batch-Batch_example :
    (events : List NetworkEvent) × (sim' : Simulator ℕ) × (next_batch counting (before_tick 4499)
      ≡ some (events, sim'))
    × (sim'.tick ≡ 4500)
    × Batch 4500 events
next_batch-Batch_example = next_batch-Batch counting counting-after_epoch (before_tick 4499)

next_batch-Valid_example :
    (events : List NetworkEvent) × (sim' : Simulator ℕ) × (next_batch counting (before_tick 499)
      ≡ some (events, sim'))
    × (20 ≤ length events)
    × (length events ≤ 181)
    × All Valid events
next_batch-Valid_example = next_batch-Valid counting counting-after_epoch (before_tick 499)

abbrev at_once : ℕ → ℕ
at_once i = 100

next_batch-flood_example :
    (events : List NetworkEvent) × (sim' : Simulator ℕ) × (s : ℕ) × (next_batch counting
        (before_tick 499)
      ≡ some (events, sim'))
    × IsInside s
    × (r : List Alert × WindowedAnomalyDetector ℕ) × (run sums rounded
          (new rounded 1000 7)
          (ticks_at at_once at_once 0 events)
        ≡ some r)
    × (count (is_flood_of s) r.0 ≡ 1)
next_batch-flood_example =
    next_batch-flood counting counting-after_epoch sums rounded 1000 7 at_once at_once
      (before_tick 499) (λ j. omega arith) refl

next_batch-sequence_example :
    (events : List NetworkEvent) × (sim' : Simulator ℕ) × (before : List NetworkEvent)
    × (after : List NetworkEvent) × (probe : NetworkEvent) × (exploit : NetworkEvent) × (next_batch
          counting
          (before_tick 899)
        ≡ some (events, sim'))
    × (events ≡ before ++ (probe ∷ exploit ∷ after))
    × (probe.src_ip ≡ exploit.src_ip)
    × ((process_rule 6000 exploit default_rule
          (process_rule 5000 probe default_rule (waiting (4000 ∷ []))).1).0
        ≡ true)
next_batch-sequence_example =
    next_batch-sequence counting counting-after_epoch 5000 6000 (4000 ∷ []) (before_tick 899)
      (omega arith) refl

-- The producer routes the events of the first batch, and then every worker wakes up.
abbrev routing : List NetworkEvent → List Action
routing [] =
    wake 0 (false ∷ []) 8 9 10
    ∷ wake 1 (false ∷ []) 8 9 10
    ∷ wake 2 (false ∷ []) 8 9 10
    ∷ wake 3 (false ∷ []) 8 9 10
    ∷ []
routing (e ∷ events) = arrive (false ∷ []) e ∷ routing events

routing-arrivals : (events : List NetworkEvent) → arrivals (routing events) ≡ events
routing-arrivals [] = refl
routing-arrivals (e ∷ events) = ap (λ l. e ∷ l) (routing-arrivals events)

routing-length : (events : List NetworkEvent) → length (routing events) ≡ length events + 4
routing-length [] = refl
routing-length (e ∷ events) = omega (arith, routing-length events)

routing-ActionSettles : (events : List NetworkEvent) → All ActionSettles (routing events)
routing-ActionSettles [] = (tt, (tt, (tt, (tt, tt))))
routing-ActionSettles (e ∷ events) = (tt, routing-ActionSettles events)

first_made :
    (events : List NetworkEvent) × (sim' : Simulator ℕ) × (next_batch counting (before_tick 0)
      ≡ some (events, sim'))
    × (20 ≤ length events)
    × (length events ≤ 181)
    × All Valid events
first_made = next_batch-Valid counting counting-after_epoch (before_tick 0)

first_batch_example :
    (engine : Engine ℕ) × ((Live.new searches sums rounded worker_count queue_capacity 7 >>= λ e.
    Live.run searches sums rounded (routing first_made.0) e)
      ≡ some engine)
    × (engine.state.stats.events_dropped ≡ 0)
    × (engine.state.stats.events_processed + in_flight engine.state.queues ≡ length first_made.0)
    × (20 ≤ length first_made.0)
    × (length first_made.0 ≤ 181)
first_batch_example =
    first_batch counting counting-after_epoch searches sums rounded 7 (before_tick 0) first_made.1
      first_made.0 (routing first_made.0) first_made.2 (routing-arrivals first_made.0)
      (omega (arith, first_made.4, routing-length first_made.0))
      (routing-ActionSettles first_made.0)
