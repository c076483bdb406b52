-- ===== src/Pipeline.antt =====
-- engine/src/pipeline.rs: the shared state of the engine, the producer's routing of an event, and the
-- step of a worker at an event. A `none` is a panic. The three counters are u64 values.
pub mod Store
pub mod Routing
pub mod Handling
pub mod Handled
pub mod Engine
use telemetry_threat_engine.Base.{
  ℕ, ◌+◌, ◌*◌, ◌%◌, ◌^◌, Bool, List, [], ◌∷◌, ◌++◌, Option, none, some, ltb, ◌==◌, if◌then◌else◌,
  length, drop, replicate, get_elem?, set, ◌>>=◌,
}
use telemetry_threat_engine.Models.{NetworkEvent, Alert, shard_key}
use telemetry_threat_engine.Queue.{
  MpmcQueue, Outcome, done, panic, running, PushResult, ok, err, push,
}
use telemetry_threat_engine.Queue
use telemetry_threat_engine.Detection.Hasher.{FxHasher}
use telemetry_threat_engine.Detection.Float.{Float64}
use telemetry_threat_engine.Detection.Signature
use telemetry_threat_engine.Detection.Signature.{AhoCorasick, SignatureDetector, scan}
use telemetry_threat_engine.Detection.Anomaly
use telemetry_threat_engine.Detection.Anomaly.{WindowedAnomalyDetector, observe}
use telemetry_threat_engine.Detection.Cep
use telemetry_threat_engine.Detection.Cep.{CepEngine, process}

pub record Stats : Type 0 where
  pub events_processed : ℕ
  pub events_dropped : ℕ
  pub alerts_fired : ℕ

abbrev pub alert_history_cap : ℕ
alert_history_cap = 5000

pub record AppState : Type 0 where
  pub queues : List (MpmcQueue NetworkEvent)
  pub alerts : List Alert  -- the oldest first
  pub stats : Stats

-- `fetch_add(1)` at a u64.
abbrev pub fetch_inc : ℕ → ℕ
fetch_inc n = (n + 1) % 2 ^ 64

-- `AppState::new`; `none` is the failed assertion of a queue.
unfoldable pub new : ℕ → ℕ → Option AppState
new worker_count queue_capacity =
    if worker_count == 0
    then some (record {
      queues = [];
      alerts = [];
      stats = record { events_processed = 0; events_dropped = 0; alerts_fired = 0 };
    })
    else (Queue.new queue_capacity >>= λ q. some (record {
      queues = replicate worker_count q;
      alerts = [];
      stats = record { events_processed = 0; events_dropped = 0; alerts_fired = 0 };
    }))

-- `push_back`, and `pop_front` of what is over the cap.
unfoldable pub remember : List Alert → Alert → List Alert
remember alerts alert =
    let longer = alerts ++ alert ∷ [] in
    if ltb alert_history_cap (length longer) then drop 1 longer else longer

-- `record_alert`.
unfoldable pub record_alert : AppState → Alert → AppState
unfolding remember
record_alert state alert = record state {
  alerts = remember state.alerts alert;
  stats = record state.stats { alerts_fired = fetch_inc state.stats.alerts_fired };
}

-- A loop of `record_alert` over the alerts of a detector.
unfoldable pub record_alerts : AppState → List Alert → AppState
unfolding record_alert
record_alerts state [] = state
record_alerts state (alert ∷ alerts) = record_alerts (record_alert state alert) alerts

-- The state after the push of an event to the queue of a shard.
unfoldable pub after_push :
    AppState → ℕ → PushResult NetworkEvent × MpmcQueue NetworkEvent → AppState
after_push state shard (ok, q) = record state { queues = set state.queues shard q }
after_push state shard (err dropped, q) = record state {
  queues = set state.queues shard q;
  stats = record state.stats { events_dropped = fetch_inc state.stats.events_dropped };
}

-- The body of the producer's loop: an event goes to the queue of its shard, or is counted as dropped.
unfoldable pub route : List Bool → NetworkEvent → AppState → Outcome AppState
unfolding push after_push
route rounds event state =
    let shard = shard_key event % length state.queues in
    if length state.queues == 0 then panic else elim (get_elem? state.queues shard) [
      | none ↦ panic
      | some q ↦ elim (push rounds event q) [
        | done r ↦ done (after_push state shard r)
        | panic ↦ panic
        | running ↦ running
      ]
    ]

-- The detectors of a worker.
pub record Worker (F : Type 0) : Type 0 where
  pub signatures : SignatureDetector
  pub anomalies : WindowedAnomalyDetector F
  pub sequences : CepEngine

module _ (ac : AhoCorasick) (fx : FxHasher) (fl : Float64) where
  -- What `spawn_workers` makes for a worker, at a reading of the clock.
  unfoldable pub new_worker : ℕ → Worker fl.F
  unfolding Anomaly.new
  new_worker start = record {
    signatures = Signature.with_default_rules;
    anomalies = Anomaly.new fl (5 * 10 ^ 9) start;
    sequences = Cep.with_default_rules;
  }

  -- The branch of a worker's loop for an event, with the clock readings of the detectors.
  unfoldable pub handle :
      ℕ → ℕ → ℕ → NetworkEvent → Worker fl.F → AppState → Option (Worker fl.F × AppState)
  unfolding scan observe process record_alerts
  handle now restart cep_now event worker state = do
    let counted = record state {
      stats = record state.stats { events_processed = fetch_inc state.stats.events_processed };
    }
    by_signature ← scan ac worker.signatures event
    by_count ← observe fx fl now restart worker.anomalies event
    by_sequence ← process cep_now worker.sequences event
    some (
      record { signatures = by_signature.1; anomalies = by_count.1; sequences = by_sequence.1 },
      record_alerts (record_alerts (record_alerts counted by_signature.0) by_count.0) by_sequence.0,
    )
