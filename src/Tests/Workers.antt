-- ===== src/Tests/Workers.antt =====
-- A state with two workers: a worker at an event, the alert store, the alerts that are answered,
-- and a token.
use telemetry_threat_engine.Base.{
  ℕ, ◌%◌, ◌^◌, min, ◌≡◌, refl, List, [], ◌∷◌, Option, none, some, length, take, reverse, arith,
}
use telemetry_threat_engine.Base.Text.{codes}
use telemetry_threat_engine.Models.{pos, NetworkEvent, Alert, high, cep}
use telemetry_threat_engine.Queue.{MpmcQueue, new}
use telemetry_threat_engine.Queue.Inv.{Holds, new-Holds}
use telemetry_threat_engine.Pipeline.{
  AppState, alert_history_cap, fetch_inc, record_alerts, Worker, new_worker, handle,
}
use telemetry_threat_engine.Pipeline.Store.{newest, record_alerts-newest}
use telemetry_threat_engine.Pipeline.Handling.{Ready, new_worker-Ready, handle-Ready}
use telemetry_threat_engine.Api.{okay, require_auth, limit_or_default, alerts}
use telemetry_threat_engine.Api.Answers.{alerts-record_alerts}
use telemetry_threat_engine.Tests.Parameters.{sums, rounded, searches, payload_event}

abbrev vacant : MpmcQueue NetworkEvent
vacant = record {
  buffer = record { sequence = 0; value = none } ∷ record { sequence = 1; value = none } ∷ [];
  mask = 1;
  enqueue_pos = 0;
  dequeue_pos = 0;
}

vacant-new : new 2 ≡ some vacant
unfolding new
vacant-new = refl

vacant-Holds : Holds 2 vacant []
vacant-Holds = new-Holds 2 vacant (omega arith) (omega arith) vacant-new

abbrev idle_state : MpmcQueue NetworkEvent → AppState
idle_state q = record {
  queues = q ∷ q ∷ [];
  alerts = [];
  stats = record { events_processed = 0; events_dropped = 0; alerts_fired = 0 };
}

abbrev started : Worker ℕ
started = new_worker searches sums rounded 7

handle-Ready_example :
    (worker' : Worker ℕ) × (state' : AppState) × (handle searches sums rounded 9 10 11 payload_event
        started
        (idle_state vacant)
      ≡ some (worker', state'))
    × Ready sums rounded worker'
    × (state'.stats.events_processed ≡ fetch_inc 0)
    × (state'.stats.events_dropped ≡ 0)
    × (state'.queues ≡ (idle_state vacant).queues)
handle-Ready_example =
    handle-Ready searches sums rounded 9 10 11 payload_event started (idle_state vacant)
      (new_worker-Ready searches sums rounded 7)

abbrev numbered : ℕ → Alert
numbered n = record {
  id = n;
  timestamp_ms = pos 1000;
  rule_name = codes "probe-then-exploit-attempt";
  severity = high;
  src_ip = codes "10.0.0.5";
  dst_ip = codes "192.168.0.1";
  detail = [];
  detector = cep;
}

abbrev three : List Alert
three = numbered 1 ∷ numbered 2 ∷ numbered 3 ∷ []

record_alerts-newest_example :
    ((record_alerts (idle_state vacant) three).alerts ≡ newest alert_history_cap three)
    × ((record_alerts (idle_state vacant) three).stats.alerts_fired ≡ length three % 2 ^ 64)
record_alerts-newest_example = record_alerts-newest (idle_state vacant) three refl refl

alerts-record_alerts_example :
    alerts (some 2) (record_alerts (idle_state vacant) three)
    ≡ take (min (limit_or_default (some 2)) 5000) (reverse three)
alerts-record_alerts_example = alerts-record_alerts (some 2) (idle_state vacant) three refl refl

abbrev default_header : Option (List ℕ)
default_header = some (codes "Bearer dev-token-change-me")

abbrev answer : ℕ
answer = 1

default_header-require_auth : require_auth none default_header answer ≡ okay answer
unfolding require_auth
default_header-require_auth = refl
