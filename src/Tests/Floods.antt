-- ===== src/Tests/Floods.antt =====
-- One worker with a queue of 128 slots: after an event in its first window, 99 SYNs of one source
-- arrive, and the worker wakes up 99 times, ten seconds after its start.
use telemetry_threat_engine.Base.{
  ℕ, ◌%◌, ◌^◌, ◌<◌, ◌≤◌, ◌≡◌, ◌∙◌, ◌⊎◌, refl, true, false, List, [], ◌∷◌, ◌++◌, some, length,
  replicate, count, All, All-append, All-replicate, ◌>>=◌, arith,
}
use telemetry_threat_engine.Models.{Alert, shard_key, is_syn}
use telemetry_threat_engine.Queue.{is_power_of_two}
use telemetry_threat_engine.Detection.Anomaly.Flood.{is_flood_of}
use telemetry_threat_engine.Detection.Anomaly.Flood.Steps.{is_syn_of}
use telemetry_threat_engine.Pipeline.{alert_history_cap}
use telemetry_threat_engine.Pipeline.Store.{newest}
use telemetry_threat_engine.Pipeline.Engine.{Engine, Action, arrive, wake, run, new}
use telemetry_threat_engine.Pipeline.Engine.Plan.{plan_run, empty_plan, arrivals, total}
use telemetry_threat_engine.Pipeline.Engine.Contents.{AllHold-length, in_flight, in_flight-total}
use telemetry_threat_engine.Pipeline.Engine.Refines.{ActionSettles}
use telemetry_threat_engine.Pipeline.Engine.Watch.{HasU32, ClockReads}
use telemetry_threat_engine.Pipeline.Engine.Guards.{Within}
use telemetry_threat_engine.Pipeline.Engine.Runs.{new-run, run-Refines}
use telemetry_threat_engine.Api.{alerts}
use telemetry_threat_engine.Api.Floods.{flood_reported}
use telemetry_threat_engine.Tests.Parameters.{sums, rounded, searches, syn_event, payload_event}

abbrev early : List Action
early = arrive (false ∷ []) payload_event ∷ wake 0 (false ∷ []) 8 9 10 ∷ []

abbrev arrival : Action
arrival = arrive (false ∷ []) syn_event

abbrev wake_up : Action
wake_up = wake 0 (false ∷ []) 10000000001 10000000002 3

abbrev attack : List Action
attack = replicate 99 arrival ++ replicate 99 wake_up

power_of_two-128 : is_power_of_two 128 ≡ true
unfolding is_power_of_two
power_of_two-128 = refl

attack-all : (P : Action → Type 0) → P arrival → P wake_up → All P attack
attack-all P a w =
    All-append P (replicate 99 arrival) (replicate 99 wake_up) (All-replicate P 99 arrival a)
      (All-replicate P 99 wake_up w)

attack-dropped : (plan_run 128 attack (plan_run 128 early (empty_plan 1))).dropped ≡ 0
unfolding plan_run shard_key
attack-dropped = refl

attack-queued : total (plan_run 128 attack (plan_run 128 early (empty_plan 1))).queued ≡ 0
unfolding plan_run shard_key
attack-queued = refl

attack-syns : count (is_syn_of 0x0A000005) (arrivals attack) ≡ 99
unfolding is_syn
attack-syns = refl

attack-run :
    (mid : Engine ℕ) × (engine : Engine ℕ) × ((new searches sums rounded 1 128 7 >>= λ e.
    run searches sums rounded early e)
      ≡ some mid)
    × (run searches sums rounded attack mid ≡ some engine)
    × (engine.state.stats.events_dropped ≡ 0)
    × (in_flight engine.state.queues ≡ 0)
attack-run =
    let (mid, started, r, a) =
      new-run searches sums rounded 1 128 7 early (omega arith) (omega arith) (omega arith)
        power_of_two-128 (tt, (tt, tt)) in
    let half = plan_run 128 early (empty_plan 1) in
    let (engine, ran, r', a') =
      run-Refines searches sums rounded attack 2 128 1 mid half (arrivals early) r
        (AllHold-length 2 128 mid.state.queues half.queued r.queues ∙ a.queues) a (omega arith)
        (omega arith) (attack-all ActionSettles tt tt) in
    (
      mid,
      engine,
      started,
      ran,
      omega (arith, r'.dropped, attack-dropped),
      omega (
        arith,
        attack-queued,
        in_flight-total 200 128 engine.state.queues (plan_run 128 attack half).queued r'.queues,
      ),
    )

flood_reported_example :
    (seen : List Alert) × (attack-run.1.state.alerts ≡ newest alert_history_cap seen)
    × (attack-run.1.state.stats.alerts_fired ≡ length seen % 2 ^ 64)
    × (1 ≤ count (is_flood_of 0x0A000005) seen)
    × ((5000 < length seen)
        ⊎ (1 ≤ count (is_flood_of 0x0A000005) (alerts (some 5000) attack-run.1.state)))
flood_reported_example =
    flood_reported searches sums rounded 1 128 7 10000000000 early attack 0x0A000005 attack-run.0
      attack-run.1 (omega arith) (omega arith) (omega arith) power_of_two-128 (tt, (tt, tt))
      (attack-all ActionSettles tt tt)
      (attack-all (ClockReads (Within 10000000000)) tt (omega arith, omega arith)) (omega arith, tt)
      (All-replicate HasU32 99 syn_event (omega arith)) (omega arith) attack-run.2 attack-run.3
      (omega (arith, attack-run.4, attack-run.5, attack-syns))
