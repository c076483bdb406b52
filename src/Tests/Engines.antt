-- ===== src/Tests/Engines.antt =====
-- Two workers with queues of two slots, or of four: three events arrive, and each worker wakes up once.
use mathlib.Core.List.{Sublist}
use telemetry_threat_engine.Base.{
  ℕ, ◌+◌, ◌≡◌, refl, false, List, [], ◌∷◌, ◌++◌, some, length, get_elem?, filter_by, All, ◌>>=◌,
  true, arith,
}
use telemetry_threat_engine.Models.{NetworkEvent}
use telemetry_threat_engine.Queue.{MpmcQueue, is_power_of_two}
use telemetry_threat_engine.Queue.Inv.{Holds}
use telemetry_threat_engine.Pipeline.Engine.{Engine, Action, arrive, wake, run, new}
use telemetry_threat_engine.Pipeline.Engine.Plan.{plan_run, empty_plan, arrivals}
use telemetry_threat_engine.Pipeline.Engine.Contents.{in_flight}
use telemetry_threat_engine.Pipeline.Engine.Order.{is_for}
use telemetry_threat_engine.Pipeline.Engine.Refines.{ActionSettles, Refines}
use telemetry_threat_engine.Pipeline.Engine.Runs.{new-run_plan, new-run_in_order}
use telemetry_threat_engine.Pipeline.Engine.Room.{new-run_room}
use telemetry_threat_engine.Tests.Parameters.{sums, rounded, searches, syn_event, payload_event}

abbrev pub busy_day : List Action
busy_day =
    arrive (false ∷ []) syn_event
    ∷ arrive (true ∷ false ∷ []) payload_event
    ∷ wake 0 (false ∷ []) 8 9 10
    ∷ arrive (false ∷ []) syn_event
    ∷ wake 1 (false ∷ []) 11 12 13
    ∷ []

pub busy_day-ActionSettles : All ActionSettles busy_day
busy_day-ActionSettles = (tt, (tt, (tt, (tt, (tt, tt)))))

power_of_two-2 : is_power_of_two 2 ≡ true
unfolding is_power_of_two
power_of_two-2 = refl

pub power_of_two-4 : is_power_of_two 4 ≡ true
unfolding is_power_of_two
power_of_two-4 = refl

new-run_plan_example :
    (engine : Engine ℕ) × ((new searches sums rounded 2 2 7 >>= λ e.
    run searches sums rounded busy_day e)
      ≡ some engine)
    × Refines searches sums rounded 5 2 engine (plan_run 2 busy_day (empty_plan 2))
new-run_plan_example =
    new-run_plan searches sums rounded 2 2 7 busy_day (omega arith) (omega arith) (omega arith)
      power_of_two-2 busy_day-ActionSettles

new-run_in_order_example :
    (engine : Engine ℕ) × (accepted : List NetworkEvent) × ((new searches sums rounded 2 2 7
        >>= λ e. run searches sums rounded busy_day e)
      ≡ some engine)
    × Sublist accepted (arrivals busy_day)
    × (engine.state.stats.events_processed + in_flight engine.state.queues ≡ length accepted)
    × (length accepted + engine.state.stats.events_dropped ≡ 3)
    × (q : MpmcQueue NetworkEvent) × (done : List NetworkEvent) × (waiting : List NetworkEvent)
    × (get_elem? engine.state.queues 1 ≡ some q)
    × (get_elem? (plan_run 2 busy_day (empty_plan 2)).handled 1 ≡ some done)
    × Holds 2 q waiting
    × (done ++ waiting ≡ filter_by (is_for 2 1) accepted)
new-run_in_order_example =
    new-run_in_order searches sums rounded 2 2 7 busy_day (omega arith) (omega arith) (omega arith)
      power_of_two-2 busy_day-ActionSettles 1 (omega arith)

new-run_room_example :
    (engine : Engine ℕ) × ((new searches sums rounded 2 4 7 >>= λ e.
    run searches sums rounded busy_day e)
      ≡ some engine)
    × (engine.state.stats.events_dropped ≡ 0)
    × (engine.state.stats.events_processed + in_flight engine.state.queues ≡ 3)
new-run_room_example =
    new-run_room searches sums rounded 2 4 7 busy_day (omega arith) (omega arith) (omega arith)
      power_of_two-4 busy_day-ActionSettles (omega arith)
