-- ===== src/Tests/Queues.antt =====
-- A queue of two slots, filled, overfilled and emptied, and a queue of one slot.
use telemetry_threat_engine.Base.{ℕ, ◌≡◌, refl, Bool, true, false, List, [], ◌∷◌, none, some, arith}
use telemetry_threat_engine.Queue.{MpmcQueue, new, push, pop, done, running, ok}
use telemetry_threat_engine.Queue.Fifo.{Call, pushes, pops, run, run_fifo}
use telemetry_threat_engine.Queue.Refine.{AllSettle, run-run_fifo}
use telemetry_threat_engine.Queue.Single.{pop-push-push_one}

abbrev two_slots : MpmcQueue ℕ
two_slots = record {
  buffer = record { sequence = 0; value = none } ∷ record { sequence = 1; value = none } ∷ [];
  mask = 1;
  enqueue_pos = 0;
  dequeue_pos = 0;
}

two_slots-new : new 2 ≡ some two_slots
unfolding new
two_slots-new = refl

-- The third push finds the queue full, the second and the third pop go round once more.
abbrev some_calls : List (Call ℕ)
some_calls =
    pushes (false ∷ []) 5
    ∷ pushes (true ∷ false ∷ []) 6
    ∷ pushes (false ∷ []) 7
    ∷ pops (false ∷ [])
    ∷ pushes (false ∷ []) 8
    ∷ pops (true ∷ false ∷ [])
    ∷ pops (true ∷ true ∷ false ∷ [])
    ∷ pops (false ∷ [])
    ∷ []

some_calls-AllSettle : AllSettle some_calls
some_calls-AllSettle = (tt, (tt, (tt, (tt, (tt, (tt, (tt, (tt, tt))))))))

run-run_fifo_example : run two_slots some_calls ≡ run_fifo 2 [] some_calls
run-run_fifo_example =
    run-run_fifo 2 two_slots some_calls (omega arith) two_slots-new some_calls-AllSettle
      (omega arith)

pop-push-push_one_example :
    (q0 : MpmcQueue ℕ) × (q1 : MpmcQueue ℕ) × (q2 : MpmcQueue ℕ) × (new 1 ≡ some q0)
    × (push (false ∷ []) 3 q0 ≡ done (ok, q1))
    × (push (false ∷ []) 4 q1 ≡ done (ok, q2))
    × ((rounds : List Bool) → pop rounds q2 ≡ running)
pop-push-push_one_example = pop-push-push_one 3 4
