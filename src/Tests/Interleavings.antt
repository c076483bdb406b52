-- ===== src/Tests/Interleavings.antt =====
-- Two threads on a queue of two slots.
use telemetry_threat_engine.Base.{
  ℕ, zero, suc, ◌+◌, ◌-◌, ◌≡◌, ◌⊎◌, refl, true, false, List, [], ◌∷◌, ◌++◌, Option, none, some,
  length, get_elem?, replicate, arith,
}
use telemetry_threat_engine.Queue.{is_power_of_two}
use telemetry_threat_engine.Queue.Fifo.{pushes, pops, run, run_fifo}
use telemetry_threat_engine.Queue.Threads.{slot_index, writing}
use telemetry_threat_engine.Queue.Threads.Inv.{writes, takes, Writer, Taker}
use telemetry_threat_engine.Queue.Threads.Safety.{
  exclusive_access, releasing-claimed, delivered-claimed,
}
use telemetry_threat_engine.Queue.Threads.Refusal.{refuse_push-full, refuse_pop-empty}
use telemetry_threat_engine.Queue.Threads.Rest.{as_queue, rest-run_fifo}
use telemetry_threat_engine.Queue.Threads.Alone.{returned, alone, alone_returns}
use telemetry_threat_engine.Tests.Schedules.{Run, turns}

two_accepted : is_power_of_two 2 ≡ true
unfolding is_power_of_two
two_accepted = refl

-- A whole call of thread `i` takes seven steps, with the way back.
abbrev whole_push : ℕ → ℕ → List (ℕ × Option ℕ)
whole_push i x = replicate 7 (i, some x)

abbrev whole_pop : ℕ → List (ℕ × Option ℕ)
whole_pop i = replicate 7 (i, none)

-- Thread 0 writes an item while thread 1 has claimed the next slot.
abbrev both_push : Run 1
both_push = turns 1 (
    (0, some 5)
    ∷ (1, some 6)
    ∷ (0, none)
    ∷ (0, none)
    ∷ (0, none)
    ∷ (1, none)
    ∷ (1, none)
    ∷ (1, none)
    ∷ [])

both_push-pc : (both_push.state.pc 0 ≡ writing 5 0) × (both_push.state.pc 1 ≡ writing 6 1)
unfolding turns
both_push-pc = (refl, refl)

exclusive_access_example : ◌≡◌ {A = ℕ} 0 0
unfolding turns
exclusive_access_example =
    exclusive_access 2 8 both_push.state (omega arith) two_accepted (omega arith) both_push.reach 0
      0 0 0 refl refl refl

alone_returns_example : returned (alone 1 6 both_push.state.ring (both_push.state.pc 1)).1 ≡ true
unfolding turns
alone_returns_example =
    alone_returns 2 8 both_push.state 1 (omega arith) two_accepted (omega arith) both_push.reach
      refl

-- Thread 1 is about to return what thread 0 pushed.
abbrev popping : Run 1
popping = turns 1 (whole_push 0 5 ++ replicate 5 (1, none))

releasing-claimed_example :
    (x : ℕ) × (◌≡◌ {A = Option ℕ} (some 5) (some x))
    × (popping.state.ring.claimed 0 ≡ some x)
    × (popping.state.ring.delivered 0 ≡ none)
unfolding turns
releasing-claimed_example =
    releasing-claimed 2 12 popping.state (omega arith) two_accepted (omega arith) popping.reach 1 0
      (some 5) refl

-- Two items were pushed, and one was popped.
abbrev rested : Run 1
rested = turns 1 (whole_push 0 5 ++ (whole_push 0 6 ++ whole_pop 1))

rested-writes : (i : ℕ) → writes (rested.state.pc i) ≡ none
unfolding turns
rested-writes zero = refl
rested-writes (suc zero) = refl
rested-writes (suc (suc i)) = ground arith

rested-takes : (i : ℕ) → takes (rested.state.pc i) ≡ none
unfolding turns
rested-takes zero = refl
rested-takes (suc zero) = refl
rested-takes (suc (suc i)) = ground arith

delivered-claimed_example :
    (x : ℕ) × (rested.state.ring.claimed 0 ≡ some x) × (rested.state.ring.delivered 0 ≡ some x)
unfolding turns
delivered-claimed_example =
    delivered-claimed 2 21 rested.state (omega arith) two_accepted (omega arith) rested.reach
      rested-takes 0 (omega arith)

rest-run_fifo_example :
    (xs : List ℕ) × (length xs ≡ rested.state.ring.enqueue_pos - rested.state.ring.dequeue_pos)
    × ((i : ℕ) (x : ℕ)
        → get_elem? xs i ≡ some x
        → rested.state.ring.claimed (rested.state.ring.dequeue_pos + i) ≡ some x)
    × (run (as_queue rested.state.ring 2) (pops (false ∷ []) ∷ pushes (false ∷ []) 9 ∷ [])
        ≡ run_fifo 2 xs (pops (false ∷ []) ∷ pushes (false ∷ []) 9 ∷ []))
unfolding turns
rest-run_fifo_example =
    rest-run_fifo 2 21 rested.state (pops (false ∷ []) ∷ pushes (false ∷ []) 9 ∷ []) (omega arith)
      two_accepted (omega arith) rested.reach rested-writes rested-takes (tt, (tt, tt))

-- A third push meets a full queue, and a first pop an empty one.
abbrev full_state : Run 1
full_state = turns 1 (whole_push 0 5 ++ (whole_push 0 6 ++ replicate 2 (0, some 7)))

refuse_push-full_example :
    (2 ≡ full_state.state.ring.enqueue_pos)
    × ((full_state.state.ring.enqueue_pos ≡ full_state.state.ring.dequeue_pos + 2)
        ⊎ ((t : ℕ) × (t + 2 ≡ full_state.state.ring.enqueue_pos) × Taker full_state.state.pc t))
unfolding turns slot_index
refuse_push-full_example =
    refuse_push-full 2 16 full_state.state (omega arith) two_accepted (omega arith) full_state.reach
      0 2 7 refl refl refl

abbrev empty_state : Run 1
empty_state = turns 1 (replicate 2 (1, none))

refuse_pop-empty_example :
    (0 ≡ empty_state.state.ring.dequeue_pos)
    × ((empty_state.state.ring.enqueue_pos ≡ empty_state.state.ring.dequeue_pos)
        ⊎ Writer empty_state.state.pc empty_state.state.ring.dequeue_pos)
unfolding turns slot_index
refuse_pop-empty_example =
    refuse_pop-empty 2 2 empty_state.state (omega arith) two_accepted (omega arith)
      empty_state.reach 1 0 refl refl refl
