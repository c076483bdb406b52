-- ===== src/Queue/Fifo.antt =====
-- What engine/src/queue.rs promises a caller: a first-in first-out queue of at most `cap` items
-- that gives an item back when it is full.
use telemetry_threat_engine.Base.{
  ℕ, Bool, List, [], ◌∷◌, ◌++◌, Option, none, some, length, ltb, if◌then◌else◌,
}
use telemetry_threat_engine.Queue.{done, panic, running, PushResult, ok, err, MpmcQueue, push, pop}

-- A call, with the weak compare-exchange outcomes that its rounds meet.
pub data Call {ℓ} (A : Type ℓ) : Type ℓ where
  pushes : List Bool → A → Call A
  pops : List Bool → Call A

pub data Reply {ℓ} (A : Type ℓ) : Type ℓ where
  pushed : PushResult A → Reply A
  popped : Option A → Reply A
  panicked : Reply A
  spinning : Reply A

module _ {ℓ} {A : Type ℓ} where
  unfoldable pub run_fifo : ℕ → List A → List (Call A) → List (Reply A)
  run_fifo cap xs [] = []
  run_fifo cap xs (pushes rounds item ∷ calls) =
      let accepted = pushed ok ∷ run_fifo cap (xs ++ item ∷ []) calls in
      let refused = pushed (err item) ∷ run_fifo cap xs calls in
      if ltb (length xs) cap then accepted else refused
  run_fifo cap [] (pops rounds ∷ calls) = popped none ∷ run_fifo cap [] calls
  run_fifo cap (x ∷ xs) (pops rounds ∷ calls) = popped (some x) ∷ run_fifo cap xs calls

  -- The calls on a ring buffer, one after the other. A call that does not return is the last.
  unfoldable pub run : MpmcQueue A → List (Call A) → List (Reply A)
  unfolding push pop
  run q [] = []
  run q (pushes rounds item ∷ calls) = elim (push rounds item q) [
    | done (r, q') ↦ pushed r ∷ run q' calls
    | panic ↦ panicked ∷ []
    | running ↦ spinning ∷ []
  ]
  run q (pops rounds ∷ calls) = elim (pop rounds q) [
    | done (r, q') ↦ popped r ∷ run q' calls
    | panic ↦ panicked ∷ []
    | running ↦ spinning ∷ []
  ]
