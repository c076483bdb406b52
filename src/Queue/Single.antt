-- ===== src/Queue/Single.antt =====
-- A queue of one slot, which passes the assertion in `MpmcQueue::new` of engine/src/queue.rs.
use telemetry_threat_engine.Base.{◌≡◌, refl, Bool, false, List, [], ◌∷◌, none, some}
use telemetry_threat_engine.Queue.{MpmcQueue, new, push, pop, pop_loop, done, running, ok}

-- The queue after two pushes on a capacity of one.
abbrev pub overwritten {ℓ} : {A : Type ℓ} → A → MpmcQueue A
overwritten y = record {
  buffer = record { sequence = 2; value = some y } ∷ [];
  mask = 0;
  enqueue_pos = 2;
  dequeue_pos = 0;
}

abbrev pub one_slot {ℓ} : (A : Type ℓ) → MpmcQueue A
one_slot A = record {
  buffer = record { sequence = 0; value = none } ∷ [];
  mask = 0;
  enqueue_pos = 0;
  dequeue_pos = 0;
}

abbrev pub filled_once {ℓ} : {A : Type ℓ} → A → MpmcQueue A
filled_once x = record {
  buffer = record { sequence = 1; value = some x } ∷ [];
  mask = 0;
  enqueue_pos = 1;
  dequeue_pos = 0;
}

module _ {ℓ} {A : Type ℓ} where
  new-one : new 1 ≡ some (one_slot A)
  unfolding new
  new-one = refl

  push-first : (x : A) → push (false ∷ []) x (one_slot A) ≡ done (ok, filled_once x)
  unfolding push
  push-first x = refl

  push-second : (x y : A) → push (false ∷ []) y (filled_once x) ≡ done (ok, overwritten y)
  unfolding push
  push-second x y = refl

  -- Each round of the later `pop` sees a sequence number that is ahead, and tries again.
  pop_loop-spins : (rounds : List Bool) (y : A) → pop_loop rounds 0 (overwritten y) ≡ running
  unfolding pop_loop
  pop_loop-spins [] y = refl
  pop_loop-spins (b ∷ rounds) y = pop_loop-spins rounds y

  -- With a capacity of one, which `new` accepts, two pushes in a row both succeed, the second
  -- overwrites the item of the first, and a `pop` after them goes round its loop for ever.
  pub pop-push-push_one :
      (x y : A)
      → (q0 : MpmcQueue A) × (q1 : MpmcQueue A) × (q2 : MpmcQueue A) × (new 1 ≡ some q0)
        × (push (false ∷ []) x q0 ≡ done (ok, q1))
        × (push (false ∷ []) y q1 ≡ done (ok, q2))
        × ((rounds : List Bool) → pop rounds q2 ≡ running)
  unfolding pop
  pop-push-push_one x y = (
    one_slot A,
    filled_once x,
    overwritten y,
    new-one,
    push-first x,
    push-second x y,
    λ rounds. pop_loop-spins rounds y,
  )
