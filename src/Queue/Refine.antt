-- ===== src/Queue/Refine.antt =====
-- The ring buffer of engine/src/queue.rs beside the bounded queue of Fifo, for one caller at a time.
use telemetry_threat_engine.Base.{
  ℕ, ◌+◌, ◌^◌, ◌≤◌, ◌<◌, ◌≡◌, refl, ap, true, false, inl, inr, List, [], ◌∷◌, ◌++◌, none, some,
  length, arith, ltb, Bool-cases,
}
use telemetry_threat_engine.Queue.{MpmcQueue, new, ok, err}
use telemetry_threat_engine.Queue.Fifo.{Call, pushes, pops, pushed, popped, run_fifo, run}
use telemetry_threat_engine.Queue.Inv.{Holds, new-Holds, enqueue_pos-new}
use telemetry_threat_engine.Queue.Push.{Settles, push-Pushed}
use telemetry_threat_engine.Queue.Pop.{pop-Popped}

abbrev pub AllSettle {ℓ} : {A : Type ℓ} → List (Call A) → Type 0
AllSettle [] = Unit
AllSettle (pushes rounds item ∷ calls) = Settles rounds × AllSettle calls
AllSettle (pops rounds ∷ calls) = Settles rounds × AllSettle calls

full_of_not_lt : (a b : ℕ) → a ≤ b → ltb a b ≡ false → a ≡ b
full_of_not_lt a b le no_room = ground arith

lt_of_test : (a b : ℕ) → ltb a b ≡ true → a < b
lt_of_test a b e = ground arith

module _ {ℓ} {A : Type ℓ} (cap : ℕ) where
  pub run-run_fifo_from :
      (calls : List (Call A)) (xs : List A) (q : MpmcQueue A)
      → Holds cap q xs
      → AllSettle calls
      → q.enqueue_pos + cap + length calls < 2 ^ 63
      → run q calls ≡ run_fifo cap xs calls
  unfolding run run_fifo
  run-run_fifo_from [] xs q h s small = refl
  run-run_fifo_from (pushes rounds item ∷ calls) xs q h s small =
      let p = push-Pushed h rounds item s.0 (omega arith) in
      elim (Bool-cases (ltb (length xs) cap)) [
        | inl test ↦
            let (q', done_, h', next) = p.room (lt_of_test (length xs) cap test) in
            rw (done_, run, test)
              (ap (λ r. pushed ok ∷ r)
                (run-run_fifo_from calls (xs ++ item ∷ []) q' h' s.1 (omega arith)))
        | inr test ↦
            rw (p.full (full_of_not_lt (length xs) cap h.fits test), run, test)
              (ap (λ r. pushed (err item) ∷ r) (run-run_fifo_from calls xs q h s.1 (omega arith)))
      ]
  run-run_fifo_from (pops rounds ∷ calls) [] q h s small =
      rw (pop-Popped [] h rounds s.0, run)
        (ap (λ r. popped none ∷ r) (run-run_fifo_from calls [] q h s.1 (omega arith)))
  run-run_fifo_from (pops rounds ∷ calls) (x ∷ xs) q h s small =
      let (q', done_, h', same) = pop-Popped (x ∷ xs) h rounds s.0 in
      rw (done_, run)
        (ap (λ r. popped (some x) ∷ r) (run-run_fifo_from calls xs q' h' s.1 (omega arith)))

  -- Every sequence of calls on a new queue of at least two slots returns what the bounded queue
  -- returns, if each call meets a compare-exchange that does not fail spuriously, and the calls
  -- are too few for a counter to reach 2^63. So no call panics or spins.
  pub run-run_fifo :
      (q : MpmcQueue A) (calls : List (Call A))
      → 2 ≤ cap
      → new cap ≡ some q
      → AllSettle calls
      → cap + length calls < 2 ^ 63
      → run q calls ≡ run_fifo cap [] calls
  run-run_fifo q calls several made settle small =
      let h = new-Holds cap q several (omega arith) made in
      run-run_fifo_from calls [] q h settle (omega (arith, enqueue_pos-new cap q made))
