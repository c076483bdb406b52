-- ===== src/Queue/Threads/Refusal.antt =====
-- When `push` gives its item back and `pop` returns `None`, while other threads run.
use telemetry_threat_engine.Base.{
  ℕ, zero, suc, ◌+◌, ◌-◌, ◌^◌, ◌≤◌, ◌<◌, ◌≡◌, ◌⊎◌, ap, ◌∙◌, subst, inl, inr, true, false, ◌==◌,
  arith,
}
use native.Mathlib.Decide.{dec_lt}
use telemetry_threat_engine.Queue.{is_power_of_two, sub_isize, add_usize, is_negative}
use telemetry_threat_engine.Queue.Threads.{slot_index, Ring, Pc, push_at, pop_at, System, Reach}
use telemetry_threat_engine.Queue.Threads.Lap.{Lap, power-Lap}
use telemetry_threat_engine.Queue.Threads.Inv.{Writer, Taker, Fresh, Inv}
use telemetry_threat_engine.Queue.Threads.Facts.{
  Writer-OwnPush, Taker-OwnPop, next_pop, negative_difference,
}
use telemetry_threat_engine.Queue.Threads.Runs.{Reach-Inv, Reach-enqueue_pos}

module _ {A : Type 0} {mask cap : ℕ} {m : Ring A} {pc : ℕ → Pc A} (lap : Lap mask cap)
    (inv : Inv mask cap m pc) where
  open lap use {several, again}

  -- The sequence number of a ticket's slot never goes back: it is at least the ticket once it is
  -- claimed, and past it once it is taken.
  sequence_last :
      (t : ℕ)
      → t < m.enqueue_pos
      → m.enqueue_pos ≤ t + cap
      → (t ≤ m.sequences (slot_index mask t))
        × (t < m.dequeue_pos → t < m.sequences (slot_index mask t))
  sequence_last t lt last = elim (dec_lt t m.dequeue_pos) [
    | yes taken ↦ elim (inv.vacated t taken last) [
      | inl taker ↦
          let own = Taker-OwnPop lap inv t taker in
          (omega (arith, own.sequence), λ _. omega (arith, own.sequence))
      | inr (s, v) ↦ (omega arith, λ _. omega arith)
    ]
    | no waiting ↦ elim (inv.held t (omega arith) lt) [
      | inl writer ↦
          let own = Writer-OwnPush lap inv t writer in
          (omega (arith, own.sequence), λ h. absurd (waiting h))
      | inr (s, v) ↦ (omega arith, λ _. omega arith)
    ]
  ]

  sequence_bounds :
      (fuel t : ℕ)
      → m.enqueue_pos ≤ t + fuel
      → t < m.enqueue_pos
      → (t ≤ m.sequences (slot_index mask t))
        × (t < m.dequeue_pos → t < m.sequences (slot_index mask t))
  sequence_bounds zero t enough lt = absurd (omega arith)
  sequence_bounds (suc fuel) t enough lt = elim (dec_lt (t + cap) m.enqueue_pos) [
    | yes older ↦
        let (ge, past) = sequence_bounds fuel (t + cap) (omega arith) older in
        let same : m.sequences (slot_index mask (t + cap)) ≡ m.sequences (slot_index mask t) =
          ap m.sequences (again t) in
        (omega arith, λ _. omega arith)
    | no last ↦ sequence_last t lt (omega arith)
  ]

  behind_push :
      (pos : ℕ)
      → pos ≤ m.enqueue_pos
      → m.sequences (slot_index mask pos) < pos
      → (pos ≡ m.enqueue_pos)
        × ((m.enqueue_pos ≡ m.dequeue_pos + cap)
            ⊎ ((t : ℕ) × (t + cap ≡ m.enqueue_pos) × Taker pc t))
  behind_push pos le behind = elim (dec_lt pos m.enqueue_pos) [
    | yes stale ↦ absurd (omega (arith, sequence_bounds m.enqueue_pos pos (omega arith) stale))
    | no now ↦
        let here : pos ≡ m.enqueue_pos = omega arith in
        (
          here,
          elim (dec_lt m.enqueue_pos cap) [
            | yes first_lap ↦
                let (s, v) = inv.unused pos (omega arith) (omega arith) in absurd (omega arith)
            | no later_lap ↦
                let u = m.enqueue_pos - cap in
                elim (dec_lt u m.dequeue_pos) [
                  | yes taken ↦ elim (inv.vacated u taken (omega arith)) [
                    | inl taker ↦ inr (u, omega arith, taker)
                    | inr (s, v) ↦
                        let same : m.sequences (slot_index mask pos)
                            ≡ m.sequences (slot_index mask u) =
                          ap (λ t. m.sequences (slot_index mask t)) (omega arith)
                          ∙ ap m.sequences (again u) in
                        absurd (omega arith)
                  ]
                  | no waiting ↦ inl (omega (arith, inv.fits))
                ]
          ],
        )
  ]

  behind_pop :
      (pos : ℕ)
      → pos ≤ m.dequeue_pos
      → m.sequences (slot_index mask pos) ≤ pos
      → (pos ≡ m.dequeue_pos) × ((m.enqueue_pos ≡ m.dequeue_pos) ⊎ Writer pc m.dequeue_pos)
  behind_pop pos le behind = elim (dec_lt pos m.dequeue_pos) [
    | yes stale ↦
        let (ge, past) =
          sequence_bounds m.enqueue_pos pos (omega arith) (omega (arith, inv.ordered)) in
        absurd (omega (arith, past stale))
    | no now ↦
        let here : pos ≡ m.dequeue_pos = omega arith in
        (
          here,
          elim (dec_lt m.dequeue_pos m.enqueue_pos) [
            | yes some_held ↦ inr (
                (next_pop lap inv).pending some_held
                  (λ e. omega (arith, ap (λ t. m.sequences (slot_index mask t)) here)))
            | no none_held ↦ inl (omega (arith, inv.ordered))
          ],
        )
  ]

module _ {A : Type 0} (cap n : ℕ) (s : System A) (several : 2 ≤ cap)
    (power : is_power_of_two cap ≡ true) (small : n + cap < 2 ^ 63)
    (run : Reach (cap - 1) n s) where
  lap : Lap (cap - 1) cap
  lap = power-Lap cap several power

  inv : Inv (cap - 1) cap s.ring s.pc
  inv = Reach-Inv lap small run

  -- In every state that threads come to by `n` steps on a new queue of at least two slots, a power
  -- of two, `n + cap` below 2^63, if a thread in `push` would load a sequence number that makes it
  -- give its item back, then its ticket is the next one, and the queue holds `cap` tickets or a
  -- `pop` has claimed the ticket of the same slot in the lap before and has not released it.
  pub refuse_push-full :
      (i pos : ℕ) (item : A)
      → s.pc i ≡ push_at item pos
      → (sub_isize (s.ring.sequences (slot_index (cap - 1) pos)) pos == 0) ≡ false
      → is_negative (sub_isize (s.ring.sequences (slot_index (cap - 1) pos)) pos) ≡ true
      → (pos ≡ s.ring.enqueue_pos)
        × ((s.ring.enqueue_pos ≡ s.ring.dequeue_pos + cap)
            ⊎ ((t : ℕ) × (t + cap ≡ s.ring.enqueue_pos) × Taker s.pc t))
  refuse_push-full i pos item here nonzero negative =
      let le : pos ≤ s.ring.enqueue_pos = subst (Fresh (cap - 1) cap s.ring) here (inv.fresh i) in
      let seq = s.ring.sequences (slot_index (cap - 1) pos) in
      let bound : s.ring.enqueue_pos ≤ n = Reach-enqueue_pos run in
      behind_push lap inv pos le
        (negative_difference seq pos (omega (arith, inv.low pos)) (omega arith) nonzero negative)

  -- In every state that threads come to by `n` steps on a new queue of at least two slots, a power
  -- of two, `n + cap` below 2^63, if a thread in `pop` would load a sequence number that makes it
  -- return `None`, then its ticket is the next one, and the queue is empty or the push that claimed
  -- this ticket has not published it.
  pub refuse_pop-empty :
      (i pos : ℕ)
      → s.pc i ≡ pop_at pos
      → (sub_isize (s.ring.sequences (slot_index (cap - 1) pos)) (add_usize pos 1) == 0) ≡ false
      → is_negative (sub_isize (s.ring.sequences (slot_index (cap - 1) pos)) (add_usize pos 1))
        ≡ true
      → (pos ≡ s.ring.dequeue_pos)
        × ((s.ring.enqueue_pos ≡ s.ring.dequeue_pos) ⊎ Writer s.pc s.ring.dequeue_pos)
  refuse_pop-empty i pos here nonzero negative =
      let le : pos ≤ s.ring.dequeue_pos = subst (Fresh (cap - 1) cap s.ring) here (inv.fresh i) in
      let seq = s.ring.sequences (slot_index (cap - 1) pos) in
      let bound : s.ring.enqueue_pos ≤ n = Reach-enqueue_pos run in
      let next : add_usize pos 1 ≡ pos + 1 = omega (arith, inv.ordered) in
      let lt : seq < add_usize pos 1 =
        negative_difference seq (add_usize pos 1) (omega (arith, inv.low pos))
          (omega (arith, inv.ordered)) nonzero negative in
      behind_pop lap inv pos le (omega arith)
