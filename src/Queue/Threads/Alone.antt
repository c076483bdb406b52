-- ===== src/Queue/Threads/Alone.antt =====
-- A thread that runs alone on the queue of engine/src/queue.rs.
use telemetry_threat_engine.Base.{
  ℕ, zero, suc, ◌+◌, ◌-◌, ◌^◌, ◌≤◌, ◌<◌, ◌≡◌, refl, Bool, true, false, none, inl, inr, ◌==◌,
  if◌then◌else◌, Bool-cases, ==_iff, ==_refl, arith,
}
use telemetry_threat_engine.Queue.{is_power_of_two, sub_isize, add_usize, is_negative, ok, err}
use telemetry_threat_engine.Queue.Threads.{
  slot_index, Ring, Pc, idle, push_call, push_at, push_saw, writing, publishing, pushed, pop_call,
  pop_at, pop_saw, taking, releasing, popped, claim_push, claim_pop, write_item, publish_slot,
  take_item, release_slot, Move, load_enqueue, load_push, win_push, lose_push, refuse_push,
  reload_push, write, publish, load_dequeue, load_pop, win_pop, lose_pop, refuse_pop, reload_pop,
  take, release, System, Reach,
}
use telemetry_threat_engine.Queue.Threads.Lap.{Lap, power-Lap}
use telemetry_threat_engine.Queue.Threads.Inv.{Inv}
use telemetry_threat_engine.Queue.Threads.Facts.{next_push, next_pop, positive_difference}
use telemetry_threat_engine.Queue.Threads.Runs.{Reach-Inv, Reach-enqueue_pos}

abbrev pub returned : {A : Type 0} → Pc A → Bool
returned (pushed r) = true
returned (popped item) = true
returned _ = false

abbrev pub called : {A : Type 0} → Pc A → Bool
called idle = false
called (pushed r) = false
called (popped item) = false
called _ = true

module _ {A : Type 0} (mask : ℕ) where
  -- The next step of a thread in a call, whose exchange fails only if the counter has moved.
  unfoldable pub proceed : Ring A → Pc A → Ring A × Pc A
  proceed m idle = (m, idle)
  proceed m (push_call item) = (m, push_at item m.enqueue_pos)
  proceed m (push_at item pos) = (m, push_saw item pos (m.sequences (slot_index mask pos)))
  proceed m (push_saw item pos seq) =
      if sub_isize seq pos == 0
      then (if m.enqueue_pos == pos
          then (claim_push m item pos, writing item pos)
          else (m, push_at item m.enqueue_pos))
      else if is_negative (sub_isize seq pos)
      then (m, pushed (err item))
      else (m, push_at item m.enqueue_pos)
  proceed m (writing item pos) = (write_item mask m item pos, publishing pos)
  proceed m (publishing pos) = (publish_slot mask m pos, pushed ok)
  proceed m (pushed r) = (m, pushed r)
  proceed m pop_call = (m, pop_at m.dequeue_pos)
  proceed m (pop_at pos) = (m, pop_saw pos (m.sequences (slot_index mask pos)))
  proceed m (pop_saw pos seq) =
      if sub_isize seq (add_usize pos 1) == 0
      then (if m.dequeue_pos == pos
          then (claim_pop m pos, taking pos)
          else (m, pop_at m.dequeue_pos))
      else if is_negative (sub_isize seq (add_usize pos 1))
      then (m, popped none)
      else (m, pop_at m.dequeue_pos)
  proceed m (taking pos) = (take_item mask m pos, releasing (m.values (slot_index mask pos)) pos)
  proceed m (releasing item pos) = (release_slot mask m item pos, popped item)
  proceed m (popped item) = (m, popped item)

  -- Some steps in a row.
  unfoldable pub alone : ℕ → Ring A → Pc A → Ring A × Pc A
  unfolding proceed
  alone zero m p = (m, p)
  alone (suc steps) m p = let r = proceed m p in alone steps r.0 r.1

  -- These are steps of the model.
  pub proceed-Move :
      (m : Ring A) (p : Pc A) → called p ≡ true → Move mask m p (proceed m p).0 (proceed m p).1
  unfolding proceed
  proceed-Move m (push_call item) e = load_enqueue
  proceed-Move m (push_at item pos) e = load_push
  proceed-Move m (push_saw item pos seq) e = elim (Bool-cases (sub_isize seq pos == 0)) [
    | inl zero_diff ↦ elim (Bool-cases (m.enqueue_pos == pos)) [
      | inl current ↦
          rw (zero_diff, current) (win_push zero_diff ((==_iff m.enqueue_pos pos).0 current))
      | inr moved ↦ rw (zero_diff, moved) (lose_push zero_diff)
    ]
    | inr nonzero ↦ elim (Bool-cases (is_negative (sub_isize seq pos))) [
      | inl negative ↦ rw (nonzero, negative) (refuse_push nonzero negative)
      | inr positive ↦ rw (nonzero, positive) (reload_push nonzero positive)
    ]
  ]
  proceed-Move m (writing item pos) e = write
  proceed-Move m (publishing pos) e = publish
  proceed-Move m pop_call e = load_dequeue
  proceed-Move m (pop_at pos) e = load_pop
  proceed-Move m (pop_saw pos seq) e = elim (Bool-cases (sub_isize seq (add_usize pos 1) == 0)) [
    | inl zero_diff ↦ elim (Bool-cases (m.dequeue_pos == pos)) [
      | inl current ↦
          rw (zero_diff, current) (win_pop zero_diff ((==_iff m.dequeue_pos pos).0 current))
      | inr moved ↦ rw (zero_diff, moved) (lose_pop zero_diff)
    ]
    | inr nonzero ↦ elim (Bool-cases (is_negative (sub_isize seq (add_usize pos 1)))) [
      | inl negative ↦ rw (nonzero, negative) (refuse_pop nonzero negative)
      | inr positive ↦ rw (nonzero, positive) (reload_pop nonzero positive)
    ]
  ]
  proceed-Move m (taking pos) e = take
  proceed-Move m (releasing item pos) e = release
  proceed-Move m idle e = cc
  proceed-Move m (pushed r) e = cc
  proceed-Move m (popped item) e = cc

returned-proceed :
    {A : Type 0} (mask : ℕ) (m : Ring A) (p : Pc A)
    → returned p ≡ true
    → returned (proceed mask m p).1 ≡ true
unfolding proceed
returned-proceed mask m (pushed r) e = refl
returned-proceed mask m (popped item) e = refl
returned-proceed mask m idle e = cc
returned-proceed mask m (push_call _) e = cc
returned-proceed mask m (push_at _ _) e = cc
returned-proceed mask m (push_saw _ _ _) e = cc
returned-proceed mask m (writing _ _) e = cc
returned-proceed mask m (publishing _) e = cc
returned-proceed mask m pop_call e = cc
returned-proceed mask m (pop_at _) e = cc
returned-proceed mask m (pop_saw _ _) e = cc
returned-proceed mask m (taking _) e = cc
returned-proceed mask m (releasing _ _) e = cc

-- A thread that has returned stays there.
more :
    {A : Type 0} (mask steps : ℕ) (m : Ring A) (p : Pc A)
    → returned (alone mask steps m p).1 ≡ true
    → returned (alone mask (suc steps) m p).1 ≡ true
unfolding alone
more mask zero m p e = returned-proceed mask m p e
more mask (suc steps) m p e = more mask steps (proceed mask m p).0 (proceed mask m p).1 e

module _ {A : Type 0} {mask cap : ℕ} {m : Ring A} {pc : ℕ → Pc A} (lap : Lap mask cap)
    (inv : Inv mask cap m pc) (small : m.enqueue_pos + cap + 1 < 2 ^ 63) where
  -- At the head of the loop with the value of the counter, the round is the last.
  last_push : (item : A) → returned (alone mask 4 m (push_at item m.enqueue_pos)).1 ≡ true
  unfolding alone
  last_push item =
      let seq = m.sequences (slot_index mask m.enqueue_pos) in
      elim (Bool-cases (sub_isize seq m.enqueue_pos == 0)) [
        | inl zero_diff ↦ rw (zero_diff, ==_refl m.enqueue_pos)
        | inr nonzero ↦ elim (Bool-cases (is_negative (sub_isize seq m.enqueue_pos))) [
          | inl negative ↦ rw (nonzero, negative)
          | inr positive ↦ absurd (
              omega (
                arith,
                (next_push lap inv).at_most,
                positive_difference seq m.enqueue_pos (omega (arith, inv.low m.enqueue_pos))
                    (omega arith) nonzero positive,
              ))
        ]
      ]

  seen_push : (item : A) (pos seq : ℕ) → returned (alone mask 5 m (push_saw item pos seq)).1 ≡ true
  unfolding alone
  seen_push item pos seq = elim (Bool-cases (sub_isize seq pos == 0)) [
    | inl zero_diff ↦ elim (Bool-cases (m.enqueue_pos == pos)) [
      | inl current ↦ rw (zero_diff, current)
      | inr moved ↦ rw (zero_diff, moved) (last_push item)
    ]
    | inr nonzero ↦ elim (Bool-cases (is_negative (sub_isize seq pos))) [
      | inl negative ↦ rw (nonzero, negative)
      | inr positive ↦ rw (nonzero, positive) (last_push item)
    ]
  ]

  last_pop : returned (alone mask 4 m (pop_at m.dequeue_pos)).1 ≡ true
  unfolding alone
  last_pop =
      let seq = m.sequences (slot_index mask m.dequeue_pos) in
      let next : add_usize m.dequeue_pos 1 ≡ m.dequeue_pos + 1 = omega (arith, inv.ordered) in
      elim (Bool-cases (sub_isize seq (add_usize m.dequeue_pos 1) == 0)) [
        | inl zero_diff ↦ rw (zero_diff, ==_refl m.dequeue_pos)
        | inr nonzero ↦
            elim (Bool-cases (is_negative (sub_isize seq (add_usize m.dequeue_pos 1)))) [
              | inl negative ↦ rw (nonzero, negative)
              | inr positive ↦ absurd (
                  omega (
                    arith,
                    (next_pop lap inv).at_most,
                    positive_difference seq (add_usize m.dequeue_pos 1)
                        (omega (arith, inv.low m.dequeue_pos)) (omega (arith, inv.ordered)) nonzero
                        positive,
                  ))
            ]
      ]

  seen_pop : (pos seq : ℕ) → returned (alone mask 5 m (pop_saw pos seq)).1 ≡ true
  unfolding alone
  seen_pop pos seq = elim (Bool-cases (sub_isize seq (add_usize pos 1) == 0)) [
    | inl zero_diff ↦ elim (Bool-cases (m.dequeue_pos == pos)) [
      | inl current ↦ rw (zero_diff, current)
      | inr moved ↦ rw (zero_diff, moved) (last_pop)
    ]
    | inr nonzero ↦ elim (Bool-cases (is_negative (sub_isize seq (add_usize pos 1)))) [
      | inl negative ↦ rw (nonzero, negative)
      | inr positive ↦ rw (nonzero, positive) (last_pop)
    ]
  ]

  within_six : (p : Pc A) → called p ≡ true → returned (alone mask 6 m p).1 ≡ true
  unfolding alone
  within_six (push_call item) e = more mask 4 m (push_at item m.enqueue_pos) (last_push item)
  within_six (push_at item pos) e = seen_push item pos (m.sequences (slot_index mask pos))
  within_six (push_saw item pos seq) e =
      more mask 5 m (push_saw item pos seq) (seen_push item pos seq)
  within_six (writing item pos) e = refl
  within_six (publishing pos) e = refl
  within_six pop_call e = more mask 4 m (pop_at m.dequeue_pos) last_pop
  within_six (pop_at pos) e = seen_pop pos (m.sequences (slot_index mask pos))
  within_six (pop_saw pos seq) e = more mask 5 m (pop_saw pos seq) (seen_pop pos seq)
  within_six (taking pos) e = refl
  within_six (releasing item pos) e = refl
  within_six idle e = cc
  within_six (pushed r) e = cc
  within_six (popped item) e = cc

-- In every state that threads come to by `n` steps on a new queue of at least two slots, a power of
-- two, `n + cap + 1` below 2^63: a thread that is in a call and runs alone from there returns
-- within six of its steps, wherever the other threads stand, if its exchange does not fail
-- spuriously.
pub alone_returns :
    {A : Type 0} (cap n : ℕ) (s : System A) (i : ℕ)
    → 2 ≤ cap
    → is_power_of_two cap ≡ true
    → n + cap + 1 < 2 ^ 63
    → Reach (cap - 1) n s
    → called (s.pc i) ≡ true
    → returned (alone (cap - 1) 6 s.ring (s.pc i)).1 ≡ true
alone_returns cap n s i several power small reach in_call =
    let lap = power-Lap cap several power in
    let inv = Reach-Inv lap (omega arith) reach in
    within_six lap inv (omega (arith, Reach-enqueue_pos reach)) (s.pc i) in_call
