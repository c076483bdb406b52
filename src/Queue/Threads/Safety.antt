-- ===== src/Queue/Threads/Safety.antt =====
-- The accesses of threads that share the queue of engine/src/queue.rs, and the items they return.
use telemetry_threat_engine.Base.{
  ℕ, ◌+◌, ◌-◌, ◌^◌, ◌≤◌, ◌<◌, ◌≡◌, ◌≢◌, ◌⊎◌, sym, ap, ◌∙◌, subst, Option, none, some, inl, inr,
  true, arith,
}
use telemetry_threat_engine.Queue.{is_power_of_two}
use telemetry_threat_engine.Queue.Threads.{
  slot_index, Ring, Pc, idle, push_call, push_at, push_saw, writing, publishing, pushed, pop_call,
  pop_at, pop_saw, taking, releasing, popped, System, Reach,
}
use telemetry_threat_engine.Queue.Threads.Lap.{Lap, power-Lap}
use telemetry_threat_engine.Queue.Threads.Inv.{writes, takes, Fresh, Inv}
use telemetry_threat_engine.Queue.Threads.Facts.{Writer-OwnPush, Taker-OwnPop}
use telemetry_threat_engine.Queue.Threads.Runs.{Reach-Inv}

-- The ticket whose slot a thread may read or write: from its exchange to its last store.
abbrev pub uses : {A : Type 0} → Pc A → Option ℕ
uses (writing item pos) = some pos
uses (publishing pos) = some pos
uses (taking pos) = some pos
uses (releasing item pos) = some pos
uses _ = none

uses_cases :
    {A : Type 0} (q : Pc A) (t : ℕ) → uses q ≡ some t → (writes q ≡ some t) ⊎ (takes q ≡ some t)
uses_cases (writing item pos) t e = inl e
uses_cases (publishing pos) t e = inl e
uses_cases (taking pos) t e = inr e
uses_cases (releasing item pos) t e = inr e
uses_cases idle t e = cc
uses_cases (push_call _) t e = cc
uses_cases (push_at _ _) t e = cc
uses_cases (push_saw _ _ _) t e = cc
uses_cases (pushed _) t e = cc
uses_cases pop_call t e = cc
uses_cases (pop_at _) t e = cc
uses_cases (pop_saw _ _) t e = cc
uses_cases (popped _) t e = cc

module _ {A : Type 0} {mask cap : ℕ} {m : Ring A} {pc : ℕ → Pc A} (lap : Lap mask cap)
    (inv : Inv mask cap m pc) where
  open lap use {several, apart}

  writer-taker :
      (i j p q : ℕ)
      → writes (pc i) ≡ some p
      → takes (pc j) ≡ some q
      → slot_index mask p ≢ slot_index mask q
  writer-taker i j p q w k e =
      let own = Writer-OwnPush lap inv p (i, w) in
      let other = Taker-OwnPop lap inv q (j, k) in
      omega (
        arith,
        own.sequence,
        other.sequence,
        ap m.sequences e,
        own.after,
        other.before,
        apart q p (sym e) (omega (arith, own.after, other.before)),
      )

  two_writers :
      (i j p q : ℕ)
      → writes (pc i) ≡ some p
      → writes (pc j) ≡ some q
      → slot_index mask p ≡ slot_index mask q
      → i ≡ j
  two_writers i j p q w k e =
      let own = Writer-OwnPush lap inv p (i, w) in
      let other = Writer-OwnPush lap inv q (j, k) in
      let same : p ≡ q = sym own.sequence ∙ ap m.sequences e ∙ other.sequence in
      inv.one_writer i j q (w ∙ ap some same) k

  two_takers :
      (i j p q : ℕ)
      → takes (pc i) ≡ some p
      → takes (pc j) ≡ some q
      → slot_index mask p ≡ slot_index mask q
      → i ≡ j
  two_takers i j p q w k e =
      let own = Taker-OwnPop lap inv p (i, w) in
      let other = Taker-OwnPop lap inv q (j, k) in
      let same : p ≡ q = omega (arith, own.sequence, ap m.sequences e, other.sequence) in
      inv.one_taker i j q (w ∙ ap some same) k

  one_user :
      (i j p q : ℕ)
      → uses (pc i) ≡ some p
      → uses (pc j) ≡ some q
      → slot_index mask p ≡ slot_index mask q
      → i ≡ j
  one_user i j p q u v e = elim (uses_cases (pc i) p u) [
    | inl w ↦ elim (uses_cases (pc j) q v) [
      | inl w' ↦ two_writers i j p q w w' e
      | inr k' ↦ absurd (writer-taker i j p q w k' e)
    ]
    | inr k ↦ elim (uses_cases (pc j) q v) [
      | inl w' ↦ absurd (writer-taker j i q p w' k (sym e))
      | inr k' ↦ two_takers i j p q k k' e
    ]
  ]

  winner :
      (i pos : ℕ) (item : Option A)
      → pc i ≡ releasing item pos
      → (x : A) × (item ≡ some x) × (m.claimed pos ≡ some x) × (m.delivered pos ≡ none)
  winner i pos item here =
      let ((a, c, d, v, due), known) : Fresh mask cap m (releasing item pos) =
        subst (Fresh mask cap m) here (inv.fresh i) in
      let (x, e) = inv.known pos (omega (arith, inv.ordered)) in (x, known ∙ e, e, due)

  all_delivered :
      ((i : ℕ) → takes (pc i) ≡ none)
      → (t : ℕ) → t < m.dequeue_pos
      → (x : A) × (m.claimed t ≡ some x) × (m.delivered t ≡ some x)
  all_delivered rest t lt =
      let (x, e) = inv.known t (omega (arith, inv.ordered)) in
      elim (inv.served t lt) [
        | inl (i, k) ↦ absurd (no_ticket (sym (rest i) ∙ k))
        | inr d ↦ (x, e, d ∙ e)
      ]
    where
      no_ticket : none ≡ some t → ⊥
      no_ticket h = cc

module _ {A : Type 0} (cap n : ℕ) (s : System A) (several : 2 ≤ cap)
    (power : is_power_of_two cap ≡ true) (small : n + cap < 2 ^ 63)
    (run : Reach (cap - 1) n s) where
  lap : Lap (cap - 1) cap
  lap = power-Lap cap several power

  inv : Inv (cap - 1) cap s.ring s.pc
  inv = Reach-Inv lap small run

  -- In every state that threads come to by `n` steps on a new queue of at least two slots, a power
  -- of two, `n + cap` below 2^63, no two threads are at work on the same slot, between the exchange
  -- that claims it and the store of its sequence number. So no two accesses to the cell of a slot
  -- race.
  pub exclusive_access :
      (i j p q : ℕ)
      → uses (s.pc i) ≡ some p
      → uses (s.pc j) ≡ some q
      → slot_index (cap - 1) p ≡ slot_index (cap - 1) q
      → i ≡ j
  exclusive_access = one_user lap inv

  -- In every state that threads come to by `n` steps on a new queue of at least two slots, a power
  -- of two, `n + cap` below 2^63, a thread that is about to return from `pop` with a ticket returns
  -- the item that was pushed with the same ticket, never `None`, and no thread has returned it
  -- before.
  pub releasing-claimed :
      (i pos : ℕ) (item : Option A)
      → s.pc i ≡ releasing item pos
      → (x : A) × (item ≡ some x) × (s.ring.claimed pos ≡ some x) × (s.ring.delivered pos ≡ none)
  releasing-claimed = winner lap inv

  -- In every state that threads come to by `n` steps on a new queue of at least two slots, a power
  -- of two, `n + cap` below 2^63, if no thread is between the exchange and the last store of `pop`,
  -- the item of every ticket that `pop` claimed has been delivered: none is lost.
  pub delivered-claimed :
      ((i : ℕ) → takes (s.pc i) ≡ none)
      → (t : ℕ) → t < s.ring.dequeue_pos
      → (x : A) × (s.ring.claimed t ≡ some x) × (s.ring.delivered t ≡ some x)
  delivered-claimed = all_delivered lap inv
