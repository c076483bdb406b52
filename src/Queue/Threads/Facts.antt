-- ===== src/Queue/Threads/Facts.antt =====
-- What the invariant of Inv says about a thread with a ticket, and about the slot of the next ticket.
use telemetry_threat_engine.Base.{
  ℕ, ◌+◌, ◌-◌, ◌^◌, ◌≤◌, ◌<◌, ◌≡◌, ◌≢◌, sym, ap, ◌∙◌, Option, none, some, inl, inr, ◌==◌, true,
  false, arith,
}
use native.Mathlib.Decide.{dec_lt}
use telemetry_threat_engine.Queue.{sub_isize, is_negative}
use telemetry_threat_engine.Queue.Threads.{
  slot_index, Ring, Pc, idle, push_call, push_at, push_saw, writing, publishing, pushed, pop_call,
  pop_at, pop_saw, taking, releasing, popped,
}
use telemetry_threat_engine.Queue.Threads.Lap.{Lap}
use telemetry_threat_engine.Queue.Threads.Inv.{writes, takes, Writer, Taker, Fresh, SlotIs, Inv}

module _ {A : Type 0} (mask cap : ℕ) (m : Ring A) where
  -- What a claimed ticket says, whichever of its two places the thread stands at.
  pub record OwnPush (t : ℕ) : Type 0 where
    pub after : m.dequeue_pos ≤ t
    pub before : t < m.enqueue_pos
    pub last : m.enqueue_pos ≤ t + cap
    pub sequence : m.sequences (slot_index mask t) ≡ t

  pub record OwnPop (t : ℕ) : Type 0 where
    pub before : t < m.dequeue_pos
    pub last : m.enqueue_pos ≤ t + cap
    pub sequence : m.sequences (slot_index mask t) ≡ t + 1
    pub due : m.delivered t ≡ none

  pub writes-OwnPush : (q : Pc A) (t : ℕ) → Fresh mask cap m q → writes q ≡ some t → OwnPush t
  writes-OwnPush (writing item pos) t f e = ground arith
  writes-OwnPush (publishing pos) t f e = ground arith
  writes-OwnPush idle t f e = cc
  writes-OwnPush (push_call _) t f e = cc
  writes-OwnPush (push_at _ _) t f e = cc
  writes-OwnPush (push_saw _ _ _) t f e = cc
  writes-OwnPush (pushed _) t f e = cc
  writes-OwnPush pop_call t f e = cc
  writes-OwnPush (pop_at _) t f e = cc
  writes-OwnPush (pop_saw _ _) t f e = cc
  writes-OwnPush (taking _) t f e = cc
  writes-OwnPush (releasing _ _) t f e = cc
  writes-OwnPush (popped _) t f e = cc

  pub takes-OwnPop : (q : Pc A) (t : ℕ) → Fresh mask cap m q → takes q ≡ some t → OwnPop t
  takes-OwnPop (taking pos) t f e = ground arith
  takes-OwnPop (releasing item pos) t f e = ground arith
  takes-OwnPop idle t f e = cc
  takes-OwnPop (push_call _) t f e = cc
  takes-OwnPop (push_at _ _) t f e = cc
  takes-OwnPop (push_saw _ _ _) t f e = cc
  takes-OwnPop (writing _ _) t f e = cc
  takes-OwnPop (publishing _) t f e = cc
  takes-OwnPop (pushed _) t f e = cc
  takes-OwnPop pop_call t f e = cc
  takes-OwnPop (pop_at _) t f e = cc
  takes-OwnPop (pop_saw _ _) t f e = cc
  takes-OwnPop (popped _) t f e = cc

-- What a difference of zero, a negative one and a positive one say of numbers below 2^63.
pub zero_difference : (a b : ℕ) → a < 2 ^ 63 → b < 2 ^ 63 → (sub_isize a b == 0) ≡ true → a ≡ b
zero_difference a b ha hb e = ground arith

pub negative_difference :
    (a b : ℕ)
    → a < 2 ^ 63
    → b < 2 ^ 63
    → (sub_isize a b == 0) ≡ false
    → is_negative (sub_isize a b) ≡ true
    → a < b
negative_difference a b ha hb e n = ground arith

pub positive_difference :
    (a b : ℕ)
    → a < 2 ^ 63
    → b < 2 ^ 63
    → (sub_isize a b == 0) ≡ false
    → is_negative (sub_isize a b) ≡ false
    → b < a
positive_difference a b ha hb e n = ground arith

module _ {A : Type 0} {mask cap : ℕ} {m : Ring A} {pc : ℕ → Pc A} (lap : Lap mask cap)
    (inv : Inv mask cap m pc) where
  open lap use {several, apart, again}

  pub Writer-OwnPush : (t : ℕ) → Writer pc t → OwnPush mask cap m t
  Writer-OwnPush t (i, e) = writes-OwnPush mask cap m (pc i) t (inv.fresh i) e

  pub Taker-OwnPop : (t : ℕ) → Taker pc t → OwnPop mask cap m t
  Taker-OwnPop t (i, e) = takes-OwnPop mask cap m (pc i) t (inv.fresh i) e

  -- The slot of the next ticket of `push`: free for it, or still in use by the lap before, which is
  -- seen by a smaller sequence number.
  pub record NextPush : Type 0 where
    pub at_most : m.sequences (slot_index mask m.enqueue_pos) ≤ m.enqueue_pos
    pub vacant :
        m.sequences (slot_index mask m.enqueue_pos) ≡ m.enqueue_pos
        → (m.values (slot_index mask m.enqueue_pos) ≡ none) × (m.enqueue_pos < m.dequeue_pos + cap)

  next_push-slot :
      (t seq : ℕ) (value : Option A)
      → slot_index mask t ≡ slot_index mask m.enqueue_pos
      → SlotIs mask cap m t seq value
      → (m.sequences (slot_index mask m.enqueue_pos) ≡ seq)
        × (m.values (slot_index mask m.enqueue_pos) ≡ value)
  next_push-slot t seq value same (s, v) =
      (ap m.sequences (sym same) ∙ s, ap m.values (sym same) ∙ v)

  pub next_push : NextPush
  next_push = elim (dec_lt m.enqueue_pos cap) [
    | yes first_lap ↦
        let (s, v) = inv.unused m.enqueue_pos first_lap (omega arith) in
        record { at_most = omega arith; vacant = λ e. (v, omega arith) }
    | no later_lap ↦
        let u = m.enqueue_pos - cap in
        let same : slot_index mask u ≡ slot_index mask m.enqueue_pos =
          sym (again u) ∙ ap (slot_index mask) (omega arith) in
        elim (dec_lt u m.dequeue_pos) [
          | yes taken ↦ elim (inv.vacated u taken (omega arith)) [
            | inl taker ↦
                let own = Taker-OwnPop u taker in
                let s : m.sequences (slot_index mask m.enqueue_pos) ≡ u + 1 =
                  ap m.sequences (sym same) ∙ own.sequence in
                record { at_most = omega arith; vacant = λ e. absurd (omega arith) }
            | inr slot ↦
                let (s, v) = next_push-slot u (u + cap) none same slot in
                record { at_most = omega arith; vacant = λ e. (v, omega arith) }
          ]
          | no waiting ↦ elim (inv.held u (omega arith) (omega arith)) [
            | inl writer ↦
                let own = Writer-OwnPush u writer in
                let s : m.sequences (slot_index mask m.enqueue_pos) ≡ u =
                  ap m.sequences (sym same) ∙ own.sequence in
                record { at_most = omega arith; vacant = λ e. absurd (omega arith) }
            | inr slot ↦
                let (s, v) = next_push-slot u (u + 1) (m.claimed u) same slot in
                record { at_most = omega arith; vacant = λ e. absurd (omega arith) }
          ]
        ]
  ]

  -- The slot of the next ticket of `pop`: published for it, or seen by a smaller sequence number.
  pub record NextPop : Type 0 where
    pub at_most : m.sequences (slot_index mask m.dequeue_pos) ≤ m.dequeue_pos + 1
    pub ready :
        m.sequences (slot_index mask m.dequeue_pos) ≡ m.dequeue_pos + 1
        → (m.values (slot_index mask m.dequeue_pos) ≡ m.claimed m.dequeue_pos)
          × (m.dequeue_pos < m.enqueue_pos)
    pub pending :
        m.dequeue_pos < m.enqueue_pos
        → m.sequences (slot_index mask m.dequeue_pos) ≢ m.dequeue_pos + 1
        → Writer pc m.dequeue_pos

  pub next_pop : NextPop
  next_pop = elim (dec_lt m.dequeue_pos m.enqueue_pos) [
    | yes some_held ↦ elim (inv.held m.dequeue_pos (omega arith) some_held) [
      | inl writer ↦
          let own = Writer-OwnPush m.dequeue_pos writer in
          record {
            at_most = omega (arith, own.sequence);
            ready = λ e. absurd (omega (arith, own.sequence));
            pending = λ h ne. writer;
          }
      | inr (s, v) ↦ record {
        at_most = omega arith;
        ready = λ e. (v, some_held);
        pending = λ h ne. absurd (ne s);
      }
    ]
    | no none_held ↦
        let same : m.dequeue_pos ≡ m.enqueue_pos = omega (arith, inv.ordered) in
        let le : m.sequences (slot_index mask m.dequeue_pos) ≤ m.dequeue_pos =
          omega (arith, ap (λ t. m.sequences (slot_index mask t)) same, next_push.at_most) in
        record {
          at_most = omega arith;
          ready = λ e. absurd (omega arith);
          pending = λ h. absurd (omega arith);
        }
  ]
