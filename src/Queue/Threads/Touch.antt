-- ===== src/Queue/Threads/Touch.antt =====
-- An access of a thread to the slot of its ticket, and what stands elsewhere.
use telemetry_threat_engine.Base.{
  ℕ, ◌+◌, ◌≤◌, ◌<◌, ◌≡◌, ◌≢◌, ◌⊎◌, refl, sym, ap, ◌∙◌, Option, none, some, arith,
}
use native.Mathlib.Decide.{dec_lt, ℕ_discrete}
use telemetry_threat_engine.Queue.Threads.{
  slot_index, update, Ring, Pc, idle, push_call, push_at, push_saw, writing, publishing, pushed,
  pop_call, pop_at, pop_saw, taking, releasing, popped,
}
use telemetry_threat_engine.Queue.Threads.Lap.{Lap}
use telemetry_threat_engine.Queue.Threads.Inv.{writes, takes, Writer, Taker, Fresh, SlotIs, Inv}
use telemetry_threat_engine.Queue.Threads.Family.{Holder-kept}

-- Thread `i` goes to `p'`, at work on the ticket `pos`. Its kind is 0 in `push` and 1 in `pop`. It
-- changes the slot of its ticket and, at most, what is delivered for it.
pub record Touched {A : Type 0} (mask cap : ℕ) (m : Ring A) (pc : ℕ → Pc A) (i pos kind : ℕ)
    (p' : Pc A) (m' : Ring A) : Type 0 where
  pub is_kind : kind ≤ 1
  pub claimed_already : pos < m.enqueue_pos
  pub taken_already : kind ≡ 1 → pos < m.dequeue_pos
  pub in_use : m.sequences (slot_index mask pos) ≡ pos + kind
  pub old_write : (t : ℕ) → writes (pc i) ≡ some t → (t ≡ pos) × (kind ≡ 0)
  pub old_take : (t : ℕ) → takes (pc i) ≡ some t → (t ≡ pos) × (kind ≡ 1)
  pub new_write : (t : ℕ) → writes p' ≡ some t → writes (pc i) ≡ some t
  pub new_take : (t : ℕ) → takes p' ≡ some t → takes (pc i) ≡ some t
  pub holder : (kind ≡ 0 → writes (pc i) ≡ some pos) × (kind ≡ 1 → takes (pc i) ≡ some pos)
  -- what stays
  pub enqueue : m'.enqueue_pos ≡ m.enqueue_pos
  pub dequeue : m'.dequeue_pos ≡ m.dequeue_pos
  pub claims : (t : ℕ) → m'.claimed t ≡ m.claimed t
  pub far :
      (k : ℕ)
      → slot_index mask pos ≢ k
      → (m'.sequences k ≡ m.sequences k) × (m'.values k ≡ m.values k)
  pub other_delivered : (t : ℕ) → pos ≢ t → m'.delivered t ≡ m.delivered t
  -- what changes
  pub new_low : m'.sequences (slot_index mask pos) ≤ m.enqueue_pos + cap
  pub own_fresh : Fresh mask cap m' p'
  pub own_held :
      m.dequeue_pos ≤ pos
      → (writes p' ≡ some pos) ⊎ SlotIs mask cap m' pos (pos + 1) (m.claimed pos)
  pub own_vacated :
      pos < m.dequeue_pos → (takes p' ≡ some pos) ⊎ SlotIs mask cap m' pos (pos + cap) none
  pub own_served : pos < m.dequeue_pos → (takes p' ≡ some pos) ⊎ (m'.delivered pos ≡ m.claimed pos)
  pub own_unserved : m.dequeue_pos ≤ pos → m'.delivered pos ≡ none

module _ {A : Type 0} {mask cap : ℕ} {m m' : Ring A} {pc : ℕ → Pc A} {i pos kind : ℕ} {p' : Pc A}
    (lap : Lap mask cap) (inv : Inv mask cap m pc)
    (touch : Touched mask cap m pc i pos kind p' m') where
  open lap use {several, apart, again}

  -- A slot with the sequence number of another ticket, or of the other kind, is another slot.
  pub slot-ne :
      (t a : ℕ)
      → a ≤ 1
      → m.sequences (slot_index mask t) ≡ t + a
      → (a ≡ kind → pos ≢ t)
      → slot_index mask pos ≢ slot_index mask t
  slot-ne t a small s differ e =
      let seq : pos + kind ≡ t + a = sym touch.in_use ∙ ap m.sequences e ∙ s in
      elim (ℕ_discrete pos t) [
        | yes same ↦ differ (omega arith) same
        | no other ↦ elim (dec_lt pos t) [
          | yes lt ↦ omega (arith, apart pos t e lt, touch.is_kind)
          | no ge ↦ omega (arith, apart t pos (sym e) (omega arith), touch.is_kind)
        ]
      ]

  pub vacated-ne :
      (t : ℕ)
      → m.enqueue_pos ≤ t + cap
      → m.sequences (slot_index mask t) ≡ t + cap
      → slot_index mask pos ≢ slot_index mask t
  vacated-ne t last s e =
      let seq : pos + kind ≡ t + cap = sym touch.in_use ∙ ap m.sequences e ∙ s in
      omega (
        arith,
        apart t pos (sym e) (omega (arith, touch.is_kind)),
        touch.is_kind,
        touch.claimed_already,
      )

  pub far_slot :
      (t seq : ℕ) (value : Option A)
      → slot_index mask pos ≢ slot_index mask t
      → SlotIs mask cap m t seq value
      → SlotIs mask cap m' t seq value
  far_slot t seq value ne (s, v) =
      let (same_s, same_v) = touch.far (slot_index mask t) ne in (same_s ∙ s, same_v ∙ v)

  pub touch-Fresh :
      (q : Pc A)
      → Fresh mask cap m q
      → ((t : ℕ) → writes q ≡ some t → kind ≡ 0 → pos ≢ t)
      → ((t : ℕ) → takes q ≡ some t → kind ≡ 1 → pos ≢ t)
      → Fresh mask cap m' q
  touch-Fresh (push_at x p) f w k = omega (arith, touch.enqueue)
  touch-Fresh (push_saw x p s) (le, s_le, same) w k = (
    omega (arith, touch.enqueue),
    omega (arith, touch.enqueue),
    λ e now.
        let old : m.sequences (slot_index mask p) ≡ p = same e (omega (arith, touch.enqueue)) in
        (touch.far (slot_index mask p) (
          slot-ne p 0 (omega arith) (omega arith)
            (λ _ eq. omega (arith, touch.claimed_already, touch.enqueue)))).0
        ∙ old,
  )
  touch-Fresh (writing x p) ((a, b, c, d, v), known) w k =
      let ne = slot-ne p 0 (omega arith) (omega arith) (λ e. w p refl (sym e)) in
      let (s', v') = far_slot p p none ne (d, v) in
      (
        (
          omega (arith, touch.dequeue),
          omega (arith, touch.enqueue),
          omega (arith, touch.enqueue),
          s',
          v',
        ),
        touch.claims p ∙ known,
      )
  touch-Fresh (publishing p) (a, b, c, d, v) w k =
      let ne = slot-ne p 0 (omega arith) (omega arith) (λ e. w p refl (sym e)) in
      let (s', v') = far_slot p p (m.claimed p) ne (d, v) in
      (
        omega (arith, touch.dequeue),
        omega (arith, touch.enqueue),
        omega (arith, touch.enqueue),
        s',
        v' ∙ sym (touch.claims p),
      )
  touch-Fresh (pop_at p) f w k = omega (arith, touch.dequeue)
  touch-Fresh (pop_saw p s) (le, s_le, same) w k = (
    omega (arith, touch.dequeue),
    omega (arith, touch.enqueue),
    λ e now.
        let old : m.sequences (slot_index mask p) ≡ p + 1 = same e (omega (arith, touch.dequeue)) in
        (touch.far (slot_index mask p) (
          slot-ne p 1 (omega arith) old
            (λ one eq. omega (arith, touch.taken_already (sym one), touch.dequeue)))).0
        ∙ old,
  )
  touch-Fresh (taking p) (a, c, d, v, due) w k =
      let ne = slot-ne p 1 (omega arith) d (λ e. k p refl (sym e)) in
      let (s', v') = far_slot p (p + 1) (m.claimed p) ne (d, v) in
      (
        omega (arith, touch.dequeue),
        omega (arith, touch.enqueue),
        s',
        v' ∙ sym (touch.claims p),
        touch.other_delivered p (λ e. ne (ap (slot_index mask) e)) ∙ due,
      )
  touch-Fresh (releasing x p) ((a, c, d, v, due), known) w k =
      let ne = slot-ne p 1 (omega arith) d (λ e. k p refl (sym e)) in
      let (s', v') = far_slot p (p + 1) none ne (d, v) in
      (
        (
          omega (arith, touch.dequeue),
          omega (arith, touch.enqueue),
          s',
          v',
          touch.other_delivered p (λ e. ne (ap (slot_index mask) e)) ∙ due,
        ),
        known ∙ sym (touch.claims p),
      )
  touch-Fresh idle f w k = tt
  touch-Fresh (push_call _) f w k = tt
  touch-Fresh (pushed _) f w k = tt
  touch-Fresh pop_call f w k = tt
  touch-Fresh (popped _) f w k = tt

  pub Writer-kept : (t : ℕ) → pos ≢ t → Writer pc t → Writer (update pc i p') t
  Writer-kept t ne = Holder-kept writes pc i p' t (λ e. absurd (ne (sym (touch.old_write t e).0)))

  pub Taker-kept : (t : ℕ) → pos ≢ t → Taker pc t → Taker (update pc i p') t
  Taker-kept t ne = Holder-kept takes pc i p' t (λ e. absurd (ne (sym (touch.old_take t e).0)))
