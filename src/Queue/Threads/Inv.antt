-- ===== src/Queue/Threads/Inv.antt =====
-- What holds of the memory and the threads of Threads at any time.
use telemetry_threat_engine.Base.{ℕ, ◌+◌, ◌≤◌, ◌<◌, ◌≡◌, ◌⊎◌, Option, none, some}
use telemetry_threat_engine.Queue.Threads.{
  slot_index, Ring, Pc, push_at, push_saw, writing, publishing, pop_at, pop_saw, taking, releasing,
}

module _ {A : Type 0} where
  -- The ticket that a thread has claimed and not published or released yet.
  abbrev pub writes : Pc A → Option ℕ
  writes (writing item pos) = some pos
  writes (publishing pos) = some pos
  writes _ = none

  abbrev pub takes : Pc A → Option ℕ
  takes (taking pos) = some pos
  takes (releasing item pos) = some pos
  takes _ = none

  -- Some thread is at work on the ticket.
  abbrev pub Writer : (ℕ → Pc A) → ℕ → Type 0
  Writer pc t = (i : ℕ) × (writes (pc i) ≡ some t)

  abbrev pub Taker : (ℕ → Pc A) → ℕ → Type 0
  Taker pc t = (i : ℕ) × (takes (pc i) ≡ some t)

module _ {A : Type 0} (mask cap : ℕ) where
  -- A ticket of `push` that is claimed: not yet taken, and the slot has no later use.
  abbrev pub InPush : Ring A → ℕ → Option A → Type 0
  InPush m pos held =
      (m.dequeue_pos ≤ pos)
      × (pos < m.enqueue_pos)
      × (m.enqueue_pos ≤ pos + cap)
      × (m.sequences (slot_index mask pos) ≡ pos)
      × (m.values (slot_index mask pos) ≡ held)

  abbrev pub InPop : Ring A → ℕ → Option A → Type 0
  InPop m pos held =
      (pos < m.dequeue_pos)
      × (m.enqueue_pos ≤ pos + cap)
      × (m.sequences (slot_index mask pos) ≡ pos + 1)
      × (m.values (slot_index mask pos) ≡ held)
      × (m.delivered pos ≡ none)

  -- What the variables of a thread say about the memory.
  abbrev pub Fresh : Ring A → Pc A → Type 0
  Fresh m (push_at item pos) = pos ≤ m.enqueue_pos
  Fresh m (push_saw item pos seq) =
      (pos ≤ m.enqueue_pos)
      × (seq ≤ m.enqueue_pos + cap)
      × (seq ≡ pos → pos ≡ m.enqueue_pos → m.sequences (slot_index mask pos) ≡ pos)
  Fresh m (writing item pos) = InPush m pos none × (m.claimed pos ≡ some item)
  Fresh m (publishing pos) = InPush m pos (m.claimed pos)
  Fresh m (pop_at pos) = pos ≤ m.dequeue_pos
  Fresh m (pop_saw pos seq) =
      (pos ≤ m.dequeue_pos)
      × (seq ≤ m.enqueue_pos + cap)
      × (seq ≡ pos + 1 → pos ≡ m.dequeue_pos → m.sequences (slot_index mask pos) ≡ pos + 1)
  Fresh m (taking pos) = InPop m pos (m.claimed pos)
  Fresh m (releasing item pos) = InPop m pos none × (item ≡ m.claimed pos)
  Fresh m _ = Unit

  -- The slot of a ticket, by its fields.
  abbrev pub SlotIs : Ring A → ℕ → ℕ → Option A → Type 0
  SlotIs m t seq value =
      (m.sequences (slot_index mask t) ≡ seq) × (m.values (slot_index mask t) ≡ value)

  pub record Inv (m : Ring A) (pc : ℕ → Pc A) : Type 0 where
    pub ordered : m.dequeue_pos ≤ m.enqueue_pos
    pub fits : m.enqueue_pos ≤ m.dequeue_pos + cap
    pub low : (t : ℕ) → m.sequences (slot_index mask t) ≤ m.enqueue_pos + cap
    -- the tickets of the first lap that are not claimed yet
    pub unused : (t : ℕ) → t < cap → m.enqueue_pos ≤ t → SlotIs m t t none
    -- the tickets of the last lap: those that are not taken, and those that are
    pub held :
        (t : ℕ)
        → m.dequeue_pos ≤ t
        → t < m.enqueue_pos
        → Writer pc t ⊎ SlotIs m t (t + 1) (m.claimed t)
    pub vacated :
        (t : ℕ)
        → t < m.dequeue_pos
        → m.enqueue_pos ≤ t + cap
        → Taker pc t ⊎ SlotIs m t (t + cap) none
    -- every ticket has an item, and its item is delivered or on its way
    pub known : (t : ℕ) → t < m.enqueue_pos → (item : A) × (m.claimed t ≡ some item)
    pub served : (t : ℕ) → t < m.dequeue_pos → Taker pc t ⊎ (m.delivered t ≡ m.claimed t)
    pub unserved : (t : ℕ) → m.dequeue_pos ≤ t → m.delivered t ≡ none
    pub fresh : (i : ℕ) → Fresh m (pc i)
    pub one_writer : (i j t : ℕ) → writes (pc i) ≡ some t → writes (pc j) ≡ some t → i ≡ j
    pub one_taker : (i j t : ℕ) → takes (pc i) ≡ some t → takes (pc j) ≡ some t → i ≡ j
