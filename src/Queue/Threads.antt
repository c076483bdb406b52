-- ===== src/Queue/Threads.antt =====
-- engine/src/queue.rs called by any number of threads. Every access to an atomic field and every
-- access to the cell of a slot is a step of its own, and the steps of the threads interleave in any
-- order. What the memory orderings Acquire and Release promise is that the accesses of one thread are
-- seen in its order; so one order of all accesses is the model, with no reordering.
pub mod Lap
pub mod Inv
pub mod Family
pub mod Facts
pub mod ClaimPush
pub mod ClaimPop
pub mod Touch
pub mod Held
pub mod Moves
pub mod Runs
pub mod Safety
pub mod Refusal
pub mod Rest
pub mod Alone
use Prim.Native.Nat.{bit_and}
use telemetry_threat_engine.Base.{
  ℕ, suc, ◌+◌, ◌<◌, ◌≡◌, Bool, true, false, Option, none, some, ◌==◌, if◌then◌else◌,
}
use telemetry_threat_engine.Queue.{add_usize, sub_isize, is_negative, PushResult, ok, err}

-- A family with one entry replaced.
abbrev pub update : {B : Type 0} → (ℕ → B) → ℕ → B → ℕ → B
update f i b j = if i == j then b else f j

-- The shared memory: the fields `sequence` and `value` of the slots by their index, the two counters,
-- and two fields that no step reads, which record the item that each enqueue ticket was claimed for
-- and the item that was returned for each dequeue ticket.
pub record Ring (A : Type 0) : Type 0 where
  pub sequences : ℕ → ℕ
  pub values : ℕ → Option A
  pub enqueue_pos : ℕ
  pub dequeue_pos : ℕ
  pub claimed : ℕ → Option A
  pub delivered : ℕ → Option A

-- Where a thread stands in `push` or `pop`, with the variables that are live there.
pub data Pc (A : Type 0) : Type 0 where
  idle : Pc A
  push_call : (item : A) → Pc A  -- before the load of `enqueue_pos`
  push_at : (item : A) (pos : ℕ) → Pc A  -- the head of the loop
  push_saw : (item : A) (pos seq : ℕ) → Pc A  -- after the load of the slot's sequence
  writing : (item : A) (pos : ℕ) → Pc A  -- after the exchange
  publishing : (pos : ℕ) → Pc A  -- after the write of the item
  pushed : PushResult A → Pc A  -- returned
  pop_call : Pc A
  pop_at : (pos : ℕ) → Pc A
  pop_saw : (pos seq : ℕ) → Pc A
  taking : (pos : ℕ) → Pc A
  releasing : (item : Option A) (pos : ℕ) → Pc A
  popped : Option A → Pc A

-- `pos & self.mask`
unfoldable pub slot_index : ℕ → ℕ → ℕ
slot_index mask pos = bit_and pos mask

module _ {A : Type 0} where
  -- The successful exchange of `push`.
  unfoldable pub claim_push : Ring A → A → ℕ → Ring A
  claim_push m item pos = record m {
    enqueue_pos = add_usize pos 1;
    claimed = update m.claimed pos (some item);
  }

  -- The successful exchange of `pop`.
  unfoldable pub claim_pop : Ring A → ℕ → Ring A
  claim_pop m pos = record m { dequeue_pos = add_usize pos 1 }

module _ {A : Type 0} (mask : ℕ) where
  -- `*slot.value.get() = Some(item)`
  unfoldable pub write_item : Ring A → A → ℕ → Ring A
  write_item m item pos = record m { values = update m.values (slot_index mask pos) (some item) }

  -- The store of the sequence number at the end of `push`.
  unfoldable pub publish_slot : Ring A → ℕ → Ring A
  publish_slot m pos = record m {
    sequences = update m.sequences (slot_index mask pos) (add_usize pos 1);
  }

  -- `(*slot.value.get()).take()`
  unfoldable pub take_item : Ring A → ℕ → Ring A
  take_item m pos = record m { values = update m.values (slot_index mask pos) none }

  -- The store of the sequence number at the end of `pop`.
  unfoldable pub release_slot : Ring A → Option A → ℕ → Ring A
  release_slot m item pos = record m {
    sequences = update m.sequences (slot_index mask pos) (add_usize (add_usize pos mask) 1);
    delivered = update m.delivered pos item;
  }

  -- One step of one thread. The weak exchange may fail at any time; `lose` is also its failure
  -- because of another value of the counter, and the loop goes on with the value that it found.
  pub data Move (m : Ring A) : Pc A → Ring A → Pc A → Type 0 where
    start_push : (item : A) → Move m idle m (push_call item)
    load_enqueue : {item : A} → Move m (push_call item) m (push_at item m.enqueue_pos)
    load_push :
        {item : A} {pos : ℕ}
        → Move m (push_at item pos) m (push_saw item pos (m.sequences (slot_index mask pos)))
    win_push :
        {item : A} {pos seq : ℕ}
        → (sub_isize seq pos == 0) ≡ true
        → m.enqueue_pos ≡ pos
        → Move m (push_saw item pos seq) (claim_push m item pos) (writing item pos)
    lose_push :
        {item : A} {pos seq : ℕ}
        → (sub_isize seq pos == 0) ≡ true
        → Move m (push_saw item pos seq) m (push_at item m.enqueue_pos)
    refuse_push :
        {item : A} {pos seq : ℕ}
        → (sub_isize seq pos == 0) ≡ false
        → is_negative (sub_isize seq pos) ≡ true
        → Move m (push_saw item pos seq) m (pushed (err item))
    reload_push :
        {item : A} {pos seq : ℕ}
        → (sub_isize seq pos == 0) ≡ false
        → is_negative (sub_isize seq pos) ≡ false
        → Move m (push_saw item pos seq) m (push_at item m.enqueue_pos)
    write :
        {item : A} {pos : ℕ} → Move m (writing item pos) (write_item m item pos) (publishing pos)
    publish : {pos : ℕ} → Move m (publishing pos) (publish_slot m pos) (pushed ok)
    end_push : {r : PushResult A} → Move m (pushed r) m idle
    start_pop : Move m idle m pop_call
    load_dequeue : Move m pop_call m (pop_at m.dequeue_pos)
    load_pop : {pos : ℕ} → Move m (pop_at pos) m (pop_saw pos (m.sequences (slot_index mask pos)))
    win_pop :
        {pos seq : ℕ}
        → (sub_isize seq (add_usize pos 1) == 0) ≡ true
        → m.dequeue_pos ≡ pos
        → Move m (pop_saw pos seq) (claim_pop m pos) (taking pos)
    lose_pop :
        {pos seq : ℕ}
        → (sub_isize seq (add_usize pos 1) == 0) ≡ true
        → Move m (pop_saw pos seq) m (pop_at m.dequeue_pos)
    refuse_pop :
        {pos seq : ℕ}
        → (sub_isize seq (add_usize pos 1) == 0) ≡ false
        → is_negative (sub_isize seq (add_usize pos 1)) ≡ true
        → Move m (pop_saw pos seq) m (popped none)
    reload_pop :
        {pos seq : ℕ}
        → (sub_isize seq (add_usize pos 1) == 0) ≡ false
        → is_negative (sub_isize seq (add_usize pos 1)) ≡ false
        → Move m (pop_saw pos seq) m (pop_at m.dequeue_pos)
    take :
        {pos : ℕ}
        → Move m (taking pos) (take_item m pos) (releasing (m.values (slot_index mask pos)) pos)
    release :
        {item : Option A} {pos : ℕ}
        → Move m (releasing item pos) (release_slot m item pos) (popped item)
    end_pop : {item : Option A} → Move m (popped item) m idle

-- The memory and all threads.
pub record System (A : Type 0) : Type 0 where
  pub ring : Ring A
  pub pc : ℕ → Pc A

-- `MpmcQueue::new`, before any thread calls it. `slot_index` takes a ticket to a slot below the capacity.
unfoldable pub initial : (A : Type 0) → System A
initial A = record {
  ring = record {
    sequences = λ i. i;
    values = λ i. none;
    enqueue_pos = 0;
    dequeue_pos = 0;
    claimed = λ t. none;
    delivered = λ t. none;
  };
  pc = λ i. idle;
}

pub data Step {A : Type 0} (mask : ℕ) (s : System A) : System A → Type 0 where
  pick :
      (i : ℕ) {m : Ring A} {p : Pc A}
      → Move mask s.ring (s.pc i) m p
      → Step mask s (record { ring = m; pc = update s.pc i p })

-- The states that some number of steps comes to.
pub data Reach {A : Type 0} (mask : ℕ) : ℕ → System A → Type 0 where
  start : Reach mask 0 (initial A)
  later : {n : ℕ} {s t : System A} → Reach mask n s → Step mask s t → Reach mask (suc n) t
