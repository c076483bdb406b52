-- ===== src/Queue.antt =====
-- engine/src/queue.rs: the bounded ring buffer with a sequence number in each slot, called by one
-- thread at a time. A `usize` is 64 bits wide: sums wrap, and `a as isize - b as isize` is the bit
-- pattern of the difference, negative from 2^63 on.
--
-- The loops of `push` and `pop` go round again when the weak compare-exchange fails. Here each
-- takes a list with one entry for each round that it may make; an entry says whether the
-- compare-exchange of that round fails spuriously. `running` means that the list came to its end.
pub mod Fifo
pub mod Inv
pub mod Push
pub mod Pop
pub mod Refine
pub mod Single
pub mod Threads
use Prim.Native.Nat.{bit_and}
use telemetry_threat_engine.Base.{
  ℕ, zero, suc, ◌+◌, ◌-◌, ◌/◌, ◌%◌, ◌^◌, Bool, true, false, List, [], ◌∷◌, Option, none, some, ◌==◌,
  leb, ◌&&◌, not, if◌then◌else◌, get_elem?, set,
}

-- `Slot<T>`.
pub record Slot {ℓ} (A : Type ℓ) : Type ℓ where
  pub sequence : ℕ
  pub value : Option A

-- `MpmcQueue<T>`.
pub record MpmcQueue {ℓ} (A : Type ℓ) : Type ℓ where
  pub buffer : List (Slot A)
  pub mask : ℕ
  pub enqueue_pos : ℕ
  pub dequeue_pos : ℕ

abbrev pub usize_mod : ℕ
usize_mod = 2 ^ 64

abbrev pub add_usize : ℕ → ℕ → ℕ
add_usize a b = (a + b) % usize_mod

-- `a as isize - b as isize`, as a bit pattern, and the test for a negative one.
abbrev pub sub_isize : ℕ → ℕ → ℕ
sub_isize a b = (a + usize_mod - b) % usize_mod

abbrev pub is_negative : ℕ → Bool
is_negative d = leb (2 ^ 63) d

-- `usize::is_power_of_two`, by halving; 64 halvings are enough for 64 bits.
unfoldable pub halves_to_one : ℕ → ℕ → Bool
halves_to_one zero n = false
halves_to_one (suc f) n =
    let more = halves_to_one f (n / 2) in
    if n == 1 then true else if n % 2 == 1 then false else more

unfoldable pub is_power_of_two : ℕ → Bool
unfolding halves_to_one
is_power_of_two n = if n == 0 then false else halves_to_one 64 n

module _ {ℓ} {A : Type ℓ} where
  -- The slots that `new` makes for the indices from `i` on.
  unfoldable pub fresh_slots : ℕ → ℕ → List (Slot A)
  fresh_slots zero i = []
  fresh_slots (suc n) i = record { sequence = i; value = none } ∷ fresh_slots n (suc i)

  -- `MpmcQueue::new`; `none` is the failed assertion.
  unfoldable pub new : ℕ → Option (MpmcQueue A)
  unfolding is_power_of_two fresh_slots
  new capacity =
      if is_power_of_two capacity
      then some (record {
        buffer = fresh_slots capacity 0;
        mask = capacity - 1;
        enqueue_pos = 0;
        dequeue_pos = 0;
      })
      else none

-- What a call comes to: a result and the queue after it, a panic, or still in its loop.
pub data Outcome {ℓ} (R : Type ℓ) : Type ℓ where
  done : R → Outcome R
  panic : Outcome R
  running : Outcome R

-- `Result<(), T>` of `push`.
pub data PushResult {ℓ} (A : Type ℓ) : Type ℓ where
  ok : PushResult A
  err : A → PushResult A

-- `compare_exchange_weak(current, current + 1)` at a counter: whether it succeeds.
abbrev pub exchanges : Bool → ℕ → ℕ → Bool
exchanges spurious counter current = not spurious && counter == current

module _ {ℓ} {A : Type ℓ} where
  -- The write of the item and of the sequence number after a successful exchange.
  unfoldable pub fill_slot : MpmcQueue A → ℕ → A → MpmcQueue A
  fill_slot q pos item = record q {
    buffer =
        set q.buffer (bit_and pos q.mask)
          (record { sequence = add_usize pos 1; value = some item });
    enqueue_pos = add_usize pos 1;
  }

  -- The loop of `push`.
  unfoldable pub push_loop : List Bool → ℕ → A → MpmcQueue A → Outcome (PushResult A × MpmcQueue A)
  unfolding fill_slot
  push_loop [] pos item q = running
  push_loop (spurious ∷ rounds) pos item q =
      let again = push_loop rounds q.enqueue_pos item q in
      elim (get_elem? q.buffer (bit_and pos q.mask)) [
        | none ↦ panic
        | some slot ↦
            let diff = sub_isize slot.sequence pos in
            if diff == 0
            then (if exchanges spurious q.enqueue_pos pos
                then done (ok, fill_slot q pos item)
                else again)
            else if is_negative diff
            then done (err item, q)
            else again
      ]

  unfoldable pub push : List Bool → A → MpmcQueue A → Outcome (PushResult A × MpmcQueue A)
  unfolding push_loop
  push rounds item q = push_loop rounds q.enqueue_pos item q

  -- The take of the item and the write of the sequence number after a successful exchange.
  unfoldable pub empty_slot : MpmcQueue A → ℕ → MpmcQueue A
  empty_slot q pos = record q {
    buffer =
        set q.buffer (bit_and pos q.mask)
          (record { sequence = add_usize (add_usize pos q.mask) 1; value = none });
    dequeue_pos = add_usize pos 1;
  }

  -- The loop of `pop`.
  unfoldable pub pop_loop : List Bool → ℕ → MpmcQueue A → Outcome (Option A × MpmcQueue A)
  unfolding empty_slot
  pop_loop [] pos q = running
  pop_loop (spurious ∷ rounds) pos q =
      let again = pop_loop rounds q.dequeue_pos q in
      elim (get_elem? q.buffer (bit_and pos q.mask)) [
        | none ↦ panic
        | some slot ↦
            let diff = sub_isize slot.sequence (add_usize pos 1) in
            if diff == 0
            then (if exchanges spurious q.dequeue_pos pos
                then done (slot.value, empty_slot q pos)
                else again)
            else if is_negative diff
            then done (none, q)
            else again
      ]

  unfoldable pub pop : List Bool → MpmcQueue A → Outcome (Option A × MpmcQueue A)
  unfolding pop_loop
  pop rounds q = pop_loop rounds q.dequeue_pos q
