-- ===== src/Queue/Threads/Rest.antt =====
-- A queue that threads have shared, once none of them is at work on it, beside the queue of the parent
-- module.
use native.Mathlib.Decide.{dec_lt}
use telemetry_threat_engine.Base.{
  ℕ, zero, suc, ◌+◌, ◌-◌, ◌%◌, ◌^◌, ◌≤◌, ◌<◌, ◌≡◌, refl, sym, ap, ◌∙◌, List, [], ◌∷◌, Option, none,
  some, inl, inr, true, length, get_elem?, get_elem?-lt, arith,
}
use telemetry_threat_engine.Queue.{Slot, MpmcQueue, is_power_of_two}
use telemetry_threat_engine.Queue.Fifo.{Call, run_fifo, run}
use telemetry_threat_engine.Queue.Inv.{Holds, mask-of-power, is_power_of_two_sound}
use telemetry_threat_engine.Queue.Refine.{AllSettle, run-run_fifo_from}
use telemetry_threat_engine.Queue.Threads.{slot_index, Ring, Pc, System, Reach}
use telemetry_threat_engine.Queue.Threads.Lap.{Lap, power-Lap, slot_index-mod}
use telemetry_threat_engine.Queue.Threads.Inv.{writes, takes, SlotIs, Inv}
use telemetry_threat_engine.Queue.Threads.Runs.{Reach-Inv, Reach-enqueue_pos}

module _ {A : Type 0} (m : Ring A) where
  pub slots_from : ℕ → ℕ → List (Slot A)
  slots_from zero i = []
  slots_from (suc n) i =
      record { sequence = m.sequences i; value = m.values i } ∷ slots_from n (suc i)

  -- The fields of the struct.
  unfoldable pub as_queue : ℕ → MpmcQueue A
  as_queue cap = record {
    buffer = slots_from cap 0;
    mask = cap - 1;
    enqueue_pos = m.enqueue_pos;
    dequeue_pos = m.dequeue_pos;
  }

  length-slots_from : (n i : ℕ) → length (slots_from n i) ≡ n
  unfolding slots_from
  length-slots_from zero i = refl
  length-slots_from (suc n) i = ap suc (length-slots_from n (suc i))

  get_elem?-slots_from :
      (n i k : ℕ)
      → k < n
      → get_elem? (slots_from n i) k
        ≡ some (record { sequence = m.sequences (i + k); value = m.values (i + k) })
  unfolding slots_from
  get_elem?-slots_from zero i k h = elim h [ ]
  get_elem?-slots_from (suc n) i zero h =
      ap (λ j. some (record { sequence = m.sequences j; value = m.values j })) (omega arith)
  get_elem?-slots_from (suc n) i (suc k) h =
      get_elem?-slots_from n (suc i) k (omega arith)
      ∙ ap (λ j. some (record { sequence = m.sequences j; value = m.values j })) (omega arith)

module _ {A : Type 0} {cap : ℕ} {m : Ring A} {pc : ℕ → Pc A} (lap : Lap (cap - 1) cap)
    (inv : Inv (cap - 1) cap m pc) (power : is_power_of_two cap ≡ true)
    (no_writer : (i : ℕ) → writes (pc i) ≡ none) (no_taker : (i : ℕ) → takes (pc i) ≡ none)
    (small : m.enqueue_pos + cap < 2 ^ 63) where
  -- The items of `k` tickets from `t` on.
  tickets_items :
      (k t : ℕ)
      → t + k ≤ m.enqueue_pos
      → (xs : List A) × (length xs ≡ k)
        × ((i : ℕ) (x : A) → get_elem? xs i ≡ some x → m.claimed (t + i) ≡ some x)
  tickets_items zero t h = ([], refl, λ i x e. cc)
  tickets_items (suc k) t h =
      let (x, known) = inv.known t (omega arith) in
      let (xs, n, items) = tickets_items k (suc t) (omega arith) in
      (x ∷ xs, ap suc n, first x known xs items)
    where
      first :
          (x : A)
          → m.claimed t ≡ some x
          → (xs : List A)
          → ((i : ℕ) (y : A) → get_elem? xs i ≡ some y → m.claimed (suc t + i) ≡ some y)
          → (i : ℕ) (y : A) → get_elem? (x ∷ xs) i ≡ some y
          → m.claimed (t + i) ≡ some y
      first x known xs items zero y e = ap m.claimed (omega arith) ∙ known ∙ e
      first x known xs items (suc i) y e = ap m.claimed (omega arith) ∙ items i y e

  held_slot :
      (t : ℕ)
      → m.dequeue_pos ≤ t
      → t < m.enqueue_pos
      → SlotIs (cap - 1) cap m t (t + 1) (m.claimed t)
  held_slot t ge lt = elim (inv.held t ge lt) [
    | inl (i, w) ↦ absurd (no_ticket (sym (no_writer i) ∙ w))
    | inr slot ↦ slot
  ]
    where
      no_ticket : none ≡ some t → ⊥
      no_ticket h = cc

  free_slot :
      (t : ℕ) → m.enqueue_pos ≤ t → t < m.dequeue_pos + cap → SlotIs (cap - 1) cap m t t none
  free_slot t ge lt = elim (dec_lt t cap) [
    | yes first_lap ↦ inv.unused t first_lap ge
    | no later_lap ↦ elim (inv.vacated (t - cap) (omega arith) (omega arith)) [
      | inl (i, k) ↦ absurd (no_ticket (sym (no_taker i) ∙ k))
      | inr (s, v) ↦
          let e : t - cap + cap ≡ t = omega arith in
          let same : slot_index (cap - 1) t ≡ slot_index (cap - 1) (t - cap) =
            ap (slot_index (cap - 1)) (sym e) ∙ lap.again (t - cap) in
          (ap m.sequences same ∙ s ∙ e, ap m.values same ∙ v)
    ]
  ]
    where
      no_ticket : none ≡ some (t - cap) → ⊥
      no_ticket h = cc

  slot_at :
      (t seq : ℕ) (value : Option A)
      → SlotIs (cap - 1) cap m t seq value
      → get_elem? (as_queue m cap).buffer (t % cap)
        ≡ some (record { sequence = seq; value = value })
  unfolding as_queue
  slot_at t seq value (s, v) =
      let at : slot_index (cap - 1) t ≡ t % cap = slot_index-mod cap power t in
      let below : t % cap < cap = omega (arith, at, lap.below t) in
      get_elem?-slots_from m cap 0 (t % cap) below
      ∙ ap (λ j. some (record { sequence = m.sequences j; value = m.values j })) (omega (arith, at))
      ∙ (λ k. some (record { sequence = s k; value = v k }))

  rest-Holds :
      (xs : List A)
      → length xs ≡ m.enqueue_pos - m.dequeue_pos
      → ((i : ℕ) (x : A) → get_elem? xs i ≡ some x → m.claimed (m.dequeue_pos + i) ≡ some x)
      → Holds cap (as_queue m cap) xs
  unfolding as_queue
  rest-Holds xs n items = record {
    several = lap.several;
    size = length-slots_from m cap 0;
    mask = refl;
    masks = let (k, e) = is_power_of_two_sound cap power in mask-of-power cap k e;
    counters = omega (arith, inv.ordered);
    fits = omega (arith, inv.fits);
    bounded = small;
    published = λ i x e.
        let lt : i < length xs = get_elem?-lt xs i x e in
        let (s, v) = held_slot (m.dequeue_pos + i) (omega arith) (omega (arith, inv.ordered)) in
        slot_at (m.dequeue_pos + i) (m.dequeue_pos + i + 1) (some x) (s, v ∙ items i x e);
    free = λ i ge lt.
        slot_at (m.dequeue_pos + i) (m.dequeue_pos + i) none
          (free_slot (m.dequeue_pos + i) (omega (arith, inv.ordered)) (omega arith));
  }

-- After `n` steps of any threads on a new queue of at least two slots, if none of them is between an
-- exchange and its last store: the queue holds one item for each ticket that was claimed by `push`
-- and not by `pop`, in the order of the tickets, and every sequence of calls by one thread then
-- returns what the bounded queue with these items returns, if each call meets a compare-exchange that
-- does not fail spuriously and no counter reaches 2^63.
pub rest-run_fifo :
    {A : Type 0} (cap n : ℕ) (s : System A) (calls : List (Call A))
    → 2 ≤ cap
    → is_power_of_two cap ≡ true
    → n + cap + length calls < 2 ^ 63
    → Reach (cap - 1) n s
    → ((i : ℕ) → writes (s.pc i) ≡ none)
    → ((i : ℕ) → takes (s.pc i) ≡ none)
    → AllSettle calls
    → (xs : List A) × (length xs ≡ s.ring.enqueue_pos - s.ring.dequeue_pos)
      × ((i : ℕ) (x : A)
          → get_elem? xs i ≡ some x
          → s.ring.claimed (s.ring.dequeue_pos + i) ≡ some x)
      × (run (as_queue s.ring cap) calls ≡ run_fifo cap xs calls)
unfolding as_queue
rest-run_fifo cap n s calls several power small reach no_writer no_taker settle =
    let lap = power-Lap cap several power in
    let inv = Reach-Inv lap (omega arith) reach in
    let bound : s.ring.enqueue_pos ≤ n = Reach-enqueue_pos reach in
    let (xs, size, items) =
      tickets_items lap inv power no_writer no_taker (omega arith)
        (s.ring.enqueue_pos - s.ring.dequeue_pos) s.ring.dequeue_pos (omega (arith, inv.ordered)) in
    let holds = rest-Holds lap inv power no_writer no_taker (omega arith) xs size items in
    (
      xs,
      size,
      items,
      run-run_fifo_from cap calls xs (as_queue s.ring cap) holds settle (omega arith),
    )
