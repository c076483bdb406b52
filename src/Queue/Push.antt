-- ===== src/Queue/Push.antt =====
-- What `push` does to a queue that holds given items, on every branch.
use Prim.Native.Nat.{bit_and}
use telemetry_threat_engine.Base.{
  ℕ, ◌+◌, ◌%◌, ◌^◌, ◌≤◌, ◌<◌, ◌≡◌, ap, ◌∙◌, inl, inr, Bool, true, false, List, [], ◌∷◌, ◌++◌, none,
  some, length, get_elem?, set, arith, ◌==◌, length-append, length-set, get_elem?-snoc,
  get_elem?-zero,
}
use native.Mathlib.Nat.{mod-eq_of_lt, add-mod_right}
use telemetry_threat_engine.Queue.{
  Slot, MpmcQueue, sub_isize, is_negative, exchanges, Outcome, done, PushResult, ok, err, fill_slot,
  push_loop, push,
}
use telemetry_threat_engine.Queue.Inv.{Holds, slot_index, set_same, set_other}

-- Some round's compare-exchange does not fail spuriously.
abbrev pub Settles : List Bool → Type 0
Settles [] = ⊥
Settles (false ∷ rounds) = Unit
Settles (true ∷ rounds) = Settles rounds

zero_difference : (a : ℕ) → (sub_isize a a == 0) ≡ true
zero_difference a = ground arith

exchange_succeeds : (a : ℕ) → exchanges false a a ≡ true
exchange_succeeds a = ground arith

behind :
    (d e c : ℕ)
    → e ≡ d + c
    → 2 ≤ c
    → e < 2 ^ 63
    → ((sub_isize (d + 0 + 1) e == 0) ≡ false) × (is_negative (sub_isize (d + 0 + 1) e) ≡ true)
behind d e c sum several small = (ground arith, ground arith)

module _ {ℓ} {A : Type ℓ} {cap : ℕ} {q : MpmcQueue A} {xs : List A} (h : Holds cap q xs) where
  open h use {several, size, mask, masks, counters, fits, bounded, published, free}

  -- While there is room, the slot of the next ticket waits for it.
  next_free :
      length xs < cap
      → get_elem? q.buffer (bit_and q.enqueue_pos q.mask)
        ≡ some (record { sequence = q.enqueue_pos; value = none })
  next_free room = rw (slot_index h q.enqueue_pos, counters) (free (length xs) (omega arith) room)

  -- What the buffer holds after the write of the next ticket.
  filled : A → List (Slot A)
  filled item =
      set q.buffer (bit_and (q.dequeue_pos + length xs) q.mask)
        (record { sequence = q.dequeue_pos + length xs + 1; value = some item })

  filled-published :
      (item : A)
      → length xs < cap
      → (i : ℕ) (x : A) → get_elem? (xs ++ item ∷ []) i ≡ some x
      → get_elem? (filled item) ((q.dequeue_pos + i) % cap)
        ≡ some (record { sequence = q.dequeue_pos + i + 1; value = some x })
  unfolding filled
  filled-published item room i x e = elim (get_elem?-snoc xs item i x e) [
    | inl (old, e') ↦
        set_other h q.dequeue_pos (length xs) i _ room (omega arith) (omega arith)
        ∙ published i x e'
    | inr (new, same) ↦ rw (new, ← same) (set_same h (q.dequeue_pos + length xs) _)
  ]

  filled-free :
      (item : A)
      → length xs < cap
      → (i : ℕ) → length (xs ++ item ∷ []) ≤ i
      → i < cap
      → get_elem? (filled item) ((q.dequeue_pos + i) % cap)
        ≡ some (record { sequence = q.dequeue_pos + i; value = none })
  unfolding filled
  filled-free item room i ge below =
      set_other h q.dequeue_pos (length xs) i _ room below
        (omega (arith, length-append xs (item ∷ [])))
      ∙ free i (omega (arith, length-append xs (item ∷ []))) below

  fill_slot-filled : (item : A) → (fill_slot q q.enqueue_pos item).buffer ≡ filled item
  unfolding fill_slot filled
  fill_slot-filled item =
      rw (counters, mod-eq_of_lt {n = q.dequeue_pos + length xs + 1} {m = 2 ^ 64} (omega arith))

  pub fill_slot-Holds :
      (item : A)
      → length xs < cap
      → q.enqueue_pos + cap + 1 < 2 ^ 63
      → Holds cap (fill_slot q q.enqueue_pos item) (xs ++ item ∷ [])
  unfolding fill_slot
  fill_slot-Holds item room more = record {
    several = several;
    size = length-set q.buffer _ _ ∙ size;
    mask = mask;
    masks = masks;
    counters = omega (arith, length-append xs (item ∷ []));
    fits = omega (arith, length-append xs (item ∷ []));
    bounded = omega arith;
    published = λ i x e.
        ap (λ b. get_elem? b ((q.dequeue_pos + i) % cap)) (fill_slot-filled item)
        ∙ filled-published item room i x e;
    free = λ i ge below.
        ap (λ b. get_elem? b ((q.dequeue_pos + i) % cap)) (fill_slot-filled item)
        ∙ filled-free item room i ge below;
  }

  push-room :
      (rounds : List Bool) (item : A)
      → Settles rounds
      → length xs < cap
      → push_loop rounds q.enqueue_pos item q ≡ done (ok, fill_slot q q.enqueue_pos item)
  unfolding push_loop
  push-room [] item s room = elim s [ ]
  push-room (false ∷ rounds) item s room =
      rw (next_free room, push_loop, zero_difference q.enqueue_pos, exchange_succeeds q.enqueue_pos)
  push-room (true ∷ rounds) item s room =
      rw (next_free room, push_loop, zero_difference q.enqueue_pos) (push-room rounds item s room)

  oldest_slot :
      length xs ≡ cap
      → (x : A) → get_elem? xs 0 ≡ some x
      → get_elem? q.buffer (bit_and q.enqueue_pos q.mask)
        ≡ some (record { sequence = q.dequeue_pos + 0 + 1; value = some x })
  oldest_slot full x e = rw (slot_index h q.enqueue_pos) (
      ap (get_elem? q.buffer)
        (ap (λ p. p % cap) (omega arith) ∙ add-mod_right (q.dequeue_pos + 0) cap)
      ∙ published 0 x e)

  -- A full queue shows the oldest item's sequence number, which is behind the next ticket.
  push-full :
      (rounds : List Bool) (item : A)
      → Settles rounds
      → length xs ≡ cap
      → push_loop rounds q.enqueue_pos item q ≡ done (err item, q)
  unfolding push_loop
  push-full [] item s full = elim s [ ]
  push-full (b ∷ rounds) item s full =
      let (x, oldest) = get_elem?-zero xs (omega arith) in
      let (ne, neg) = behind q.dequeue_pos q.enqueue_pos cap (omega arith) several (omega arith) in
      rw (oldest_slot full x oldest, push_loop, ne, neg)

-- `push` returns once a compare-exchange does not fail spuriously. It appends the item if fewer
-- than `cap` items are held, and otherwise gives it back and changes nothing.
pub record Pushed {ℓ} {A : Type ℓ} (cap : ℕ) (q : MpmcQueue A) (xs : List A) (item : A)
    (r : Outcome (PushResult A × MpmcQueue A)) : Type ℓ where
  pub room :
      length xs < cap
      → (q' : MpmcQueue A) × (r ≡ done (ok, q'))
        × Holds cap q' (xs ++ item ∷ [])
        × (q'.enqueue_pos ≡ q.enqueue_pos + 1)
  pub full : length xs ≡ cap → r ≡ done (err item, q)

enqueue_pos-fill_slot {ℓ} :
    {A : Type ℓ} (q : MpmcQueue A) (item : A)
    → q.enqueue_pos < 2 ^ 63
    → (fill_slot q q.enqueue_pos item).enqueue_pos ≡ q.enqueue_pos + 1
unfolding fill_slot
enqueue_pos-fill_slot q item h = omega arith

pub push-Pushed {ℓ} :
    {A : Type ℓ} {cap : ℕ} {q : MpmcQueue A} {xs : List A}
    → Holds cap q xs
    → (rounds : List Bool) (item : A) → Settles rounds
    → q.enqueue_pos + cap + 1 < 2 ^ 63
    → Pushed cap q xs item (push rounds item q)
unfolding push
push-Pushed {q} h rounds item s more = record {
  room = λ fits. (
    fill_slot q q.enqueue_pos item,
    push-room h rounds item s fits,
    fill_slot-Holds h item fits more,
    enqueue_pos-fill_slot q item (omega arith),
  );
  full = push-full h rounds item s;
}
