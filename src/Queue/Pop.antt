-- ===== src/Queue/Pop.antt =====
-- What `pop` does to a queue that holds given items, on every branch.
use Prim.Native.Nat.{bit_and}
use telemetry_threat_engine.Base.{
  ℕ, suc, ◌+◌, ◌%◌, ◌^◌, ◌≤◌, ◌<◌, ◌≡◌, refl, ap, ◌∙◌, Bool, true, false, List, [], ◌∷◌, Option,
  none, some, length, get_elem?, set, arith, ◌==◌, length-set, get_elem?-lt,
}
use native.Mathlib.Nat.{add-mod_right}
use native.Mathlib.Decide.{dec_lt}
use telemetry_threat_engine.Queue.{
  Slot, MpmcQueue, sub_isize, add_usize, is_negative, exchanges, Outcome, done, empty_slot,
  pop_loop, pop,
}
use telemetry_threat_engine.Queue.Inv.{Holds, slot_index, set_same, set_other}
use telemetry_threat_engine.Queue.Push.{Settles}

-- The difference that `pop` computes: zero at a published item, negative at a free slot.
published_difference : (d : ℕ) → d < 2 ^ 63 → (sub_isize (d + 0 + 1) (add_usize d 1) == 0) ≡ true
published_difference d h = ground arith

free_difference :
    (d : ℕ)
    → d < 2 ^ 63
    → ((sub_isize (d + 0) (add_usize d 1) == 0) ≡ false)
      × (is_negative (sub_isize (d + 0) (add_usize d 1)) ≡ true)
free_difference d h = (ground arith, ground arith)

exchange_succeeds : (a : ℕ) → exchanges false a a ≡ true
exchange_succeeds a = ground arith

module _ {ℓ} {A : Type ℓ} {cap : ℕ} {q : MpmcQueue A} {xs : List A} (h : Holds cap q xs) where
  open h use {several, size, mask, masks, counters, fits, bounded, published, free}

  first_index : bit_and q.dequeue_pos q.mask ≡ (q.dequeue_pos + 0) % cap
  first_index = slot_index h q.dequeue_pos ∙ ap (λ p. p % cap) (omega arith)

  first_published :
      (x : A)
      → get_elem? xs 0 ≡ some x
      → get_elem? q.buffer (bit_and q.dequeue_pos q.mask)
        ≡ some (record { sequence = q.dequeue_pos + 0 + 1; value = some x })
  first_published x e = rw first_index (published 0 x e)

  pop-first :
      (rounds : List Bool)
      → Settles rounds
      → (x : A) → get_elem? xs 0 ≡ some x
      → pop_loop rounds q.dequeue_pos q ≡ done (some x, empty_slot q q.dequeue_pos)
  unfolding pop_loop
  pop-first [] s x e = elim s [ ]
  pop-first (false ∷ rounds) s x e = rw (
    first_published x e,
    pop_loop,
    published_difference q.dequeue_pos (omega arith),
    exchange_succeeds q.dequeue_pos,
  )
  pop-first (true ∷ rounds) s x e =
      rw (first_published x e, pop_loop, published_difference q.dequeue_pos (omega arith))
        (pop-first rounds s x e)

  pop-none :
      (rounds : List Bool)
      → Settles rounds
      → length xs ≡ 0
      → pop_loop rounds q.dequeue_pos q ≡ done (none, q)
  unfolding pop_loop
  pop-none [] s e = elim s [ ]
  pop-none (b ∷ rounds) s e =
      let (ne, neg) = free_difference q.dequeue_pos (omega arith) in
      let first : get_elem? q.buffer (bit_and q.dequeue_pos q.mask)
          ≡ some (record { sequence = q.dequeue_pos + 0; value = none }) =
        rw first_index (free 0 (omega arith) (omega arith)) in
      rw (first, pop_loop, ne, neg)

module _ {ℓ} {A : Type ℓ} {cap : ℕ} {q : MpmcQueue A} {x : A} {xs : List A}
    (h : Holds cap q (x ∷ xs)) where
  open h use {several, size, mask, masks, counters, fits, bounded, published, free}

  -- What the buffer holds after the take of the oldest item.
  emptied : List (Slot A)
  emptied =
      set q.buffer (bit_and (q.dequeue_pos + 0) q.mask)
        (record { sequence = q.dequeue_pos + cap; value = none })

  emptied-published :
      (i : ℕ) (y : A)
      → get_elem? xs i ≡ some y
      → get_elem? emptied ((q.dequeue_pos + suc i) % cap)
        ≡ some (record { sequence = q.dequeue_pos + suc i + 1; value = some y })
  unfolding emptied
  emptied-published i y e =
      set_other h q.dequeue_pos 0 (suc i) _ (omega arith) (omega (arith, get_elem?-lt xs i y e))
        (omega arith)
      ∙ published (suc i) y e

  emptied-free :
      (i : ℕ)
      → length xs ≤ i
      → i < cap
      → get_elem? emptied ((q.dequeue_pos + suc i) % cap)
        ≡ some (record { sequence = q.dequeue_pos + suc i; value = none })
  unfolding emptied
  emptied-free i ge below = elim (dec_lt (suc i) cap) [
    | yes old ↦
        set_other h q.dequeue_pos 0 (suc i) _ (omega arith) old (omega arith)
        ∙ free (suc i) (omega arith) old
    | no last ↦
        ap (get_elem? emptied)
          (ap (λ p. p % cap) (omega arith) ∙ add-mod_right (q.dequeue_pos + 0) cap)
        ∙ set_same h (q.dequeue_pos + 0) _
        ∙ ap (λ s. some (record { sequence = s; value = none })) (omega arith)
  ]

  empty_slot-emptied : (empty_slot q q.dequeue_pos).buffer ≡ emptied
  unfolding empty_slot emptied
  empty_slot-emptied =
      ap2 (λ p s. set q.buffer (bit_and p q.mask) (record { sequence = s; value = none }))
        (omega arith) (omega arith)
    where
      ap2 : (f : ℕ → ℕ → List (Slot A)) {a b c d : ℕ} → a ≡ b → c ≡ d → f a c ≡ f b d
      ap2 f p q = λ i. f (p i) (q i)

  shifted : (i : ℕ) → (add_usize q.dequeue_pos 1 + i) % cap ≡ (q.dequeue_pos + suc i) % cap
  shifted i = ap (λ p. p % cap) (omega arith)

  pub empty_slot-Holds : Holds cap (empty_slot q q.dequeue_pos) xs
  unfolding empty_slot
  empty_slot-Holds = record {
    several = several;
    size = length-set q.buffer _ _ ∙ size;
    mask = mask;
    masks = masks;
    counters = omega arith;
    fits = omega arith;
    bounded = bounded;
    published = λ i y e.
        (λ k. get_elem? (empty_slot-emptied k) (shifted i k))
        ∙ emptied-published i y e
        ∙ ap (λ s. some (record { sequence = s; value = some y })) (omega arith);
    free = λ i ge below.
        (λ k. get_elem? (empty_slot-emptied k) (shifted i k))
        ∙ emptied-free i ge below
        ∙ ap (λ s. some (record { sequence = s; value = none })) (omega arith);
  }

-- `pop` of an empty queue is `none` and changes nothing; otherwise it returns the oldest item and
-- the queue holds the rest.
abbrev pub Popped {ℓ} :
    {A : Type ℓ} → ℕ → MpmcQueue A → List A → Outcome (Option A × MpmcQueue A) → Type ℓ
Popped cap q [] r = r ≡ done (none, q)
Popped {A} cap q (x ∷ xs) r =
    (q' : MpmcQueue A) × (r ≡ done (some x, q'))
    × Holds cap q' xs
    × (q'.enqueue_pos ≡ q.enqueue_pos)

enqueue_pos-empty_slot {ℓ} :
    {A : Type ℓ} (q : MpmcQueue A) → (empty_slot q q.dequeue_pos).enqueue_pos ≡ q.enqueue_pos
unfolding empty_slot
enqueue_pos-empty_slot q = refl

pub pop-Popped {ℓ} :
    {A : Type ℓ} {cap : ℕ} {q : MpmcQueue A} (xs : List A)
    → Holds cap q xs
    → (rounds : List Bool) → Settles rounds
    → Popped cap q xs (pop rounds q)
unfolding pop
pop-Popped [] h rounds s = pop-none h rounds s (omega arith)
pop-Popped {q} (x ∷ xs) h rounds s = (
  empty_slot q q.dequeue_pos,
  pop-first h rounds s x refl,
  empty_slot-Holds h,
  enqueue_pos-empty_slot q,
)
