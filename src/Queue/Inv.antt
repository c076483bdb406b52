-- ===== src/Queue/Inv.antt =====
-- When a ring buffer holds a sequence of items: the representation invariant of
-- engine/src/queue.rs, and the queue that `new` gives.
use Prim.Native.Nat.{bit_and}
use native.Mathlib.Nat.{div-add-mod, mul-le-mul_left, mod-lt, mod-eq_of_lt, pow-suc}
use native.Mathlib.Decide.{dec_lt}
use telemetry_threat_engine.Base.{
  ℕ, zero, suc, ◌+◌, ◌-◌, ◌*◌, ◌/◌, ◌%◌, ◌^◌, ◌≤◌, ◌<◌, ◌≡◌, refl, sym, ap, ◌∙◌, ◌≢◌, inl, inr,
  Bool, true, false, List, [], none, some, length, get_elem?, arith, ◌==◌, subst, if◌then◌else◌,
  Bool-cases, ==_iff, set, get_elem?-set_self, get_elem?-set_ne,
}
use telemetry_threat_engine.Base.Bits.{bit_and-mask}
use telemetry_threat_engine.Queue.{
  Slot, MpmcQueue, fresh_slots, new, halves_to_one, is_power_of_two,
}

-- The slots of the tickets from the dequeue counter on: published items first, then free slots.
-- A mask of `cap - 1` gives the remainder modulo `cap`.
pub record Holds {ℓ} {A : Type ℓ} (cap : ℕ) (q : MpmcQueue A) (xs : List A) : Type ℓ where
  pub several : 2 ≤ cap
  pub size : length q.buffer ≡ cap
  pub mask : q.mask ≡ cap - 1
  pub masks : (p : ℕ) → bit_and p (cap - 1) ≡ p % cap
  pub counters : q.enqueue_pos ≡ q.dequeue_pos + length xs
  pub fits : length xs ≤ cap
  pub bounded : q.enqueue_pos + cap < 2 ^ 63
  pub published :
      (i : ℕ) (x : A)
      → get_elem? xs i ≡ some x
      → get_elem? q.buffer ((q.dequeue_pos + i) % cap)
        ≡ some (record { sequence = q.dequeue_pos + i + 1; value = some x })
  pub free :
      (i : ℕ)
      → length xs ≤ i
      → i < cap
      → get_elem? q.buffer ((q.dequeue_pos + i) % cap)
        ≡ some (record { sequence = q.dequeue_pos + i; value = none })

-- Fewer than `cap` tickets apart, two tickets have different slots.
pub ring-ne_of_lt : (cap d i j : ℕ) → i < j → j < cap → (d + i) % cap ≢ (d + j) % cap
ring-ne_of_lt cap d i j lt below e = elim (dec_lt a b) [
  | yes more ↦ omega (arith, div-add-mod (d + i) cap, div-add-mod (d + j) cap, step more)
  | no less ↦ omega (arith, div-add-mod (d + i) cap, div-add-mod (d + j) cap, back less)
]
  where
    a : ℕ
    a = (d + i) / cap

    b : ℕ
    b = (d + j) / cap

    step : a < b → cap * (a + 1) ≤ cap * b
    step p = mul-le-mul_left cap (omega arith)

    back : ¬ (a < b) → cap * b ≤ cap * a
    back p = mul-le-mul_left cap (omega arith)

pub ring-ne : (cap d i j : ℕ) → i < cap → j < cap → i ≢ j → (d + i) % cap ≢ (d + j) % cap
ring-ne cap d i j hi hj ne = elim (dec_lt i j) [
  | yes lt ↦ ring-ne_of_lt cap d i j lt hj
  | no ge ↦ λ e. ring-ne_of_lt cap d j i (omega arith) hi (sym e)
]

module _ {ℓ} (A : Type ℓ) where
  length-fresh_slots : (n i : ℕ) → length (fresh_slots {A = A} n i) ≡ n
  unfolding fresh_slots
  length-fresh_slots zero i = refl
  length-fresh_slots (suc n) i = ap suc (length-fresh_slots n (suc i))

  get_elem?-fresh_slots :
      (n i k : ℕ)
      → k < n
      → get_elem? (fresh_slots {A = A} n i) k ≡ some (record { sequence = i + k; value = none })
  unfolding fresh_slots
  get_elem?-fresh_slots zero i k h = elim h [ ]
  get_elem?-fresh_slots (suc n) i zero h =
      ap (λ s. some (record { sequence = s; value = none })) (omega arith)
  get_elem?-fresh_slots (suc n) i (suc k) h =
      get_elem?-fresh_slots n (suc i) k (omega arith)
      ∙ ap (λ s. some (record { sequence = s; value = none })) (omega arith)

-- What passes the test is a power of two.
halves_to_one_sound : (f n : ℕ) → halves_to_one f n ≡ true → (k : ℕ) × (n ≡ 2 ^ k)
unfolding halves_to_one
halves_to_one_sound zero n h = cc
halves_to_one_sound (suc f) n h = elim (Bool-cases (n == 1)) [
  | inl one ↦ (0, (==_iff n 1).0 one)
  | inr more ↦
      let even : n % 2 ≡ 0 = ground arith in
      let (k, e) = halves_to_one_sound f (n / 2) (ground arith) in
      (suc k, omega (arith, e, pow-suc 2 k))
]

pub is_power_of_two_sound : (n : ℕ) → is_power_of_two n ≡ true → (k : ℕ) × (n ≡ 2 ^ k)
unfolding is_power_of_two
is_power_of_two_sound n h = halves_to_one_sound 64 n (positive h)
  where
    positive : (if n == 0 then false else halves_to_one 64 n) ≡ true → halves_to_one 64 n ≡ true
    positive e = elim (Bool-cases (n == 0)) [
      | inl none' ↦ cc (rw none' at e)
      | inr some' ↦ rw some' at e
    ]

pub mask-of-power : (cap k : ℕ) → cap ≡ 2 ^ k → (p : ℕ) → bit_and p (cap - 1) ≡ p % cap
mask-of-power cap k e p = rw e (bit_and-mask k p)

abbrev pub fresh_queue {ℓ} : (A : Type ℓ) → ℕ → MpmcQueue A
fresh_queue A cap = record {
  buffer = fresh_slots cap 0;
  mask = cap - 1;
  enqueue_pos = 0;
  dequeue_pos = 0;
}

fresh_queue-Holds {ℓ} :
    (A : Type ℓ) (cap : ℕ)
    → 2 ≤ cap
    → cap < 2 ^ 63
    → is_power_of_two cap ≡ true
    → Holds cap (fresh_queue A cap) []
fresh_queue-Holds A cap several small e = record {
  several = several;
  size = length-fresh_slots A cap 0;
  mask = refl;
  masks = let (k, p) = is_power_of_two_sound cap e in mask-of-power cap k p;
  counters = omega arith;
  fits = omega arith;
  bounded = omega arith;
  published = λ i x h. cc;
  free = λ i _ below.
      ap (get_elem? (fresh_slots cap 0)) (mod-eq_of_lt {n = 0 + i} {m = cap} (omega arith))
      ∙ get_elem?-fresh_slots A cap 0 (0 + i) (omega arith)
      ∙ ap (λ s. some (record { sequence = s; value = none })) (omega arith);
}

if_some {ℓ} :
    {A : Type ℓ} (b : Bool) (x y : A) → (if b then some x else none) ≡ some y → (b ≡ true) × (x ≡ y)
if_some true x y e = (refl, cc)
if_some false x y e = cc

new-fresh {ℓ} :
    {A : Type ℓ} (cap : ℕ) (q : MpmcQueue A)
    → new cap ≡ some q
    → (is_power_of_two cap ≡ true) × (fresh_queue A cap ≡ q)
unfolding new
new-fresh {A} capacity q e = if_some (is_power_of_two capacity) (fresh_queue A capacity) q e

pub new-defined {ℓ} :
    {A : Type ℓ} (cap : ℕ) → is_power_of_two cap ≡ true → new cap ≡ some (fresh_queue A cap)
unfolding new
new-defined cap power = rw power refl

-- A queue that `new` makes with at least two and fewer than 2^63 slots satisfies the representation
-- invariant and holds no item; the invariant says that its mask takes remainders by the capacity.
pub new-Holds {ℓ} :
    {A : Type ℓ} (cap : ℕ) (q : MpmcQueue A)
    → 2 ≤ cap
    → cap < 2 ^ 63
    → new cap ≡ some q
    → Holds cap q []
new-Holds {A} cap q several small e =
    let (power, same) = new-fresh cap q e in
    subst (λ r. Holds cap r []) same (fresh_queue-Holds A cap several small power)

pub enqueue_pos-new {ℓ} :
    {A : Type ℓ} (cap : ℕ) (q : MpmcQueue A) → new cap ≡ some q → q.enqueue_pos ≡ 0
enqueue_pos-new capacity q e = sym (ap (λ r. r.enqueue_pos) (new-fresh capacity q e).1)

-- Where a write through the mask goes: to the slot of its ticket, and to no other.
module _ {ℓ} {A : Type ℓ} {cap : ℕ} {q : MpmcQueue A} {xs : List A} (h : Holds cap q xs) where
  open h use {several, size, mask, masks}

  pub slot_index : (p : ℕ) → bit_and p q.mask ≡ p % cap
  slot_index p = rw mask (masks p)

  pub slot-lt : (p : ℕ) → p % cap < length q.buffer
  slot-lt p = rw size (mod-lt p (omega arith))

  pub set_same :
      (p : ℕ) (v : Slot A) → get_elem? (set q.buffer (bit_and p q.mask) v) (p % cap) ≡ some v
  set_same p v = rw (slot_index p) (get_elem?-set_self q.buffer (p % cap) v (slot-lt p))

  pub set_other :
      (d k j : ℕ) (v : Slot A)
      → k < cap
      → j < cap
      → k ≢ j
      → get_elem? (set q.buffer (bit_and (d + k) q.mask) v) ((d + j) % cap)
        ≡ get_elem? q.buffer ((d + j) % cap)
  set_other d k j v hk hj ne =
      rw (slot_index (d + k)) (get_elem?-set_ne q.buffer _ _ v (ring-ne cap d k j hk hj ne))
