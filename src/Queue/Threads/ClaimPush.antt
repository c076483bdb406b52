-- ===== src/Queue/Threads/ClaimPush.antt =====
-- The exchange of `push`, which claims a ticket, and the invariant.
use telemetry_threat_engine.Base.{
  ℕ, ◌+◌, ◌^◌, ◌≤◌, ◌<◌, ◌≡◌, sym, ap, ◌∙◌, none, some, inl, inr, arith,
}
use native.Mathlib.Decide.{dec_lt}
use telemetry_threat_engine.Queue.Threads.{
  slot_index, update, Ring, Pc, idle, push_call, push_at, push_saw, writing, publishing, pushed,
  pop_call, pop_at, pop_saw, taking, releasing, popped, claim_push,
}
use telemetry_threat_engine.Queue.Threads.Lap.{Lap}
use telemetry_threat_engine.Queue.Threads.Inv.{writes, takes, Writer, Taker, Fresh, Inv}
use telemetry_threat_engine.Queue.Threads.Family.{
  update_self, update_other, update-all, Holder-new, Holder-kept, one_holder-kept,
}
use telemetry_threat_engine.Queue.Threads.Facts.{Writer-OwnPush, next_push}

module _ {A : Type 0} {mask cap : ℕ} {m : Ring A} {pc : ℕ → Pc A} (lap : Lap mask cap)
    (inv : Inv mask cap m pc) (i : ℕ) (no_write : writes (pc i) ≡ none)
    (no_take : takes (pc i) ≡ none) (small : m.enqueue_pos + cap + 1 < 2 ^ 63) where
  open lap use {several, apart, again}

  module _ (item : A) (pos : ℕ) (current : m.enqueue_pos ≡ pos)
      (free : m.sequences (slot_index mask pos) ≡ pos) where
    abbrev after_push : Ring A
    after_push = claim_push m item pos

    free_slot : (m.values (slot_index mask pos) ≡ none) × (pos < m.dequeue_pos + cap)
    free_slot =
        let at : m.sequences (slot_index mask m.enqueue_pos) ≡ m.enqueue_pos =
          ap (λ t. m.sequences (slot_index mask t)) current ∙ free ∙ sym current in
        let (v, room) = (next_push lap inv).vacant at in
        (ap (λ t. m.values (slot_index mask t)) (sym current) ∙ v, omega arith)

    -- A ticket whose slot is not free for `pos` is still of the last lap.
    still_last :
        (t : ℕ)
        → m.enqueue_pos ≤ t + cap
        → m.sequences (slot_index mask t) ≤ t + 1
        → pos + 1 ≤ t + cap
    still_last t le seq = elim (dec_lt pos (t + cap)) [
      | yes lt ↦ omega arith
      | no ge ↦
          let same : slot_index mask t ≡ slot_index mask pos =
            sym (again t) ∙ ap (slot_index mask) (omega arith) in
          absurd (omega (arith, ap m.sequences same))
    ]

    claimed_before : (t : ℕ) → t < pos → update m.claimed pos (some item) t ≡ m.claimed t
    claimed_before t lt = update_other m.claimed pos (some item) t (λ e. omega arith)

    claim_push-Fresh : (q : Pc A) → Fresh mask cap m q → Fresh mask cap after_push q
    unfolding claim_push
    claim_push-Fresh (push_at x p) f = omega arith
    claim_push-Fresh (push_saw x p s) (le, s_le, same) =
        (omega arith, omega arith, λ e now. absurd (omega arith))
    claim_push-Fresh (writing x p) ((a, b, c, d, v), known) = (
      (a, omega arith, omega (arith, still_last p c (omega arith)), d, v),
      claimed_before p (omega arith) ∙ known,
    )
    claim_push-Fresh (publishing p) (a, b, c, d, v) = (
      a,
      omega arith,
      omega (arith, still_last p c (omega arith)),
      d,
      v ∙ sym (claimed_before p (omega arith)),
    )
    claim_push-Fresh (pop_saw p s) (le, s_le, same) = (le, omega arith, same)
    claim_push-Fresh (taking p) (a, c, d, v, due) = (
      a,
      omega (arith, still_last p c (omega arith)),
      d,
      v ∙ sym (claimed_before p (omega (arith, inv.ordered))),
      due,
    )
    claim_push-Fresh (releasing x p) ((a, c, d, v, due), known) = (
      (a, omega (arith, still_last p c (omega arith)), d, v, due),
      known ∙ sym (claimed_before p (omega (arith, inv.ordered))),
    )
    claim_push-Fresh (pop_at p) f = f
    claim_push-Fresh idle f = tt
    claim_push-Fresh (push_call _) f = tt
    claim_push-Fresh (pushed _) f = tt
    claim_push-Fresh pop_call f = tt
    claim_push-Fresh (popped _) f = tt

    new_writing : Fresh mask cap after_push (writing item pos)
    unfolding claim_push
    new_writing = (
      (omega (arith, inv.ordered), omega arith, omega arith, free, free_slot.0),
      update_self m.claimed pos (some item),
    )

    Taker-kept : (t : ℕ) → Taker pc t → Taker (update pc i (writing item pos)) t
    Taker-kept t = Holder-kept takes pc i (writing item pos) t (λ e. cc)

    Writer-kept : (t : ℕ) → Writer pc t → Writer (update pc i (writing item pos)) t
    Writer-kept t = Holder-kept writes pc i (writing item pos) t (λ e. cc)

    pub claim_push-Inv : Inv mask cap after_push (update pc i (writing item pos))
    unfolding claim_push
    claim_push-Inv = record {
      ordered = omega (arith, inv.ordered);
      fits = omega (arith, free_slot.1);
      low = λ t. omega (arith, inv.low t);
      unused = λ t first ge. inv.unused t first (omega arith);
      held = λ t ge lt. elim (dec_lt t pos) [
        | yes old ↦ elim (inv.held t ge (omega arith)) [
          | inl w ↦ inl (Writer-kept t w)
          | inr (s, v) ↦ inr (s, v ∙ sym (claimed_before t old))
        ]
        | no new ↦ inl (Holder-new writes pc i (writing item pos) t (ap some (omega arith)))
      ];
      vacated = λ t lt ge. elim (inv.vacated t lt (omega arith)) [
        | inl k ↦ inl (Taker-kept t k)
        | inr slot ↦ inr slot
      ];
      known = λ t lt. elim (dec_lt t pos) [
        | yes old ↦ let (x, e) = inv.known t (omega arith) in (x, claimed_before t old ∙ e)
        | no new ↦ (
          item,
          ap (update m.claimed pos (some item)) (omega arith)
              ∙ update_self m.claimed pos (some item),
        )
      ];
      served = λ t lt. elim (inv.served t lt) [
        | inl k ↦ inl (Taker-kept t k)
        | inr e ↦ inr (e ∙ sym (claimed_before t (omega (arith, inv.ordered))))
      ];
      unserved = inv.unserved;
      fresh = λ j.
          update-all (Fresh mask cap after_push) pc i (writing item pos) j new_writing
            (λ ne. claim_push-Fresh (pc j) (inv.fresh j));
      one_writer = one_holder-kept writes pc i (writing item pos) inv.one_writer (λ j t ne new old.
          let own = Writer-OwnPush lap inv t (j, old) in
          omega (arith, own.before, same_ticket new));
      one_taker = one_holder-kept takes pc i (writing item pos) inv.one_taker (λ j t ne new. cc);
    }
      where
        same_ticket : {t : ℕ} → some pos ≡ some t → pos ≡ t
        same_ticket e = cc
