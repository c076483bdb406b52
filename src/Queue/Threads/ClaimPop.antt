-- ===== src/Queue/Threads/ClaimPop.antt =====
-- The exchange of `pop`, which claims a ticket, and the invariant.
use telemetry_threat_engine.Base.{
  ℕ, ◌+◌, ◌^◌, ◌<◌, ◌≡◌, ◌≢◌, sym, ap, ◌∙◌, none, some, inl, inr, arith,
}
use native.Mathlib.Decide.{dec_lt}
use telemetry_threat_engine.Queue.Threads.{
  slot_index, update, Ring, Pc, idle, push_call, push_at, push_saw, writing, publishing, pushed,
  pop_call, pop_at, pop_saw, taking, releasing, popped, claim_pop,
}
use telemetry_threat_engine.Queue.Threads.Lap.{Lap}
use telemetry_threat_engine.Queue.Threads.Inv.{writes, takes, Writer, Taker, Fresh, Inv}
use telemetry_threat_engine.Queue.Threads.Family.{
  update-all, Holder-new, Holder-kept, one_holder-kept,
}
use telemetry_threat_engine.Queue.Threads.Facts.{Taker-OwnPop, next_pop}

module _ {A : Type 0} {mask cap : ℕ} {m : Ring A} {pc : ℕ → Pc A} (lap : Lap mask cap)
    (inv : Inv mask cap m pc) (i : ℕ) (no_write : writes (pc i) ≡ none)
    (no_take : takes (pc i) ≡ none) (small : m.enqueue_pos + cap + 1 < 2 ^ 63) where
  open lap use {several, apart, again}

  module _ (pos : ℕ) (current : m.dequeue_pos ≡ pos)
      (ready : m.sequences (slot_index mask pos) ≡ pos + 1) where
    abbrev after_pop : Ring A
    after_pop = claim_pop m pos

    ready_slot : (m.values (slot_index mask pos) ≡ m.claimed pos) × (pos < m.enqueue_pos)
    ready_slot =
        let at : m.sequences (slot_index mask m.dequeue_pos) ≡ m.dequeue_pos + 1 =
          ap (λ t. m.sequences (slot_index mask t)) current
          ∙ ready
          ∙ ap (λ t. t + 1) (sym current) in
        let (v, some_held) = (next_pop lap inv).ready at in
        (
          ap (λ t. m.values (slot_index mask t)) (sym current) ∙ v ∙ ap m.claimed current,
          omega arith,
        )

    not_published : (t : ℕ) → m.sequences (slot_index mask t) ≡ t → t ≢ pos
    not_published t s e = omega (arith, ap (λ k. m.sequences (slot_index mask k)) e)

    claim_pop-Fresh : (q : Pc A) → Fresh mask cap m q → Fresh mask cap after_pop q
    unfolding claim_pop
    claim_pop-Fresh (pop_at p) f = omega (arith, inv.ordered)
    claim_pop-Fresh (pop_saw p s) (le, s_le, same) =
        (omega (arith, inv.ordered), s_le, λ e now. absurd (omega (arith, inv.ordered)))
    claim_pop-Fresh (writing x p) ((a, b, c, d, v), known) =
        ((omega (arith, not_published p d), b, c, d, v), known)
    claim_pop-Fresh (publishing p) (a, b, c, d, v) = (omega (arith, not_published p d), b, c, d, v)
    claim_pop-Fresh (taking p) (a, c, d, v, due) = (omega arith, c, d, v, due)
    claim_pop-Fresh (releasing x p) ((a, c, d, v, due), known) =
        ((omega arith, c, d, v, due), known)
    claim_pop-Fresh (push_at x p) f = f
    claim_pop-Fresh (push_saw x p s) f = f
    claim_pop-Fresh idle f = tt
    claim_pop-Fresh (push_call _) f = tt
    claim_pop-Fresh (pushed _) f = tt
    claim_pop-Fresh pop_call f = tt
    claim_pop-Fresh (popped _) f = tt

    new_taking : Fresh mask cap after_pop (taking pos)
    unfolding claim_pop
    new_taking = (
      omega (arith, inv.ordered),
      omega (arith, inv.fits),
      ready,
      ready_slot.0,
      inv.unserved pos (omega arith),
    )

    Taker-kept : (t : ℕ) → Taker pc t → Taker (update pc i (taking pos)) t
    Taker-kept t = Holder-kept takes pc i (taking pos) t (λ e. cc)

    Writer-kept : (t : ℕ) → Writer pc t → Writer (update pc i (taking pos)) t
    Writer-kept t = Holder-kept writes pc i (taking pos) t (λ e. cc)

    mine : (t : ℕ) → pos ≡ t → Taker (update pc i (taking pos)) t
    mine t e = Holder-new takes pc i (taking pos) t (ap some e)

    pub claim_pop-Inv : Inv mask cap after_pop (update pc i (taking pos))
    unfolding claim_pop
    claim_pop-Inv = record {
      ordered = omega (arith, ready_slot.1);
      fits = omega (arith, inv.fits);
      low = inv.low;
      unused = inv.unused;
      held = λ t ge lt. elim (inv.held t (omega (arith, inv.ordered)) lt) [
        | inl w ↦ inl (Writer-kept t w)
        | inr slot ↦ inr slot
      ];
      vacated = λ t lt ge. elim (dec_lt t pos) [
        | yes old ↦ elim (inv.vacated t (omega arith) ge) [
          | inl k ↦ inl (Taker-kept t k)
          | inr slot ↦ inr slot
        ]
        | no new ↦ inl (mine t (omega (arith, inv.ordered)))
      ];
      known = inv.known;
      served = λ t lt. elim (dec_lt t pos) [
        | yes old ↦ elim (inv.served t (omega arith)) [
          | inl k ↦ inl (Taker-kept t k)
          | inr e ↦ inr e
        ]
        | no new ↦ inl (mine t (omega (arith, inv.ordered)))
      ];
      unserved = λ t ge. inv.unserved t (omega (arith, inv.ordered));
      fresh = λ j.
          update-all (Fresh mask cap after_pop) pc i (taking pos) j new_taking
            (λ ne. claim_pop-Fresh (pc j) (inv.fresh j));
      one_writer = one_holder-kept writes pc i (taking pos) inv.one_writer (λ j t ne new. cc);
      one_taker = one_holder-kept takes pc i (taking pos) inv.one_taker (λ j t ne new old.
          let own = Taker-OwnPop lap inv t (j, old) in omega (arith, own.before, same_ticket new));
    }
      where
        same_ticket : {t : ℕ} → some pos ≡ some t → pos ≡ t
        same_ticket e = cc
