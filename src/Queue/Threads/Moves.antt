-- ===== src/Queue/Threads/Moves.antt =====
-- A step of a thread, and the invariant.
use telemetry_threat_engine.Base.{
  ℕ, ◌+◌, ◌^◌, ◌<◌, ◌≡◌, refl, sym, ap, ◌∙◌, subst, Option, none, some, inl, inr, arith,
}
use telemetry_threat_engine.Queue.{add_usize, PushResult}
use telemetry_threat_engine.Queue.Threads.{
  slot_index, update, Ring, Pc, idle, push_call, push_at, push_saw, writing, publishing, pushed,
  pop_call, pop_at, pop_saw, taking, releasing, popped, write_item, publish_slot, take_item,
  release_slot, Move, start_push, load_enqueue, load_push, win_push, lose_push, refuse_push,
  reload_push, write, publish, end_push, start_pop, load_dequeue, load_pop, win_pop, lose_pop,
  refuse_pop, reload_pop, take, release, end_pop,
}
use telemetry_threat_engine.Queue.Threads.Lap.{Lap}
use telemetry_threat_engine.Queue.Threads.Inv.{writes, takes, Fresh, Inv}
use telemetry_threat_engine.Queue.Threads.Family.{
  update_self, update_other, update-all, Holder-kept, one_holder-kept,
}
use telemetry_threat_engine.Queue.Threads.Facts.{zero_difference}
use telemetry_threat_engine.Queue.Threads.ClaimPush.{claim_push-Inv}
use telemetry_threat_engine.Queue.Threads.ClaimPop.{claim_pop-Inv}
use telemetry_threat_engine.Queue.Threads.Held.{touch-Inv}

module _ {A : Type 0} {mask cap : ℕ} {m : Ring A} {pc : ℕ → Pc A} (lap : Lap mask cap)
    (inv : Inv mask cap m pc) (i : ℕ) (small : m.enqueue_pos + cap + 1 < 2 ^ 63) where
  open lap use {several, masked, apart, again}

  -- A step that changes no memory and claims nothing.
  quiet-Inv :
      (p' : Pc A)
      → Fresh mask cap m p'
      → (writes (pc i) ≡ none) × (takes (pc i) ≡ none) × (writes p' ≡ none) × (takes p' ≡ none)
      → Inv mask cap m (update pc i p')
  quiet-Inv p' f (no_write, no_take, no_write', no_take') = record {
    ordered = inv.ordered;
    fits = inv.fits;
    low = inv.low;
    unused = inv.unused;
    held = λ t ge lt. elim (inv.held t ge lt) [
      | inl w ↦ inl (Holder-kept writes pc i p' t (λ e. cc) w)
      | inr slot ↦ inr slot
    ];
    vacated = λ t lt ge. elim (inv.vacated t lt ge) [
      | inl k ↦ inl (Holder-kept takes pc i p' t (λ e. cc) k)
      | inr slot ↦ inr slot
    ];
    known = inv.known;
    served = λ t lt. elim (inv.served t lt) [
      | inl k ↦ inl (Holder-kept takes pc i p' t (λ e. cc) k)
      | inr e ↦ inr e
    ];
    unserved = inv.unserved;
    fresh = λ j. update-all (Fresh mask cap m) pc i p' j f (λ ne. inv.fresh j);
    one_writer = one_holder-kept writes pc i p' inv.one_writer (λ j t ne new. cc);
    one_taker = one_holder-kept takes pc i p' inv.one_taker (λ j t ne new. cc);
  }

  module _ {p : Pc A} (here : pc i ≡ p) where
    own : Fresh mask cap m p
    own = subst (Fresh mask cap m) here (inv.fresh i)

    -- The thread holds no ticket, before and after.
    idle_step :
        (p' : Pc A)
        → Fresh mask cap m p'
        → (writes p ≡ none) × (takes p ≡ none) × (writes p' ≡ none) × (takes p' ≡ none)
        → Inv mask cap m (update pc i p')
    idle_step p' f (a, b, c, d) = quiet-Inv p' f (ap writes here ∙ a, ap takes here ∙ b, c, d)

  write-Inv :
      {item : A} {pos : ℕ}
      → pc i ≡ writing item pos
      → Inv mask cap (write_item mask m item pos) (update pc i (publishing pos))
  unfolding write_item
  write-Inv {item} {pos} here =
      let ((a, b, c, d, v), known) = own here in
      touch-Inv {kind = 0} lap inv (record {
        is_kind = omega arith;
        claimed_already = b;
        taken_already = λ e. absurd (omega arith);
        in_use = omega arith;
        old_write = λ t e. (cc (here, e), refl);
        old_take = λ t e. cc (here, e);
        new_write = λ t e. cc (here, e);
        new_take = λ t e. cc;
        holder = (λ e. ap writes here, λ e. absurd (omega arith));
        enqueue = refl;
        dequeue = refl;
        claims = λ t. refl;
        far = λ k ne. (refl, update_other m.values (slot_index mask pos) (some item) k ne);
        other_delivered = λ t ne. refl;
        new_low = inv.low pos;
        own_fresh =
            (a, b, c, d, update_self m.values (slot_index mask pos) (some item) ∙ sym known);
        own_held = λ ge. inl refl;
        own_vacated = λ lt. absurd (omega arith);
        own_served = λ lt. absurd (omega arith);
        own_unserved = inv.unserved pos;
      })

  publish-Inv :
      {pos : ℕ}
      → pc i ≡ publishing pos
      → Inv mask cap (publish_slot mask m pos) (update pc i (pushed PushResult.ok))
  unfolding publish_slot
  publish-Inv {pos} here =
      let (a, b, c, d, v) = own here in
      let new : update m.sequences (slot_index mask pos) (add_usize pos 1) (slot_index mask pos)
          ≡ pos + 1 =
        update_self m.sequences (slot_index mask pos) (add_usize pos 1) ∙ omega arith in
      touch-Inv {kind = 0} lap inv (record {
        is_kind = omega arith;
        claimed_already = b;
        taken_already = λ e. absurd (omega arith);
        in_use = omega arith;
        old_write = λ t e. (cc (here, e), refl);
        old_take = λ t e. cc (here, e);
        new_write = λ t e. cc;
        new_take = λ t e. cc;
        holder = (λ e. ap writes here, λ e. absurd (omega arith));
        enqueue = refl;
        dequeue = refl;
        claims = λ t. refl;
        far = λ k ne. (update_other m.sequences (slot_index mask pos) (add_usize pos 1) k ne, refl);
        other_delivered = λ t ne. refl;
        new_low = omega (arith, new);
        own_fresh = tt;
        own_held = λ ge. inr (new, v);
        own_vacated = λ lt. absurd (omega arith);
        own_served = λ lt. absurd (omega arith);
        own_unserved = inv.unserved pos;
      })

  take-Inv :
      {pos : ℕ}
      → pc i ≡ taking pos
      → Inv mask cap
          (take_item mask m pos)
          (update pc i (releasing (m.values (slot_index mask pos)) pos))
  unfolding take_item
  take-Inv {pos} here =
      let (a, c, d, v, due) = own here in
      touch-Inv {kind = 1} lap inv (record {
        is_kind = omega arith;
        claimed_already = omega (arith, inv.ordered);
        taken_already = λ e. a;
        in_use = d;
        old_write = λ t e. cc (here, e);
        old_take = λ t e. (cc (here, e), refl);
        new_write = λ t e. cc;
        new_take = λ t e. cc (here, e);
        holder = (λ e. absurd (omega arith), λ e. ap takes here);
        enqueue = refl;
        dequeue = refl;
        claims = λ t. refl;
        far = λ k ne. (refl, update_other m.values (slot_index mask pos) none k ne);
        other_delivered = λ t ne. refl;
        new_low = inv.low pos;
        own_fresh = ((a, c, d, update_self m.values (slot_index mask pos) none, due), v);
        own_held = λ ge. absurd (omega arith);
        own_vacated = λ lt. inl refl;
        own_served = λ lt. inl refl;
        own_unserved = inv.unserved pos;
      })

  release-Inv :
      {item : Option A} {pos : ℕ}
      → pc i ≡ releasing item pos
      → Inv mask cap (release_slot mask m item pos) (update pc i (popped item))
  unfolding release_slot
  release-Inv {item} {pos} here =
      let ((a, c, d, v, due), known) = own here in
      let freed = add_usize (add_usize pos mask) 1 in
      let new : update m.sequences (slot_index mask pos) freed (slot_index mask pos) ≡ pos + cap =
        update_self m.sequences (slot_index mask pos) freed ∙ omega (arith, inv.ordered) in
      touch-Inv {kind = 1} lap inv (record {
        is_kind = omega arith;
        claimed_already = omega (arith, inv.ordered);
        taken_already = λ e. a;
        in_use = d;
        old_write = λ t e. cc (here, e);
        old_take = λ t e. (cc (here, e), refl);
        new_write = λ t e. cc;
        new_take = λ t e. cc;
        holder = (λ e. absurd (omega arith), λ e. ap takes here);
        enqueue = refl;
        dequeue = refl;
        claims = λ t. refl;
        far = λ k ne. (update_other m.sequences (slot_index mask pos) freed k ne, refl);
        other_delivered = λ t ne. update_other m.delivered pos item t ne;
        new_low = omega (arith, new, inv.ordered);
        own_fresh = tt;
        own_held = λ ge. absurd (omega arith);
        own_vacated = λ lt. inr (new, v);
        own_served = λ lt. inr (update_self m.delivered pos item ∙ known);
        own_unserved = λ ge. absurd (omega arith);
      })

  -- Every step of thread `i`.
  pub Move-Inv :
      {p p' : Pc A} {m' : Ring A}
      → Move mask m p m' p'
      → pc i ≡ p
      → Inv mask cap m' (update pc i p')
  Move-Inv (start_push item) here = idle_step here (push_call item) tt (refl, refl, refl, refl)
  Move-Inv (load_enqueue {item}) here =
      idle_step here (push_at item m.enqueue_pos) (omega arith) (refl, refl, refl, refl)
  Move-Inv (load_push {item} {pos}) here =
      idle_step here (push_saw item pos (m.sequences (slot_index mask pos)))
        (own here, inv.low pos, λ e now. e) (refl, refl, refl, refl)
  Move-Inv (win_push {item} {pos} {seq} zero_diff current) here =
      let (le, s_le, same) = own here in
      let e : seq ≡ pos = zero_difference seq pos (omega arith) (omega arith) zero_diff in
      claim_push-Inv lap inv i (ap writes here) (ap takes here) small item pos current
        (same e (sym current))
  Move-Inv (lose_push {item} _) here =
      idle_step here (push_at item m.enqueue_pos) (omega arith) (refl, refl, refl, refl)
  Move-Inv (refuse_push {item} _ _) here =
      idle_step here (pushed (PushResult.err item)) tt (refl, refl, refl, refl)
  Move-Inv (reload_push {item} _ _) here =
      idle_step here (push_at item m.enqueue_pos) (omega arith) (refl, refl, refl, refl)
  Move-Inv write here = write-Inv here
  Move-Inv publish here = publish-Inv here
  Move-Inv end_push here = idle_step here idle tt (refl, refl, refl, refl)
  Move-Inv start_pop here = idle_step here pop_call tt (refl, refl, refl, refl)
  Move-Inv load_dequeue here =
      idle_step here (pop_at m.dequeue_pos) (omega arith) (refl, refl, refl, refl)
  Move-Inv (load_pop {pos}) here =
      idle_step here (pop_saw pos (m.sequences (slot_index mask pos)))
        (own here, inv.low pos, λ e now. e) (refl, refl, refl, refl)
  Move-Inv (win_pop {pos} {seq} zero_diff current) here =
      let (le, s_le, same) = own here in
      let next : add_usize pos 1 ≡ pos + 1 = omega (arith, inv.ordered) in
      let e : seq ≡ pos + 1 =
        zero_difference seq (add_usize pos 1) (omega arith) (omega (arith, inv.ordered)) zero_diff
        ∙ next in
      claim_pop-Inv lap inv i (ap writes here) (ap takes here) small pos current
        (same e (sym current))
  Move-Inv (lose_pop _) here =
      idle_step here (pop_at m.dequeue_pos) (omega arith) (refl, refl, refl, refl)
  Move-Inv (refuse_pop _ _) here = idle_step here (popped none) tt (refl, refl, refl, refl)
  Move-Inv (reload_pop _ _) here =
      idle_step here (pop_at m.dequeue_pos) (omega arith) (refl, refl, refl, refl)
  Move-Inv take here = take-Inv here
  Move-Inv release here = release-Inv here
  Move-Inv end_pop here = idle_step here idle tt (refl, refl, refl, refl)
