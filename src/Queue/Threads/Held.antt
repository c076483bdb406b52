-- ===== src/Queue/Threads/Held.antt =====
-- The invariant after an access of a thread to the slot of its ticket, field by field.
use telemetry_threat_engine.Base.{
  ℕ, ◌+◌, ◌≤◌, ◌<◌, ◌≡◌, ◌⊎◌, sym, ap, ◌∙◌, subst, none, some, inl, inr, arith,
}
use native.Mathlib.Decide.{ℕ_discrete}
use telemetry_threat_engine.Queue.Threads.{slot_index, update, Ring, Pc}
use telemetry_threat_engine.Queue.Threads.Lap.{Lap}
use telemetry_threat_engine.Queue.Threads.Inv.{writes, takes, Writer, Taker, Fresh, SlotIs, Inv}
use telemetry_threat_engine.Queue.Threads.Family.{update-all, Holder-new, one_holder-kept}
use telemetry_threat_engine.Queue.Threads.Touch.{
  Touched, slot-ne, vacated-ne, far_slot, touch-Fresh, Writer-kept, Taker-kept,
}

module _ {A : Type 0} {mask cap : ℕ} {m m' : Ring A} {pc : ℕ → Pc A} {i pos kind : ℕ} {p' : Pc A}
    (lap : Lap mask cap) (inv : Inv mask cap m pc)
    (touch : Touched mask cap m pc i pos kind p' m') where
  touch_low : (t : ℕ) → m'.sequences (slot_index mask t) ≤ m'.enqueue_pos + cap
  touch_low t = elim (ℕ_discrete (slot_index mask pos) (slot_index mask t)) [
    | yes own ↦ omega (arith, ap m'.sequences own, touch.new_low, touch.enqueue)
    | no other ↦ omega (arith, (touch.far (slot_index mask t) other).0, inv.low t, touch.enqueue)
  ]

  own-Writer : (t : ℕ) → pos ≡ t → writes p' ≡ some pos → Writer (update pc i p') t
  own-Writer t e w = subst (Writer (update pc i p')) e (Holder-new writes pc i p' pos w)

  own-Taker : (t : ℕ) → pos ≡ t → takes p' ≡ some pos → Taker (update pc i p') t
  own-Taker t e w = subst (Taker (update pc i p')) e (Holder-new takes pc i p' pos w)

  touch_held :
      (t : ℕ)
      → m'.dequeue_pos ≤ t
      → t < m'.enqueue_pos
      → Writer (update pc i p') t ⊎ SlotIs mask cap m' t (t + 1) (m'.claimed t)
  touch_held t ge lt = elim (ℕ_discrete pos t) [
    | yes own ↦ elim (touch.own_held (omega (arith, touch.dequeue))) [
      | inl w ↦ inl (own-Writer t own w)
      | inr (s, v) ↦ inr (
          subst (λ k. SlotIs mask cap m' k (k + 1) (m'.claimed k)) own
            (s, v ∙ sym (touch.claims pos)))
    ]
    | no other ↦ elim (inv.held t (omega (arith, touch.dequeue)) (omega (arith, touch.enqueue))) [
      | inl w ↦ inl (Writer-kept lap inv touch t other w)
      | inr (s, v) ↦
          let (s', v') =
            far_slot lap inv touch t (t + 1) (m.claimed t)
              (slot-ne lap inv touch t 1 (omega arith) s (λ one. other)) (s, v) in
          inr (s', v' ∙ sym (touch.claims t))
    ]
  ]

  touch_vacated :
      (t : ℕ)
      → t < m'.dequeue_pos
      → m'.enqueue_pos ≤ t + cap
      → Taker (update pc i p') t ⊎ SlotIs mask cap m' t (t + cap) none
  touch_vacated t lt ge = elim (ℕ_discrete pos t) [
    | yes own ↦ elim (touch.own_vacated (omega (arith, touch.dequeue))) [
      | inl w ↦ inl (own-Taker t own w)
      | inr slot ↦ inr (subst (λ k. SlotIs mask cap m' k (k + cap) none) own slot)
    ]
    | no other ↦
        elim (inv.vacated t (omega (arith, touch.dequeue)) (omega (arith, touch.enqueue))) [
          | inl k ↦ inl (Taker-kept lap inv touch t other k)
          | inr (s, v) ↦ inr (
              far_slot lap inv touch t (t + cap) none
                (vacated-ne lap inv touch t (omega (arith, touch.enqueue)) s) (s, v))
        ]
  ]

  touch_served :
      (t : ℕ) → t < m'.dequeue_pos → Taker (update pc i p') t ⊎ (m'.delivered t ≡ m'.claimed t)
  touch_served t lt = elim (ℕ_discrete pos t) [
    | yes own ↦ elim (touch.own_served (omega (arith, touch.dequeue))) [
      | inl w ↦ inl (own-Taker t own w)
      | inr e ↦ inr (subst (λ k. m'.delivered k ≡ m'.claimed k) own (e ∙ sym (touch.claims pos)))
    ]
    | no other ↦ elim (inv.served t (omega (arith, touch.dequeue))) [
      | inl k ↦ inl (Taker-kept lap inv touch t other k)
      | inr e ↦ inr (touch.other_delivered t other ∙ e ∙ sym (touch.claims t))
    ]
  ]

  pub touch-Inv : Inv mask cap m' (update pc i p')
  touch-Inv = record {
    ordered = omega (arith, inv.ordered, touch.enqueue, touch.dequeue);
    fits = omega (arith, inv.fits, touch.enqueue, touch.dequeue);
    low = touch_low;
    unused = λ t first ge.
        let (s, v) = inv.unused t first (omega (arith, touch.enqueue)) in
        far_slot lap inv touch t t none
          (slot-ne lap inv touch t 0 (omega arith) (omega arith)
            (λ _ e. omega (arith, touch.claimed_already, touch.enqueue)))
          (s, v);
    held = touch_held;
    vacated = touch_vacated;
    known =
        λ t lt. let (x, e) = inv.known t (omega (arith, touch.enqueue)) in (x, touch.claims t ∙ e);
    served = touch_served;
    unserved = λ t ge. elim (ℕ_discrete pos t) [
      | yes own ↦
          subst (λ k. m'.delivered k ≡ none) own (touch.own_unserved (omega (arith, touch.dequeue)))
      | no other ↦ touch.other_delivered t other ∙ inv.unserved t (omega (arith, touch.dequeue))
    ];
    fresh = λ j. update-all (Fresh mask cap m') pc i p' j touch.own_fresh λ ne.
        touch-Fresh lap inv touch (pc j) (inv.fresh j)
          (λ t e zero_kind same.
            ne (inv.one_writer i j pos (touch.holder.0 zero_kind) (e ∙ ap some (sym same))))
          (λ t e one_kind same.
            ne (inv.one_taker i j pos (touch.holder.1 one_kind) (e ∙ ap some (sym same))));
    one_writer =
        one_holder-kept writes pc i p' inv.one_writer
          (λ j t ne new old. ne (inv.one_writer i j t (touch.new_write t new) old));
    one_taker =
        one_holder-kept takes pc i p' inv.one_taker
          (λ j t ne new old. ne (inv.one_taker i j t (touch.new_take t new) old));
  }
