-- ===== src/Pipeline/Engine/Order.antt =====
-- The order in which the plan for engine/src/pipeline.rs serves the events of a worker.
use native.Mathlib.Decide.{ℕ_discrete}
use telemetry_threat_engine.Base.{
  some_injective, ℕ, zero, suc, ◌%◌, ◌≡◌, ◌≢◌, refl, sym, ap, ◌∙◌, subst, Bool, true, false, List,
  [], ◌∷◌, ◌++◌, some, ◌==◌, length, get_elem?, set, filter_by, filter_by-append,
  get_elem?-set_self, get_elem?-set_ne, get_elem?-lt, get_elem?-some, append_assoc, append-nil,
  arith,
}
use telemetry_threat_engine.Models.{NetworkEvent, shard_key}
use telemetry_threat_engine.Pipeline.Engine.Plan.{Plan, add_to}

-- Whether the shard of an event is that of a worker.
abbrev pub is_for : ℕ → ℕ → NetworkEvent → Bool
is_for workers i event = shard_key event % workers == i

pub get_elem?-add_to_self :
    (xss : List (List NetworkEvent)) (i : ℕ) (event : NetworkEvent) (xs ys : List NetworkEvent)
    → get_elem? xss i ≡ some xs
    → get_elem? (add_to xss i event) i ≡ some ys
    → ys ≡ xs ++ event ∷ []
unfolding add_to
get_elem?-add_to_self [] i event xs ys e e' = cc
get_elem?-add_to_self (zs ∷ xss) zero event xs ys e e' =
    sym (some_injective (zs ++ event ∷ []) ys e')
    ∙ ap (λ l. l ++ event ∷ []) (some_injective zs xs e)
get_elem?-add_to_self (zs ∷ xss) (suc i) event xs ys e e' =
    get_elem?-add_to_self xss i event xs ys e e'

pub get_elem?-add_to_ne :
    (xss : List (List NetworkEvent)) (i j : ℕ) (event : NetworkEvent)
    → i ≢ j
    → get_elem? (add_to xss i event) j ≡ get_elem? xss j
unfolding add_to
get_elem?-add_to_ne [] i j event ne = refl
get_elem?-add_to_ne (xs ∷ xss) zero zero event ne = absurd (ne refl)
get_elem?-add_to_ne (xs ∷ xss) zero (suc j) event ne = refl
get_elem?-add_to_ne (xs ∷ xss) (suc i) zero event ne = refl
get_elem?-add_to_ne (xs ∷ xss) (suc i) (suc j) event ne =
    get_elem?-add_to_ne xss i j event (λ e. ne (ap suc e))

-- What has been handled of a worker's events, followed by what is queued, in the order of acceptance.
abbrev pub InOrder : ℕ → List NetworkEvent → Plan → Type 0
InOrder workers accepted p =
    (i : ℕ) (done waiting : List NetworkEvent)
    → get_elem? p.handled i ≡ some done
    → get_elem? p.queued i ≡ some waiting
    → done ++ waiting ≡ filter_by (is_for workers i) accepted

module _ (workers : ℕ) (p : Plan) (accepted : List NetworkEvent)
    (in_order : InOrder workers accepted p) where
  filter-for :
      (event : NetworkEvent)
      → filter_by (is_for workers (shard_key event % workers)) (accepted ++ event ∷ [])
        ≡ filter_by (is_for workers (shard_key event % workers)) accepted ++ event ∷ []
  filter-for event =
      let own : is_for workers (shard_key event % workers) event ≡ true = ground arith in
      filter_by-append (is_for workers (shard_key event % workers)) accepted (event ∷ [])
      ∙ rw own refl

  filter-others :
      (event : NetworkEvent) (i : ℕ)
      → shard_key event % workers ≢ i
      → filter_by (is_for workers i) (accepted ++ event ∷ [])
        ≡ filter_by (is_for workers i) accepted
  filter-others event i ne =
      let other : is_for workers i event ≡ false = ground (arith, ne) in
      filter_by-append (is_for workers i) accepted (event ∷ [])
      ∙ rw (other, append-nil (filter_by (is_for workers i) accepted)) refl

  pub queue_up-InOrder :
      (event : NetworkEvent) (xs : List NetworkEvent)
      → get_elem? p.queued (shard_key event % workers) ≡ some xs
      → InOrder workers
          (accepted ++ event ∷ [])
          (record p { queued = set p.queued (shard_key event % workers) (xs ++ event ∷ []) })
  queue_up-InOrder event xs at i done waiting at_done at_waiting =
      let shard = shard_key event % workers in
      elim (ℕ_discrete shard i) [
        | yes same ↦
            let here : get_elem? (set p.queued shard (xs ++ event ∷ [])) shard ≡ some waiting =
              subst (λ j. get_elem? (set p.queued shard (xs ++ event ∷ [])) j ≡ some waiting)
                (sym same) at_waiting in
            let longer : xs ++ event ∷ [] ≡ waiting = some_injective (xs ++ event ∷ []) waiting (
              sym (
                get_elem?-set_self p.queued shard (xs ++ event ∷ [])
                  (get_elem?-lt p.queued shard xs at))
              ∙ here) in
            let before : done ++ xs ≡ filter_by (is_for workers shard) accepted =
              in_order shard done xs
                (subst (λ j. get_elem? p.handled j ≡ some done) (sym same) at_done) at in
            subst (λ j. done ++ waiting ≡ filter_by (is_for workers j) (accepted ++ event ∷ []))
              same
              (ap (λ l. done ++ l) (sym longer)
                ∙ sym (append_assoc done xs (event ∷ []))
                ∙ ap (λ l. l ++ event ∷ []) before
                ∙ sym (filter-for event))
        | no other ↦
            in_order i done waiting at_done
              (sym (get_elem?-set_ne p.queued shard i (xs ++ event ∷ []) other) ∙ at_waiting)
            ∙ sym (filter-others event i other)
      ]

  pub take-InOrder :
      (n : ℕ) (event : NetworkEvent) (xs : List NetworkEvent)
      → length p.handled ≡ length p.queued
      → get_elem? p.queued n ≡ some (event ∷ xs)
      → InOrder workers accepted
          (record p { queued = set p.queued n xs; handled = add_to p.handled n event })
  take-InOrder n event xs same_size at i done waiting at_done at_waiting = elim (ℕ_discrete n i) [
    | yes same ↦
        let present = get_elem?-lt p.queued n (event ∷ xs) at in
        let (before, at_before) = get_elem?-some p.handled n (omega (arith, same_size)) in
        let rest : xs ≡ waiting = some_injective xs waiting (
          sym (get_elem?-set_self p.queued n xs present)
          ∙ subst (λ j. get_elem? (set p.queued n xs) j ≡ some waiting) (sym same) at_waiting) in
        let longer : done ≡ before ++ event ∷ [] =
          get_elem?-add_to_self p.handled n event before done at_before
            (subst (λ j. get_elem? (add_to p.handled n event) j ≡ some done) (sym same) at_done) in
        subst (λ j. done ++ waiting ≡ filter_by (is_for workers j) accepted) same
          (ap (λ l. l ++ waiting) longer
            ∙ ap (λ l. (before ++ event ∷ []) ++ l) (sym rest)
            ∙ append_assoc before (event ∷ []) xs
            ∙ in_order n before (event ∷ xs) at_before at)
    | no other ↦
        in_order i done waiting (sym (get_elem?-add_to_ne p.handled n i event other) ∙ at_done)
          (sym (get_elem?-set_ne p.queued n i xs other) ∙ at_waiting)
  ]
