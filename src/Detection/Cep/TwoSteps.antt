-- ===== src/Detection/Cep/TwoSteps.antt =====
-- A rule of two conditions, such as the default one of engine/src/detection/cep.rs, as a stack of
-- times: the times of the first condition that are still waiting, the newest last.
use mathlib.Core.List.{reverse-cons, reverse-reverse}
use telemetry_threat_engine.Base.{
  ℕ, ◌-◌, ◌<◌, ◌≡◌, refl, sym, ap, ◌∙◌, Bool, true, false, ◌&&◌, List, [], ◌∷◌, ◌++◌, leb, ltb,
  if◌then◌else◌, length, filter_by, reverse, Bool-cases, inl, inr, append-nil, arith, lt→ltb,
  filter_by-append,
}
use telemetry_threat_engine.Models.{NetworkEvent}
use telemetry_threat_engine.Detection.Cep.{
  Condition, CepRule, PartialMatch, matches, step_matches, is_live, advance, begin, process_rule,
}

-- The partial matches that wait since the given times.
abbrev pub waiting : List ℕ → List PartialMatch
waiting [] = []
waiting (t ∷ ts) = record { step = 1; started_at = t } ∷ waiting ts

abbrev pub all_but_last : List ℕ → List ℕ
all_but_last [] = []
all_but_last (t ∷ []) = []
all_but_last (t ∷ u ∷ ts) = t ∷ all_but_last (u ∷ ts)

abbrev pub some_wait : List ℕ → Bool
some_wait [] = false
some_wait (t ∷ ts) = true

waiting-append : (ts us : List ℕ) → waiting (ts ++ us) ≡ waiting ts ++ waiting us
waiting-append [] us = refl
waiting-append (t ∷ ts) us =
    ap (λ ps. record { step = 1; started_at = t } ∷ ps) (waiting-append ts us)

reverse-waiting : (ts : List ℕ) → reverse (waiting ts) ≡ waiting (reverse ts)
reverse-waiting [] = refl
reverse-waiting (t ∷ ts) =
    reverse-cons (record { step = 1; started_at = t }) (waiting ts)
    ∙ ap (λ ps. ps ++ record { step = 1; started_at = t } ∷ []) (reverse-waiting ts)
    ∙ sym (waiting-append (reverse ts) (t ∷ []))
    ∙ ap waiting (sym (reverse-cons t ts))

all_but_last-snoc : (ts : List ℕ) (t : ℕ) → all_but_last (ts ++ t ∷ []) ≡ ts
all_but_last-snoc [] t = refl
all_but_last-snoc (u ∷ []) t = refl
all_but_last-snoc (u ∷ v ∷ ts) t = ap (λ l. u ∷ l) (all_but_last-snoc (v ∷ ts) t)

some_wait-snoc : (ts : List ℕ) (t : ℕ) → some_wait (ts ++ t ∷ []) ≡ true
some_wait-snoc [] t = refl
some_wait-snoc (u ∷ ts) t = refl

module _ (rule : CepRule) (first second : Condition) (two : rule.steps ≡ first ∷ second ∷ []) where
  step_matches-zero : (event : NetworkEvent) → step_matches rule 0 event ≡ matches first event
  unfolding step_matches
  step_matches-zero event = rw two

  step_matches-one : (event : NetworkEvent) → step_matches rule 1 event ≡ matches second event
  unfolding step_matches
  step_matches-one event = rw two

  filter_by-waiting :
      (now : ℕ) (ts : List ℕ)
      → filter_by (is_live now rule) (waiting ts)
        ≡ waiting (filter_by (λ t. leb (now - t) rule.window) ts)
  unfolding is_live
  filter_by-waiting now [] = refl
  filter_by-waiting now (t ∷ ts) = elim (Bool-cases (leb (now - t) rule.window)) [
    | inl live ↦
        rw live (ap (λ ps. record { step = 1; started_at = t } ∷ ps) (filter_by-waiting now ts))
    | inr stale ↦ rw stale (filter_by-waiting now ts)
  ]

  advance-quiet :
      (event : NetworkEvent) (ts : List ℕ)
      → matches second event ≡ false
      → advance rule event (waiting ts) ≡ (waiting ts, false)
  unfolding advance
  advance-quiet event [] no_match = refl
  advance-quiet event (t ∷ ts) no_match =
      rw (step_matches-one event, no_match, advance-quiet event ts no_match)

  completes :
      (event : NetworkEvent)
      → matches second event ≡ true
      → (ts : List ℕ) (t : ℕ)
      → advance rule event (waiting (t ∷ ts))
        ≡ (record { step = 2; started_at = t } ∷ waiting ts, true)
  unfolding advance
  completes event match ts t = rw (step_matches-one event, match, two)

  length-steps : length rule.steps ≡ 2
  length-steps = ap length two

  filter_by-kept :
      (n : ℕ) (ts : List ℕ) → 1 < n → filter_by (λ p. ltb p.step n) (waiting ts) ≡ waiting ts
  filter_by-kept n [] h = refl
  filter_by-kept n (t ∷ ts) h =
      rw (lt→ltb 1 n h)
        (ap (λ ps. record { step = 1; started_at = t } ∷ ps) (filter_by-kept n ts h))

  -- What stays of the partial matches after the loop.
  abbrev kept : List PartialMatch × Bool → List PartialMatch
  kept r =
      if r.1 then filter_by (λ p. ltb p.step (length rule.steps)) (reverse r.0) else reverse r.0

  kept-completed :
      (t : ℕ) (ts : List ℕ)
      → kept (record { step = 2; started_at = t } ∷ waiting ts, true) ≡ waiting (reverse ts)
  kept-completed t ts =
      rw
        (
          length-steps,
          reverse-cons (record { step = 2; started_at = t }) (waiting ts),
          filter_by-append (λ p. ltb p.step 2) (reverse (waiting ts))
              (record { step = 2; started_at = t } ∷ []),
          reverse-waiting ts,
        )
        (append-nil _ ∙ filter_by-kept 2 (reverse ts) (omega arith))

  -- The loop, on partial matches that all wait for the second condition. `ts` has the newest first.
  advance-waiting :
      (event : NetworkEvent) (ts : List ℕ)
      → let r = advance rule event (waiting ts) in
        let fires = matches second event && some_wait (reverse ts) in
        (r.1 ≡ fires) × (kept r ≡ waiting (if fires then all_but_last (reverse ts) else reverse ts))
  unfolding advance
  advance-waiting event [] = elim (Bool-cases (matches second event)) [
    | inl match ↦ rw match (refl, refl)
    | inr no_match ↦ rw no_match (refl, refl)
  ]
  advance-waiting event (t ∷ ts) = elim (Bool-cases (matches second event)) [
    | inl match ↦
        rw
          (
            completes event match ts t,
            match,
            reverse-cons t ts,
            some_wait-snoc (reverse ts) t,
            all_but_last-snoc (reverse ts) t,
          )
          (refl, kept-completed t ts)
    | inr no_match ↦
        rw (advance-quiet event (t ∷ ts) no_match, no_match) (refl, reverse-waiting (t ∷ ts))
  ]

  -- The times that an event adds.
  abbrev pub begun : ℕ → NetworkEvent → List ℕ
  begun now event = if matches first event then now ∷ [] else []

  begin-waiting :
      (now : ℕ) (event : NetworkEvent) → begin now rule event ≡ waiting (begun now event)
  unfolding begin
  begin-waiting now event = elim (Bool-cases (matches first event)) [
    | inl match ↦ rw (step_matches-zero event, match)
    | inr no_match ↦ rw (step_matches-zero event, no_match)
  ]

  -- At an event a rule of two conditions first forgets the times before its window. If the event
  -- satisfies the second condition and a time is left, the rule completes once and the newest time
  -- goes. Then the present time is added, if the event satisfies the first condition.
  pub process_rule-two_steps :
      (now : ℕ) (event : NetworkEvent) (ts : List ℕ)
      → let live = filter_by (λ t. leb (now - t) rule.window) ts in
        let fires = matches second event && some_wait live in
        process_rule now event rule (waiting ts)
        ≡ (fires, waiting ((if fires then all_but_last live else live) ++ begun now event))
  unfolding process_rule
  process_rule-two_steps now event ts =
      ap result (ap reverse (filter_by-waiting now ts) ∙ reverse-waiting live)
      ∙ (λ i. (counted.0 i, counted.1 i ++ begin-waiting now event i))
      ∙ ap (λ l. spec l) (reverse-reverse live)
      ∙ (λ i. ((spec live).0, sym (waiting-append (left live) (begun now event)) i))
    where
      live : List ℕ
      live = filter_by (λ t. leb (now - t) rule.window) ts

      left : List ℕ → List ℕ
      left l = if matches second event && some_wait l then all_but_last l else l

      spec : List ℕ → Bool × List PartialMatch
      spec l = (matches second event && some_wait l, waiting (left l) ++ waiting (begun now event))

      result : List PartialMatch → Bool × List PartialMatch
      result l = ((advance rule event l).1, kept (advance rule event l) ++ begin now rule event)

      counted :
          ((advance rule event (waiting (reverse live))).1
            ≡ matches second event && some_wait (reverse (reverse live)))
          × (kept (advance rule event (waiting (reverse live)))
              ≡ waiting (left (reverse (reverse live))))
      counted = advance-waiting event (reverse live)
