-- ===== src/Detection/Cep/Steps.antt =====
-- How far along a rule the partial matches of engine/src/detection/cep.rs are, and rules of one
-- condition.
use mathlib.Core.List.{reverse-cons}
use telemetry_threat_engine.Base.{
  ℕ, zero, suc, ◌+◌, ◌≤◌, ◌<◌, ◌≡◌, refl, Bool, false, List, [], ◌∷◌, ltb, ◌==◌, length, get_elem?,
  filter_by, reverse, Bool-cases, inl, inr, arith, All, All-append, none,
}
use telemetry_threat_engine.Models.{NetworkEvent}
use telemetry_threat_engine.Detection.Cep.{
  CepRule, PartialMatch, step_matches, is_live, advance, begin, process_rule,
}

abbrev pub Started : PartialMatch → Type 0
Started p = 1 ≤ p.step

-- Past the first condition and before the end of a rule of `n` conditions.
abbrev pub InSteps : ℕ → PartialMatch → Type 0
InSteps n p = (1 ≤ p.step) × (p.step < n)

module _ {ℓ} {A : Type ℓ} (P : A → Type 0) where
  All-filter_by : (t : A → Bool) (xs : List A) → All P xs → All P (filter_by t xs)
  All-filter_by t [] a = tt
  All-filter_by t (x ∷ xs) a = elim (Bool-cases (t x)) [
    | inl holds ↦ rw holds (a.0, All-filter_by t xs a.1)
    | inr fails ↦ rw fails (All-filter_by t xs a.1)
  ]

  All-reverse : (xs : List A) → All P xs → All P (reverse xs)
  All-reverse [] a = tt
  All-reverse (x ∷ xs) a =
      rw (reverse-cons x xs) (All-append P (reverse xs) (x ∷ []) (All-reverse xs a.1) (a.0, tt))

filter_by-InSteps :
    (n : ℕ) (ps : List PartialMatch)
    → All Started ps
    → All (InSteps n) (filter_by (λ p. ltb p.step n) ps)
filter_by-InSteps n [] a = tt
filter_by-InSteps n (p ∷ ps) a = elim (Bool-cases (ltb p.step n)) [
  | inl below ↦ rw below ((a.0, ground arith), filter_by-InSteps n ps a.1)
  | inr past ↦ rw past (filter_by-InSteps n ps a.1)
]

All-Started : (n : ℕ) (ps : List PartialMatch) → All (InSteps n) ps → All Started ps
All-Started n [] a = tt
All-Started n (p ∷ ps) a = (a.0.0, All-Started n ps a.1)

get_elem?-none {ℓ} : {A : Type ℓ} (xs : List A) (i : ℕ) → length xs ≤ i → get_elem? xs i ≡ none
get_elem?-none [] i h = refl
get_elem?-none (x ∷ xs) zero h = absurd (omega arith)
get_elem?-none (x ∷ xs) (suc i) h = get_elem?-none xs i (omega arith)

module _ (rule : CepRule) (event : NetworkEvent) where
  advance-Started :
      (ps : List PartialMatch) → All Started ps → All Started (advance rule event ps).0
  unfolding advance
  advance-Started [] a = tt
  advance-Started (p ∷ ps) a = elim (Bool-cases (step_matches rule p.step event)) [
    | inl match ↦ elim (Bool-cases (p.step + 1 == length rule.steps)) [
      | inl last ↦ rw (match, last) (omega arith, a.1)
      | inr more ↦ rw (match, more) (omega arith, advance-Started ps a.1)
    ]
    | inr no_match ↦ rw no_match (a.0, advance-Started ps a.1)
  ]

  -- While nothing completes, everything stays before the end.
  advance-InSteps :
      (ps : List PartialMatch)
      → All (InSteps (length rule.steps)) ps
      → (advance rule event ps).1 ≡ false
      → All (InSteps (length rule.steps)) (advance rule event ps).0
  unfolding advance
  advance-InSteps [] a = λ e. tt
  advance-InSteps (p ∷ ps) a = elim (Bool-cases (step_matches rule p.step event)) [
    | inl match ↦ elim (Bool-cases (p.step + 1 == length rule.steps)) [
      | inl last ↦ rw (match, last) (λ e. cc)
      | inr more ↦ rw (match, more) (λ e. (ground arith, advance-InSteps ps a.1 e))
    ]
    | inr no_match ↦ rw no_match (λ e. (a.0, advance-InSteps ps a.1 e))
  ]

  begin-InSteps :
      (now : ℕ) → 2 ≤ length rule.steps → All (InSteps (length rule.steps)) (begin now rule event)
  unfolding begin
  begin-InSteps now several = elim (Bool-cases (step_matches rule 0 event)) [
    | inl match ↦ rw match (omega arith, tt)
    | inr no_match ↦ rw no_match tt
  ]

  begin-Started : (now : ℕ) → All Started (begin now rule event)
  unfolding begin
  begin-Started now = elim (Bool-cases (step_matches rule 0 event)) [
    | inl match ↦ rw match (omega arith, tt)
    | inr no_match ↦ rw no_match tt
  ]

  -- With two conditions or more, the partial matches of a source are between the first condition
  -- and the last after each event, if they were before it.
  pub process_rule-InSteps :
      (now : ℕ) (ps : List PartialMatch)
      → 2 ≤ length rule.steps
      → All (InSteps (length rule.steps)) ps
      → All (InSteps (length rule.steps)) (process_rule now event rule ps).1
  unfolding process_rule
  process_rule-InSteps now ps several a =
      All-append (InSteps (length rule.steps)) _ (begin now rule event)
        (elim (Bool-cases (advance rule event live).1) [
          | inl completed ↦ rw completed (
              filter_by-InSteps (length rule.steps) (reverse (advance rule event live).0) (
                All-reverse Started (advance rule event live).0
                  (advance-Started live (All-Started (length rule.steps) live a_live))))
          | inr open_ ↦ rw open_ (
              All-reverse (InSteps (length rule.steps)) (advance rule event live).0
                (advance-InSteps live a_live open_))
        ])
        (begin-InSteps now several)
    where
      live : List PartialMatch
      live = reverse (filter_by (is_live now rule) ps)

      a_live : All (InSteps (length rule.steps)) live
      a_live =
          All-reverse (InSteps (length rule.steps)) (filter_by (is_live now rule) ps)
            (All-filter_by (InSteps (length rule.steps)) (is_live now rule) ps a)

  step_matches-past : (i : ℕ) → length rule.steps ≤ i → step_matches rule i event ≡ false
  unfolding step_matches
  step_matches-past i h = rw (get_elem?-none rule.steps i h, step_matches)

  advance-single :
      (ps : List PartialMatch)
      → length rule.steps ≡ 1
      → All Started ps
      → advance rule event ps ≡ (ps, false)
  unfolding advance
  advance-single [] one a = refl
  advance-single (p ∷ ps) one a =
      rw (step_matches-past p.step (omega arith), advance-single ps one a.1)

  -- If the partial matches of a rule of one condition are past its end, as those that an event begins
  -- are, then the rule does not complete at any event, and its partial matches stay past its end.
  pub process_rule-single :
      (now : ℕ) (ps : List PartialMatch)
      → length rule.steps ≡ 1
      → All Started ps
      → ((process_rule now event rule ps).0 ≡ false)
        × All Started (process_rule now event rule ps).1
  unfolding process_rule
  process_rule-single now ps one a = rw (advance-single live one a_live) (
    refl,
    All-append Started (reverse live) (begin now rule event) (All-reverse Started live a_live)
        (begin-Started now),
  )
    where
      live : List PartialMatch
      live = reverse (filter_by (is_live now rule) ps)

      a_live : All Started live
      a_live =
          All-reverse Started (filter_by (is_live now rule) ps)
            (All-filter_by Started (is_live now rule) ps a)
