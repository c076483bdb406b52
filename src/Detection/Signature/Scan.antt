-- ===== src/Detection/Signature/Scan.antt =====
-- Which alerts `scan` of engine/src/detection/signature.rs raises with the default rules.
use telemetry_threat_engine.Base.{
  ℕ, zero, suc, ◌+◌, ◌%◌, ◌^◌, ◌<◌, ◌≡◌, refl, sym, ap, ◌∙◌, ◌↔◌, Bool, true, false, ◌||◌, List, [],
  ◌∷◌, some, get_elem?, get_elem?-lt, contains, length, ◌==◌, subst, get_elem?-some, Bool-cases,
  inl, inr, All, arith,
}
use telemetry_threat_engine.Base.Text.{text_eq, text_eq_refl}
use telemetry_threat_engine.Models.{NetworkEvent, Alert}
use telemetry_threat_engine.Detection.Utf8.{contains_text}
use telemetry_threat_engine.Detection.Cep.{is_empty}
use telemetry_threat_engine.Detection.Signature.{
  AhoCorasick, SignatureDetector, with_default_rules, match_alert, scan_matches, scan,
}

-- Some alert has this rule name.
abbrev pub raised : List ℕ → List Alert → Bool
raised name [] = false
raised name (a ∷ alerts) = text_eq a.rule_name name || raised name alerts

abbrev Distinct : List (List ℕ) → Type 0
Distinct [] = Unit
Distinct (n ∷ names) =
    All (λ m. (text_eq n m ≡ false) × (text_eq m n ≡ false)) names × Distinct names

some-eq : (n m : List ℕ) → some n ≡ some m → n ≡ m
some-eq n m e = cc

All-get_elem? :
    (P : List ℕ → Type 0) (names : List (List ℕ)) (i : ℕ) (m : List ℕ)
    → All P names
    → get_elem? names i ≡ some m
    → P m
All-get_elem? P [] i m a e = cc
All-get_elem? P (n ∷ names) zero m a e = subst P (some-eq n m e) a.0
All-get_elem? P (n ∷ names) (suc i) m a e = All-get_elem? P names i m a.1 e

zero_eq_suc : (j : ℕ) → false ≡ (0 == suc j)
zero_eq_suc j = ground arith

suc_eq_zero : (i : ℕ) → false ≡ (suc i == 0)
suc_eq_zero i = ground arith

suc_eq_suc : (i j : ℕ) → (i == j) ≡ (suc i == suc j)
suc_eq_suc i j = ground arith

-- Of distinct names, two are the same exactly if they stand at the same index.
Distinct-text_eq :
    (names : List (List ℕ)) (i j : ℕ) (n m : List ℕ)
    → Distinct names
    → get_elem? names i ≡ some n
    → get_elem? names j ≡ some m
    → text_eq n m ≡ (i == j)
Distinct-text_eq [] i j n m d ei ej = cc
Distinct-text_eq (k ∷ names) zero zero n m d ei ej =
    ap (text_eq n) (sym (some-eq k m ej) ∙ some-eq k n ei) ∙ text_eq_refl n
Distinct-text_eq (k ∷ names) zero (suc j) n m d ei ej =
    ap (λ x. text_eq x m) (sym (some-eq k n ei))
    ∙ (All-get_elem? (λ x. (text_eq k x ≡ false) × (text_eq x k ≡ false)) names j m d.0 ej).0
    ∙ zero_eq_suc j
Distinct-text_eq (k ∷ names) (suc i) zero n m d ei ej =
    ap (text_eq n) (sym (some-eq k m ej))
    ∙ (All-get_elem? (λ x. (text_eq k x ≡ false) × (text_eq x k ≡ false)) names i n d.0 ei).1
    ∙ suc_eq_zero i
Distinct-text_eq (k ∷ names) (suc i) (suc j) n m d ei ej =
    Distinct-text_eq names i j n m d.1 ei ej ∙ suc_eq_suc i j

module _ (d : SignatureDetector) (event : NetworkEvent) where
  -- On matches of known patterns the loop raises one alert for each, under the name of its rule.
  scan_matches-raised :
      (id : ℕ) (ms : List ℕ)
      → Distinct d.rule_names
      → length d.severities ≡ length d.rule_names
      → ((i : ℕ) → contains ms i ≡ true → i < length d.rule_names)
      → (r : List Alert × ℕ) × (scan_matches d event id ms ≡ some r)
        × (length r.0 ≡ length ms)
        × ((i : ℕ) (name : List ℕ)
            → get_elem? d.rule_names i ≡ some name
            → raised name r.0 ≡ contains ms i)
  unfolding scan_matches
  scan_matches-raised id [] distinct same known = (([], id), refl, refl, λ i name e. refl)
  scan_matches-raised id (idx ∷ ms) distinct same known =
      let below : idx < length d.rule_names = known idx (ground (arith)) in
      let (name, en) = get_elem?-some d.rule_names idx below in
      let (severity, es) = get_elem?-some d.severities idx (omega arith) in
      let (rest, e, n, rest_raised) =
        scan_matches-raised ((id + 1) % 2 ^ 64) ms distinct same (λ i h. known i (ground arith)) in
      (
        (match_alert event id name severity ∷ rest.0, rest.1),
        rw (en, es, e),
        ap suc n,
        λ i other at. (λ k.
            Distinct-text_eq d.rule_names idx i name other distinct en at k
            || rest_raised i other at k),
      )

abbrev default_names : List (List ℕ)
default_names = with_default_rules.rule_names

abbrev apart : (false ≡ false) × (false ≡ false)
apart = (refl, refl)

names-Distinct : Distinct default_names
names-Distinct = (
  (apart, (apart, (apart, (apart, tt)))),
  ((apart, (apart, (apart, tt))), ((apart, (apart, tt)), ((apart, tt), (tt, tt)))),
)

abbrev default_patterns : List (List ℕ)
default_patterns = with_default_rules.patterns

-- No default pattern is empty.
patterns_not_empty : All (λ p. contains_text p [] ≡ false) default_patterns
unfolding contains_text
patterns_not_empty = (refl, (refl, (refl, (refl, (refl, tt)))))

empty_payload : (bytes : List ℕ) → is_empty bytes ≡ true → bytes ≡ []
empty_payload [] e = refl
empty_payload (b ∷ bytes) e = cc

module _ (ac : AhoCorasick) (event : NetworkEvent) (id : ℕ) where
  abbrev pub detector : SignatureDetector
  detector = record with_default_rules { next_id = id }

  abbrev found : List ℕ
  found = ac.find_overlapping default_patterns event.payload_sample

  found-known : (i : ℕ) → contains found i ≡ true → i < length default_names
  found-known i h =
      let (p, at, stands) = (ac.find_overlapping_iff default_patterns event.payload_sample i).0 h in
      get_elem?-lt default_patterns i p at

  found_iff :
      (i : ℕ) (pattern : List ℕ)
      → get_elem? default_patterns i ≡ some pattern
      → (contains found i ≡ true) ↔ (contains_text pattern event.payload_sample ≡ true)
  found_iff i pattern at = (
    λ h.
        let (p, at', stands) =
          (ac.find_overlapping_iff default_patterns event.payload_sample i).0 h in
        ap (λ x. contains_text x event.payload_sample) (some-eq pattern p (sym at ∙ at')) ∙ stands,
    λ h. (ac.find_overlapping_iff default_patterns event.payload_sample i).1 (pattern, at, h),
  )

  pub scan-raised_all :
      (r : List Alert × SignatureDetector) × (scan ac detector event ≡ some r)
      × (r.1 ≡ record with_default_rules { next_id = r.1.next_id })
      × ((i : ℕ) (name pattern : List ℕ)
          → get_elem? default_names i ≡ some name
          → get_elem? default_patterns i ≡ some pattern
          → (raised name r.0 ≡ true) ↔ (contains_text pattern event.payload_sample ≡ true))
  unfolding scan
  scan-raised_all = elim (Bool-cases (is_empty event.payload_sample)) [
    | inl nothing ↦ rw nothing (
      ([], detector),
      refl,
      refl,
      λ i name pattern en ep. (
        λ h. cc,
        λ h. cc (
          h,
          ap (contains_text pattern) (empty_payload event.payload_sample nothing),
          All-get_elem? (λ p. contains_text p [] ≡ false) default_patterns i pattern
              patterns_not_empty ep,
        ),
      ),
    )
    | inr bytes ↦
        let (r, e, n, rest) =
          scan_matches-raised detector event id found names-Distinct refl found-known in
        rw (bytes, e)
          (
            (r.0, record detector { next_id = r.1 }),
            refl,
            refl,
            λ i name pattern en ep. (
              λ h. (found_iff i pattern ep).0 (sym (rest i name en) ∙ h),
              λ h. rest i name en ∙ (found_iff i pattern ep).1 h,
            ),
          )
  ]

  -- With the default rules, whatever the next alert number, `scan` does not panic, and it raises an
  -- alert under the name of rule `i` exactly if pattern `i` stands in the payload.
  pub scan-raised :
      (i : ℕ) (name pattern : List ℕ)
      → get_elem? with_default_rules.rule_names i ≡ some name
      → get_elem? with_default_rules.patterns i ≡ some pattern
      → (r : List Alert × SignatureDetector) × (scan ac detector event ≡ some r)
        × ((raised name r.0 ≡ true) ↔ (contains_text pattern event.payload_sample ≡ true))
  scan-raised i name pattern en ep =
      let (r, e, kept, all) = scan-raised_all in (r, e, all i name pattern en ep)
