-- ===== src/Pipeline/Engine/Payloads.antt =====
-- The alerts about known byte patterns during a run of engine/src/pipeline.rs.
use telemetry_threat_engine.Base.{
  ℕ, Bool, ◌≤◌, ◌≡◌, refl, sym, ap, ◌∙◌, subst, true, List, [], ◌∷◌, ◌++◌, some, get_elem?,
  get_elem?-lt, count, count-append, All-get_elem?, some_injective, Bool-cases, inl, inr, arith,
}
use telemetry_threat_engine.Base.Text.{text_eq}
use telemetry_threat_engine.Models.{NetworkEvent, Alert}
use telemetry_threat_engine.Detection.Hasher.{FxHasher}
use telemetry_threat_engine.Detection.Float.{Float64}
use telemetry_threat_engine.Detection.Utf8.{contains_text}
use telemetry_threat_engine.Detection.Signature.{
  AhoCorasick, SignatureDetector, with_default_rules, scan,
}
use telemetry_threat_engine.Detection.Signature.Scan.{raised, scan-raised}
use telemetry_threat_engine.Pipeline.Handled.{handle-Handled}
use telemetry_threat_engine.Pipeline.Handling.{Ready}
use telemetry_threat_engine.Pipeline.Engine.{Engine, Action, arrive, wake}
use telemetry_threat_engine.Pipeline.Engine.Plan.{Plan, plan_step}
use telemetry_threat_engine.Pipeline.Engine.Refines.{Refines, Quiet, Busy, Effect}
use telemetry_threat_engine.Pipeline.Engine.Invariant.{Invariant, Any}
use telemetry_threat_engine.Pipeline.Engine.Tallies.{tally, tally-add_to}
use telemetry_threat_engine.Pipeline.Engine.Watch.{Keeps, Handled-Keeps}

-- An event whose payload has a pattern, and an alert under a rule's name.
abbrev pub carries : List ℕ → NetworkEvent → Bool
carries pattern event = contains_text pattern event.payload_sample

abbrev pub is_named : List ℕ → Alert → Bool
is_named name a = text_eq a.rule_name name

raised-count :
    (name : List ℕ) (alerts : List Alert)
    → raised name alerts ≡ true
    → 1 ≤ count (is_named name) alerts
raised-count name [] h = cc
raised-count name (a ∷ alerts) h = elim (Bool-cases (is_named name a)) [
  | inl own ↦ rw own (omega arith)
  | inr not_own ↦ rw not_own (omega (arith, raised-count name alerts (sym (rw not_own refl) ∙ h)))
]

module _ (ac : AhoCorasick) (fx : FxHasher) (fl : Float64) (rule : ℕ) (name pattern : List ℕ)
    (is_name : get_elem? with_default_rules.rule_names rule ≡ some name)
    (is_pattern : get_elem? with_default_rules.patterns rule ≡ some pattern) where
  scan-count :
      (d scanner : SignatureDetector) (id : ℕ) (event : NetworkEvent) (alerts : List Alert)
      → d ≡ record with_default_rules { next_id = id }
      → scan ac d event ≡ some (alerts, scanner)
      → count (carries pattern) (event ∷ []) ≤ count (is_named name) alerts
  scan-count d scanner id event alerts fresh scanned =
      let (r, scanned', fires) = scan-raised ac event id rule name pattern is_name is_pattern in
      let same : r.0 ≡ alerts =
        ap (λ (x : List Alert × SignatureDetector). x.0)
          (some_injective r (alerts, scanner)
            (sym scanned' ∙ ap (λ x. scan ac x event) (sym fresh) ∙ scanned)) in
      elim (Bool-cases (carries pattern event)) [
        | inl bad ↦ rw bad (raised-count name alerts (ap (raised name) (sym same) ∙ fires.1 bad))
        | inr good ↦ rw good (omega arith)
      ]

  -- At least one alert for each event with the pattern that was handled.
  abbrev pub Listed : Engine fl.F → Plan → Type 0
  Listed engine p =
      (seen : List Alert) × Keeps seen engine.state
      × (tally (carries pattern) p.handled ≤ count (is_named name) seen)

  Quiet-Listed :
      (engine engine' : Engine fl.F) (p p' : Plan)
      → Quiet ac fx fl engine engine' p p'
      → Listed engine p
      → Listed engine' p'
  Quiet-Listed engine engine' p p' q (seen, (kept, fired), enough) = (
    seen,
    (q.alerts ∙ kept, q.fired ∙ fired),
    omega (arith, enough, ap (tally (carries pattern)) q.handled),
  )

  Busy-Listed :
      (k cap i now restart cep_now : ℕ) (engine engine' : Engine fl.F) (p p' : Plan)
      → Refines ac fx fl k cap engine p
      → Busy ac fx fl i now restart cep_now engine engine' p p'
      → Listed engine p
      → Listed engine' p'
  Busy-Listed k capacity i now restart cep_now engine engine' p p' r b
        (seen, (kept, fired), enough) =
      let h =
        handle-Handled ac fx fl now restart cep_now b.event b.worker b.taken b.answer b.answered in
      let ready = All-get_elem? (Ready fx fl) engine.workers i b.worker r.workers b.own in
      let more =
        scan-count b.worker.signatures h.scanner b.worker.signatures.next_id b.event h.by_signature
          ready.signatures h.scanned in
      let new = ((seen ++ h.by_signature) ++ h.by_count.0) ++ h.by_sequence in
      (
        new,
        subst (Keeps new) (sym b.state) (
            Handled-Keeps ac fx fl now restart b.event b.worker b.taken b.answer seen h
              (b.alerts ∙ kept, b.fired ∙ fired)),
        omega (
          arith,
          enough,
          more,
          ap (tally (carries pattern)) b.handled,
          tally-add_to (carries pattern) p.handled i b.event
              (omega (arith, get_elem?-lt engine.workers i b.worker b.own, r.one_each, r.handlers)),
          count-append (is_named name) ((seen ++ h.by_signature) ++ h.by_count.0) h.by_sequence,
          count-append (is_named name) (seen ++ h.by_signature) h.by_count.0,
          count-append (is_named name) seen h.by_signature,
        ),
      )

  pub step-Listed :
      (k cap : ℕ) (action : Action) (engine engine' : Engine fl.F) (p : Plan)
      → Any action
      → Refines ac fx fl k cap engine p
      → Effect ac fx fl action engine engine' p (plan_step cap action p)
      → Listed engine p
      → Listed engine' (plan_step cap action p)
  step-Listed k capacity (arrive rounds event) engine engine' p fine r q l =
      Quiet-Listed engine engine' p (plan_step capacity (arrive rounds event) p) q l
  step-Listed k capacity (wake i rounds now restart cep_now) engine engine' p fine r (inl q) l =
      Quiet-Listed engine engine' p (plan_step capacity (wake i rounds now restart cep_now) p) q l
  step-Listed k capacity (wake i rounds now restart cep_now) engine engine' p fine r (inr b) l =
      Busy-Listed k capacity i now restart cep_now engine engine' p
        (plan_step capacity (wake i rounds now restart cep_now) p) r b l

  abbrev pub listed_invariant : Invariant ac fx fl Any
  listed_invariant = record { Inv = Listed; kept = step-Listed }
