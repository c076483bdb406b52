-- ===== src/Tests/Rules.antt =====
-- The sequence rules and the default signatures on a SYN and on a bad payload.
use telemetry_threat_engine.Base.{
  ◌%◌, ◌+◌, ◌^◌, ℕ, ◌-◌, ◌≡◌, ◌↔◌, refl, true, false, ◌&&◌, List, [], ◌∷◌, ◌++◌, some, leb,
  if◌then◌else◌, length, filter_by, All, arith,
}
use telemetry_threat_engine.Base.Text.{codes}
use telemetry_threat_engine.Models.{Alert, low}
use telemetry_threat_engine.Detection.Utf8.{contains_text}
use telemetry_threat_engine.Detection.Cep.{
  CepRule, CepEngine, is_syn_only, has_signature_payload, default_rule, matches, process_rule,
  process,
}
use telemetry_threat_engine.Detection.Cep.TwoSteps.{
  waiting, all_but_last, some_wait, begun, process_rule-two_steps,
}
use telemetry_threat_engine.Detection.Cep.Steps.{
  Started, InSteps, process_rule-InSteps, process_rule-single,
}
use telemetry_threat_engine.Detection.Cep.Sources.{
  SameAt, Raises, completed_rules, process-total, process-SameAt,
}
use telemetry_threat_engine.Detection.Signature.{SignatureDetector, scan}
use telemetry_threat_engine.Detection.Signature.Scan.{raised, detector, scan-raised}
use telemetry_threat_engine.Tests.Parameters.{searches, syn_event, payload_event}

abbrev times : List ℕ
times = 10 ∷ 4000000000 ∷ 5000000000 ∷ []

abbrev live_times : List ℕ
live_times = filter_by (λ t. leb (6000000000 - t) default_rule.window) times

process_rule-two_steps_example :
    let fires = matches has_signature_payload payload_event && some_wait live_times in
    process_rule 6000000000 payload_event default_rule (waiting times) ≡ (
      fires,
      waiting (
          (if fires then all_but_last live_times else live_times)
          ++ begun default_rule is_syn_only has_signature_payload refl 6000000000 payload_event),
    )
process_rule-two_steps_example =
    process_rule-two_steps default_rule is_syn_only has_signature_payload refl 6000000000
      payload_event times

process_rule-InSteps_example :
    All (InSteps 2) (process_rule 6000000000 payload_event default_rule (waiting times)).1
process_rule-InSteps_example =
    process_rule-InSteps default_rule payload_event 6000000000 (waiting times) (omega arith)
      ((omega arith, omega arith), ((omega arith, omega arith), ((omega arith, omega arith), tt)))

abbrev single_rule : CepRule
single_rule = record {
  name = codes "any-syn";
  severity = low;
  steps = is_syn_only ∷ [];
  window = 1000;
}

process_rule-single_example :
    ((process_rule 50 syn_event single_rule (waiting (40 ∷ []))).0 ≡ false)
    × All Started (process_rule 50 syn_event single_rule (waiting (40 ∷ []))).1
process_rule-single_example =
    process_rule-single single_rule syn_event 50 (waiting (40 ∷ [])) refl (omega arith, tt)

-- The default engine while a probe of the source waits.
abbrev probed : CepEngine
probed = record {
  rules = default_rule ∷ [];
  active = ((0x0A000005, waiting (10 ∷ [])) ∷ (7, waiting (20 ∷ [])) ∷ []) ∷ [];
  next_id = 1;
}

process-total_example :
    (alerts : List Alert) × (engine' : CepEngine) × (process 60 probed payload_event
      ≡ some (alerts, engine'))
    × (engine'.rules ≡ probed.rules)
    × (length engine'.active ≡ 1)
    × Raises payload_event probed.next_id
        (completed_rules 60 payload_event probed.rules probed.active)
        alerts
    × (engine'.next_id % 2 ^ 64 ≡ (probed.next_id + length alerts) % 2 ^ 64)
process-total_example = process-total 60 payload_event probed refl

process-SameAt_example :
    (r : List Alert × CepEngine) × (process 60 probed payload_event ≡ some r)
    × SameAt 7 probed.active r.1.active
process-SameAt_example = process-SameAt 60 payload_event probed 7 refl (λ e. omega arith)

scan-raised_example :
    (r : List Alert × SignatureDetector) × (scan searches
        (detector searches payload_event 1)
        payload_event
      ≡ some r)
    × ((raised (codes "path-traversal-passwd") r.0 ≡ true)
        ↔ (contains_text (codes "/etc/passwd") payload_event.payload_sample ≡ true))
scan-raised_example =
    scan-raised searches payload_event 1 0 (codes "path-traversal-passwd") (codes "/etc/passwd")
      refl refl
