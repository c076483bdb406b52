-- ===== src/Detection/Cep.antt =====
-- engine/src/detection/cep.rs: sequences of conditions within a window, for each source. An
-- `Instant` is a number of nanoseconds; a `none` is an index out of range.
pub mod TwoSteps
pub mod Steps
pub mod Sources
use telemetry_threat_engine.Base.{
  ℕ, zero, suc, ◌+◌, ◌-◌, ◌*◌, ◌%◌, ◌^◌, Bool, true, false, not, ◌&&◌, List, [], ◌∷◌, ◌++◌, Option,
  none, some, ltb, leb, ◌==◌, if◌then◌else◌, length, get_elem?, filter_by, reverse, map, get_or,
  insert, ◌>>=◌,
}
use telemetry_threat_engine.Base.Text.{codes, decimal, debug_duration}
use telemetry_threat_engine.Models.{
  NetworkEvent, Alert, Severity, critical, cep, is_syn, src_ip_str, dst_ip_str,
}
use telemetry_threat_engine.Detection.Utf8.{from_utf8_lossy, contains_text}

pub data Condition : Type 0 where
  is_syn_only : Condition
  has_signature_payload : Condition
  distinct_port_above : ℕ → Condition

abbrev pub is_empty : List ℕ → Bool
is_empty [] = true
is_empty (b ∷ bytes) = false

-- `Condition::matches`.
unfoldable pub matches : Condition → NetworkEvent → Bool
unfolding is_syn from_utf8_lossy contains_text
matches is_syn_only event = is_syn event
matches has_signature_payload event =
    not (is_empty event.payload_sample)
    && contains_text (codes "passwd") (from_utf8_lossy event.payload_sample)
matches (distinct_port_above p) event = ltb p event.dst_port

pub record CepRule : Type 0 where
  pub name : List ℕ
  pub severity : Severity
  pub steps : List Condition
  pub window : ℕ  -- nanoseconds

pub record PartialMatch : Type 0 where
  pub step : ℕ
  pub started_at : ℕ

pub record CepEngine : Type 0 where
  pub rules : List CepRule
  pub active : List (List (ℕ × List PartialMatch))
  pub next_id : ℕ

abbrev pub default_rule : CepRule
default_rule = record {
  name = codes "probe-then-exploit-attempt";
  severity = critical;
  steps = is_syn_only ∷ has_signature_payload ∷ [];
  window = 5 * 10 ^ 9;
}

-- `CepEngine::with_default_rules`.
unfoldable pub with_default_rules : CepEngine
with_default_rules = record { rules = default_rule ∷ []; active = [] ∷ []; next_id = 1 }

-- `rule.steps[i].matches(event)` after the test `i < rule.steps.len()`.
unfoldable pub step_matches : CepRule → ℕ → NetworkEvent → Bool
step_matches rule i event = elim (get_elem? rule.steps i) [
  | none ↦ false
  | some c ↦ matches c event
]

unfoldable pub is_live : ℕ → CepRule → PartialMatch → Bool
is_live now rule p = leb (now - p.started_at) rule.window

-- The loop over the partial matches in reverse: what they become, and whether one completed.
unfoldable pub advance : CepRule → NetworkEvent → List PartialMatch → List PartialMatch × Bool
unfolding step_matches
advance rule event [] = ([], false)
advance rule event (p ∷ ps) =
    let rest = advance rule event ps in
    let moved = record p { step = p.step + 1 } in
    if step_matches rule p.step event
    then (if p.step + 1 == length rule.steps then (moved ∷ ps, true) else (moved ∷ rest.0, rest.1))
    else (p ∷ rest.0, rest.1)

unfoldable pub completion_alert : CepRule → NetworkEvent → ℕ → Alert
completion_alert rule event id = record {
  id = id;
  timestamp_ms = event.timestamp_ms;
  rule_name = rule.name;
  severity = rule.severity;
  src_ip = src_ip_str event;
  dst_ip = dst_ip_str event;
  detail =
      codes "CEP rule '"
      ++ (rule.name
          ++ (codes "' completed: "
              ++ (decimal (length rule.steps)
                  ++ (codes " steps matched within " ++ debug_duration rule.window))));
  detector = cep;
}

-- A new partial match, if the event satisfies the first condition.
unfoldable pub begin : ℕ → CepRule → NetworkEvent → List PartialMatch
unfolding step_matches
begin now rule event =
    if step_matches rule 0 event then record { step = 1; started_at = now } ∷ [] else []

-- What a rule comes to at an event: whether it completed, and its partial matches for the source.
unfoldable pub process_rule :
    ℕ → NetworkEvent → CepRule → List PartialMatch → Bool × List PartialMatch
unfolding is_live advance begin
process_rule now event rule partials =
    let live = filter_by (is_live now rule) partials in
    let (advanced, completed) = advance rule event (reverse live) in
    let kept =
      if completed
      then filter_by (λ p. ltb p.step (length rule.steps)) (reverse advanced)
      else reverse advanced in
    (completed, kept ++ begin now rule event)

-- The loop of `process` over the rules, each with its map of partial matches.
unfoldable pub process_rules :
    ℕ
    → NetworkEvent
    → ℕ
    → List CepRule
    → List (List (ℕ × List PartialMatch))
    → Option (List Alert × List (List (ℕ × List PartialMatch)) × ℕ)
unfolding process_rule completion_alert
process_rules now event id [] active = some ([], active, id)
process_rules now event id (rule ∷ rules) [] = none
process_rules now event id (rule ∷ rules) (table ∷ active) =
    let (completed, partials) = process_rule now event rule (get_or table event.src_ip []) in
    process_rules now event (if completed then (id + 1) % 2 ^ 64 else id) rules active >>= λ rest.
    some (
      (if completed then completion_alert rule event id ∷ [] else []) ++ rest.0,
      insert table event.src_ip partials ∷ rest.1,
      rest.2,
    )

-- `process`, at the reading `now` of the clock.
unfoldable pub process : ℕ → CepEngine → NetworkEvent → Option (List Alert × CepEngine)
unfolding process_rules
process now engine event =
    process_rules now event engine.next_id engine.rules engine.active >>= λ r.
    some (r.0, record engine { active = r.1; next_id = r.2 })
