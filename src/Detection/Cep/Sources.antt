-- ===== src/Detection/Cep/Sources.antt =====
-- `process` of engine/src/detection/cep.rs over all rules: its alerts, and the partial matches of the
-- sources.
use telemetry_threat_engine.Base.{
  ℕ, suc, ◌+◌, ◌%◌, ◌^◌, ◌≡◌, refl, ap, ◌≢◌, Bool, true, false, List, [], ◌∷◌, ◌++◌, some,
  if◌then◌else◌, length, get_or, insert, arith,
}
use telemetry_threat_engine.Models.{NetworkEvent, Alert, src_ip_str}
use telemetry_threat_engine.Detection.Cep.{
  CepRule, PartialMatch, CepEngine, completion_alert, process_rule, process_rules, process,
}

-- The map of partial matches at another source is the same in both tables of every rule.
abbrev pub SameAt :
    ℕ → List (List (ℕ × List PartialMatch)) → List (List (ℕ × List PartialMatch)) → Type 0
SameAt k [] [] = Unit
SameAt k [] (t ∷ after) = ⊥
SameAt k (t ∷ before) [] = ⊥
SameAt k (t ∷ before) (u ∷ after) = (get_or t k [] ≡ get_or u k []) × SameAt k before after

-- An alert of a rule about an event, with its number.
pub record AlertOf (event : NetworkEvent) (rule : CepRule) (id : ℕ) (a : Alert) : Type 0 where
  pub number : a.id ≡ id
  pub name : a.rule_name ≡ rule.name
  pub severity : a.severity ≡ rule.severity
  pub source : a.src_ip ≡ src_ip_str event
  pub time : a.timestamp_ms ≡ event.timestamp_ms

-- One alert for each of some rules, in their order, with consecutive numbers modulo 2^64.
abbrev pub Raises : NetworkEvent → ℕ → List CepRule → List Alert → Type 0
Raises event id [] [] = Unit
Raises event id [] (a ∷ alerts) = ⊥
Raises event id (rule ∷ rules) [] = ⊥
Raises event id (rule ∷ rules) (a ∷ alerts) =
    AlertOf event rule id a × Raises event ((id + 1) % 2 ^ 64) rules alerts

-- The rules that an event completes, each with its map of partial matches.
abbrev pub completed_rules :
    ℕ → NetworkEvent → List CepRule → List (List (ℕ × List PartialMatch)) → List CepRule
completed_rules now event [] active = []
completed_rules now event (rule ∷ rules) [] = []
completed_rules now event (rule ∷ rules) (table ∷ active) =
    let rest = completed_rules now event rules active in
    if (process_rule now event rule (get_or table event.src_ip [])).0 then rule ∷ rest else rest

get_or-insert_other :
    (t : List (ℕ × List PartialMatch)) (j k : ℕ) (v d : List PartialMatch)
    → j ≢ k
    → get_or t k d ≡ get_or (insert t j v) k d
get_or-insert_other [] j k v d ne = ground arith
get_or-insert_other ((i, w) ∷ t) j k v d ne = ground (arith, get_or-insert_other t j k v d ne)

module _ (now : ℕ) (event : NetworkEvent) where
  abbrev emitted : CepRule → ℕ → Bool → List Alert
  emitted rule id completed = if completed then completion_alert rule event id ∷ [] else []

  abbrev next_number : ℕ → Bool → ℕ
  next_number id completed = if completed then (id + 1) % 2 ^ 64 else id

  -- One rule more, which may have completed.
  emitted-Raises :
      (rule : CepRule) (id : ℕ) (b : Bool) (rules : List CepRule) (alerts : List Alert)
      → Raises event (next_number id b) rules alerts
      → Raises event id (if b then rule ∷ rules else rules) (emitted rule id b ++ alerts)
  unfolding completion_alert
  emitted-Raises rule id true rules alerts h =
      (record { number = refl; name = refl; severity = refl; source = refl; time = refl }, h)
  emitted-Raises rule id false rules alerts h = h

  number_after :
      (rule : CepRule) (id id' : ℕ) (b : Bool) (alerts : List Alert)
      → id' % 2 ^ 64 ≡ (next_number id b + length alerts) % 2 ^ 64
      → id' % 2 ^ 64 ≡ (id + length (emitted rule id b ++ alerts)) % 2 ^ 64
  number_after rule id id' true alerts h = omega (arith, h)
  number_after rule id id' false alerts h = h

  process_rules-total :
      (id : ℕ) (rules : List CepRule) (active : List (List (ℕ × List PartialMatch)))
      → length active ≡ length rules
      → (alerts : List Alert) × (active' : List (List (ℕ × List PartialMatch))) × (id' : ℕ)
        × (process_rules now event id rules active ≡ some (alerts, active', id'))
        × (length active' ≡ length rules)
        × Raises event id (completed_rules now event rules active) alerts
        × (id' % 2 ^ 64 ≡ (id + length alerts) % 2 ^ 64)
        × ((k : ℕ) → event.src_ip ≢ k → SameAt k active active')
  unfolding process_rules
  process_rules-total id [] [] same = ([], [], id, refl, refl, tt, omega arith, λ k ne. tt)
  process_rules-total id [] (t ∷ active) same = absurd (omega arith)
  process_rules-total id (rule ∷ rules) [] same = absurd (omega arith)
  process_rules-total id (rule ∷ rules) (table ∷ active) same =
      let result = process_rule now event rule (get_or table event.src_ip []) in
      let (alerts, active', id', e, size, raises, after, others) =
        process_rules-total (next_number id result.0) rules active (omega arith) in
      (
        emitted rule id result.0 ++ alerts,
        insert table event.src_ip result.1 ∷ active',
        id',
        rw e,
        ap suc size,
        emitted-Raises rule id result.0 (completed_rules now event rules active) alerts raises,
        number_after rule id id' result.0 alerts after,
        λ k ne. (get_or-insert_other table event.src_ip k result.1 [] ne, others k ne),
      )

  -- `process` with a map for each rule does not panic and keeps the rules and a map for each. It
  -- raises exactly one alert for each rule that `process_rule` completes at the event on the partial
  -- matches of its source, in the order of the rules: under the name and the severity of that rule,
  -- with the source and the time of the event, and with consecutive numbers modulo 2^64 from the
  -- engine's next one on. The next number after them goes on from there, modulo 2^64.
  pub process-total :
      (engine : CepEngine)
      → length engine.active ≡ length engine.rules
      → (alerts : List Alert) × (engine' : CepEngine) × (process now engine event
          ≡ some (alerts, engine'))
        × (engine'.rules ≡ engine.rules)
        × (length engine'.active ≡ length engine.rules)
        × Raises event engine.next_id (completed_rules now event engine.rules engine.active) alerts
        × (engine'.next_id % 2 ^ 64 ≡ (engine.next_id + length alerts) % 2 ^ 64)
  unfolding process
  process-total engine same =
      let (alerts, active', id', e, size, raises, after, others) =
        process_rules-total engine.next_id engine.rules engine.active same in
      (alerts, record engine { active = active'; next_id = id' }, rw e, refl, size, raises, after)

  -- `process` with a map for each rule does not panic, and leaves the partial matches of every source
  -- other than that of the event as they were, for each rule.
  pub process-SameAt :
      (engine : CepEngine) (k : ℕ)
      → length engine.active ≡ length engine.rules
      → event.src_ip ≢ k
      → (r : List Alert × CepEngine) × (process now engine event ≡ some r)
        × SameAt k engine.active r.1.active
  unfolding process
  process-SameAt engine k same other =
      let (alerts, active', id', e, size, raises, after, others) =
        process_rules-total engine.next_id engine.rules engine.active same in
      ((alerts, record engine { active = active'; next_id = id' }), rw e, others k other)
