-- ===== src/Api/Payloads.antt =====
-- From the payloads that arrive at the producer of engine/src/pipeline.rs to the alerts that the handler
-- of engine/src/api.rs answers with.
use telemetry_threat_engine.Base.{
  ℕ, ◌+◌, ◌%◌, ◌^◌, ◌≤◌, ◌<◌, ◌≡◌, ◌⊎◌, refl, sym, ap, ◌∙◌, subst, true, List, [], some, length,
  get_elem?, count, All, ◌>>=◌, some_injective, arith,
}
use telemetry_threat_engine.Models.{Alert}
use telemetry_threat_engine.Queue.{is_power_of_two}
use telemetry_threat_engine.Detection.Hasher.{FxHasher}
use telemetry_threat_engine.Detection.Float.{Float64}
use telemetry_threat_engine.Detection.Signature.{AhoCorasick, with_default_rules}
use telemetry_threat_engine.Pipeline.{alert_history_cap}
use telemetry_threat_engine.Pipeline.Store.{newest}
use telemetry_threat_engine.Pipeline.Engine.{Engine, Action, run, new}
use telemetry_threat_engine.Pipeline.Engine.Plan.{plan_run, empty_plan, arrivals}
use telemetry_threat_engine.Pipeline.Engine.Contents.{in_flight, in_flight-total}
use telemetry_threat_engine.Pipeline.Engine.Refines.{ActionSettles}
use telemetry_threat_engine.Pipeline.Engine.Runs.{new-Refines, fresh_engine, new-fresh_engine}
use telemetry_threat_engine.Pipeline.Engine.Invariant.{Any, all-Any, Stands, run-Stands}
use telemetry_threat_engine.Pipeline.Engine.Sized.{empty-Sized, plan_run-dropped_le}
use telemetry_threat_engine.Pipeline.Engine.Tallies.{tally-le, tally-replicate, plan_run-met}
use telemetry_threat_engine.Pipeline.Engine.Payloads.{carries, is_named, listed_invariant}
use telemetry_threat_engine.Api.{alerts}
use telemetry_threat_engine.Api.Listing.{listed}

module _ (ac : AhoCorasick) (fx : FxHasher) (fl : Float64) where
  -- Known byte patterns are reported, from the producer to the HTTP interface. Let at least one worker,
  -- with queues of a power of two of at least two slots, run any schedule of arrivals and wake-ups,
  -- whose exchanges settle and whose steps and slots of a queue are fewer than 2^63 together, and take
  -- one of the default signature rules. The arrived events whose payload has the rule's pattern are at
  -- most as many as the recorded alerts under the rule's name, the dropped events and the events that
  -- are in queues at the end together. The store keeps the newest 5000 of the recorded alerts and the
  -- counter is their number modulo 2^64: either more than 5000 were recorded, or `GET /alerts` with the
  -- limit 5000 lists all of them under the rule's name.
  pub payloads_reported :
      (w cap start rule : ℕ) (name pattern : List ℕ) (actions : List Action) (engine : Engine fl.F)
      → get_elem? with_default_rules.rule_names rule ≡ some name
      → get_elem? with_default_rules.patterns rule ≡ some pattern
      → 0 < w
      → 2 ≤ cap
      → length actions + cap < 2 ^ 63
      → is_power_of_two cap ≡ true
      → All ActionSettles actions
      → (new ac fx fl w cap start >>= λ e. run ac fx fl actions e) ≡ some engine
      → (seen : List Alert) × (engine.state.alerts ≡ newest alert_history_cap seen)
        × (engine.state.stats.alerts_fired ≡ length seen % 2 ^ 64)
        × (count (carries pattern) (arrivals actions)
            ≤ count (is_named name) seen
              + engine.state.stats.events_dropped
              + in_flight engine.state.queues)
        × ((5000 < length seen)
            ⊎ (count (is_named name) (alerts (some 5000) engine.state)
                ≡ count (is_named name) seen))
  payloads_reported w cap start rule name pattern actions engine is_name is_pattern some_worker
        several small power settles ran =
      let (first, made, r, same) =
        new-Refines ac fx fl w cap start some_worker several (omega arith) power in
      let fresh =
        some_injective (fresh_engine ac fx fl w cap start) first
          (sym (new-fresh_engine ac fx fl w cap start some_worker power) ∙ made) in
      let g = listed_invariant ac fx fl rule name pattern is_name is_pattern in
      let (last, ran', final) =
        run-Stands ac fx fl Any g actions 0 cap first (empty_plan w) (omega arith) settles
          (all-Any actions)
          (record {
            refines = r;
            some_worker = omega (arith, same);
            holds =
                subst (λ x. g.Inv x (empty_plan w)) fresh
                  ([], (refl, refl), omega (arith, tally-replicate (carries pattern) w));
          }) in
      let whole = ap (λ o. o >>= λ e. run ac fx fl actions e) made ∙ ran' in
      let here =
        subst
          (λ x.
            Stands ac fx fl g.Inv (0 + length actions) cap x (plan_run cap actions (empty_plan w)))
          (some_injective last engine (sym whole ∙ ran)) final in
      let (seen, (kept, fired), enough) = here.holds in
      let last_plan = plan_run cap actions (empty_plan w) in
      let (_, met_all) =
        plan_run-met (carries pattern) w some_worker cap actions (empty_plan w) (empty-Sized w) in
      (
        seen,
        kept,
        fired,
        omega (
          arith,
          enough,
          met_all,
          tally-le (carries pattern) last_plan.queued,
          in_flight-total (0 + length actions) cap engine.state.queues last_plan.queued
              here.refines.queues,
          here.refines.dropped,
          plan_run-dropped_le cap actions (empty_plan w),
        ),
        listed (is_named name) engine.state seen kept,
      )
