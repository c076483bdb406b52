-- ===== src/Main/Exploits.antt =====
-- The exploits of the simulator of engine/src/ingestion.rs in the running program of engine/src/main.rs.
use telemetry_threat_engine.Base.{
  ℕ, zero, suc, Bool, true, false, ◌+◌, ◌/◌, ◌%◌, ◌^◌, ◌≤◌, ◌<◌, ◌≡◌, ◌⊎◌, some_injective, refl,
  sym, ap, ◌∙◌, List, [], ◌∷◌, ◌++◌, some, length, count, count-append, count-le, All, ◌>>=◌, ◌==◌,
  if◌then◌else◌, arith, subst,
}
use telemetry_threat_engine.Base.Text.{codes}
use telemetry_threat_engine.Models.{NetworkEvent, Alert}
use telemetry_threat_engine.Detection.Hasher.{FxHasher}
use telemetry_threat_engine.Detection.Float.{Float64}
use telemetry_threat_engine.Detection.Utf8.{contains_text}
use telemetry_threat_engine.Detection.Signature.{AhoCorasick}
use telemetry_threat_engine.Ingestion
use telemetry_threat_engine.Ingestion.{Environment, Simulator, next_batch, exploit_payload}
use telemetry_threat_engine.Ingestion.Shapes.{Batch, BadPayload, ProbeExploit, OrNone}
use telemetry_threat_engine.Ingestion.Batches.{next_batch-Batch}
use telemetry_threat_engine.Pipeline.{alert_history_cap}
use telemetry_threat_engine.Pipeline.Store.{newest}
use telemetry_threat_engine.Pipeline.Engine.Plan.{arrivals}
use telemetry_threat_engine.Pipeline.Engine.Contents.{in_flight}
use telemetry_threat_engine.Pipeline.Engine.Payloads.{carries, is_named}
use telemetry_threat_engine.Api.{alerts}
use telemetry_threat_engine.Api.Payloads.{payloads_reported}
use telemetry_threat_engine.Main.{worker_count, queue_capacity, capacity-power}
use telemetry_threat_engine.Main.Program.{Program, Turn, turns, launch, batches}
use telemetry_threat_engine.Main.Came.{TurnSettles, turns-Came, launch-Came}

abbrev bad : NetworkEvent → Bool
bad = carries (codes "/etc/passwd")

exploit-bad : (e : NetworkEvent) → e.payload_sample ≡ exploit_payload → bad e ≡ true
unfolding contains_text
exploit-bad e same = ap (contains_text (codes "/etc/passwd")) same

-- How many attacks are due at a tick.
abbrev due : ℕ → ℕ → ℕ
due period tick = if tick % period == 0 then 1 else 0

next_quotient :
    (n : ℕ) → (n + 1) / 733 + (n + 1) / 900 ≤ n / 733 + n / 900 + due 733 (n + 1) + due 900 (n + 1)
next_quotient n = ground arith

payload-bad :
    (b : Bool) (events : List NetworkEvent)
    → OrNone b BadPayload events
    → (if b then 1 else 0) ≤ count bad events
payload-bad true events (s, e, same, exploits) =
    let one : bad e ≡ true = exploit-bad e exploits.3 in
    let counted : count bad (e ∷ []) ≡ 1 = rw one refl in
    omega (arith, ap (count bad) same, counted)
payload-bad false events none = omega arith

sequence-bad :
    (b : Bool) (events : List NetworkEvent)
    → OrNone b ProbeExploit events
    → (if b then 1 else 0) ≤ count bad events
sequence-bad true events (s, probe, exploit, inside, same, syn, empty, exploits) =
    let one : bad exploit ≡ true = exploit-bad exploit exploits.3 in
    let counted : count bad (exploit ∷ []) ≡ 1 = rw one refl in
    omega (arith, ap (count bad) same, counted)
sequence-bad false events none = omega arith

Batch-bad :
    (tick : ℕ) (events : List NetworkEvent)
    → Batch tick events
    → due 733 tick + due 900 tick ≤ count bad events
Batch-bad tick events b = omega (
  arith,
  payload-bad (tick % 733 == 0) b.payload b.payloads,
  sequence-bad (tick % 900 == 0) b.sequence b.sequences,
  ap (count bad) b.whole,
  count-append bad b.normal (b.flood ++ (b.payload ++ (b.sequence ++ b.scan))),
  count-append bad b.flood (b.payload ++ (b.sequence ++ b.scan)),
  count-append bad b.payload (b.sequence ++ b.scan),
  count-append bad b.sequence b.scan,
)

module _ (env : Environment) (after_epoch : (i : ℕ) → (ms : ℕ) × (env.clock i ≡ some ms)) where
  -- The exploits of the first batches.
  batches-bad :
      (n : ℕ)
      → n < 2 ^ 64
      → (events : List NetworkEvent) × (sim : Simulator env.Rng) × (batches env n
          ≡ some (events, sim))
        × (sim.tick ≡ n)
        × (n / 733 + n / 900 ≤ count bad events)
  unfolding batches Ingestion.new
  batches-bad zero small = ([], Ingestion.new env, refl, refl, omega arith)
  batches-bad (suc n) small =
      let (events, sim, made, tick, enough) = batches-bad n (omega arith) in
      let (batch, sim', made', tick', b) = next_batch-Batch env after_epoch sim in
      let now : (sim.tick + 1) % 2 ^ 64 ≡ n + 1 = omega (arith, tick) in
      let more = Batch-bad (n + 1) batch (subst (λ t. Batch t batch) now b) in
      (
        events ++ batch,
        sim',
        rw (batches, made, made') refl,
        omega (arith, tick', now),
        omega (arith, enough, more, next_quotient n, count-append bad events batch),
      )

  batches-bad_events :
      (n : ℕ) (events : List NetworkEvent) (sim : Simulator env.Rng)
      → n < 2 ^ 64
      → batches env n ≡ some (events, sim)
      → n / 733 + n / 900 ≤ count bad events
  batches-bad_events n events sim small made =
      let (events', sim', made', _, enough) = batches-bad n small in
      let same = some_injective (events', sim') (events, sim) (sym made' ∙ made) in
      omega (arith, enough, ap (λ (x : List NetworkEvent × Simulator env.Rng). count bad x.0) same)

  module _ (ac : AhoCorasick) (fx : FxHasher) (fl : Float64) where
    -- The running program reports the exploits that its simulator makes. If the clock is never before
    -- the epoch, the exchanges of the queues settle and the turns are fewer than 2^62, then the program
    -- that `main` starts does not panic in any interleaving of its producer and its four workers, and
    -- once the producer has taken n batches, the recorded alerts of the rule "path-traversal-passwd",
    -- the dropped events, the events in queues and those that are still to be routed are together at
    -- least n / 733 + n / 900, the number of the simulator's exploits. The store keeps the newest 5000
    -- of the recorded alerts: either more than 5000 were recorded, or `GET /alerts` with the limit 5000
    -- lists all of them under this rule's name.
    pub launch-exploits :
        (start : ℕ) (ts : List Turn)
        → length ts < 2 ^ 62
        → All TurnSettles ts
        → (p : Program env.Rng fl.F) × (n : ℕ) × (events : List NetworkEvent) × (seen : List Alert)
          × ((launch env ac fx fl start >>= λ p. turns env ac fx fl ts p) ≡ some p)
          × (batches env n ≡ some (events, p.simulator))
          × (p.engine.state.alerts ≡ newest alert_history_cap seen)
          × (n / 733 + n / 900
              ≤ count (is_named (codes "path-traversal-passwd")) seen
                + p.engine.state.stats.events_dropped
                + in_flight p.engine.state.queues
                + length p.pending)
          × ((5000 < length seen)
              ⊎ (count
                    (is_named (codes "path-traversal-passwd"))
                    (alerts (some 5000) p.engine.state)
                  ≡ count (is_named (codes "path-traversal-passwd")) seen))
    launch-exploits start ts short settles =
        let (first, launched, came) = launch-Came env after_epoch ac fx fl start in
        let (p, ran, c) =
          turns-Came env after_epoch ac fx fl start 0 ts first came (omega arith) settles in
        let (seen, kept, _, reported, listed) =
          payloads_reported ac fx fl worker_count queue_capacity start 0
            (codes "path-traversal-passwd") (codes "/etc/passwd") c.actions p.engine refl refl
            (omega arith) (omega arith) (omega (arith, c.short)) capacity-power c.settles c.ran in
        (
          p,
          c.count,
          c.events,
          seen,
          rw (launched, ran) refl,
          c.made,
          kept,
          omega (
            arith,
            batches-bad_events c.count c.events p.simulator (omega (arith, c.few)) c.made,
            reported,
            ap (count bad) c.routed,
            count-append bad (arrivals c.actions) p.pending,
            count-le bad p.pending,
          ),
          listed,
        )
