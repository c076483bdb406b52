-- ===== src/Ingestion/Attacks.antt =====
-- The SYN flood of the simulator of engine/src/ingestion.rs, and what the anomaly detector makes of it.
use telemetry_threat_engine.Base.{
  ℕ, ◌+◌, ◌-◌, ◌%◌, ◌^◌, ◌≤◌, ◌<◌, ◌≡◌, refl, ap, subst, true, List, [], ◌∷◌, ◌++◌, some, length,
  count, count-append, ◌==◌, if◌then◌else◌, All, arith,
}
use telemetry_threat_engine.Models.{NetworkEvent, Alert}
use telemetry_threat_engine.Detection.Hasher.{FxHasher}
use telemetry_threat_engine.Detection.Float.{Float64}
use telemetry_threat_engine.Detection.Anomaly.{WindowedAnomalyDetector, new}
use telemetry_threat_engine.Detection.Anomaly.Flood.{is_flood_of}
use telemetry_threat_engine.Detection.Anomaly.Flood.Steps.{is_syn_of}
use telemetry_threat_engine.Detection.Anomaly.Flood.Run.{
  Tick, InTime, syn_count, run, run-flood_raised,
}
use telemetry_threat_engine.Ingestion.{Environment, Simulator, next_batch}
use telemetry_threat_engine.Ingestion.Shapes.{Valid, IsInside, SynFrom, Flood, OrNone, Batch}
use telemetry_threat_engine.Ingestion.Batches.{next_batch-Batch}
use telemetry_threat_engine.Ingestion.Sizes.{Batch-AtMost}

-- The calls of `observe` on the events of a batch, at the readings of the clock.
abbrev pub ticks_at : (ℕ → ℕ) → (ℕ → ℕ) → ℕ → List NetworkEvent → List Tick
ticks_at now restart i [] = []
ticks_at now restart i (e ∷ events) =
    record { now = now i; restart = restart i; event = e } ∷ ticks_at now restart (i + 1) events

ticks_at-InTime :
    (now restart : ℕ → ℕ) (window start : ℕ) (i : ℕ) (events : List NetworkEvent)
    → ((j : ℕ) → now j - start < window)
    → All Valid events
    → All (InTime window start) (ticks_at now restart i events)
ticks_at-InTime now restart window start i [] early a = tt
ticks_at-InTime now restart window start i (e ∷ events) early a =
    ((early i, a.0.source), ticks_at-InTime now restart window start (i + 1) events early a.1)

syn_count-ticks_at :
    (now restart : ℕ → ℕ) (s i : ℕ) (events : List NetworkEvent)
    → syn_count s (ticks_at now restart i events) ≡ count (is_syn_of s) events
syn_count-ticks_at now restart s i [] = refl
syn_count-ticks_at now restart s i (e ∷ events) =
    ap (λ n. (if is_syn_of s e then 1 else 0) + n) (syn_count-ticks_at now restart s (i + 1) events)

count-syns :
    (s : ℕ) (events : List NetworkEvent)
    → All (SynFrom s) events
    → count (is_syn_of s) events ≡ length events
count-syns s [] a = refl
count-syns s (e ∷ events) ((valid, same, syn), a) =
    let is_one : (s == e.src_ip) ≡ true = ground (arith, same) in
    rw (syn, is_one) (omega (arith, count-syns s events a))

-- The source of the flood of a batch.
flood_of :
    (events : List NetworkEvent) (tick : ℕ)
    → tick % 500 ≡ 0
    → Batch tick events
    → (s : ℕ) × IsInside s × (80 ≤ count (is_syn_of s) events)
flood_of events tick due b =
    let is_due : (tick % 500 == 0) ≡ true = ground (arith, due) in
    let (s, inside, size, syns) = subst (λ d. OrNone d Flood b.flood) is_due b.floods in
    let rest = b.payload ++ (b.sequence ++ b.scan) in
    (
      s,
      inside,
      omega (
        arith,
        size,
        count-syns s b.flood syns,
        ap (count (is_syn_of s)) b.whole,
        count-append (is_syn_of s) b.normal (b.flood ++ rest),
        count-append (is_syn_of s) b.flood rest,
      ),
    )

module _ (env : Environment) (after_epoch : (i : ℕ) → (ms : ℕ) × (env.clock i ≡ some ms)) where
  -- If the clock is never before the epoch, then at every 500th tick the flood of the batch is
  -- found: a new anomaly detector that sees the events of the batch within its first window does
  -- not panic, and raises exactly one SYN-flood alert about an address 10.0.0.x, whatever the
  -- random numbers, the hasher and the readings of the detector's clock.
  pub next_batch-flood :
      (fx : FxHasher) (fl : Float64) (window start : ℕ) (now restart : ℕ → ℕ)
      (sim : Simulator env.Rng)
      → ((j : ℕ) → now j - start < window)
      → (sim.tick + 1) % 2 ^ 64 % 500 ≡ 0
      → (events : List NetworkEvent) × (sim' : Simulator env.Rng) × (s : ℕ) × (next_batch env sim
          ≡ some (events, sim'))
        × IsInside s
        × (r : List Alert × WindowedAnomalyDetector fl.F) × (run fx fl
              (new fl window start)
              (ticks_at now restart 0 events)
            ≡ some r)
        × (count (is_flood_of s) r.0 ≡ 1)
  next_batch-flood fx fl window start now restart sim early due =
      let (events, sim', made, tick, b) = next_batch-Batch env after_epoch sim in
      let (s, inside, many) = flood_of events ((sim.tick + 1) % 2 ^ 64) due b in
      let (size, valid) = Batch-AtMost ((sim.tick + 1) % 2 ^ 64) events b in
      let (r, ran, one) =
        run-flood_raised fx fl window start s (ticks_at now restart 0 events)
          (omega (arith, inside.1)) (ticks_at-InTime now restart window start 0 events early valid)
          (omega (arith, many, syn_count-ticks_at now restart s 0 events)) in
      (events, sim', s, made, inside, r, ran, one)
