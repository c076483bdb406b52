-- ===== src/Api/Floods.antt =====
-- From the events that arrive at the producer of engine/src/pipeline.rs to the alerts that the handler
-- of engine/src/api.rs answers with.
use native.Mathlib.Nat.{mod-lt}
use telemetry_threat_engine.Base.{
  ℕ, ◌+◌, ◌-◌, ◌%◌, ◌^◌, ◌≤◌, ◌<◌, ◌≡◌, ◌⊎◌, inl, inr, ap, true, List, some, length, get_elem?,
  Option-cases, count, count-append, count-le, All, foldl, ◌>>=◌, arith,
}
use telemetry_threat_engine.Models.{NetworkEvent, Alert, ip_bytes, fnv_step, fnv_offset}
use telemetry_threat_engine.Queue.{is_power_of_two}
use telemetry_threat_engine.Detection.Hasher.{FxHasher}
use telemetry_threat_engine.Detection.Float.{Float64}
use telemetry_threat_engine.Detection.Signature.{AhoCorasick}
use telemetry_threat_engine.Detection.Anomaly.Flood.{is_flood_of}
use telemetry_threat_engine.Detection.Anomaly.Flood.Steps.{is_syn_of}
use telemetry_threat_engine.Pipeline.{alert_history_cap}
use telemetry_threat_engine.Pipeline.Store.{newest}
use telemetry_threat_engine.Pipeline.Engine.{Engine, Action, run, new}
use telemetry_threat_engine.Pipeline.Engine.Plan.{plan_run, empty_plan, arrivals, total}
use telemetry_threat_engine.Pipeline.Engine.Contents.{in_flight, in_flight-total}
use telemetry_threat_engine.Pipeline.Engine.Refines.{ActionSettles}
use telemetry_threat_engine.Pipeline.Engine.Watch.{HasU32, ClockReads}
use telemetry_threat_engine.Pipeline.Engine.Guards.{Within, Progress-found}
use telemetry_threat_engine.Pipeline.Engine.Alarm.{new-run-Bursts}
use telemetry_threat_engine.Pipeline.Engine.Sources.{worker_of, line, or_empty, plan_run-placed}
use telemetry_threat_engine.Pipeline.Engine.Sized.{empty-Sized, plan_run-dropped_le}
use telemetry_threat_engine.Pipeline.Engine.Room.{total-at}
use telemetry_threat_engine.Api.{alerts}
use telemetry_threat_engine.Api.Listing.{listed}

length-line : (xss : List (List NetworkEvent)) (i : ℕ) → length (line xss i) ≤ total xss
length-line xss i = elim (Option-cases (get_elem? xss i)) [
  | inl absent ↦ rw absent (omega arith)
  | inr (xs, at) ↦ rw at (total-at xss i xs at)
]

module _ (ac : AhoCorasick) (fx : FxHasher) (fl : Float64) where
  -- A SYN flood is reported, from the producer to the HTTP interface. Let at least one worker, with
  -- queues of a power of two of at least two slots, run a schedule of arrivals and wake-ups and then a
  -- second one, whose exchanges settle, whose steps and slots of a queue are fewer than 2^63 together,
  -- and in which events have u32 source addresses. In the second one, let each worker that wakes up
  -- read its clock within one period of less than five seconds. If the SYNs of a source that arrive
  -- then are at least 99 more than the events that are dropped in the second schedule and those in
  -- queues at its end, then a flood alert about the source is among the recorded alerts, whose newest
  -- 5000 the store keeps and whose number is the counter modulo 2^64: either more than 5000 alerts
  -- were recorded, or `GET /alerts` with the limit 5000 lists it.
  pub flood_reported :
      (w cap start T : ℕ) (before after : List Action) (s : ℕ) (mid engine : Engine fl.F)
      → 0 < w
      → 2 ≤ cap
      → length before + length after + cap < 2 ^ 63
      → is_power_of_two cap ≡ true
      → All ActionSettles before
      → All ActionSettles after
      → All (ClockReads (Within T)) after
      → All HasU32 (arrivals before)
      → All HasU32 (arrivals after)
      → s < 2 ^ 32
      → (new ac fx fl w cap start >>= λ e. run ac fx fl before e) ≡ some mid
      → run ac fx fl after mid ≡ some engine
      → 99
          + (engine.state.stats.events_dropped - mid.state.stats.events_dropped)
          + in_flight engine.state.queues
        ≤ count (is_syn_of s) (arrivals after)
      → (seen : List Alert) × (engine.state.alerts ≡ newest alert_history_cap seen)
        × (engine.state.stats.alerts_fired ≡ length seen % 2 ^ 64)
        × (1 ≤ count (is_flood_of s) seen)
        × ((5000 < length seen) ⊎ (1 ≤ count (is_flood_of s) (alerts (some 5000) engine.state)))
  flood_reported w cap start T before after s mid engine some_worker several small power settles
        settles' reads addresses addresses' source started ran many =
      let i = worker_of w s in
      let (old, k, k', had, half_refines, final) =
        new-run-Bursts ac fx fl s w cap start T i before after mid engine source some_worker several
          small power (mod-lt (foldl fnv_step fnv_offset (ip_bytes s)) some_worker) settles settles'
          reads addresses addresses' started ran in
      let bursts = final.holds.1.upheld in
      let half = plan_run cap before (empty_plan w) in
      let last = plan_run cap after half in
      let (sized, _) = plan_run-placed s w some_worker cap before (empty_plan w) (empty-Sized w) in
      let (_, placed_more) = plan_run-placed s w some_worker cap after half sized in
      let old_line = ap (λ o. count (is_syn_of s) (or_empty o)) had in
      let new_line = ap (λ o. count (is_syn_of s) (or_empty o)) final.holds.1.served in
      let enough : 99 ≤ count (is_syn_of s) bursts.burst = omega (
        arith,
        many,
        placed_more,
        old_line,
        new_line,
        ap (count (is_syn_of s)) bursts.split,
        count-append (is_syn_of s) old bursts.burst,
        count-le (is_syn_of s) (line last.queued i),
        length-line last.queued i,
        in_flight-total k' cap engine.state.queues last.queued final.refines.queues,
        half_refines.dropped,
        final.refines.dropped,
        plan_run-dropped_le cap before (empty_plan w),
        plan_run-dropped_le cap after half,
      ) in
      let found =
        Progress-found fx fl s source T final.holds.1.worker.anomalies bursts.syns bursts.burst
          final.holds.1.seen bursts.steady enough bursts.progress in
      (
        final.holds.1.seen,
        final.holds.1.keeps.0,
        final.holds.1.keeps.1,
        found,
        at_least (listed (is_flood_of s) engine.state final.holds.1.seen final.holds.1.keeps.0)
            found,
      )
    where
      at_least : {A : Type 0} {n m : ℕ} → A ⊎ (n ≡ m) → 1 ≤ m → A ⊎ (1 ≤ n)
      at_least (inl a) h = inl a
      at_least (inr e) h = inr (omega (arith, e, h))
