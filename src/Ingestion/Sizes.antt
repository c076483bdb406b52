-- ===== src/Ingestion/Sizes.antt =====
-- The number of events of a batch of engine/src/ingestion.rs, and the ranges of their fields.
use telemetry_threat_engine.Base.{
  All-append, All-weaken, ℕ, suc, ◌+◌, ◌%◌, ◌^◌, ◌≤◌, ◌≡◌, refl, sym, ap, ◌∙◌, subst, Bool, true,
  false, List, [], ◌∷◌, ◌++◌, some, map, length, length-append, ◌==◌, All, arith,
}
use telemetry_threat_engine.Models.{NetworkEvent}
use telemetry_threat_engine.Ingestion.{Environment, Simulator, scanned_ports, next_batch}
use telemetry_threat_engine.Ingestion.Shapes.{
  Valid, SynFrom, Benign, Flood, BadPayload, ProbeExploit, Scan, OrNone, Batch,
}
use telemetry_threat_engine.Ingestion.Batches.{next_batch-Batch}

-- At most `n` events, all of them valid.
abbrev pub AtMost : ℕ → List NetworkEvent → Type 0
AtMost n events = (length events ≤ n) × All Valid events

OrNone-AtMost :
    (due : Bool) (Q : List NetworkEvent → Type 0) (n : ℕ) (events : List NetworkEvent)
    → (Q events → AtMost n events)
    → OrNone due Q events
    → AtMost n events
OrNone-AtMost true Q n events q p = q p
OrNone-AtMost false Q n events q p = subst (AtMost n) (sym p) (omega arith, tt)

append-AtMost :
    (m n : ℕ) (xs ys : List NetworkEvent) → AtMost m xs → AtMost n ys → AtMost (m + n) (xs ++ ys)
append-AtMost m n xs ys (a, va) (b, vb) =
    (omega (arith, length-append xs ys), All-append Valid xs ys va vb)

syns-Valid : (s : ℕ) (events : List NetworkEvent) → All (SynFrom s) events → All Valid events
syns-Valid s = All-weaken (SynFrom s) Valid (λ e h. h.0)

length-ports :
    (events : List NetworkEvent)
    → length (map (λ (e : NetworkEvent). e.dst_port) events) ≡ length events
length-ports [] = refl
length-ports (e ∷ events) = ap suc (length-ports events)

scan_length :
    (events : List NetworkEvent)
    → map (λ (e : NetworkEvent). e.dst_port) events ≡ scanned_ports
    → length events ≡ 39
scan_length events ports = sym (length-ports events) ∙ ap length ports

pub Batch-AtMost : (tick : ℕ) (events : List NetworkEvent) → Batch tick events → AtMost 181 events
Batch-AtMost tick events b = subst (AtMost 181) (sym b.whole) (
    append-AtMost 59 122 b.normal (b.flood ++ (b.payload ++ (b.sequence ++ b.scan)))
      (omega (arith, b.some_normal), All-weaken Benign Valid (λ e h. h.0) b.normal b.all_normal)
      (append-AtMost 80 42 b.flood (b.payload ++ (b.sequence ++ b.scan))
        (OrNone-AtMost (tick % 500 == 0) Flood 80 b.flood
          (λ (s, inside, size, syns). (omega (arith, size), syns-Valid s b.flood syns)) b.floods)
        (append-AtMost 1 41 b.payload (b.sequence ++ b.scan)
          (OrNone-AtMost (tick % 733 == 0) BadPayload 1 b.payload
            (λ (s, e, same, bad). subst (AtMost 1) (sym same) (omega arith, (bad.0, tt)))
            b.payloads)
          (append-AtMost 2 39 b.sequence b.scan
            (OrNone-AtMost (tick % 900 == 0) ProbeExploit 2 b.sequence
              (λ (s, probe, exploit, inside, same, p, empty, x).
                subst (AtMost 2) (sym same) (omega arith, (p.0, (x.0, tt))))
              b.sequences)
            (OrNone-AtMost (tick % 611 == 0) Scan 39 b.scan
              (λ (s, inside, ports, syns).
                (omega (arith, scan_length b.scan ports), syns-Valid s b.scan syns))
              b.scans)))))

module _ (env : Environment) (after_epoch : (i : ℕ) → (ms : ℕ) × (env.clock i ≡ some ms)) where
  -- If the clock is never before the epoch, `next_batch` returns between 20 and 181 events, and each of
  -- them has a u32 source, the gateway as its target, u16 ports and no flag but SYN and ACK.
  pub next_batch-Valid :
      (sim : Simulator env.Rng)
      → (events : List NetworkEvent) × (sim' : Simulator env.Rng) × (next_batch env sim
          ≡ some (events, sim'))
        × (20 ≤ length events)
        × (length events ≤ 181)
        × All Valid events
  next_batch-Valid sim =
      let (events, sim', made, tick, b) = next_batch-Batch env after_epoch sim in
      let (size, valid) = Batch-AtMost ((sim.tick + 1) % 2 ^ 64) events b in
      let rest = b.flood ++ (b.payload ++ (b.sequence ++ b.scan)) in
      (
        events,
        sim',
        made,
        omega (arith, b.some_normal, ap length b.whole, length-append b.normal rest),
        size,
        valid,
      )
