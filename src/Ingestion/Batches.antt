-- ===== src/Ingestion/Batches.antt =====
-- What a batch of the simulator of engine/src/ingestion.rs consists of.
use telemetry_threat_engine.Base.{
  ℕ, ◌+◌, ◌%◌, ◌^◌, ◌<◌, ◌≡◌, refl, ◌∙◌, subst, List, [], ◌∷◌, ◌++◌, Option, some, replicate, ◌==◌,
  All, Bool-cases, inl, inr, arith,
}
use telemetry_threat_engine.Models.{NetworkEvent, is_syn}
use telemetry_threat_engine.Ingestion.{
  Environment, Simulator, exploit_payload, scanned_ports, draw, attacker, attack_event, push_each,
  syn_flood, bad_payload, probe_then_exploit, port_scan, periodically, next_batch,
}
use telemetry_threat_engine.Ingestion.Shapes.{
  IsInside, SynFrom, Flood, BadPayload, ProbeExploit, Scan, Periodic, Batch, Yields, Made,
  Made-SynFrom, Made-Exploit,
}
use telemetry_threat_engine.Ingestion.Loops.{
  replicate-All, scanned_ports-All, Matched, Matched-length, Matched-All, Matched-ports,
}
use telemetry_threat_engine.Ingestion.Events.{
  attacker-IsInside, benign_event-Yields, attack_event-Yields, push_each-Yields,
  benign_events-Yields,
}

module _ (env : Environment) (after_epoch : (i : ℕ) → (ms : ℕ) × (env.clock i ≡ some ms)) where
  IsInside-u32 : (s : ℕ) → IsInside s → s < 2 ^ 32
  IsInside-u32 s h = omega (arith, h)

  -- SYNs of one source to some ports.
  syns-Yields :
      (s : ℕ) (ports : List ℕ) (sim : Simulator env.Rng)
      → IsInside s
      → All (λ port. port < 2 ^ 16) ports
      → Yields
          (Matched (λ port. Made s port 1 []) ports)
          sim
          (push_each env (λ port. attack_event env s port 1 []) ports sim)
  syns-Yields s ports sim inside u16 =
      push_each-Yields env after_epoch (λ port. port < 2 ^ 16) (λ port. Made s port 1 [])
        (λ port. attack_event env s port 1 [])
        (λ port sim below.
          attack_event-Yields env after_epoch s port 1 [] sim (IsInside-u32 s inside) below
            (omega arith))
        ports sim u16

  syn_flood-Yields : (sim : Simulator env.Rng) → Yields Flood sim (syn_flood env sim)
  unfolding syn_flood
  syn_flood-Yields sim =
      let s = (attacker env sim).0 in
      let (inside, tick) = attacker-IsInside env after_epoch sim in
      let (events, last, made, each, tick') =
        syns-Yields s (replicate 80 80) (attacker env sim).1 inside (replicate-All 80) in
      (
        events,
        last,
        made,
        (
          s,
          inside,
          Matched-length (λ port. Made s port 1 []) (replicate 80 80) events each,
          Matched-All (λ port. Made s port 1 []) (SynFrom s) (λ port. Made-SynFrom s port [])
              (replicate 80 80) events each,
        ),
        tick' ∙ tick,
      )

  port_scan-Yields : (sim : Simulator env.Rng) → Yields Scan sim (port_scan env sim)
  unfolding port_scan
  port_scan-Yields sim =
      let s = (attacker env sim).0 in
      let (inside, tick) = attacker-IsInside env after_epoch sim in
      let (events, last, made, each, tick') =
        syns-Yields s scanned_ports (attacker env sim).1 inside scanned_ports-All in
      (
        events,
        last,
        made,
        (
          s,
          inside,
          Matched-ports (λ port. Made s port 1 []) (λ port e fields. fields.2) scanned_ports events
              each,
          Matched-All (λ port. Made s port 1 []) (SynFrom s) (λ port. Made-SynFrom s port [])
              scanned_ports events each,
        ),
        tick' ∙ tick,
      )

  bad_payload-Yields : (sim : Simulator env.Rng) → Yields BadPayload sim (bad_payload env sim)
  unfolding bad_payload is_syn
  bad_payload-Yields sim =
      let (e, next, made, (valid, no_syn), tick) = benign_event-Yields env after_epoch sim in
      let evt : NetworkEvent = record e { payload_sample = exploit_payload } in
      (
        evt ∷ [],
        next,
        rw made refl,
        (
          e.src_ip,
          evt,
          refl,
          (
            record {
              source = valid.source;
              target = valid.target;
              ephemeral = valid.ephemeral;
              port = valid.port;
              over_tcp = valid.over_tcp;
              flag_bits = valid.flag_bits;
            },
            refl,
            no_syn,
            refl,
          ),
        ),
        tick,
      )

  probe_then_exploit-Yields :
      (sim : Simulator env.Rng) → Yields ProbeExploit sim (probe_then_exploit env sim)
  unfolding probe_then_exploit
  probe_then_exploit-Yields sim =
      let s = (attacker env sim).0 in
      let (inside, tick) = attacker-IsInside env after_epoch sim in
      let u32 = IsInside-u32 s inside in
      let (probe, next, probed, fields, tick') =
        attack_event-Yields env after_epoch s 80 1 [] (attacker env sim).1 u32 (omega arith)
          (omega arith) in
      let (exploit, last, exploited, fields', tick'') =
        attack_event-Yields env after_epoch s 80 3 exploit_payload next u32 (omega arith)
          (omega arith) in
      (
        probe ∷ exploit ∷ [],
        last,
        rw (probed, exploited) refl,
        (
          s,
          probe,
          exploit,
          inside,
          refl,
          Made-SynFrom s 80 [] probe fields,
          fields.4,
          Made-Exploit s 80 exploit fields',
        ),
        tick'' ∙ (tick' ∙ tick),
      )

  periodically-Yields :
      (period : ℕ) (Q : List NetworkEvent → Type 0)
      (attack : Simulator env.Rng → Option (List NetworkEvent × Simulator env.Rng))
      → ((sim : Simulator env.Rng) → Yields Q sim (attack sim))
      → (sim : Simulator env.Rng)
      → Yields (Periodic period sim.tick Q) sim (periodically env period attack sim)
  unfolding periodically
  periodically-Yields period Q attack yields sim = elim (Bool-cases (sim.tick % period == 0)) [
    | inl due ↦
        let (events, last, made, q, tick) = yields sim in
        (events, last, rw due made, rw due q, tick)
    | inr idle ↦ ([], sim, rw idle refl, rw idle refl, refl)
  ]

  at_tick :
      (period : ℕ) (Q : List NetworkEvent → Type 0) (events : List NetworkEvent) (a b : ℕ)
      → a ≡ b
      → Periodic period a Q events
      → Periodic period b Q events
  at_tick period Q events a b same p = subst (λ tick. Periodic period tick Q events) same p

  -- If the clock is never before the epoch, `next_batch` returns, advances the tick, and its events are
  -- 20 to 59 benign ones, then at every 500th tick a flood of 80 SYNs from one address 10.0.0.x, at
  -- every 733rd a bad payload, at every 900th a SYN and then an exploit from one address 10.0.0.x, and
  -- at every 611th a scan of 39 ports from one address 10.0.0.x.
  pub next_batch-Batch :
      (sim : Simulator env.Rng)
      → (events : List NetworkEvent) × (sim' : Simulator env.Rng) × (next_batch env sim
          ≡ some (events, sim'))
        × (sim'.tick ≡ (sim.tick + 1) % 2 ^ 64)
        × Batch ((sim.tick + 1) % 2 ^ 64) events
  unfolding next_batch draw
  next_batch-Batch sim =
      let tick = (sim.tick + 1) % 2 ^ 64 in
      let drawn = env.gen_range 20 60 sim.rng in
      let in_range = env.gen_range_in 20 60 sim.rng (omega arith) in
      let counted : Simulator env.Rng = record {
        rng = drawn.1;
        tick = tick;
        readings = sim.readings;
      } in
      let (normal, s1, e1, (size, benign), t1) =
        benign_events-Yields env after_epoch drawn.0 counted in
      let (flood, s2, e2, q2, t2) =
        periodically-Yields 500 Flood (syn_flood env) syn_flood-Yields s1 in
      let (payload, s3, e3, q3, t3) =
        periodically-Yields 733 BadPayload (bad_payload env) bad_payload-Yields s2 in
      let (sequence, s4, e4, q4, t4) =
        periodically-Yields 900 ProbeExploit (probe_then_exploit env) probe_then_exploit-Yields
          s3 in
      let (scan, s5, e5, q5, t5) =
        periodically-Yields 611 Scan (port_scan env) port_scan-Yields s4 in
      (
        normal ++ (flood ++ (payload ++ (sequence ++ scan))),
        s5,
        rw (e1, e2, e3, e4, e5) refl,
        t5 ∙ (t4 ∙ (t3 ∙ (t2 ∙ t1))),
        record {
          normal = normal;
          flood = flood;
          payload = payload;
          sequence = sequence;
          scan = scan;
          whole = refl;
          some_normal = (omega (arith, size, in_range.0), omega (arith, size, in_range.1));
          all_normal = benign;
          floods = at_tick 500 Flood flood s1.tick tick t1 q2;
          payloads = at_tick 733 BadPayload payload s2.tick tick (t2 ∙ t1) q3;
          sequences = at_tick 900 ProbeExploit sequence s3.tick tick (t3 ∙ (t2 ∙ t1)) q4;
          scans = at_tick 611 Scan scan s4.tick tick (t4 ∙ (t3 ∙ (t2 ∙ t1))) q5;
        },
      )
