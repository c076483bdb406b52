-- ===== src/Ingestion/Events.antt =====
-- The events that the simulator of engine/src/ingestion.rs makes, and its loops over them.
use telemetry_threat_engine.Base.{
  ℕ, ◌+◌, ◌-◌, ◌^◌, ◌<◌, ◌≡◌, refl, ◌∙◌, List, [], ◌∷◌, Option, some, length, All, arith,
}
use telemetry_threat_engine.Base.Text.{codes}
use telemetry_threat_engine.Models.{NetworkEvent, tcp, is_syn}
use telemetry_threat_engine.Ingestion.{
  Environment, Simulator, as_i64, gateway, range, now_ms, draw, attacker, benign_event,
  attack_event, push_each, benign_events,
}
use telemetry_threat_engine.Ingestion.Shapes.{IsInside, Benign, Yields, Made}
use telemetry_threat_engine.Ingestion.Loops.{
  or_address, range-length, choose_port, range-All, Matched, Matched-length, Matched-All,
}

module _ (env : Environment) (after_epoch : (i : ℕ) → (ms : ℕ) × (env.clock i ≡ some ms)) where
  pub attacker-IsInside :
      (sim : Simulator env.Rng)
      → IsInside (attacker env sim).0 × ((attacker env sim).1.tick ≡ sim.tick)
  unfolding attacker draw
  attacker-IsInside sim =
      let (lo, hi) = env.gen_range_in 0 255 sim.rng (omega arith) in
      let same = or_address (env.gen_range 0 255 sim.rng).0 hi in
      ((omega (arith, same), omega (arith, same, hi)), refl)

  pub benign_event-Yields : (sim : Simulator env.Rng) → Yields Benign sim (benign_event env sim)
  unfolding benign_event now_ms draw is_syn
  benign_event-Yields sim =
      let (ms, at) = after_epoch sim.readings in
      let source = env.gen_range 0 (2 ^ 32 - 1) sim.rng in
      let port = env.gen_range 1024 65535 source.1 in
      let choice = env.gen_range 0 4 port.1 in
      let (_, is_u32) = env.gen_range_in 0 (2 ^ 32 - 1) sim.rng (omega arith) in
      let (_, is_choice) = env.gen_range_in 0 4 port.1 (omega arith) in
      let (dst_port, chosen, is_u16) = choose_port choice.0 is_choice in
      let event : NetworkEvent = record {
        timestamp_ms = as_i64 ms;
        src_ip = source.0;
        dst_ip = gateway;
        src_port = port.0;
        dst_port = dst_port;
        protocol = tcp;
        flags = 3;
        payload_sample = codes "GET /index.html HTTP/1.1";
      } in
      let sim' : Simulator env.Rng = record {
        rng = choice.1;
        tick = sim.tick;
        readings = sim.readings + 1;
      } in
      (
        event,
        sim',
        rw (at, chosen) refl,
        (
          record {
            source = omega (arith, is_u32);
            target = refl;
            ephemeral = env.gen_range_in 1024 65535 source.1 (omega arith);
            port = is_u16;
            over_tcp = refl;
            flag_bits = omega arith;
          },
          refl,
        ),
        refl,
      )

  pub attack_event-Yields :
      (source dst_port flags : ℕ) (payload : List ℕ) (sim : Simulator env.Rng)
      → source < 2 ^ 32
      → dst_port < 2 ^ 16
      → flags < 4
      → Yields
          (Made source dst_port flags payload)
          sim
          (attack_event env source dst_port flags payload sim)
  unfolding attack_event now_ms draw
  attack_event-Yields source dst_port flags payload sim is_u32 is_u16 bits =
      let (ms, at) = after_epoch sim.readings in
      let port = env.gen_range 1024 65535 sim.rng in
      let event : NetworkEvent = record {
        timestamp_ms = as_i64 ms;
        src_ip = source;
        dst_ip = gateway;
        src_port = port.0;
        dst_port = dst_port;
        protocol = tcp;
        flags = flags;
        payload_sample = payload;
      } in
      let sim' : Simulator env.Rng = record {
        rng = port.1;
        tick = sim.tick;
        readings = sim.readings + 1;
      } in
      (
        event,
        sim',
        rw at refl,
        (
          record {
            source = is_u32;
            target = refl;
            ephemeral = env.gen_range_in 1024 65535 sim.rng (omega arith);
            port = is_u16;
            over_tcp = refl;
            flag_bits = bits;
          },
          refl,
          refl,
          refl,
          refl,
        ),
        refl,
      )

  pub push_each-Yields {ℓ} :
      {A : Type ℓ} (Q : A → Type 0) (P : A → NetworkEvent → Type 0)
      (make : A → Simulator env.Rng → Option (NetworkEvent × Simulator env.Rng))
      → ((x : A) (sim : Simulator env.Rng) → Q x → Yields (P x) sim (make x sim))
      → (xs : List A) (sim : Simulator env.Rng) → All Q xs
      → Yields (Matched P xs) sim (push_each env make xs sim)
  unfolding push_each
  push_each-Yields Q P make makes [] sim a = ([], sim, refl, tt, refl)
  push_each-Yields Q P make makes (x ∷ xs) sim a =
      let (event, next, made, p, tick) = makes x sim a.0 in
      let (events, last, rest, ps, tick') = push_each-Yields Q P make makes xs next a.1 in
      (event ∷ events, last, rw (made, rest) refl, (p, ps), tick' ∙ tick)

  pub benign_events-Yields :
      (count : ℕ) (sim : Simulator env.Rng)
      → Yields
          (λ events. (length events ≡ count) × All Benign events)
          sim
          (benign_events env count sim)
  unfolding benign_events
  benign_events-Yields count sim =
      let (events, last, made, each, tick) =
        push_each-Yields (λ i. Unit {0}) (λ i. Benign) (λ i. benign_event env)
          (λ i sim u. benign_event-Yields sim) (range 0 count) sim
          (range-All (λ i. Unit {0}) (λ i. tt) 0 count) in
      (
        events,
        last,
        made,
        (
          Matched-length (λ i. Benign) (range 0 count) events each ∙ range-length 0 count,
          Matched-All (λ i. Benign) Benign (λ i e b. b) (range 0 count) events each,
        ),
        tick,
      )
