-- ===== src/Ingestion.antt =====
-- engine/src/ingestion.rs: the simulator of traffic. The random numbers of the crate `rand` and the
-- system clock are parameters. A `none` is a panic: a clock before the Unix epoch, or an index out of
-- range.
pub mod Shapes
pub mod Loops
pub mod Events
pub mod Batches
pub mod Sizes
pub mod Attacks
pub mod Sequences
use Prim.Native.Nat.{bit_or}
use telemetry_threat_engine.Base.{
  ℕ, zero, suc, ◌+◌, ◌-◌, ◌*◌, ◌%◌, ◌^◌, ◌≤◌, ◌<◌, List, [], ◌∷◌, ◌++◌, Option, none, some, map,
  replicate, get_elem?, ltb, ◌==◌, if◌then◌else◌, ◌>>=◌,
}
use telemetry_threat_engine.Base.Text.{codes}
use telemetry_threat_engine.Models.{ℤ, pos, negsuc, NetworkEvent, tcp}

-- `thread_rng`, `gen_range` of a range `lo..hi`, which `rand` documents to give a number of the range,
-- and what the i-th reading of the clock is in milliseconds since the epoch, if it is not before it.
pub record Environment : Type 1 where
  pub Rng : Type 0
  pub thread_rng : Rng
  pub gen_range : ℕ → ℕ → Rng → ℕ × Rng
  pub gen_range_in :
      (lo hi : ℕ) (rng : Rng)
      → lo < hi
      → (lo ≤ (gen_range lo hi rng).0) × ((gen_range lo hi rng).0 < hi)
  pub clock : ℕ → Option ℕ

-- The cast `as i64`.
unfoldable pub as_i64 : ℕ → ℤ
as_i64 n = let m = n % 2 ^ 64 in if ltb m (2 ^ 63) then pos m else negsuc (2 ^ 64 - 1 - m)

-- The simulator's fields, and how often the clock has been read.
pub record Simulator (Rng : Type 0) : Type 0 where
  pub rng : Rng
  pub tick : ℕ  -- u64
  pub readings : ℕ

-- The address of the gateway, and the payload of the attacks.
abbrev pub gateway : ℕ
gateway = 0xC0A80101

abbrev pub exploit_payload : List ℕ
exploit_payload = codes "GET /../../etc/passwd HTTP/1.1"

-- The ports of the scan: `(1..40).map(|i| 1000 + i * 7)`.
abbrev pub range : ℕ → ℕ → List ℕ
range first zero = []
range first (suc n) = first ∷ range (first + 1) n

abbrev pub scanned_ports : List ℕ
scanned_ports = map (λ i. 1000 + i * 7) (range 1 39)

module _ (env : Environment) where
  unfoldable pub new : Simulator env.Rng
  new = record { rng = env.thread_rng; tick = 0; readings = 0 }

  unfoldable pub now_ms : Simulator env.Rng → Option (ℤ × Simulator env.Rng)
  unfolding as_i64
  now_ms sim =
      env.clock sim.readings >>= λ ms. some (as_i64 ms, record sim { readings = sim.readings + 1 })

  unfoldable pub draw : ℕ → ℕ → Simulator env.Rng → ℕ × Simulator env.Rng
  draw lo hi sim =
      let drawn = env.gen_range lo hi sim.rng in (drawn.0, record sim { rng = drawn.1 })

  -- An address 10.0.0.x.
  unfoldable pub attacker : Simulator env.Rng → ℕ × Simulator env.Rng
  unfolding draw
  attacker sim = let drawn = draw 0 255 sim in (bit_or drawn.0 0x0A000000, drawn.1)

  unfoldable pub benign_event : Simulator env.Rng → Option (NetworkEvent × Simulator env.Rng)
  unfolding now_ms draw
  benign_event sim = do
    timed ← now_ms sim
    let source = draw 0 (2 ^ 32 - 1) timed.1
    let port = draw 1024 65535 source.1
    let choice = draw 0 4 port.1
    dst_port ← get_elem? (80 ∷ 443 ∷ 22 ∷ 53 ∷ []) choice.0
    some (
      record {
        timestamp_ms = timed.0;
        src_ip = source.0;
        dst_ip = gateway;
        src_port = port.0;
        dst_port = dst_port;
        protocol = tcp;
        flags = 3;
        payload_sample = codes "GET /index.html HTTP/1.1";
      },
      choice.1,
    )

  -- The events that the attacks push: a source, a port, flags and a payload.
  unfoldable pub attack_event :
      ℕ → ℕ → ℕ → List ℕ → Simulator env.Rng → Option (NetworkEvent × Simulator env.Rng)
  unfolding now_ms draw
  attack_event source dst_port flags payload sim = now_ms sim >>= λ timed.
      let port = draw 1024 65535 timed.1 in
      some (
        record {
          timestamp_ms = timed.0;
          src_ip = source;
          dst_ip = gateway;
          src_port = port.0;
          dst_port = dst_port;
          protocol = tcp;
          flags = flags;
          payload_sample = payload;
        },
        port.1,
      )

  -- A loop that pushes an event for each element of a list.
  unfoldable pub push_each {ℓ} :
      {A : Type ℓ}
      → (A → Simulator env.Rng → Option (NetworkEvent × Simulator env.Rng))
      → List A
      → Simulator env.Rng
      → Option (List NetworkEvent × Simulator env.Rng)
  push_each make [] sim = some ([], sim)
  push_each make (x ∷ xs) sim = do
    first ← make x sim
    rest ← push_each make xs first.1
    some (first.0 ∷ rest.0, rest.1)

  unfoldable pub benign_events :
      ℕ → Simulator env.Rng → Option (List NetworkEvent × Simulator env.Rng)
  unfolding push_each benign_event
  benign_events count sim = push_each (λ i. benign_event) (range 0 count) sim

  unfoldable pub syn_flood : Simulator env.Rng → Option (List NetworkEvent × Simulator env.Rng)
  unfolding attacker push_each attack_event
  syn_flood sim =
      let source = attacker sim in
      push_each (λ port. attack_event source.0 port 1 []) (replicate 80 80) source.1

  unfoldable pub bad_payload : Simulator env.Rng → Option (List NetworkEvent × Simulator env.Rng)
  unfolding benign_event
  bad_payload sim = benign_event sim >>= λ made.
      some (record made.0 { payload_sample = exploit_payload } ∷ [], made.1)

  unfoldable pub probe_then_exploit :
      Simulator env.Rng → Option (List NetworkEvent × Simulator env.Rng)
  unfolding attacker attack_event
  probe_then_exploit sim = do
    let source = attacker sim
    probe ← attack_event source.0 80 1 [] source.1
    exploit ← attack_event source.0 80 3 exploit_payload probe.1
    some (probe.0 ∷ exploit.0 ∷ [], exploit.1)

  unfoldable pub port_scan : Simulator env.Rng → Option (List NetworkEvent × Simulator env.Rng)
  unfolding attacker push_each attack_event
  port_scan sim =
      let source = attacker sim in
      push_each (λ port. attack_event source.0 port 1 []) scanned_ports source.1

  -- `if self.tick % period == 0` before an attack.
  unfoldable pub periodically :
      ℕ
      → (Simulator env.Rng → Option (List NetworkEvent × Simulator env.Rng))
      → Simulator env.Rng
      → Option (List NetworkEvent × Simulator env.Rng)
  periodically period attack sim = if sim.tick % period == 0 then attack sim else some ([], sim)

  unfoldable pub next_batch : Simulator env.Rng → Option (List NetworkEvent × Simulator env.Rng)
  unfolding draw benign_events periodically syn_flood bad_payload probe_then_exploit port_scan
  next_batch sim = do
    let ticked = record sim { tick = (sim.tick + 1) % 2 ^ 64 }
    let normal_count = draw 20 60 ticked
    normal ← benign_events normal_count.0 normal_count.1
    flood ← periodically 500 syn_flood normal.1
    payload ← periodically 733 bad_payload flood.1
    sequence ← periodically 900 probe_then_exploit payload.1
    scan ← periodically 611 port_scan sequence.1
    some (normal.0 ++ (flood.0 ++ (payload.0 ++ (sequence.0 ++ scan.0))), scan.1)
