-- ===== src/Ingestion/Shapes.antt =====
-- What the simulator of engine/src/ingestion.rs means by benign traffic and by each attack.
use telemetry_threat_engine.Base.{
  ℕ, ◌%◌, ◌^◌, ◌≤◌, ◌<◌, ◌≡◌, refl, Bool, true, false, List, [], ◌∷◌, ◌++◌, Option, some, map,
  length, ◌==◌, All,
}
use telemetry_threat_engine.Models.{NetworkEvent, tcp, is_syn}
use telemetry_threat_engine.Ingestion.{Simulator, gateway, exploit_payload, scanned_ports}

-- The ranges of the fields' types, and what all events of the simulator have in common.
pub record Valid (e : NetworkEvent) : Type 0 where
  pub source : e.src_ip < 2 ^ 32
  pub target : e.dst_ip ≡ gateway
  pub ephemeral : (1024 ≤ e.src_port) × (e.src_port < 65535)
  pub port : e.dst_port < 2 ^ 16
  pub over_tcp : e.protocol ≡ tcp
  pub flag_bits : e.flags < 4

-- An address 10.0.0.x.
abbrev pub IsInside : ℕ → Type 0
IsInside s = (0x0A000000 ≤ s) × (s < 0x0A0000FF)

-- A SYN of a source.
abbrev pub SynFrom : ℕ → NetworkEvent → Type 0
SynFrom s e = Valid e × (e.src_ip ≡ s) × (is_syn e ≡ true)

abbrev pub Benign : NetworkEvent → Type 0
Benign e = Valid e × (is_syn e ≡ false)

abbrev pub Exploit : ℕ → NetworkEvent → Type 0
Exploit s e = Valid e × (e.src_ip ≡ s) × (is_syn e ≡ false) × (e.payload_sample ≡ exploit_payload)

abbrev pub Flood : List NetworkEvent → Type 0
Flood events = (s : ℕ) × IsInside s × (length events ≡ 80) × All (SynFrom s) events

abbrev pub BadPayload : List NetworkEvent → Type 0
BadPayload events = (s : ℕ) × (e : NetworkEvent) × (events ≡ e ∷ []) × Exploit s e

abbrev pub ProbeExploit : List NetworkEvent → Type 0
ProbeExploit events =
    (s : ℕ) × (probe : NetworkEvent) × (exploit : NetworkEvent) × IsInside s
    × (events ≡ probe ∷ exploit ∷ [])
    × SynFrom s probe
    × (probe.payload_sample ≡ [])
    × Exploit s exploit

abbrev pub Scan : List NetworkEvent → Type 0
Scan events =
    (s : ℕ) × IsInside s
    × (map (λ (e : NetworkEvent). e.dst_port) events ≡ scanned_ports)
    × All (SynFrom s) events

-- An attack at every tick that the period divides, and at no other.
abbrev pub OrNone : Bool → (List NetworkEvent → Type 0) → List NetworkEvent → Type 0
OrNone true Q events = Q events
OrNone false Q events = events ≡ []

abbrev pub Periodic : ℕ → ℕ → (List NetworkEvent → Type 0) → List NetworkEvent → Type 0
Periodic period tick Q events = OrNone (tick % period == 0) Q events

pub record Batch (tick : ℕ) (events : List NetworkEvent) : Type 0 where
  pub normal : List NetworkEvent
  pub flood : List NetworkEvent
  pub payload : List NetworkEvent
  pub sequence : List NetworkEvent
  pub scan : List NetworkEvent
  pub whole : events ≡ normal ++ (flood ++ (payload ++ (sequence ++ scan)))
  pub some_normal : (20 ≤ length normal) × (length normal < 60)
  pub all_normal : All Benign normal
  pub floods : Periodic 500 tick Flood flood
  pub payloads : Periodic 733 tick BadPayload payload
  pub sequences : Periodic 900 tick ProbeExploit sequence
  pub scans : Periodic 611 tick Scan scan

-- A computation that returns, with a result that satisfies `Q`, and leaves the tick as it is.
abbrev pub Yields {ℓ} :
    {A : Type ℓ} {Rng : Type 0} → (A → Type 0) → Simulator Rng → Option (A × Simulator Rng) → Type ℓ
Yields {A} {Rng} Q sim r =
    (x : A) × (sim' : Simulator Rng) × (r ≡ some (x, sim')) × Q x × (sim'.tick ≡ sim.tick)

-- What the fields of an event of an attack are.
abbrev pub Made : ℕ → ℕ → ℕ → List ℕ → NetworkEvent → Type 0
Made source dst_port flags payload e =
    Valid e
    × (e.src_ip ≡ source)
    × (e.dst_port ≡ dst_port)
    × (e.flags ≡ flags)
    × (e.payload_sample ≡ payload)

pub Made-SynFrom :
    (source dst_port : ℕ) (payload : List ℕ) (e : NetworkEvent)
    → Made source dst_port 1 payload e
    → SynFrom source e
unfolding is_syn
Made-SynFrom source dst_port payload e (valid, same, port, flags, bytes) =
    (valid, same, rw flags refl)

pub Made-Exploit :
    (source dst_port : ℕ) (e : NetworkEvent)
    → Made source dst_port 3 exploit_payload e
    → Exploit source e
unfolding is_syn
Made-Exploit source dst_port e (valid, same, port, flags, bytes) =
    (valid, same, rw flags refl, bytes)
