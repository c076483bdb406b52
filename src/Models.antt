-- ===== src/Models.antt =====
-- engine/src/models.rs: the data that flows through the engine. `u32`, `u16` and `u8` values are
-- numbers (their ranges are hypotheses where a theorem needs them), a `String` is its bytes.
pub mod Address
pub mod Keys
use Prim.Native.Nat.{bit_and, bit_xor}
use telemetry_threat_engine.Base.{
  ℕ, ◌*◌, ◌/◌, ◌%◌, ◌^◌, Bool, not, ◌&&◌, List, [], ◌∷◌, ◌++◌, foldl, ◌==◌,
}
use telemetry_threat_engine.Base.Text.{decimal}

pub data Protocol : Type 0 where
  tcp udp icmp : Protocol

-- `i64`, which the engine only passes on. `negsuc n` is -(n + 1).
pub data ℤ : Type 0 where
  pos : ℕ → ℤ
  negsuc : ℕ → ℤ

pub record NetworkEvent : Type 0 where
  pub timestamp_ms : ℤ
  pub src_ip : ℕ  -- u32
  pub dst_ip : ℕ  -- u32
  pub src_port : ℕ  -- u16
  pub dst_port : ℕ  -- u16
  pub protocol : Protocol
  pub flags : ℕ  -- u8
  pub payload_sample : List ℕ  -- bytes

pub data Severity : Type 0 where
  low medium high critical : Severity

pub data DetectorKind : Type 0 where
  signature anomaly cep : DetectorKind

pub record Alert : Type 0 where
  pub id : ℕ  -- u64
  pub timestamp_ms : ℤ
  pub rule_name : List ℕ
  pub severity : Severity
  pub src_ip : List ℕ
  pub dst_ip : List ℕ
  pub detail : List ℕ
  pub detector : DetectorKind

-- `NetworkEvent::is_syn`: SYN is set and ACK is not.
unfoldable pub is_syn : NetworkEvent → Bool
is_syn e = not (bit_and e.flags 1 == 0) && bit_and e.flags 2 == 0

-- `ip_to_string`. A byte of the address is `(ip >> k) & 0xFF`.
unfoldable pub ip_to_string : ℕ → List ℕ
unfolding decimal
ip_to_string ip =
    decimal (bit_and (ip / 2 ^ 24) 0xFF)
    ++ (b'.'
        ∷ (decimal (bit_and (ip / 2 ^ 16) 0xFF)
            ++ (b'.'
                ∷ (decimal (bit_and (ip / 2 ^ 8) 0xFF) ++ (b'.' ∷ decimal (bit_and ip 0xFF))))))

unfoldable pub src_ip_str : NetworkEvent → List ℕ
unfolding ip_to_string
src_ip_str e = ip_to_string e.src_ip

unfoldable pub dst_ip_str : NetworkEvent → List ℕ
unfolding ip_to_string
dst_ip_str e = ip_to_string e.dst_ip

abbrev pub u64_mod : ℕ
u64_mod = 2 ^ 64

-- The FNV offset basis and prime, and the body of the hashing loops: `h ^= b` and a wrapping product.
abbrev pub fnv_offset : ℕ
fnv_offset = 1469598103934665603

abbrev pub fnv_prime : ℕ
fnv_prime = 1099511628211

unfoldable pub fnv_step : ℕ → ℕ → ℕ
fnv_step h b = bit_xor h b * fnv_prime % u64_mod

-- The bytes of the casts `(ip >> k) as u8`, highest first.
unfoldable pub ip_bytes : ℕ → List ℕ
ip_bytes ip = ip / 2 ^ 24 % 256 ∷ ip / 2 ^ 16 % 256 ∷ ip / 2 ^ 8 % 256 ∷ ip % 256 ∷ []

unfoldable pub port_bytes : ℕ → List ℕ
port_bytes port = port / 2 ^ 8 % 256 ∷ port % 256 ∷ []

-- `NetworkEvent::flow_key`: the hash of the addresses and ports.
unfoldable pub flow_key : NetworkEvent → ℕ
unfolding fnv_step ip_bytes port_bytes
flow_key e =
    foldl fnv_step fnv_offset
      (ip_bytes e.src_ip ++ (ip_bytes e.dst_ip ++ (port_bytes e.src_port ++ port_bytes e.dst_port)))

-- `NetworkEvent::shard_key`: the hash of the source address only.
unfoldable pub shard_key : NetworkEvent → ℕ
unfolding fnv_step ip_bytes
shard_key e = foldl fnv_step fnv_offset (ip_bytes e.src_ip)
