-- ===== src/Models/Keys.antt =====
-- The flag test and the two FNV keys of engine/src/models.rs.
use telemetry_threat_engine.Base.{
  ℕ, ◌/◌, ◌%◌, ◌<◌, ◌≡◌, refl, ◌↔◌, true, List, [], ◌∷◌, ◌++◌, foldl, arith,
}
use telemetry_threat_engine.Base.Bits.{bit_and-one, bit_and-two}
use telemetry_threat_engine.Models.{
  NetworkEvent, is_syn, u64_mod, fnv_step, fnv_offset, ip_bytes, port_bytes, flow_key, shard_key,
}

-- `is_syn` holds exactly when bit 0 of the flags is set and bit 1 is not.
pub is_syn_iff :
    (e : NetworkEvent) → (is_syn e ≡ true) ↔ ((e.flags % 2 ≡ 1) × (e.flags / 2 % 2 ≡ 0))
unfolding is_syn
is_syn_iff e = (
  λ h. ground (arith, bit_and-one e.flags, bit_and-two e.flags),
  λ h. ground (arith, bit_and-one e.flags, bit_and-two e.flags),
)

fnv_step-lt : (h b : ℕ) → fnv_step h b < u64_mod
unfolding fnv_step
fnv_step-lt h b = omega arith

foldl-fnv_step-lt : (h : ℕ) (bs : List ℕ) → h < u64_mod → foldl fnv_step h bs < u64_mod
foldl-fnv_step-lt h [] p = p
foldl-fnv_step-lt h (b ∷ bs) p = foldl-fnv_step-lt (fnv_step h b) bs (fnv_step-lt h b)

foldl-append :
    (h : ℕ) (as' bs : List ℕ)
    → foldl fnv_step h (as' ++ bs) ≡ foldl fnv_step (foldl fnv_step h as') bs
foldl-append h [] bs = refl
foldl-append h (a ∷ as') bs = foldl-append (fnv_step h a) as' bs

pub shard_key-lt : (e : NetworkEvent) → shard_key e < u64_mod
unfolding shard_key
shard_key-lt e = foldl-fnv_step-lt fnv_offset (ip_bytes e.src_ip) (omega arith)

-- The flow key goes on from the shard key over the destination and the ports, and both are u64
-- values.
pub flow_key-shard_key :
    (e : NetworkEvent)
    → (flow_key e
        ≡ foldl fnv_step
            (shard_key e)
            (ip_bytes e.dst_ip ++ (port_bytes e.src_port ++ port_bytes e.dst_port)))
      × (flow_key e < u64_mod)
      × (shard_key e < u64_mod)
unfolding flow_key shard_key
flow_key-shard_key e = (
  foldl-append fnv_offset (ip_bytes e.src_ip)
      (ip_bytes e.dst_ip ++ (port_bytes e.src_port ++ port_bytes e.dst_port)),
  foldl-fnv_step-lt fnv_offset
      (ip_bytes e.src_ip ++ (ip_bytes e.dst_ip ++ (port_bytes e.src_port ++ port_bytes e.dst_port)))
      (omega arith),
  shard_key-lt e,
)
