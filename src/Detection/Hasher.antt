-- ===== src/Detection/Hasher.antt =====
-- `FxHasher` of the crate rustc_hash, which the sketches of engine/src/detection/anomaly.rs call.
use telemetry_threat_engine.Base.{ℕ, ◌^◌, ◌<◌, List}

-- What a default hasher finishes at: after hashing a u64 seed and then a byte slice, and after a
-- byte slice alone. Both are u64 values.
pub record FxHasher : Type 0 where
  pub seeded : ℕ → List ℕ → ℕ
  pub plain : List ℕ → ℕ
  pub seeded_lt : (seed : ℕ) (key : List ℕ) → seeded seed key < 2 ^ 64
  pub plain_lt : (key : List ℕ) → plain key < 2 ^ 64
