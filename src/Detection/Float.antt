-- ===== src/Detection/Float.antt =====
-- The `f64` operations that engine/src/detection/anomaly.rs uses. Their values are not modelled: the
-- type and the operations are parameters, `literal n k` is the double for n / 10 ^ k, and `show0` is
-- what `{:.0}` prints.
use telemetry_threat_engine.Base.{ℕ, Bool, List}
use telemetry_threat_engine.Models.{ℤ}

pub record Float64 : Type 1 where
  pub F : Type 0
  pub of_nat : ℕ → F
  pub literal : ℕ → ℕ → F
  pub add : F → F → F
  pub mul : F → F → F
  pub div : F → F → F
  pub ln : F → F
  pub powi : F → ℤ → F
  pub gt : F → F → Bool
  pub ge : F → F → Bool
  pub show0 : F → List ℕ
