-- ===== src/Detection/HyperLogLog.antt =====
-- `HyperLogLog` of engine/src/detection/anomaly.rs. Shifts take their amount modulo 64 and u32
-- subtraction wraps, as in a release build; a `none` is an index out of range.
pub mod Ranks
pub mod KeySet
use Prim.Native.Nat.{bit_or}
use telemetry_threat_engine.Base.{
  ℕ, zero, suc, ◌+◌, ◌-◌, ◌*◌, ◌/◌, ◌%◌, ◌^◌, List, [], ◌∷◌, Option, none, some, ◌==◌, ltb, map,
  foldl, if◌then◌else◌, get_elem?, set, replicate, length, count, ◌>>=◌,
}
use telemetry_threat_engine.Models.{ℤ, pos, negsuc}
use telemetry_threat_engine.Detection.Hasher.{FxHasher}
use telemetry_threat_engine.Detection.Float.{Float64}

pub record HyperLogLog : Type 0 where
  pub buckets : List ℕ  -- u8
  pub bucket_bits : ℕ  -- u32

abbrev pub shr : ℕ → ℕ → ℕ
shr x k = x / 2 ^ (k % 64)

abbrev pub shl : ℕ → ℕ → ℕ
shl x k = x * 2 ^ (k % 64) % 2 ^ 64

-- u32 subtraction.
abbrev pub sub_u32 : ℕ → ℕ → ℕ
sub_u32 a b = (a + 2 ^ 32 - b) % 2 ^ 32

-- `HyperLogLog::new`.
unfoldable pub new : ℕ → HyperLogLog
new bucket_bits = record { buckets = replicate (shl 1 bucket_bits) 0; bucket_bits = bucket_bits }

-- The position of the highest one, counted from 1.
unfoldable pub bit_length : ℕ → ℕ → ℕ
bit_length zero n = 0
bit_length (suc f) n = let more = suc (bit_length f (n / 2)) in if n == 0 then 0 else more

-- `u64::leading_zeros`.
unfoldable pub leading_zeros : ℕ → ℕ
unfolding bit_length
leading_zeros n = 64 - bit_length 64 n

-- The bucket and the rank of a hash.
unfoldable pub bucket_of : ℕ → ℕ → ℕ
bucket_of bits h = shr h (sub_u32 64 bits)

unfoldable pub rank_of : ℕ → ℕ → ℕ
unfolding leading_zeros
rank_of bits h = (leading_zeros (bit_or (shl h bits) (shl 1 (sub_u32 bits 1))) % 256 + 1) % 256

-- `HyperLogLog::add`.
unfoldable pub add : FxHasher → HyperLogLog → List ℕ → Option HyperLogLog
add fx s key = do
  let bucket = bucket_of s.bucket_bits (fx.plain key)
  let rank = rank_of s.bucket_bits (fx.plain key)
  old ← get_elem? s.buckets bucket
  some (if ltb old rank then record s { buckets = set s.buckets bucket rank } else s)

-- `HyperLogLog::clear`.
unfoldable pub clear : HyperLogLog → HyperLogLog
clear s = record s { buckets = map (λ _. 0) s.buckets }

abbrev pub negated : ℕ → ℤ
negated zero = pos 0
negated (suc r) = negsuc r

module _ (fl : Float64) where
  open fl use {F, of_nat, literal, mul, div, ln, powi, gt}

  -- `HyperLogLog::estimate`: linear counting on a sparse table, else the raw estimator.
  unfoldable pub estimate : HyperLogLog → F
  estimate s =
      let m = of_nat (length s.buckets) in
      let zero_buckets = of_nat (count (λ r. r == 0) s.buckets) in
      let alpha = div (literal 7213 4) (fl.add (literal 1 0) (div (literal 1079 3) m)) in
      let sum = foldl fl.add (literal 0 0) (map (λ r. powi (literal 2 0) (negated r)) s.buckets) in
      if gt (div zero_buckets m) (literal 9 1)
      then mul m (ln (div m zero_buckets))
      else div (mul (mul alpha m) m) sum
