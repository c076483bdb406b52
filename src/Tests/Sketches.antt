-- ===== src/Tests/Sketches.antt =====
-- The sketches on streams of four-byte keys.
use telemetry_threat_engine.Base.{
  ℕ, ◌≤◌, min, ◌≡◌, refl, inl, inr, List, [], ◌∷◌, some, length, get_elem?, arith,
}
use telemetry_threat_engine.Detection.CountMin.{CountMinSketch, u32_max, row_seeds, estimate}
use telemetry_threat_engine.Detection.CountMin.Estimate.{occurrences, Alone}
use telemetry_threat_engine.Detection.CountMin.Stream
use telemetry_threat_engine.Detection.CountMin.Stream.{
  estimate-after_stream, estimate-after_stream_exact,
}
use telemetry_threat_engine.Detection.HyperLogLog.{HyperLogLog}
use telemetry_threat_engine.Detection.HyperLogLog.KeySet
use telemetry_threat_engine.Detection.HyperLogLog.KeySet.{Within, after_stream-same_keys}
use telemetry_threat_engine.Tests.Parameters.{sums}

abbrev key_a : List ℕ
key_a = 10 ∷ 0 ∷ 0 ∷ 5 ∷ []

abbrev key_b : List ℕ
key_b = 10 ∷ 0 ∷ 0 ∷ 6 ∷ []

abbrev stream : List (List ℕ)
stream = key_a ∷ key_b ∷ key_a ∷ []

estimate-after_stream_example :
    (s : CountMinSketch) × (n : ℕ) × (Stream.after_stream sums 16 2 stream ≡ some s)
    × (estimate sums s key_a ≡ some n)
    × (min u32_max (occurrences key_a stream) ≤ n)
    × (n ≤ min u32_max (length stream))
estimate-after_stream_example =
    estimate-after_stream sums 16 2 stream key_a (omega arith) (omega arith)

abbrev first_seed : ℕ
first_seed = 0x9E3779B97F4A7C15

first_seed-row_seeds : get_elem? (row_seeds 2 0) 0 ≡ some first_seed
unfolding row_seeds
first_seed-row_seeds = refl

key_a-Alone : Alone sums 16 first_seed key_a stream
key_a-Alone = (λ e. refl, (λ e. absurd (omega arith), (λ e. refl, tt)))

estimate-after_stream_exact_example :
    (s : CountMinSketch) × (Stream.after_stream sums 16 2 stream ≡ some s)
    × (estimate sums s key_a ≡ some (min u32_max (occurrences key_a stream)))
estimate-after_stream_exact_example =
    estimate-after_stream_exact sums 16 2 stream key_a 0 first_seed (omega arith) (omega arith)
      first_seed-row_seeds key_a-Alone

abbrev shorter : List (List ℕ)
shorter = key_b ∷ key_a ∷ []

stream-Within : Within stream shorter
stream-Within k (inl a) = inr (inl a)
stream-Within k (inr (inl b)) = inl b
stream-Within k (inr (inr (inl a))) = inr (inl a)
stream-Within k (inr (inr (inr none_left))) = elim none_left [ ]

shorter-Within : Within shorter stream
shorter-Within k (inl b) = inr (inl b)
shorter-Within k (inr (inl a)) = inl a
shorter-Within k (inr (inr none_left)) = elim none_left [ ]

after_stream-same_keys_example :
    (s : HyperLogLog) × (KeySet.after_stream sums 10 stream ≡ some s)
    × (KeySet.after_stream sums 10 shorter ≡ some s)
after_stream-same_keys_example =
    after_stream-same_keys sums 10 stream shorter (omega arith) (omega arith) stream-Within
      shorter-Within
