-- ===== src/Detection/HyperLogLog/KeySet.antt =====
-- A HyperLogLog of engine/src/detection/anomaly.rs and the set of its keys.
use telemetry_threat_engine.Base.{
  ℕ, ◌≤◌, ◌<◌, ◌≡◌, refl, sym, ap, ◌∙◌, ◌⊎◌, inl, inr, List, [], ◌∷◌, Option, some, arith, ◌>>=◌,
  ==_refl, list_ext, subst,
}
use telemetry_threat_engine.Detection.Hasher.{FxHasher}
use telemetry_threat_engine.Detection.HyperLogLog.{HyperLogLog, new, add, bucket_of, rank_of}
use telemetry_threat_engine.Detection.HyperLogLog.Ranks.{Ranks, max_rank, new-Ranks, add-Ranks}

abbrev pub Among : List ℕ → List (List ℕ) → Type 0
Among k [] = ⊥
Among k (key ∷ keys) = (k ≡ key) ⊎ Among k keys

-- Every key of the first stream stands in the second.
abbrev pub Within : List (List ℕ) → List (List ℕ) → Type 0
Within keys others = (k : List ℕ) → Among k keys → Among k others

module _ (fx : FxHasher) (bits : ℕ) where
  rank-le-max_rank :
      (keys : List (List ℕ)) (k : List ℕ)
      → Among k keys
      → rank_of bits (fx.plain k) ≤ max_rank fx bits (bucket_of bits (fx.plain k)) keys
  rank-le-max_rank [] k a = elim a [ ]
  rank-le-max_rank (key ∷ keys) k (inl same) =
      rw (same, ==_refl (bucket_of bits (fx.plain key))) (ground arith)
  rank-le-max_rank (key ∷ keys) k (inr later) = ground (arith, rank-le-max_rank keys k later)

  max_rank-le :
      (i bound : ℕ) (keys : List (List ℕ))
      → ((k : List ℕ)
          → Among k keys
          → bucket_of bits (fx.plain k) ≡ i
          → rank_of bits (fx.plain k) ≤ bound)
      → max_rank fx bits i keys ≤ bound
  max_rank-le i bound [] h = omega arith
  max_rank-le i bound (key ∷ keys) h =
      let rest = max_rank-le i bound keys (λ k a. h k (inr a)) in
      ground (arith, h key (inl refl), rest)

  max_rank_mono :
      (i : ℕ) (keys others : List (List ℕ))
      → Within keys others
      → max_rank fx bits i keys ≤ max_rank fx bits i others
  max_rank_mono i keys others w = max_rank-le i (max_rank fx bits i others) keys λ k a e.
      subst (λ j. rank_of bits (fx.plain k) ≤ max_rank fx bits j others) e
        (rank-le-max_rank others k (w k a))

  -- The sketch after a stream, its newest key first.
  unfoldable pub after_stream : List (List ℕ) → Option HyperLogLog
  unfolding new add
  after_stream [] = some (new bits)
  after_stream (key ∷ keys) = do s ← after_stream keys; add fx s key

  after_stream-Ranks :
      (keys : List (List ℕ))
      → 0 < bits
      → bits < 64
      → (s : HyperLogLog) × (after_stream keys ≡ some s) × Ranks fx bits s keys
  unfolding after_stream
  after_stream-Ranks [] some_bits small = (new bits, refl, new-Ranks fx bits small)
  after_stream-Ranks (key ∷ keys) some_bits small =
      let (s, e, r) = after_stream-Ranks keys some_bits small in
      let (s', e', r') = add-Ranks fx bits some_bits small s keys key r in (s', rw e e', r')

  same_sketch :
      (s t : HyperLogLog) (keys others : List (List ℕ))
      → Ranks fx bits s keys
      → Ranks fx bits t others
      → Within keys others
      → Within others keys
      → s ≡ t
  same_sketch s t keys others rs rt there back =
      λ i. record { buckets = same i; bucket_bits = (rs.same_bits ∙ sym rt.same_bits) i }
    where
      same : s.buckets ≡ t.buckets
      same = list_ext s.buckets t.buckets (omega (arith, rs.size, rt.size)) λ i lt.
          rs.ranks i (omega (arith, rs.size))
          ∙ ap some
              (omega (arith, max_rank_mono i keys others there, max_rank_mono i others keys back))
          ∙ sym (rt.ranks i (omega (arith, rs.size)))

  -- Two streams of `add` calls with the same keys, whatever their order and repetitions, give the
  -- same sketch, with no panic, at any `bucket_bits` from 1 to 63.
  pub after_stream-same_keys :
      (keys others : List (List ℕ))
      → 0 < bits
      → bits < 64
      → Within keys others
      → Within others keys
      → (s : HyperLogLog) × (after_stream keys ≡ some s) × (after_stream others ≡ some s)
  after_stream-same_keys keys others some_bits small there back =
      let (s, es, rs) = after_stream-Ranks keys some_bits small in
      let (t, et, rt) = after_stream-Ranks others some_bits small in
      (s, es, et ∙ ap some (sym (same_sketch s t keys others rs rt there back)))
