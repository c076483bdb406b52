-- ===== src/Detection/CountMin/Stream.antt =====
-- The estimates of engine/src/detection/anomaly.rs after a stream of keys on a new sketch.
use telemetry_threat_engine.Base.{
  ℕ, ◌≤◌, ◌<◌, min, ◌≡◌, refl, List, [], ◌∷◌, Option, some, length, get_elem?, arith, ap, sym,
  subst, ◌∙◌, ◌>>=◌,
}
use telemetry_threat_engine.Detection.Hasher.{FxHasher}
use telemetry_threat_engine.Detection.CountMin.{
  CountMinSketch, new, row_seeds, increment, u32_max, estimate,
}
use telemetry_threat_engine.Detection.CountMin.Counts.{Counts, new-Counts, increment-Counts}
use telemetry_threat_engine.Detection.CountMin.Estimate.{
  occurrences, Alone, estimate_bounds, estimate_exact,
}

module _ (fx : FxHasher) where
  layout-new :
      (width depth : ℕ)
      → ((new width depth).depth ≡ depth)
        × ((new width depth).width ≡ width)
        × ((new width depth).seeds ≡ row_seeds depth 0)
  unfolding new
  layout-new width depth = (refl, refl, refl)

  -- The sketch after a stream, its newest key first.
  unfoldable pub after_stream : ℕ → ℕ → List (List ℕ) → Option CountMinSketch
  unfolding new increment
  after_stream width depth [] = some (new width depth)
  after_stream width depth (key ∷ keys) = do s ← after_stream width depth keys; increment fx s key

  after_stream-Counts :
      (width depth : ℕ) (keys : List (List ℕ))
      → 0 < width
      → (s : CountMinSketch) × (after_stream width depth keys ≡ some s)
        × Counts fx s keys
        × (s.depth ≡ depth)
        × (s.width ≡ width)
        × (s.seeds ≡ row_seeds depth 0)
  unfolding after_stream
  after_stream-Counts width depth [] wide =
      let (d, w, ss) = layout-new width depth in
      (new width depth, refl, new-Counts fx width depth wide, d, w, ss)
  after_stream-Counts width depth (key ∷ keys) wide =
      let (s, e, t, d, w, ss) = after_stream-Counts width depth keys wide in
      let (s', e', t', d', w', ss') = increment-Counts fx s keys key t in
      (s', rw e e', t', d' ∙ d, w' ∙ w, ss' ∙ ss)

  -- The estimate of a key after a stream of `increment` calls on a new sketch with a column and a
  -- row: there is no panic, and the estimate is at least the number of occurrences of the key and
  -- at most the length of the stream, where both stop at the largest u32.
  pub estimate-after_stream :
      (width depth : ℕ) (keys : List (List ℕ)) (key : List ℕ)
      → 0 < width
      → 0 < depth
      → (s : CountMinSketch) × (n : ℕ) × (after_stream width depth keys ≡ some s)
        × (estimate fx s key ≡ some n)
        × (min u32_max (occurrences key keys) ≤ n)
        × (n ≤ min u32_max (length keys))
  estimate-after_stream width depth keys key wide deep =
      let (s, made, t, d, _, _) = after_stream-Counts width depth keys wide in
      let (n, e, ge, le) = estimate_bounds fx s keys key t (omega arith) in (s, n, made, e, ge, le)

  -- The estimate of a key after a stream of `increment` calls on a new sketch with a column: if in one
  -- row no other key of the stream shares the column of this key, there is no panic and the estimate
  -- is the number of its occurrences, stopping at the largest u32.
  pub estimate-after_stream_exact :
      (width depth : ℕ) (keys : List (List ℕ)) (key : List ℕ) (i seed : ℕ)
      → 0 < width
      → i < depth
      → get_elem? (row_seeds depth 0) i ≡ some seed
      → Alone fx width seed key keys
      → (s : CountMinSketch) × (after_stream width depth keys ≡ some s)
        × (estimate fx s key ≡ some (min u32_max (occurrences key keys)))
  estimate-after_stream_exact width depth keys key i seed wide deep at alone =
      let (s, made, t, d, w, ss) = after_stream-Counts width depth keys wide in
      (
        s,
        made,
        estimate_exact fx s keys key i seed t (omega arith) (ap (λ l. get_elem? l i) ss ∙ at)
            (subst (λ n. Alone fx n seed key keys) (sym w) alone),
      )
