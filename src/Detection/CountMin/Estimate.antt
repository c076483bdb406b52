-- ===== src/Detection/CountMin/Estimate.antt =====
-- What `estimate` of engine/src/detection/anomaly.rs returns on a sketch whose rows count a stream.
use telemetry_threat_engine.Base.{
  ℕ, zero, suc, ◌%◌, ◌≤◌, ◌<◌, min, ◌≡◌, refl, ◌≢◌, List, [], ◌∷◌, none, some, ◌==◌, length,
  get_elem?, count, count-le, get_elem?-lt, All, arith, ap, ◌∙◌, Bool-cases, inl, inr,
}
use telemetry_threat_engine.Base.Text.{text_eq, text_eq_sound, text_eq_refl}
use native.Mathlib.Nat.{mod-lt}
use telemetry_threat_engine.Detection.Hasher.{FxHasher}
use telemetry_threat_engine.Detection.CountMin.{
  CountMinSketch, u32_max, hash, row_cells, estimate, minimum, unwrap_or,
}
use telemetry_threat_engine.Detection.CountMin.Counts.{hits, TableCounts, Counts}

-- How often a key stands in the stream.
abbrev pub occurrences : List ℕ → List (List ℕ) → ℕ
occurrences key keys = count (text_eq key) keys

minimum-some : (cs : List ℕ) → 0 < length cs → (m : ℕ) × (minimum cs ≡ some m)
minimum-some [] h = elim h [ ]
minimum-some (c ∷ cs) h =
    elim (minimum cs)
      as (λ o. (m : ℕ) × ((elim o [ none ↦ some c | some m ↦ some (min c m) ]) ≡ some m)) [
        | none ↦ (c, refl)
        | some m ↦ (min c m, refl)
      ]

-- The minimum of some cells: at least what all are, and at most any of them.
unwrap_or-minimum_ge :
    (cs : List ℕ) (b : ℕ) → 0 < length cs → All (λ c. b ≤ c) cs → b ≤ unwrap_or (minimum cs) 0
unwrap_or-minimum_ge [] b h a = elim h [ ]
unwrap_or-minimum_ge (c ∷ []) b h a = a.0
unwrap_or-minimum_ge (c ∷ d ∷ cs) b h a =
    ground (arith, unwrap_or-minimum_ge (d ∷ cs) b (omega arith) a.1)

unwrap_or-minimum_le :
    (cs : List ℕ) (i c : ℕ) → get_elem? cs i ≡ some c → unwrap_or (minimum cs) 0 ≤ c
unwrap_or-minimum_le [] i c e = cc
unwrap_or-minimum_le (d ∷ cs) zero c e = ground arith
unwrap_or-minimum_le (d ∷ cs) (suc i) c e =
    let (m, some_m) = minimum-some cs (omega (arith, get_elem?-lt cs i c e)) in
    rw some_m (ground (arith, unwrap_or-minimum_le cs i c e))

module _ (fx : FxHasher) where
  -- The cells that a key falls into, by the stream.
  abbrev cell_counts : ℕ → List ℕ → ℕ → List ℕ → List (List ℕ) → List ℕ
  cell_counts width key zero seeds keys = []
  cell_counts width key (suc rows) [] keys = []
  cell_counts width key (suc rows) (seed ∷ seeds) keys =
      min u32_max (hits fx width seed (fx.seeded seed key % width) keys)
      ∷ cell_counts width key rows seeds keys

  hash-some :
      (width seed : ℕ) (key : List ℕ)
      → 0 < width
      → hash fx width seed key ≡ some (fx.seeded seed key % width)
  unfolding hash
  hash-some width seed key wide = ground arith

  row_cells-counts :
      (width : ℕ) (key : List ℕ) (rows : ℕ) (seeds : List ℕ) (table keys : List (List ℕ))
      → 0 < width
      → TableCounts fx width rows seeds table keys
      → (row_cells fx width key rows seeds table ≡ some (cell_counts width key rows seeds keys))
        × (length (cell_counts width key rows seeds keys) ≡ rows)
  unfolding row_cells
  row_cells-counts width key zero seeds table keys wide t = (refl, refl)
  row_cells-counts width key (suc rows) [] table keys wide t = elim t [ ]
  row_cells-counts width key (suc rows) (seed ∷ seeds) [] keys wide t = elim t [ ]
  row_cells-counts width key (suc rows) (seed ∷ seeds) (row ∷ table) keys wide (r, t) =
      let (e, n) = row_cells-counts width key rows seeds table keys wide t in
      (
        rw (hash-some width seed key wide, r.cells _ (mod-lt (fx.seeded seed key) wide), e),
        ap suc n,
      )

  -- A row counts every occurrence of a key, and nothing twice.
  occurrences-le-hits :
      (width seed : ℕ) (key : List ℕ) (keys : List (List ℕ))
      → occurrences key keys ≤ hits fx width seed (fx.seeded seed key % width) keys
  occurrences-le-hits width seed key [] = omega arith
  occurrences-le-hits width seed key (k ∷ keys) = elim (Bool-cases (text_eq key k)) [
    | inl same ↦
        let e : fx.seeded seed key % width ≡ fx.seeded seed k % width =
          ap (λ x. fx.seeded seed x % width) (text_eq_sound key k same) in
        rw same (ground (arith, occurrences-le-hits width seed key keys))
    | inr other ↦ rw other (ground (arith, occurrences-le-hits width seed key keys))
  ]

  -- No other key of the stream shares the column of `key`.
  abbrev pub Alone : ℕ → ℕ → List ℕ → List (List ℕ) → Type 0
  Alone width seed key keys =
      All (λ k. fx.seeded seed k % width ≡ fx.seeded seed key % width → key ≡ k) keys

  hits_of_Alone :
      (width seed : ℕ) (key : List ℕ) (keys : List (List ℕ))
      → Alone width seed key keys
      → hits fx width seed (fx.seeded seed key % width) keys ≤ occurrences key keys
  hits_of_Alone width seed key [] a = omega arith
  hits_of_Alone width seed key (k ∷ keys) (a, rest) = elim (Bool-cases (text_eq key k)) [
    | inl same ↦ rw same (ground (arith, hits_of_Alone width seed key keys rest))
    | inr other ↦
        let apart : fx.seeded seed k % width ≢ fx.seeded seed key % width =
          λ e. cc (other, text_eq_refl key, ap (text_eq key) (a e)) in
        rw other (ground (arith, hits_of_Alone width seed key keys rest))
  ]

  cells-ge :
      (width : ℕ) (key : List ℕ) (rows : ℕ) (seeds : List ℕ) (keys : List (List ℕ))
      → All (λ c. min u32_max (occurrences key keys) ≤ c) (cell_counts width key rows seeds keys)
  cells-ge width key zero seeds keys = tt
  cells-ge width key (suc rows) [] keys = tt
  cells-ge width key (suc rows) (seed ∷ seeds) keys =
      (omega (arith, occurrences-le-hits width seed key keys), cells-ge width key rows seeds keys)

  cell_at :
      (width : ℕ) (key : List ℕ) (rows : ℕ) (seeds : List ℕ) (keys : List (List ℕ)) (i seed : ℕ)
      → i < rows
      → get_elem? seeds i ≡ some seed
      → get_elem? (cell_counts width key rows seeds keys) i
        ≡ some (min u32_max (hits fx width seed (fx.seeded seed key % width) keys))
  cell_at width key zero seeds keys i seed h e = elim h [ ]
  cell_at width key (suc rows) [] keys i seed h e = cc
  cell_at width key (suc rows) (s ∷ seeds) keys zero seed h e = cc
  cell_at width key (suc rows) (s ∷ seeds) keys (suc i) seed h e =
      cell_at width key rows seeds keys i seed (omega arith) e

  estimate-cells :
      (s : CountMinSketch) (keys : List (List ℕ)) (key : List ℕ)
      → Counts fx s keys
      → estimate fx s key
        ≡ some (unwrap_or (minimum (cell_counts s.width key s.depth s.seeds keys)) 0)
  unfolding estimate
  estimate-cells s keys key t =
      rw (row_cells-counts s.width key s.depth s.seeds s.table keys t.wide t.rows).0

  cells-le :
      (width : ℕ) (key : List ℕ) (rows : ℕ) (seeds : List ℕ) (keys : List (List ℕ))
      → 0 < length (cell_counts width key rows seeds keys)
      → unwrap_or (minimum (cell_counts width key rows seeds keys)) 0 ≤ min u32_max (length keys)
  cells-le width key zero seeds keys h = elim h [ ]
  cells-le width key (suc rows) [] keys h = elim h [ ]
  cells-le width key (suc rows) (seed ∷ seeds) keys h = omega (
    arith,
    unwrap_or-minimum_le (cell_counts width key (suc rows) (seed ∷ seeds) keys) 0 _ refl,
    count-le (λ k. fx.seeded seed k % width == fx.seeded seed key % width) keys,
  )

  pub estimate_bounds :
      (s : CountMinSketch) (keys : List (List ℕ)) (key : List ℕ)
      → Counts fx s keys
      → 0 < s.depth
      → (n : ℕ) × (estimate fx s key ≡ some n)
        × (min u32_max (occurrences key keys) ≤ n)
        × (n ≤ min u32_max (length keys))
  estimate_bounds s keys key t deep =
      let cells = cell_counts s.width key s.depth s.seeds keys in
      let (e, size) = row_cells-counts s.width key s.depth s.seeds s.table keys t.wide t.rows in
      (
        unwrap_or (minimum cells) 0,
        estimate-cells s keys key t,
        unwrap_or-minimum_ge cells (min u32_max (occurrences key keys)) (omega arith)
            (cells-ge s.width key s.depth s.seeds keys),
        cells-le s.width key s.depth s.seeds keys (omega arith),
      )

  -- If in one row no other key of the stream shares the column of this key, the estimate of a sketch
  -- whose rows count the stream is the number of its occurrences, stopping at the largest u32.
  pub estimate_exact :
      (s : CountMinSketch) (keys : List (List ℕ)) (key : List ℕ) (i seed : ℕ)
      → Counts fx s keys
      → i < s.depth
      → get_elem? s.seeds i ≡ some seed
      → Alone s.width seed key keys
      → estimate fx s key ≡ some (min u32_max (occurrences key keys))
  estimate_exact s keys key i seed t h at alone =
      let cells = cell_counts s.width key s.depth s.seeds keys in
      let (e, size) = row_cells-counts s.width key s.depth s.seeds s.table keys t.wide t.rows in
      let least =
        unwrap_or-minimum_ge cells (min u32_max (occurrences key keys)) (omega arith)
          (cells-ge s.width key s.depth s.seeds keys) in
      let most =
        unwrap_or-minimum_le cells i _ (cell_at s.width key s.depth s.seeds keys i seed h at) in
      estimate-cells s keys key t
      ∙ ap some (omega (arith, hits_of_Alone s.width seed key keys alone))
