-- ===== src/Detection/CountMin/Counts.antt =====
-- What the cells of a Count-Min sketch of engine/src/detection/anomaly.rs count.
use telemetry_threat_engine.Base.{
  ℕ, zero, suc, ◌+◌, ◌%◌, ◌<◌, min, ◌≡◌, refl, ◌≢◌, List, [], ◌∷◌, some, ◌==◌, length, get_elem?,
  set, replicate, count, arith, map, ap, ◌∙◌, subst, length-set, length-replicate,
  get_elem?-set_self, get_elem?-set_ne, get_elem?-replicate,
}
use native.Mathlib.Nat.{mod-lt}
use native.Mathlib.Decide.{ℕ_discrete}
use telemetry_threat_engine.Detection.Hasher.{FxHasher}
use telemetry_threat_engine.Detection.CountMin.{
  CountMinSketch, u32_max, saturating_inc, row_seeds, new, clear_row, clear, hash, increment_cell,
  increment_rows, increment,
}

module _ (fx : FxHasher) where
  -- How many keys of the stream fall into column `c` of the row with this seed.
  abbrev pub hits : ℕ → ℕ → ℕ → List (List ℕ) → ℕ
  hits width seed c keys = count (λ k. fx.seeded seed k % width == c) keys

  pub record RowCounts (width seed : ℕ) (row : List ℕ) (keys : List (List ℕ)) : Type 0 where
    pub size : length row ≡ width
    pub cells : (c : ℕ) → c < width → get_elem? row c ≡ some (min u32_max (hits width seed c keys))

  abbrev pub TableCounts : ℕ → ℕ → List ℕ → List (List ℕ) → List (List ℕ) → Type 0
  TableCounts width zero seeds table keys = Unit
  TableCounts width (suc rows) [] table keys = ⊥
  TableCounts width (suc rows) (seed ∷ seeds) [] keys = ⊥
  TableCounts width (suc rows) (seed ∷ seeds) (row ∷ table) keys =
      RowCounts width seed row keys × TableCounts width rows seeds table keys

  -- The sketch has a column, and its rows count the keys.
  pub record Counts (s : CountMinSketch) (keys : List (List ℕ)) : Type 0 where
    pub wide : 0 < s.width
    pub rows : TableCounts s.width s.depth s.seeds s.table keys

  new_rows-TableCounts :
      (width rows i : ℕ)
      → TableCounts width rows (row_seeds rows i) (replicate rows (replicate width 0)) []
  unfolding row_seeds
  new_rows-TableCounts width zero i = tt
  new_rows-TableCounts width (suc rows) i = (
    record { size = length-replicate width 0; cells = λ c h. get_elem?-replicate width c 0 h },
    new_rows-TableCounts width rows (i + 1),
  )

  pub new-Counts : (width depth : ℕ) → 0 < width → Counts (new width depth) []
  unfolding new
  new-Counts width depth h = record { wide = h; rows = new_rows-TableCounts width depth 0 }

  length-clear_row : (row : List ℕ) → length (clear_row row) ≡ length row
  unfolding clear_row
  length-clear_row [] = refl
  length-clear_row (c ∷ row) = ap suc (length-clear_row row)

  get_elem?-clear_row :
      (row : List ℕ) (c : ℕ) → c < length row → get_elem? (clear_row row) c ≡ some 0
  unfolding clear_row
  get_elem?-clear_row [] c h = elim h [ ]
  get_elem?-clear_row (d ∷ row) zero h = refl
  get_elem?-clear_row (d ∷ row) (suc c) h = get_elem?-clear_row row c (omega arith)

  clear_rows-TableCounts :
      (width rows : ℕ) (seeds : List ℕ) (table keys : List (List ℕ))
      → TableCounts width rows seeds table keys
      → TableCounts width rows seeds (map clear_row table) []
  clear_rows-TableCounts width zero seeds table keys t = tt
  clear_rows-TableCounts width (suc rows) [] table keys t = t
  clear_rows-TableCounts width (suc rows) (seed ∷ seeds) [] keys t = t
  clear_rows-TableCounts width (suc rows) (seed ∷ seeds) (row ∷ table) keys (r, t) = (
    record {
      size = length-clear_row row ∙ r.size;
      cells = λ c h. get_elem?-clear_row row c (omega (arith, r.size));
    },
    clear_rows-TableCounts width rows seeds table keys t,
  )

  -- `clear` starts a new stream.
  pub clear-Counts :
      (s : CountMinSketch) (keys : List (List ℕ)) → Counts s keys → Counts (clear s) []
  unfolding clear
  clear-Counts s keys t = record {
    wide = t.wide;
    rows = clear_rows-TableCounts s.width s.depth s.seeds s.table keys t.rows;
  }

  saturating_inc-min : (n : ℕ) → saturating_inc (min u32_max n) ≡ min u32_max (1 + n)
  unfolding saturating_inc
  saturating_inc-min n = ground arith

  hits-same :
      (width seed : ℕ) (key : List ℕ) (keys : List (List ℕ))
      → let c = fx.seeded seed key % width in
        1 + hits width seed c keys ≡ hits width seed c (key ∷ keys)
  hits-same width seed key keys = ground arith

  hits-other :
      (width seed c : ℕ) (key : List ℕ) (keys : List (List ℕ))
      → fx.seeded seed key % width ≢ c
      → hits width seed c keys ≡ hits width seed c (key ∷ keys)
  hits-other width seed c key keys ne = ground arith

  module _ {width seed : ℕ} {row : List ℕ} {keys : List (List ℕ)}
      (r : RowCounts width seed row keys) (wide : 0 < width) (key : List ℕ) where
    abbrev col : ℕ
    col = fx.seeded seed key % width

    abbrev row' : List ℕ
    row' = set row col (min u32_max (1 + hits width seed col keys))

    col-lt : col < length row
    col-lt = omega (arith, r.size, mod-lt (fx.seeded seed key) wide)

    hash-col : hash fx width seed key ≡ some col
    unfolding hash
    hash-col = ground arith

    increment_cell-row : increment_cell fx row col ≡ some row'
    unfolding increment_cell
    increment_cell-row =
        rw (
          r.cells col (omega (arith, r.size, col-lt)),
          saturating_inc-min (hits width seed col keys),
        )

    cells-row' :
        (c : ℕ) → c < width → get_elem? row' c ≡ some (min u32_max (hits width seed c (key ∷ keys)))
    cells-row' c h = elim (ℕ_discrete col c) [
      | yes same ↦
          subst (λ d. get_elem? row' d ≡ some (min u32_max (hits width seed d (key ∷ keys)))) same
            (get_elem?-set_self row col _ col-lt
              ∙ ap (λ n. some (min u32_max n)) (hits-same width seed key keys))
      | no other ↦
          get_elem?-set_ne row col c _ other
          ∙ r.cells c h
          ∙ ap (λ n. some (min u32_max n)) (hits-other width seed c key keys other)
    ]

    row'-RowCounts : RowCounts width seed row' (key ∷ keys)
    row'-RowCounts = record { size = length-set row col _ ∙ r.size; cells = cells-row' }

  increment_rows-TableCounts :
      (width rows : ℕ) (seeds : List ℕ) (table keys : List (List ℕ)) (key : List ℕ)
      → 0 < width
      → TableCounts width rows seeds table keys
      → (table' : List (List ℕ)) × (increment_rows fx width key rows seeds table ≡ some table')
        × TableCounts width rows seeds table' (key ∷ keys)
  unfolding increment_rows
  increment_rows-TableCounts width zero seeds table keys key wide t = (table, refl, tt)
  increment_rows-TableCounts width (suc rows) [] table keys key wide t = elim t [ ]
  increment_rows-TableCounts width (suc rows) (seed ∷ seeds) [] keys key wide t = elim t [ ]
  increment_rows-TableCounts width (suc rows) (seed ∷ seeds) (row ∷ table) keys key wide (r, t) =
      let (table', e, t') = increment_rows-TableCounts width rows seeds table keys key wide t in
      (
        row' r wide key ∷ table',
        rw (hash-col r wide key, increment_cell-row r wide key, e),
        (row'-RowCounts r wide key, t'),
      )

  -- On a sketch whose rows count a stream, `increment` does not panic and adds one key to the stream.
  pub increment-Counts :
      (s : CountMinSketch) (keys : List (List ℕ)) (key : List ℕ)
      → Counts s keys
      → (s' : CountMinSketch) × (increment fx s key ≡ some s')
        × Counts s' (key ∷ keys)
        × (s'.depth ≡ s.depth)
        × (s'.width ≡ s.width)
        × (s'.seeds ≡ s.seeds)
  unfolding increment
  increment-Counts s keys key t =
      let (table', e, t') =
        increment_rows-TableCounts s.width s.depth s.seeds s.table keys key t.wide t.rows in
      (record s { table = table' }, rw e, record { wide = t.wide; rows = t' }, refl, refl, refl)
