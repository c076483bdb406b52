-- ===== src/Detection/CountMin.antt =====
-- `CountMinSketch` of engine/src/detection/anomaly.rs. A `none` is a panic: a remainder by a width of
-- zero, or an index out of range.
pub mod Counts
pub mod Estimate
pub mod Stream
use telemetry_threat_engine.Base.{
  ℕ, zero, suc, ◌+◌, ◌-◌, ◌*◌, ◌%◌, ◌^◌, min, List, [], ◌∷◌, Option, none, some, ◌==◌, ltb,
  if◌then◌else◌, get_elem?, set, replicate, map, ◌>>=◌,
}
use telemetry_threat_engine.Detection.Hasher.{FxHasher}

pub record CountMinSketch : Type 0 where
  pub depth : ℕ
  pub width : ℕ
  pub table : List (List ℕ)
  pub seeds : List ℕ

abbrev pub u32_max : ℕ
u32_max = 2 ^ 32 - 1

-- `saturating_add(1)` at a u32.
unfoldable pub saturating_inc : ℕ → ℕ
saturating_inc c = if ltb c u32_max then c + 1 else u32_max

-- The seeds of the rows from `i` on.
unfoldable pub row_seeds : ℕ → ℕ → List ℕ
row_seeds zero i = []
row_seeds (suc n) i = 0x9E3779B97F4A7C15 * (i + 1) % 2 ^ 64 ∷ row_seeds n (i + 1)

-- `CountMinSketch::new`.
unfoldable pub new : ℕ → ℕ → CountMinSketch
unfolding row_seeds
new width depth = record {
  depth = depth;
  width = width;
  table = replicate depth (replicate width 0);
  seeds = row_seeds depth 0;
}

-- `CountMinSketch::clear`: a zero in every cell of every row.
unfoldable pub clear_row : List ℕ → List ℕ
clear_row [] = []
clear_row (c ∷ row) = 0 ∷ clear_row row

unfoldable pub clear : CountMinSketch → CountMinSketch
unfolding clear_row
clear s = record s { table = map clear_row s.table }

abbrev pub minimum : List ℕ → Option ℕ
minimum [] = none
minimum (c ∷ cs) = elim (minimum cs) [ none ↦ some c | some m ↦ some (min c m) ]

abbrev pub unwrap_or : Option ℕ → ℕ → ℕ
unwrap_or none d = d
unwrap_or (some n) d = n

module _ (fx : FxHasher) where
  open fx use {seeded}

  -- `hash`: the column of a key in the row with this seed.
  unfoldable pub hash : ℕ → ℕ → List ℕ → Option ℕ
  hash width seed key = if width == 0 then none else some (seeded seed key % width)

  unfoldable pub increment_cell : List ℕ → ℕ → Option (List ℕ)
  unfolding saturating_inc
  increment_cell row col = do c ← get_elem? row col; some (set row col (saturating_inc c))

  -- `for row in 0..self.depth`, from the row that heads the lists on.
  unfoldable pub increment_rows : ℕ → List ℕ → ℕ → List ℕ → List (List ℕ) → Option (List (List ℕ))
  unfolding hash increment_cell
  increment_rows width key zero seeds table = some table
  increment_rows width key (suc rows) [] table = none
  increment_rows width key (suc rows) (seed ∷ seeds) [] = none
  increment_rows width key (suc rows) (seed ∷ seeds) (row ∷ table) = do
    col ← hash width seed key
    row' ← increment_cell row col
    table' ← increment_rows width key rows seeds table
    some (row' ∷ table')

  unfoldable pub increment : CountMinSketch → List ℕ → Option CountMinSketch
  unfolding increment_rows
  increment s key = do
    table' ← increment_rows s.width key s.depth s.seeds s.table
    some (record s { table = table' })

  -- The cells that `estimate` takes the minimum of.
  unfoldable pub row_cells : ℕ → List ℕ → ℕ → List ℕ → List (List ℕ) → Option (List ℕ)
  unfolding hash
  row_cells width key zero seeds table = some []
  row_cells width key (suc rows) [] table = none
  row_cells width key (suc rows) (seed ∷ seeds) [] = none
  row_cells width key (suc rows) (seed ∷ seeds) (row ∷ table) = do
    col ← hash width seed key
    c ← get_elem? row col
    cs ← row_cells width key rows seeds table
    some (c ∷ cs)

  unfoldable pub estimate : CountMinSketch → List ℕ → Option ℕ
  unfolding row_cells
  estimate s key = do
    cells ← row_cells s.width key s.depth s.seeds s.table
    some (unwrap_or (minimum cells) 0)
