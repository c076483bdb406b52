-- ===== src/Detection/HyperLogLog/Ranks.antt =====
-- What the buckets of a HyperLogLog of engine/src/detection/anomaly.rs hold: ranks of the keys that fell
-- into them.
use Prim.Native.Nat.{max}
use telemetry_threat_engine.Base.{
  ℕ, zero, suc, ◌+◌, ◌-◌, ◌*◌, ◌/◌, ◌%◌, ◌^◌, ◌<◌, ◌≡◌, refl, sym, ap, ◌∙◌, ◌≢◌, Bool, true, false,
  List, [], ◌∷◌, some, ◌==◌, length, get_elem?, set, replicate, arith, if◌then◌else◌, Bool-cases,
  inl, inr, length-set, length-replicate, get_elem?-set_self, get_elem?-set_ne, get_elem?-replicate,
  subst, ltb, ==_refl,
}
use native.Mathlib.Nat.{pow-suc, mod-eq_of_lt, div-lt_iff_lt-mul, one-le-pow, pow-le-pow_right}
use native.Mathlib.Decide.{ℕ_discrete}
use telemetry_threat_engine.Detection.Hasher.{FxHasher}
use telemetry_threat_engine.Detection.HyperLogLog.{HyperLogLog, new, add, shl, bucket_of, rank_of}

pow_add : (a b : ℕ) → 2 ^ (a + b) ≡ 2 ^ a * 2 ^ b
pow_add zero b = omega (arith, ap (λ k. 2 ^ k) (zero-add' b))
  where
    zero-add' : (n : ℕ) → 0 + n ≡ n
    zero-add' n = omega arith
pow_add (suc a) b = omega (
  arith,
  pow_add a b,
  ap (λ t. t * 2 ^ b) (pow-suc 2 a),
  ap (λ k. 2 ^ k) (suc_add a b),
  pow-suc 2 (a + b),
)
  where
    suc_add : (n m : ℕ) → suc n + m ≡ suc (n + m)
    suc_add n m = omega arith

-- A hash falls into one of the `2 ^ bits` buckets.
pub bucket_of-lt : (bits h : ℕ) → 0 < bits → bits < 64 → h < 2 ^ 64 → bucket_of bits h < 2 ^ bits
unfolding bucket_of
bucket_of-lt bits h some_bits small word =
    ap_lt amount
      ((div-lt_iff_lt-mul {k = 2 ^ (64 - bits)} (one-le-pow (64 - bits) 2 (omega arith))).1 product)
  where
    amount : (2 ^ 32 + 64 - bits) % 2 ^ 32 % 64 ≡ 64 - bits
    amount = omega arith

    whole : bits + (64 - bits) ≡ 64
    whole = omega arith

    product : h < 2 ^ bits * 2 ^ (64 - bits)
    product = omega (arith, pow_add bits (64 - bits), ap (λ k. 2 ^ k) whole)

    ap_lt : {a b : ℕ} → a ≡ b → h / 2 ^ b < 2 ^ bits → h / 2 ^ a < 2 ^ bits
    ap_lt e p = subst (λ k. h / 2 ^ k < 2 ^ bits) (sym e) p

buckets-new : (bits : ℕ) → bits < 64 → (new bits).buckets ≡ replicate (2 ^ bits) 0
unfolding new
buckets-new bits small = ap (λ n. replicate n 0) word
  where
    below : 2 ^ bits < 2 ^ 64
    below = omega (arith, pow-le-pow_right {n = 2} (omega arith) {i = bits} {j = 63} (omega arith))

    word : shl 1 bits ≡ 2 ^ bits
    word = ap (λ k. 1 * 2 ^ k % 2 ^ 64) (mod-eq_of_lt small) ∙ omega (arith, below)

module _ (fx : FxHasher) (bits : ℕ) where
  -- The largest rank among the keys that fall into a bucket.
  abbrev pub max_rank : ℕ → List (List ℕ) → ℕ
  max_rank i [] = 0
  max_rank i (key ∷ keys) =
      if bucket_of bits (fx.plain key) == i
      then max (rank_of bits (fx.plain key)) (max_rank i keys)
      else max_rank i keys

  pub record Ranks (s : HyperLogLog) (keys : List (List ℕ)) : Type 0 where
    pub same_bits : s.bucket_bits ≡ bits
    pub size : length s.buckets ≡ 2 ^ bits
    pub ranks : (i : ℕ) → i < 2 ^ bits → get_elem? s.buckets i ≡ some (max_rank i keys)

  pub new-Ranks : bits < 64 → Ranks (new bits) []
  unfolding new
  new-Ranks small = record {
    same_bits = refl;
    size = ap length (buckets-new bits small) ∙ length-replicate (2 ^ bits) 0;
    ranks = λ i h.
        ap (λ b. get_elem? b i) (buckets-new bits small) ∙ get_elem?-replicate (2 ^ bits) i 0 h;
  }

  module _ (some_bits : 0 < bits) (small : bits < 64) where
    abbrev bucket : List ℕ → ℕ
    bucket key = bucket_of bits (fx.plain key)

    abbrev rank : List ℕ → ℕ
    rank key = rank_of bits (fx.plain key)

    bucket-lt : (key : List ℕ) → bucket key < 2 ^ bits
    bucket-lt key = bucket_of-lt bits (fx.plain key) some_bits small (fx.plain_lt key)

    -- The sketch after `add`, by the ranks before it.
    abbrev after_add : HyperLogLog → List (List ℕ) → List ℕ → HyperLogLog
    after_add s keys key =
        if ltb (max_rank (bucket key) keys) (rank key)
        then record s { buckets = set s.buckets (bucket key) (rank key) }
        else s

    add-eq-after_add :
        (s : HyperLogLog) (keys : List (List ℕ)) (key : List ℕ)
        → Ranks s keys
        → add fx s key ≡ some (after_add s keys key)
    unfolding add
    add-eq-after_add s keys key r =
        rw
          (ap (λ n. get_elem? s.buckets (bucket_of n (fx.plain key))) r.same_bits
            ∙ r.ranks (bucket key) (bucket-lt key))
          (ap
            (λ n. some (
              if ltb (max_rank (bucket key) keys) (rank_of n (fx.plain key))
              then record s {
                buckets = set s.buckets (bucket_of n (fx.plain key)) (rank_of n (fx.plain key));
              }
              else s))
            r.same_bits)

    max_rank-here :
        (keys : List (List ℕ)) (key : List ℕ)
        → max_rank (bucket key) (key ∷ keys) ≡ max (rank key) (max_rank (bucket key) keys)
    max_rank-here keys key = rw (==_refl (bucket key))

    max_rank-there :
        (keys : List (List ℕ)) (key : List ℕ) (i : ℕ)
        → bucket key ≢ i
        → max_rank i (key ∷ keys) ≡ max_rank i keys
    max_rank-there keys key i ne = ground arith

    max_rank-after_add :
        (s : HyperLogLog) (keys : List (List ℕ)) (key : List ℕ)
        → Ranks s keys
        → (i : ℕ) → i < 2 ^ bits
        → get_elem? (after_add s keys key).buckets i ≡ some (max_rank i (key ∷ keys))
    max_rank-after_add s keys key r i h = elim (Bool-cases (ltb old (rank key))) [
      | inl more ↦ elim (ℕ_discrete (bucket key) i) [
        | yes here ↦
            subst (λ j. get_elem? (after_add s keys key).buckets j ≡ some (max_rank j (key ∷ keys)))
              here
              (rw (more, max_rank-here keys key)
                (get_elem?-set_self s.buckets (bucket key) (rank key)
                    (omega (arith, r.size, bucket-lt key))
                  ∙ ap some (ground arith)))
        | no there ↦
            rw (more, max_rank-there keys key i there)
              (get_elem?-set_ne s.buckets (bucket key) i (rank key) there ∙ r.ranks i h)
      ]
      | inr less ↦ elim (ℕ_discrete (bucket key) i) [
        | yes here ↦
            subst (λ j. get_elem? (after_add s keys key).buckets j ≡ some (max_rank j (key ∷ keys)))
              here
              (rw (less, max_rank-here keys key)
                (r.ranks (bucket key) (bucket-lt key) ∙ ap some (ground arith)))
        | no there ↦ rw (less, max_rank-there keys key i there) (r.ranks i h)
      ]
    ]
      where
        old : ℕ
        old = max_rank (bucket key) keys

    after_add-Ranks :
        (s : HyperLogLog) (keys : List (List ℕ)) (key : List ℕ)
        → Ranks s keys
        → Ranks (after_add s keys key) (key ∷ keys)
    after_add-Ranks s keys key r = record {
      same_bits = bits_kept (ltb (max_rank (bucket key) keys) (rank key));
      size = size_kept (ltb (max_rank (bucket key) keys) (rank key));
      ranks = max_rank-after_add s keys key r;
    }
      where
        next : HyperLogLog
        next = record s { buckets = set s.buckets (bucket key) (rank key) }

        bits_kept : (b : Bool) → (if b then next else s).bucket_bits ≡ bits
        bits_kept true = r.same_bits
        bits_kept false = r.same_bits

        size_kept : (b : Bool) → length (if b then next else s).buckets ≡ 2 ^ bits
        size_kept true = length-set s.buckets (bucket key) (rank key) ∙ r.size
        size_kept false = r.size

    -- `add` adds one key to the stream, and never panics.
    pub add-Ranks :
        (s : HyperLogLog) (keys : List (List ℕ)) (key : List ℕ)
        → Ranks s keys
        → (s' : HyperLogLog) × (add fx s key ≡ some s') × Ranks s' (key ∷ keys)
    add-Ranks s keys key r =
        (after_add s keys key, add-eq-after_add s keys key r, after_add-Ranks s keys key r)
