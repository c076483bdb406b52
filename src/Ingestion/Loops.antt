-- ===== src/Ingestion/Loops.antt =====
-- Lists that the loops of engine/src/ingestion.rs run over, and what they push for their elements.
use Prim.Native.Nat.{bit_or}
use native.Mathlib.Decide.{ℕ_discrete}
use telemetry_threat_engine.Base.{
  ℕ, zero, suc, ◌+◌, ◌*◌, ◌^◌, ◌≤◌, ◌<◌, ◌≡◌, refl, sym, ap, subst, Bool, true, ◌&&◌, List, [], ◌∷◌,
  some, map, replicate, length, get_elem?, ◌==◌, All, arith,
}
use telemetry_threat_engine.Models.{NetworkEvent}
use telemetry_threat_engine.Ingestion.{range, scanned_ports}

abbrev pub below_all : ℕ → (ℕ → Bool) → Bool
below_all zero test = true
below_all (suc n) test = test n && below_all n test

pub below_all-at : (n v : ℕ) (test : ℕ → Bool) → below_all n test ≡ true → v < n → test v ≡ true
below_all-at zero v test h lt = elim lt [ ]
below_all-at (suc n) v test h lt = elim (ℕ_discrete v n) [
  | yes same ↦ subst (λ k. test k ≡ true) (sym same) (first (test n) (below_all n test) h)
  | no other ↦ below_all-at n v test (second (test n) (below_all n test) h) (omega (arith, other))
]
  where
    first : (a b : Bool) → (a && b) ≡ true → a ≡ true
    first a b h = ground (arith, h)

    second : (a b : Bool) → (a && b) ≡ true → b ≡ true
    second a b h = ground (arith, h)

pub or_address : (v : ℕ) → v < 255 → bit_or v 0x0A000000 ≡ v + 0x0A000000
or_address v below =
    let same = below_all-at 255 v (λ k. bit_or k 0x0A000000 == k + 0x0A000000) refl below in
    ground (arith, same)

pub range-length : (first n : ℕ) → length (range first n) ≡ n
range-length first zero = refl
range-length first (suc n) = ap suc (range-length (first + 1) n)

pub choose_port :
    (i : ℕ)
    → i < 4
    → (port : ℕ) × (get_elem? (80 ∷ 443 ∷ 22 ∷ 53 ∷ []) i ≡ some port) × (port < 2 ^ 16)
choose_port zero h = (80, refl, omega arith)
choose_port (suc zero) h = (443, refl, omega arith)
choose_port (suc (suc zero)) h = (22, refl, omega arith)
choose_port (suc (suc (suc zero))) h = (53, refl, omega arith)
choose_port (suc (suc (suc (suc i)))) h = absurd (omega arith)

pub replicate-All : (n : ℕ) → All (λ port. port < 2 ^ 16) (replicate n 80)
replicate-All zero = tt
replicate-All (suc n) = (omega arith, replicate-All n)

pub ports-All :
    (first n : ℕ)
    → first + n ≤ 40
    → All (λ port. port < 2 ^ 16) (map (λ i. 1000 + i * 7) (range first n))
ports-All first zero h = tt
ports-All first (suc n) h = (omega arith, ports-All (first + 1) n (omega arith))

pub scanned_ports-All : All (λ port. port < 2 ^ 16) scanned_ports
scanned_ports-All = ports-All 1 39 (omega arith)

pub range-All : (Q : ℕ → Type 0) → ((i : ℕ) → Q i) → (first n : ℕ) → All Q (range first n)
range-All Q all first zero = tt
range-All Q all first (suc n) = (all first, range-All Q all (first + 1) n)

-- The events made for the elements of a list, one for each.
abbrev pub Matched {ℓ} :
    {A : Type ℓ} → (A → NetworkEvent → Type 0) → List A → List NetworkEvent → Type 0
Matched P [] [] = Unit
Matched P [] (e ∷ es) = ⊥
Matched P (x ∷ xs) [] = ⊥
Matched P (x ∷ xs) (e ∷ es) = P x e × Matched P xs es

pub Matched-length {ℓ} :
    {A : Type ℓ} (P : A → NetworkEvent → Type 0) (xs : List A) (es : List NetworkEvent)
    → Matched P xs es
    → length es ≡ length xs
Matched-length P [] [] m = refl
Matched-length P [] (e ∷ es) m = elim m [ ]
Matched-length P (x ∷ xs) [] m = elim m [ ]
Matched-length P (x ∷ xs) (e ∷ es) m = ap suc (Matched-length P xs es m.1)

pub Matched-All {ℓ} :
    {A : Type ℓ} (P : A → NetworkEvent → Type 0) (R : NetworkEvent → Type 0)
    → ((x : A) (e : NetworkEvent) → P x e → R e)
    → (xs : List A) (es : List NetworkEvent) → Matched P xs es
    → All R es
Matched-All P R weaken [] [] m = tt
Matched-All P R weaken [] (e ∷ es) m = elim m [ ]
Matched-All P R weaken (x ∷ xs) [] m = elim m [ ]
Matched-All P R weaken (x ∷ xs) (e ∷ es) m = (weaken x e m.0, Matched-All P R weaken xs es m.1)

pub Matched-ports :
    (P : ℕ → NetworkEvent → Type 0)
    → ((x : ℕ) (e : NetworkEvent) → P x e → e.dst_port ≡ x)
    → (xs : List ℕ) (es : List NetworkEvent) → Matched P xs es
    → map (λ (e : NetworkEvent). e.dst_port) es ≡ xs
Matched-ports P port [] [] m = refl
Matched-ports P port [] (e ∷ es) m = elim m [ ]
Matched-ports P port (x ∷ xs) [] m = elim m [ ]
Matched-ports P port (x ∷ xs) (e ∷ es) m = (λ i. port x e m.0 i ∷ Matched-ports P port xs es m.1 i)
