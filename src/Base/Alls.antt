-- ===== src/Base/Alls.antt =====
-- A property of all elements of a list.
use Prim.Native.Nat.{ℕ, zero, suc}
use mathlib.Core.Path.{◌≡◌, subst}
use mathlib.Core.List.{List, [], ◌∷◌, ◌++◌}
use mathlib.Core.Option.{some}
use telemetry_threat_engine.Base.Lists.{All, get_elem?, set, replicate}
use telemetry_threat_engine.Base.Options.{some_injective}

pub All-set {ℓ} :
    {B : Type ℓ} (P : B → Type 0) (xs : List B) (i : ℕ) (x : B)
    → All P xs
    → P x
    → All P (set xs i x)
All-set P [] i x a p = tt
All-set P (y ∷ xs) zero x a p = (p, a.1)
All-set P (y ∷ xs) (suc i) x a p = (a.0, All-set P xs i x a.1 p)

pub All-get_elem? {ℓ} :
    {B : Type ℓ} (P : B → Type 0) (xs : List B) (i : ℕ) (x : B)
    → All P xs
    → get_elem? xs i ≡ some x
    → P x
All-get_elem? P [] i x a e = cc
All-get_elem? P (y ∷ xs) zero x a e = subst P (some_injective y x e) a.0
All-get_elem? P (y ∷ xs) (suc i) x a e = All-get_elem? P xs i x a.1 e

pub All-replicate {ℓ} : {B : Type ℓ} (P : B → Type 0) (n : ℕ) (x : B) → P x → All P (replicate n x)
All-replicate P zero x p = tt
All-replicate P (suc n) x p = (p, All-replicate P n x p)

pub All-weaken {ℓ} :
    {A : Type ℓ} (P Q : A → Type 0) → ((x : A) → P x → Q x) → (xs : List A) → All P xs → All Q xs
All-weaken P Q weaken [] a = tt
All-weaken P Q weaken (x ∷ xs) a = (weaken x a.0, All-weaken P Q weaken xs a.1)

pub All-last {ℓ} : {A : Type ℓ} (P : A → Type 0) (xs : List A) (x : A) → All P (xs ++ x ∷ []) → P x
All-last P [] x a = a.0
All-last P (y ∷ xs) x a = All-last P xs x a.1
