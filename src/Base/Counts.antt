-- ===== src/Base/Counts.antt =====
-- How many elements of a list satisfy a test, after the list is filtered, shortened or reversed.
use Prim.Native.Nat.{◌+◌, ◌≤◌}
use mathlib.Core.Path.{◌≡◌, refl, ap, ◌∙◌}
use mathlib.Core.Logic.{inl, inr, ∥∥₁_elim}
use mathlib.Core.Bool.{Bool, true}
use mathlib.Core.List.{List, [], ◌∷◌, reverse, reverse-cons, Sublist}
use mathlib.Core.List.{Sublistᴰ}
use native.Mathlib.Bridge.{le_prop}
use native.Mathlib.Omega.{arith}
use telemetry_threat_engine.Base.Tests.{Bool-cases}
use telemetry_threat_engine.Base.Lists.{length, count, count-append, filter_by}

module _ {ℓ} {A : Type ℓ} (p : A → Bool) where
  pub count-reverse : (xs : List A) → count p (reverse xs) ≡ count p xs
  count-reverse [] = refl
  count-reverse (x ∷ xs) =
      ap (count p) (reverse-cons x xs)
      ∙ omega (arith, count-append p (reverse xs) (x ∷ []), count-reverse xs)

  pub count-filter_by :
      (q : A → Bool) (xs : List A)
      → ((x : A) → p x ≡ true → q x ≡ true)
      → count p (filter_by q xs) ≡ count p xs
  count-filter_by q [] h = refl
  count-filter_by q (x ∷ xs) h = elim (Bool-cases (q x)) [
    | inl kept ↦ rw kept (omega (arith, count-filter_by q xs h))
    | inr gone ↦ rw gone (ground (arith, count-filter_by q xs h, h x))
  ]

  count-Sublistᴰ :
      {xs ys : List A} → Sublistᴰ xs ys → count p ys + length xs ≤ count p xs + length ys
  count-Sublistᴰ Sublistᴰ.slnil = omega arith
  count-Sublistᴰ (Sublistᴰ.cons {a} s) = ground (arith, count-Sublistᴰ s)
  count-Sublistᴰ (Sublistᴰ.cons-cons {a} {b} e s) = ground (arith, count-Sublistᴰ s, ap p e)

  -- Leaving out elements takes away at most as many that satisfy the test.
  pub count-Sublist :
      {xs ys : List A} → Sublist xs ys → count p ys + length xs ≤ count p xs + length ys
  count-Sublist s = ∥∥₁_elim s le_prop count-Sublistᴰ

  count-Sublistᴰ-le : {xs ys : List A} → Sublistᴰ xs ys → count p xs ≤ count p ys
  count-Sublistᴰ-le Sublistᴰ.slnil = omega arith
  count-Sublistᴰ-le (Sublistᴰ.cons {a} s) = ground (arith, count-Sublistᴰ-le s)
  count-Sublistᴰ-le (Sublistᴰ.cons-cons {a} {b} e s) = ground (arith, count-Sublistᴰ-le s, ap p e)

  pub count-Sublist-le : {xs ys : List A} → Sublist xs ys → count p xs ≤ count p ys
  count-Sublist-le s = ∥∥₁_elim s le_prop count-Sublistᴰ-le
