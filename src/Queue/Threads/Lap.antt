-- ===== src/Queue/Threads/Lap.antt =====
-- Which tickets share a slot, under the mask of a capacity.
use native.Mathlib.Nat.{mod-lt, mod-eq_of_lt, add-mod_right}
use telemetry_threat_engine.Base.{
  ℕ, ◌+◌, ◌-◌, ◌%◌, ◌≤◌, ◌<◌, ◌≡◌, ◌≢◌, sym, ap, subst, ◌∙◌, true, arith,
}
use native.Mathlib.Decide.{dec_lt}
use telemetry_threat_engine.Queue.{is_power_of_two}
use telemetry_threat_engine.Queue.Inv.{is_power_of_two_sound, mask-of-power, ring-ne_of_lt}
use telemetry_threat_engine.Queue.Threads.{slot_index}

-- What the proofs use of the mask.
pub record Lap (mask cap : ℕ) : Type 0 where
  pub several : 2 ≤ cap
  pub masked : mask + 1 ≡ cap
  pub apart : (p q : ℕ) → slot_index mask p ≡ slot_index mask q → p < q → p + cap ≤ q
  pub again : (p : ℕ) → slot_index mask (p + cap) ≡ slot_index mask p
  pub first : (p : ℕ) → p < cap → slot_index mask p ≡ p
  pub below : (p : ℕ) → slot_index mask p < cap

pub slot_index-mod :
    (cap : ℕ) → is_power_of_two cap ≡ true → (p : ℕ) → slot_index (cap - 1) p ≡ p % cap
unfolding slot_index
slot_index-mod cap h p = let (k, e) = is_power_of_two_sound cap h in mask-of-power cap k e p

-- A capacity that `new` accepts, of at least two slots, has these laws.
pub power-Lap : (cap : ℕ) → 2 ≤ cap → is_power_of_two cap ≡ true → Lap (cap - 1) cap
power-Lap cap several power = record {
  several = several;
  masked = omega arith;
  apart = λ p q same lt. elim (dec_lt q (p + cap)) [
    | yes near ↦ absurd (distinct p q lt near (sym (at p) ∙ same ∙ at q))
    | no far ↦ omega arith
  ];
  again = λ p. at (p + cap) ∙ add-mod_right p cap ∙ sym (at p);
  first = λ p h. at p ∙ mod-eq_of_lt h;
  below = λ p. subst (λ n. n < cap) (sym (at p)) (mod-lt p (omega arith));
}
  where
    at : (p : ℕ) → slot_index (cap - 1) p ≡ p % cap
    at = slot_index-mod cap power

    distinct : (p q : ℕ) → p < q → q < p + cap → p % cap ≢ q % cap
    distinct p q lt near e =
        ring-ne_of_lt cap p 0 (q - p) (omega arith) (omega arith)
          (ap (λ n. n % cap) (omega arith) ∙ e ∙ ap (λ n. n % cap) (omega arith))
