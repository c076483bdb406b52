-- ===== src/Api/Listing.antt =====
-- What the handler of `GET /alerts` in engine/src/api.rs lists of all alerts that were recorded.
use native.Mathlib.Decide.{dec_lt}
use telemetry_threat_engine.Base.{
  ℕ, zero, suc, Bool, ◌-◌, ◌≤◌, ◌<◌, ◌≡◌, ◌⊎◌, inl, inr, refl, ap, ◌∙◌, List, [], ◌∷◌, some, length,
  length-drop, drop, take, reverse, count, count-reverse, arith,
}
use telemetry_threat_engine.Models.{Alert}
use telemetry_threat_engine.Pipeline.{AppState, alert_history_cap}
use telemetry_threat_engine.Pipeline.Store.{newest}
use telemetry_threat_engine.Api.{alerts}
use telemetry_threat_engine.Api.Answers.{length-reverse}

take-all {ℓ} : {A : Type ℓ} (n : ℕ) (xs : List A) → length xs ≤ n → take n xs ≡ xs
take-all zero [] h = refl
take-all zero (x ∷ xs) h = absurd (omega arith)
take-all (suc n) [] h = refl
take-all (suc n) (x ∷ xs) h = ap (λ l. x ∷ l) (take-all n xs (omega arith))

-- All that the store keeps is listed at the largest limit.
count-alerts :
    (kind : Alert → Bool) (state : AppState) (seen : List Alert)
    → state.alerts ≡ newest alert_history_cap seen
    → count kind (alerts (some 5000) state) ≡ count kind (newest alert_history_cap seen)
unfolding alerts
count-alerts kind state seen kept =
    ap (count kind) (
      take-all 5000 (reverse state.alerts) (
        omega (
          arith,
          length-reverse state.alerts,
          ap length kept,
          length-drop (length seen - 5000) seen,
        )))
    ∙ count-reverse kind state.alerts
    ∙ ap (count kind) kept

-- Unless more alerts were recorded than the store keeps, all that were recorded are listed.
pub listed :
    (kind : Alert → Bool) (state : AppState) (seen : List Alert)
    → state.alerts ≡ newest alert_history_cap seen
    → (5000 < length seen) ⊎ (count kind (alerts (some 5000) state) ≡ count kind seen)
listed kind state seen kept = elim (dec_lt 5000 (length seen)) [
  | yes over ↦ inl over
  | no within ↦ inr (
      count-alerts kind state seen kept
      ∙ ap (λ k. count kind (drop k seen)) (no_excess (omega arith)))
]
  where
    no_excess : length seen ≤ 5000 → length seen - 5000 ≡ 0
    no_excess le = omega arith
