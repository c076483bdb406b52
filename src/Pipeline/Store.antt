-- ===== src/Pipeline/Store.antt =====
-- The bounded alert store of engine/src/pipeline.rs, and the newest alerts.
use telemetry_threat_engine.Base.{
  ℕ, zero, suc, ◌+◌, ◌-◌, ◌%◌, ◌^◌, ◌≤◌, ◌<◌, min, ◌≡◌, refl, sym, ap, ◌∙◌, List, [], ◌∷◌, ◌++◌,
  length, drop, length-append, length-drop, ltb, true, false, append-nil, append_assoc, arith,
}
use native.Mathlib.Decide.{dec_lt}
use telemetry_threat_engine.Models.{Alert}
use telemetry_threat_engine.Pipeline.{
  AppState, alert_history_cap, remember, record_alert, record_alerts,
}

-- The last `n` of a list, or all of it.
abbrev pub newest {ℓ} : {A : Type ℓ} → ℕ → List A → List A
newest n xs = drop (length xs - n) xs

drop-append {ℓ} :
    {A : Type ℓ} (k : ℕ) (xs ys : List A) → k ≤ length xs → drop k (xs ++ ys) ≡ drop k xs ++ ys
drop-append zero xs ys h = refl
drop-append (suc k) [] ys h = absurd (omega arith)
drop-append (suc k) (x ∷ xs) ys h = drop-append k xs ys (omega arith)

drop-drop_one {ℓ} : {A : Type ℓ} (k : ℕ) (xs : List A) → drop 1 (drop k xs) ≡ drop (suc k) xs
drop-drop_one zero [] = refl
drop-drop_one zero (x ∷ xs) = refl
drop-drop_one (suc k) [] = refl
drop-drop_one (suc k) (x ∷ xs) = drop-drop_one k xs

drop_none {ℓ} : {A : Type ℓ} (k : ℕ) (xs : List A) → k ≡ 0 → drop k xs ≡ xs
drop_none k xs e = ap (λ n. drop n xs) e

over : (n : ℕ) → alert_history_cap < n → ltb alert_history_cap n ≡ true
over n h = ground arith

within : (n : ℕ) → n ≤ alert_history_cap → ltb alert_history_cap n ≡ false
within n h = ground arith

module _ (seen : List Alert) (alert : Alert) where
  abbrev excess : ℕ
  excess = length seen - alert_history_cap

  length-kept :
      length (newest alert_history_cap seen ++ alert ∷ []) ≡ min alert_history_cap (length seen) + 1
  length-kept =
      omega
        (arith, length-append (newest alert_history_cap seen) (alert ∷ []), length-drop excess seen)

  length-grown : length (seen ++ alert ∷ []) ≡ length seen + 1
  length-grown = omega (arith, length-append seen (alert ∷ []))

  remember-newest :
      remember (newest alert_history_cap seen) alert ≡ newest alert_history_cap (seen ++ alert ∷ [])
  unfolding remember
  remember-newest = elim (dec_lt (length seen) alert_history_cap) [
    | yes room ↦
        rw
          (within (length (newest alert_history_cap seen ++ alert ∷ []))
            (omega (arith, length-kept)))
          (ap (λ l. l ++ alert ∷ []) (drop_none excess seen (omega arith))
            ∙ sym (
                drop_none (length (seen ++ alert ∷ []) - alert_history_cap) (seen ++ alert ∷ [])
                  (omega (arith, length-grown))))
    | no full ↦
        rw
          (over (length (newest alert_history_cap seen ++ alert ∷ [])) (omega (arith, length-kept)))
          (ap (drop 1) (sym (drop-append excess seen (alert ∷ []) (omega arith)))
            ∙ drop-drop_one excess (seen ++ alert ∷ [])
            ∙ ap (λ n. drop n (seen ++ alert ∷ [])) (next_excess (omega arith)))
  ]
    where
      next_excess :
          alert_history_cap ≤ length seen
          → suc excess ≡ length (seen ++ alert ∷ []) - alert_history_cap
      next_excess h = omega (arith, length-grown)

pub record_alerts-newest_from :
    (state : AppState) (seen alerts : List Alert)
    → state.alerts ≡ newest alert_history_cap seen
    → state.stats.alerts_fired ≡ length seen % 2 ^ 64
    → ((record_alerts state alerts).alerts ≡ newest alert_history_cap (seen ++ alerts))
      × ((record_alerts state alerts).stats.alerts_fired ≡ length (seen ++ alerts) % 2 ^ 64)
unfolding record_alerts
record_alerts-newest_from state seen [] same fired = (
  same ∙ ap (newest alert_history_cap) (sym (append-nil seen)),
  fired ∙ ap (λ l. length l % 2 ^ 64) (sym (append-nil seen)),
)
record_alerts-newest_from state seen (alert ∷ alerts) same fired =
    let (kept, counted) =
      record_alerts-newest_from (record_alert state alert) (seen ++ alert ∷ []) alerts
        (ap (λ l. remember l alert) same ∙ remember-newest seen alert)
        (omega (arith, length-grown seen alert, fired)) in
    (
      kept ∙ ap (newest alert_history_cap) (append_assoc seen (alert ∷ []) alerts),
      counted ∙ ap (λ l. length l % 2 ^ 64) (append_assoc seen (alert ∷ []) alerts),
    )

-- On a state whose store is empty and whose counter is zero, recording any alerts keeps the newest
-- 5000 of them in their order, and counts all of them modulo 2^64.
pub record_alerts-newest :
    (state : AppState) (alerts : List Alert)
    → state.alerts ≡ []
    → state.stats.alerts_fired ≡ 0
    → ((record_alerts state alerts).alerts ≡ newest alert_history_cap alerts)
      × ((record_alerts state alerts).stats.alerts_fired ≡ length alerts % 2 ^ 64)
record_alerts-newest state alerts none_yet zero_yet =
    record_alerts-newest_from state [] alerts none_yet zero_yet
