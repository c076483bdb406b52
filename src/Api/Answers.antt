-- ===== src/Api/Answers.antt =====
-- What the handlers and the token check of engine/src/api.rs answer.
use mathlib.Core.List.{reverse-append, reverse-cons}
use native.Mathlib.Decide.{dec_lt}
use telemetry_threat_engine.Base.{
  ℕ, zero, suc, ◌-◌, ◌≤◌, min, ◌≡◌, refl, sym, ap, ◌∙◌, List, [], ◌∷◌, ◌++◌, Option, none, some,
  length, drop, take, length-append, length-drop, reverse, arith, true, false, Bool, if◌then◌else◌,
}
use telemetry_threat_engine.Base.Text.{codes, text_eq, text_eq_sound}
use telemetry_threat_engine.Models.{Alert}
use telemetry_threat_engine.Pipeline.{AppState, alert_history_cap, record_alerts}
use telemetry_threat_engine.Pipeline.Store.{newest, record_alerts-newest}
use telemetry_threat_engine.Api.{
  okay, unauthorized, expected_token, is_authorized, require_auth, login, limit_or_default, alerts,
}

module _ {ℓ} {A : Type ℓ} where
  take-drop : (k : ℕ) (xs : List A) → take k xs ++ drop k xs ≡ xs
  take-drop zero xs = refl
  take-drop (suc k) [] = refl
  take-drop (suc k) (x ∷ xs) = ap (λ l. x ∷ l) (take-drop k xs)

  take-append : (n : ℕ) (xs ys : List A) → n ≤ length xs → take n (xs ++ ys) ≡ take n xs
  take-append zero xs ys h = refl
  take-append (suc n) [] ys h = absurd (omega arith)
  take-append (suc n) (x ∷ xs) ys h = ap (λ l. x ∷ l) (take-append n xs ys (omega arith))

  pub length-reverse : (xs : List A) → length (reverse xs) ≡ length xs
  length-reverse [] = refl
  length-reverse (x ∷ xs) =
      ap length (reverse-cons x xs)
      ∙ omega (arith, length-append (reverse xs) (x ∷ []), length-reverse xs)

  -- The newest of the newest are the newest.
  take-reverse-newest :
      (n cap : ℕ) (xs : List A) → n ≤ cap → take n (reverse (newest cap xs)) ≡ take n (reverse xs)
  take-reverse-newest n cap xs h = elim (dec_lt cap (length xs)) [
    | yes more ↦
        sym (
          take-append n (reverse (newest cap xs)) (reverse (take (length xs - cap) xs))
            (omega (arith, length-reverse (newest cap xs), length-drop (length xs - cap) xs)))
        ∙ ap (take n) (
            sym (reverse-append (take (length xs - cap) xs) (newest cap xs))
            ∙ ap reverse (take-drop (length xs - cap) xs))
    | no all ↦ ap (λ k. take n (reverse (drop k xs))) (no_excess (omega arith))
  ]
    where
      no_excess : length xs ≤ cap → length xs - cap ≡ 0
      no_excess le = omega arith

-- After any alerts are recorded on a state with an empty store and a zero counter, the handler answers
-- with the newest of them first, as many as the limit of the query, 200 without one, and at most 5000.
pub alerts-record_alerts :
    (limit : Option ℕ) (state : AppState) (fired : List Alert)
    → state.alerts ≡ []
    → state.stats.alerts_fired ≡ 0
    → alerts limit (record_alerts state fired)
      ≡ take (min (limit_or_default limit) 5000) (reverse fired)
unfolding alerts
alerts-record_alerts limit state fired none_yet zero_yet =
    ap (λ l. take (min (limit_or_default limit) 5000) (reverse l))
      (record_alerts-newest state fired none_yet zero_yet).0
    ∙ take-reverse-newest (min (limit_or_default limit) 5000) alert_history_cap fired (omega arith)

okay-if {ℓ} :
    {A : Type ℓ} (b : Bool) (answer given : A) (why : List ℕ)
    → (if b then okay answer else unauthorized why) ≡ okay given
    → (b ≡ true) × (answer ≡ given)
okay-if true answer given why e = (refl, cc)
okay-if false answer given why e = cc

-- A protected route answers only a request whose header is "Bearer " and the expected token, and then
-- with the answer of its handler.
pub require_auth-okay {ℓ} :
    {A : Type ℓ} (variable header : Option (List ℕ)) (answer given : A)
    → require_auth variable header answer ≡ okay given
    → (header ≡ some (codes "Bearer " ++ expected_token variable)) × (answer ≡ given)
unfolding require_auth is_authorized
require_auth-okay variable none answer given e = cc
require_auth-okay variable (some value) answer given e =
    let (same, through) =
      okay-if (text_eq value (codes "Bearer " ++ expected_token variable)) answer given _ e in
    (ap some (text_eq_sound value (codes "Bearer " ++ expected_token variable) same), through)

-- The login answers 200 for exactly the tokens with which a protected route answers, and otherwise 401.
pub login-require_auth :
    (variable : Option (List ℕ)) (token : List ℕ)
    → login variable token ≡ (
        if is_authorized variable (some (codes "Bearer " ++ token))
        then (200, record { ok = true })
        else (401, record { ok = false }))
unfolding login is_authorized
login-require_auth variable token = refl
