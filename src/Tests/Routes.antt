-- ===== src/Tests/Routes.antt =====
-- A dispatch that takes the first route for the path and the method, a body that is the token itself,
-- and a query without a limit.
use telemetry_threat_engine.Base.{
  ℕ, suc, Bool, true, false, ◌&&◌, List, [], ◌∷◌, ◌++◌, Option, none, some, get_elem?, ◌≡◌, refl,
  sym, ap, ◌∙◌, ◌⊎◌, All, Bool-cases, inl, inr, if◌then◌else◌,
}
use telemetry_threat_engine.Base.Text.{codes, text_eq, text_eq_sound, text_eq_refl}
use telemetry_threat_engine.Models.{pos, high, anomaly}
use telemetry_threat_engine.Pipeline.{AppState}
use telemetry_threat_engine.Api.{okay, unauthorized, is_authorized, health, alerts}
use telemetry_threat_engine.Api.Router.{
  Method, get, post, other, Request, Route, Axum, Fits, login_reply, alerts_reply, respond,
}
use telemetry_threat_engine.Api.Router.Access.{respond-denied, login-alerts}

abbrev same_method : Method → Method → Bool
same_method get get = true
same_method post post = true
same_method (other a) (other b) = text_eq a b
same_method _ _ = false

same_method_sound : (a b : Method) → same_method a b ≡ true → a ≡ b
same_method_sound get get h = refl
same_method_sound get post h = cc
same_method_sound get (other b) h = cc
same_method_sound post get h = cc
same_method_sound post post h = refl
same_method_sound post (other b) h = cc
same_method_sound (other a) get h = cc
same_method_sound (other a) post h = cc
same_method_sound (other a) (other b) h = ap other (text_eq_sound a b h)

same_method_refl : (a : Method) → same_method a a ≡ true
same_method_refl get = refl
same_method_refl post = refl
same_method_refl (other a) = text_eq_refl a

abbrev fits : Request → Route → Bool
fits request route = text_eq route.path request.path && same_method route.method request.method

both : (a b : Bool) → a && b ≡ true → (a ≡ true) × (b ≡ true)
both true true h = (refl, refl)
both true false h = cc
both false b h = cc

fits_sound : (request : Request) (route : Route) → fits request route ≡ true → Fits request route
fits_sound request route h =
    let (path, method) =
      both (text_eq route.path request.path) (same_method route.method request.method) h in
    (
      text_eq_sound route.path request.path path,
      same_method_sound route.method request.method method,
    )

fits_complete : (request : Request) (route : Route) → Fits request route → fits request route ≡ true
fits_complete request route (path, method) =
    rw (path, method, text_eq_refl request.path, same_method_refl request.method) refl

abbrev first_fit : List Route → Request → Option Route
first_fit [] request = none
first_fit (r ∷ routes) request = if fits request r then some r else first_fit routes request

first_fit-listed :
    (routes : List Route) (request : Request) (route : Route)
    → first_fit routes request ≡ some route
    → (i : ℕ) × (get_elem? routes i ≡ some route)
first_fit-listed [] request route h = cc
first_fit-listed (r ∷ routes) request route h = elim (Bool-cases (fits request r)) [
  | inl yes_it ↦ (0, chosen yes_it)
  | inr not_it ↦ let (i, at) = first_fit-listed routes request route (passed not_it) in (suc i, at)
]
  where
    chosen : fits request r ≡ true → some r ≡ some route
    chosen e = sym (rw e refl) ∙ h

    passed : fits request r ≡ false → first_fit routes request ≡ some route
    passed e = sym (rw e refl) ∙ h

first_fit-only :
    (before after : List Route) (request : Request) (route : Route)
    → Fits request route
    → All (λ r. ¬ (Fits request r)) before
    → All (λ r. ¬ (Fits request r)) after
    → first_fit (before ++ route ∷ after) request ≡ some route
first_fit-only [] after request route h before_not after_not =
    rw (fits_complete request route h) refl
first_fit-only (r ∷ before) after request route h before_not after_not =
    elim (Bool-cases (fits request r)) [
      | inl fits_too ↦ absurd (before_not.0 (fits_sound request r fits_too))
      | inr not_it ↦ rw not_it (first_fit-only before after request route h before_not.1 after_not)
    ]

abbrev plain_axum : Axum
plain_axum = record {
  select = first_fit;
  json = λ body. some (record { token = body });
  query = λ query. some (record { limit = none });
  select_listed = first_fit-listed;
  select_only = first_fit-only;
}

-- Two states that differ in their alerts only.
abbrev quiet : AppState
quiet = record {
  queues = [];
  alerts = [];
  stats = record { events_processed = 7; events_dropped = 1; alerts_fired = 0 };
}

abbrev warned : AppState
warned = record {
  queues = [];
  alerts =
      record {
        id = 1;
        timestamp_ms = pos 5;
        rule_name = codes "syn-flood-anomaly";
        severity = high;
        src_ip = codes "10.0.0.5";
        dst_ip = codes "192.168.0.1";
        detail = codes "estimated_syn_count=50 window=5s";
        detector = anomaly;
      }
      ∷ [];
  stats = record { events_processed = 7; events_dropped = 1; alerts_fired = 1 };
}

abbrev ask : Option (List ℕ) → Request
ask header = record {
  method = get;
  path = codes "/alerts";
  authorization = header;
  query = [];
  body = [];
}

abbrev log_in : List ℕ → Request
log_in token = record {
  method = post;
  path = codes "/login";
  authorization = none;
  query = [];
  body = token;
}

wrong_token : is_authorized (some (codes "s3cret")) (some (codes "Bearer guess")) ≡ false
unfolding is_authorized
wrong_token = refl

alike : health quiet ≡ health warned
unfolding health
alike = refl

respond-denied_example :
    respond plain_axum (some (codes "s3cret")) (ask (some (codes "Bearer guess"))) quiet
    ≡ respond plain_axum (some (codes "s3cret")) (ask (some (codes "Bearer guess"))) warned
respond-denied_example =
    respond-denied plain_axum (some (codes "s3cret")) (ask (some (codes "Bearer guess"))) quiet
      warned wrong_token alike

login-alerts_example :
    ((respond plain_axum none (log_in (codes "dev-token-change-me")) quiet
        ≡ okay (login_reply (200, record { ok = true })))
      × (respond plain_axum none (ask (some (codes "Bearer dev-token-change-me"))) warned
          ≡ okay (alerts_reply (alerts none warned))))
    ⊎ ((respond plain_axum none (log_in (codes "dev-token-change-me")) quiet
          ≡ okay (login_reply (401, record { ok = false })))
        × (respond plain_axum none (ask (some (codes "Bearer dev-token-change-me"))) warned
            ≡ unauthorized (codes "missing or invalid bearer token")))
login-alerts_example =
    login-alerts plain_axum none (log_in (codes "dev-token-change-me"))
      (ask (some (codes "Bearer dev-token-change-me")))
      (record { token = codes "dev-token-change-me" }) (record { limit = none }) quiet warned refl
      refl refl refl refl refl refl
