-- ===== src/Api/Router/Access.antt =====
-- What the router of engine/src/api.rs tells whom.
use telemetry_threat_engine.Base.{
  ℕ, Bool, true, false, List, [], ◌∷◌, ◌++◌, Option, some, ◌≡◌, ◌≢◌, refl, sym, ap, ◌∙◌, subst, ◌⊎◌,
  inl, inr, All, All-weaken, All-get_elem?, Option-cases, Bool-cases,
}
use telemetry_threat_engine.Base.Text.{codes, text_eq, text_eq_refl}
use telemetry_threat_engine.Pipeline.{AppState}
use telemetry_threat_engine.Api.{
  okay, unauthorized, is_authorized, require_auth, login, health, alerts,
}
use telemetry_threat_engine.Api.Answers.{login-require_auth}
use telemetry_threat_engine.Api.Router.{
  LoginRequest, AlertsQuery, get, post, Request, Route, Axum, Fits, health_reply, login_reply,
  alerts_reply, health_handler, login_handler, stats_handler, alerts_handler, rules_handler, route,
  route_layer, protected, build_router, call, enter, respond,
}

differ : (s t : List ℕ) → text_eq s t ≡ false → s ≢ t
differ s t h e = absurd (clash (text_eq s t) (subst (λ x. text_eq s x ≡ true) e (text_eq_refl s)) h)
  where
    clash : (b : Bool) → b ≡ true → b ≡ false → ⊥
    clash b h h' = cc

module _ (axum : Axum) (variable : Option (List ℕ)) (request : Request) where
  module _ (state state' : AppState) (denied : is_authorized variable request.authorization ≡ false)
      (same_health : health state ≡ health state') where
    -- Two states that a route answers alike.
    abbrev Same : Route → Type 0
    Same route = enter axum variable route request state ≡ enter axum variable route request state'

    routes-Same : All Same build_router
    unfolding build_router enter call require_auth
    routes-Same = (
      ap (λ h. okay (health_reply h)) same_health,
      (refl, (rw denied refl, (rw denied refl, (rw denied refl, tt)))),
    )

    -- Without the right token, an answer tells of the state what `GET /health` tells, and no more: for a
    -- request whose header is not "Bearer " and the expected token, on any path and with any method,
    -- the router answers alike in two states that `GET /health` answers alike.
    pub respond-denied : respond axum variable request state ≡ respond axum variable request state'
    unfolding respond
    respond-denied = elim (Option-cases (axum.select build_router request)) [
      | inl nowhere ↦ rw (respond, nowhere) refl
      | inr (chosen, at) ↦
          let (i, listed) = axum.select_listed build_router request chosen at in
          rw (respond, at) (All-get_elem? Same build_router i chosen routes-Same listed)
    ]

module _ (axum : Axum) (variable : Option (List ℕ)) where
  -- What answers a request for a route that stands in the router once.
  respond-only :
      (before after : List Route) (request : Request) (route : Route) (state : AppState)
      → build_router ≡ before ++ route ∷ after
      → Fits request route
      → All (λ r. ¬ (Fits request r)) before
      → All (λ r. ¬ (Fits request r)) after
      → respond axum variable request state ≡ enter axum variable route request state
  unfolding respond
  respond-only before after request route state listed fits not_before not_after =
      let chosen : axum.select build_router request ≡ some route =
        ap (λ routes. axum.select routes request) listed
        ∙ axum.select_only before after request route fits not_before not_after in
      rw (respond, chosen) refl

  -- Routes for other paths.
  elsewhere :
      (request : Request) (path : List ℕ) (routes : List Route)
      → request.path ≡ path
      → All (λ r. text_eq r.path path ≡ false) routes
      → All (λ r. ¬ (Fits request r)) routes
  elsewhere request path routes same =
      All-weaken (λ r. text_eq r.path path ≡ false) (λ r. ¬ (Fits request r))
        (λ r h (fits, method). differ r.path path h (fits ∙ same)) routes

  respond-login :
      (request : Request) (state : AppState)
      → request.path ≡ codes "/login"
      → request.method ≡ post
      → respond axum variable request state ≡ okay (call axum variable login_handler request state)
  unfolding build_router enter call
  respond-login request state path method =
      let before = route (codes "/health") get health_handler ∷ [] in
      respond-only before protected request (route (codes "/login") post login_handler) state refl
        (sym path, sym method) (elsewhere request (codes "/login") before path (refl, tt))
        (elsewhere request (codes "/login") protected path (refl, (refl, (refl, tt))))

  respond-alerts :
      (request : Request) (state : AppState)
      → request.path ≡ codes "/alerts"
      → request.method ≡ get
      → respond axum variable request state
        ≡ require_auth variable request.authorization
            (call axum variable alerts_handler request state)
  unfolding build_router enter call
  respond-alerts request state path method =
      let before =
        route (codes "/health") get health_handler
        ∷ route (codes "/login") post login_handler
        ∷ route_layer (route (codes "/stats") get stats_handler ∷ []) in
      let after = route_layer (route (codes "/rules") get rules_handler ∷ []) in
      respond-only before after request
        (record (route (codes "/alerts") get alerts_handler) { guarded = true }) state refl
        (sym path, sym method)
        (elsewhere request (codes "/alerts") before path (refl, (refl, (refl, tt))))
        (elsewhere request (codes "/alerts") after path (refl, tt))

  -- The answers to a login and to a later request for the alerts.
  abbrev Admitted : Request → Request → AppState → AppState → Option ℕ → Type 0
  Admitted login_request request state later limit =
      (respond axum variable login_request state ≡ okay (login_reply (200, record { ok = true })))
      × (respond axum variable request later ≡ okay (alerts_reply (alerts limit later)))

  abbrev Refused : Request → Request → AppState → AppState → Type 0
  Refused login_request request state later =
      (respond axum variable login_request state ≡ okay (login_reply (401, record { ok = false })))
      × (respond axum variable request later
          ≡ unauthorized (codes "missing or invalid bearer token"))

  -- The login tells whether a token opens the alerts. If a client posts a token to `/login`, and at any
  -- later state gets `/alerts` with that token as its bearer token and a query that axum can read, then
  -- either the login answers 200 and the request gets the alerts of that state up to the query's
  -- limit, or the login answers 401 and the request is answered "missing or invalid bearer token".
  pub login-alerts :
      (login_request request : Request) (body : LoginRequest) (q : AlertsQuery)
      (state later : AppState)
      → login_request.path ≡ codes "/login"
      → login_request.method ≡ post
      → axum.json login_request.body ≡ some body
      → request.path ≡ codes "/alerts"
      → request.method ≡ get
      → request.authorization ≡ some (codes "Bearer " ++ body.token)
      → axum.query request.query ≡ some q
      → Admitted login_request request state later q.limit
        ⊎ Refused login_request request state later
  unfolding call require_auth
  login-alerts login_request request body q state later path method read path' method' bearer
        read' =
      let logged = respond-login login_request state path method in
      let answered = respond-alerts request later path' method' in
      let header = codes "Bearer " ++ body.token in
      let replied : call axum variable login_handler login_request state
          ≡ login_reply (login variable body.token) =
        rw (call, read) refl in
      let listed : call axum variable alerts_handler request later
          ≡ alerts_reply (alerts q.limit later) =
        rw (call, read') refl in
      let guarded =
        answered
        ∙ ap (λ h. require_auth variable h (call axum variable alerts_handler request later)) bearer
        ∙ ap (require_auth variable (some header)) listed in
      elim (Bool-cases (is_authorized variable (some header))) [
        | inl right ↦ inl (
          logged
              ∙ ap okay (
                  replied
                  ∙ ap login_reply (login-require_auth variable body.token ∙ rw right refl)),
          guarded ∙ rw (require_auth, right) refl,
        )
        | inr wrong ↦ inr (
          logged
              ∙ ap okay (
                  replied
                  ∙ ap login_reply (login-require_auth variable body.token ∙ rw wrong refl)),
          guarded ∙ rw (require_auth, wrong) refl,
        )
      ]
