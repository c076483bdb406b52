-- ===== src/Api/Router.antt =====
-- `build_router` of engine/src/api.rs: its routes and what answers each of them. The dispatch of axum,
-- and its extractors of a JSON body and of a query, are parameters.
pub mod Access
use telemetry_threat_engine.Base.{
  ℕ, Bool, true, false, List, [], ◌∷◌, ◌++◌, Option, none, some, map, get_elem?, if◌then◌else◌, ◌≡◌,
  ◌⊎◌, ◌≢◌, All,
}
use telemetry_threat_engine.Base.Text.{codes}
use telemetry_threat_engine.Models.{Alert}
use telemetry_threat_engine.Pipeline.{AppState}
use telemetry_threat_engine.Api.{
  Response, okay, require_auth, LoginResponse, login, HealthResponse, health, StatsResponse, stats,
  alerts, RuleSummary, rules,
}

pub record LoginRequest : Type 0 where
  pub token : List ℕ

pub record AlertsQuery : Type 0 where
  pub limit : Option ℕ

pub data Method : Type 0 where
  get : Method
  post : Method
  other : List ℕ → Method

pub record Request : Type 0 where
  pub method : Method
  pub path : List ℕ
  pub authorization : Option (List ℕ)
  pub query : List ℕ
  pub body : List ℕ

pub data Handler : Type 0 where
  health_handler : Handler
  login_handler : Handler
  stats_handler : Handler
  alerts_handler : Handler
  rules_handler : Handler

-- `guarded` is the middleware `require_auth`.
pub record Route : Type 0 where
  pub path : List ℕ
  pub method : Method
  pub handler : Handler
  pub guarded : Bool

-- Whether a route is for a request.
abbrev pub Fits : Request → Route → Type 0
Fits request route = (route.path ≡ request.path) × (route.method ≡ request.method)

-- axum calls only routes of the router, and the route for the path and the method if there is just one.
pub record Axum : Type 0 where
  pub select : List Route → Request → Option Route
  pub json : List ℕ → Option LoginRequest
  pub query : List ℕ → Option AlertsQuery
  pub select_listed :
      (routes : List Route) (request : Request) (route : Route)
      → select routes request ≡ some route
      → (i : ℕ) × (get_elem? routes i ≡ some route)
  pub select_only :
      (before after : List Route) (request : Request) (route : Route)
      → Fits request route
      → All (λ r. ¬ (Fits request r)) before
      → All (λ r. ¬ (Fits request r)) after
      → select (before ++ route ∷ after) request ≡ some route

-- The body of an answer; axum itself answers what no handler is called for.
pub data Reply : Type 0 where
  health_reply : HealthResponse → Reply
  login_reply : ℕ × LoginResponse → Reply
  stats_reply : StatsResponse → Reply
  alerts_reply : List Alert → Reply
  rules_reply : List RuleSummary → Reply
  by_axum : Reply

-- `.route(path, method(handler))`, and `.route_layer(middleware::from_fn(require_auth))`.
abbrev route : List ℕ → Method → Handler → Route
route path method handler = record {
  path = path;
  method = method;
  handler = handler;
  guarded = false;
}

abbrev route_layer : List Route → List Route
route_layer routes = map (λ (r : Route). record r { guarded = true }) routes

abbrev protected : List Route
protected = route_layer (
    route (codes "/stats") get stats_handler
    ∷ route (codes "/alerts") get alerts_handler
    ∷ route (codes "/rules") get rules_handler
    ∷ [])

unfoldable pub build_router : List Route
build_router =
    route (codes "/health") get health_handler
    ∷ route (codes "/login") post login_handler
    ∷ protected

module _ (axum : Axum) (variable : Option (List ℕ)) where
  -- A handler, after its extractors.
  unfoldable pub call : Handler → Request → AppState → Reply
  unfolding health login stats alerts
  call health_handler request state = health_reply (health state)
  call login_handler request state = elim (axum.json request.body) [
    | none ↦ by_axum
    | some body ↦ login_reply (login variable body.token)
  ]
  call stats_handler request state = stats_reply (stats state)
  call alerts_handler request state = elim (axum.query request.query) [
    | none ↦ by_axum
    | some q ↦ alerts_reply (alerts q.limit state)
  ]
  call rules_handler request state = rules_reply rules

  unfoldable pub enter : Route → Request → AppState → Response Reply
  unfolding call require_auth
  enter route request state =
      let reply = call route.handler request state in
      if route.guarded then require_auth variable request.authorization reply else okay reply

  -- What the router answers.
  unfoldable pub respond : Request → AppState → Response Reply
  unfolding enter build_router
  respond request state = elim (axum.select build_router request) [
    | none ↦ okay by_axum
    | some route ↦ enter route request state
  ]
