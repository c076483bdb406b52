-- ===== src/Api.antt =====
-- engine/src/api.rs: the token check, the login, the handlers over the shared state, and the rule list. The token
-- of the environment variable is an argument; a header value that is no text is `none`.
pub mod Answers
pub mod Listing
pub mod Floods
pub mod Payloads
pub mod Router
use telemetry_threat_engine.Base.{
  ℕ, min, Bool, true, false, List, [], ◌∷◌, ◌++◌, Option, none, some, reverse, take, if◌then◌else◌,
}
use telemetry_threat_engine.Base.Text.{codes, text_eq}
use telemetry_threat_engine.Models.{Alert}
use telemetry_threat_engine.Pipeline.{AppState}

-- `expected_token`.
abbrev pub expected_token : Option (List ℕ) → List ℕ
expected_token none = codes "dev-token-change-me"
expected_token (some token) = token

-- What `require_auth` makes of a request: the answer of the inner handler, or a 401.
pub data Response {ℓ} (A : Type ℓ) : Type ℓ where
  okay : A → Response A
  unauthorized : List ℕ → Response A

-- The test of the `Authorization` header.
unfoldable pub is_authorized : Option (List ℕ) → Option (List ℕ) → Bool
is_authorized variable none = false
is_authorized variable (some value) = text_eq value (codes "Bearer " ++ expected_token variable)

unfoldable pub require_auth {ℓ} : {A : Type ℓ} → Option (List ℕ) → Option (List ℕ) → A → Response A
unfolding is_authorized
require_auth variable header answer =
    if is_authorized variable header
    then okay answer
    else unauthorized (codes "missing or invalid bearer token")

pub record LoginResponse : Type 0 where
  pub ok : Bool

-- The handler `login`, with the status of its answer.
unfoldable pub login : Option (List ℕ) → List ℕ → ℕ × LoginResponse
login variable token =
    if text_eq token (expected_token variable)
    then (200, record { ok = true })
    else (401, record { ok = false })

pub record HealthResponse : Type 0 where
  pub status : List ℕ
  pub events_processed : ℕ
  pub events_dropped : ℕ

-- The handler `health`.
unfoldable pub health : AppState → HealthResponse
health state = record {
  status = codes "ok";
  events_processed = state.stats.events_processed;
  events_dropped = state.stats.events_dropped;
}

pub record StatsResponse : Type 0 where
  pub events_processed : ℕ
  pub events_dropped : ℕ
  pub alerts_fired : ℕ
  pub queue_backpressure_events : ℕ

-- The handler `stats`.
unfoldable pub stats : AppState → StatsResponse
stats state = record {
  events_processed = state.stats.events_processed;
  events_dropped = state.stats.events_dropped;
  alerts_fired = state.stats.alerts_fired;
  queue_backpressure_events = state.stats.events_dropped;
}

abbrev pub limit_or_default : Option ℕ → ℕ
limit_or_default none = 200
limit_or_default (some limit) = limit

-- The handler `alerts`.
unfoldable pub alerts : Option ℕ → AppState → List Alert
alerts limit state = take (min (limit_or_default limit) 5000) (reverse state.alerts)

pub record RuleSummary : Type 0 where
  pub name : List ℕ
  pub detector : List ℕ
  pub description : List ℕ

-- The handler `rules`.
abbrev pub rules : List RuleSummary
rules =
    record {
      name = codes "path-traversal-passwd";
      detector = codes "signature";
      description = codes "Aho-Corasick match on '/etc/passwd' in payload sample";
    }
    ∷ record {
      name = codes "sql-injection-union";
      detector = codes "signature";
      description = codes "Aho-Corasick match on 'UNION SELECT' in payload sample";
    }
    ∷ record {
      name = codes "syn-flood-anomaly";
      detector = codes "anomaly";
      description =
          codes "Count-Min Sketch estimated SYN count per source exceeds threshold within window";
    }
    ∷ record {
      name = codes "port-scan-anomaly";
      detector = codes "anomaly";
      description =
          codes
            "HyperLogLog estimated distinct destination ports per source exceeds threshold within window";
    }
    ∷ record {
      name = codes "probe-then-exploit-attempt";
      detector = codes "cep";
      description =
          codes
            "NFA sequence: SYN probe followed by known-bad payload from same source within 5s window";
    }
    ∷ []
