-- ===== src/Watchtower/Handlers.antt =====
-- internal/watchtower/handlers/handlers.go: the chain of a request, from the ban check to the forward.
-- Parameters: the limiter (of `RateLimit`), what `forward` returns for a body, which is the forwarder's
-- answer, and what reading a body comes to. Paths are clean, so that the mux does not redirect.
pub mod Pipeline
pub mod Routes
pub mod Credit
mod Examples
use gno_watchtower.Base.{
  ℕ, String, Bool, true, false, Option, none, some, List, [], ◌∷◌, ◌++◌, ◌&&◌, ◌||◌, str_eq, leb,
  length, if◌then◌else◌,
}
use gno_watchtower.Watchtower.Config.{ValidatorConfig}
use gno_watchtower.Watchtower.Auth
use gno_watchtower.Watchtower.Auth.{Authenticator, middleware}
use gno_watchtower.Watchtower.RateLimit
use gno_watchtower.Watchtower.RateLimit.{Limiter, limit}
use gno_watchtower.Watchtower.Stats.{Data, add}

-- `50 << 20`
abbrev pub max_body_bytes : ℕ
max_body_bytes = 52428800

-- A call of the metrics package.
pub data Event : Type 0 where
  permission_denied : String → String → Event
  received : String → String → ℕ → Event

pub record Server (L : Type 0) : Type 0 where
  pub auth : Authenticator
  pub rl : Limiter L
  pub stats : Data
  pub metrics : List Event

-- The bytes of a body.
abbrev pub Body : Type 0
Body = List ℕ

-- A request: what the mux reads of it, what the authenticator reads, and its body, or `none` if the
-- body cannot be read to its end.
pub record Request : Type 0 where
  pub method : String
  pub credentials : Auth.Request
  pub body : Option Body

-- A response: its status, and the payload that was forwarded for it: permission, validator, minimum
-- level and body.
pub record Response : Type 0 where
  pub status : ℕ
  pub forwarded : Option (String × String × String × Body)

abbrev pub only : ℕ → Response
only status = record { status = status; forwarded = none }

-- Where the outer mux sends a request.
pub data Route : Type 0 where
  health metrics_page protected : Route

abbrev pub is_get : String → Bool
is_get method = str_eq method "GET" || str_eq method "HEAD"

unfoldable pub outer_route : String → String → Route
outer_route method path =
    if is_get method && str_eq path "/health"
    then health
    else if is_get method && str_eq path "/metrics"
    then metrics_page
    else protected

-- Where the inner mux sends it: a payload handler by its permission, the auth check, or an error.
pub data Inner : Type 0 where
  payload : String → Inner
  auth_check : Inner
  no_route : ℕ → Inner

abbrev pub payload_route : String → String → Inner
payload_route method perm = if str_eq method "POST" then payload perm else no_route 405

unfoldable pub inner_route : String → String → Inner
inner_route method path =
    if str_eq path "/rpc"
    then payload_route method "rpc"
    else if str_eq path "/metrics"
    then payload_route method "metrics"
    else if str_eq path "/logs"
    then payload_route method "logs"
    else if str_eq path "/otlp"
    then payload_route method "otlp"
    else if str_eq path "/auth/check"
    then if is_get method then auth_check else no_route 405
    else no_route 404

abbrev pub contains : List String → String → Bool
contains [] p = false
contains (q ∷ qs) p = str_eq q p || contains qs p

-- The minimum level is what `handleLogs` alone passes on.
abbrev pub level_for : String → ValidatorConfig → String
level_for perm cfg = if str_eq perm "logs" then cfg.logs_min_level else ""

module _ {L : Type 0} (forward : String → String → String → Body → Bool) where
  -- From the forward on, for a body that was read.
  abbrev pub after_read : Server L → String → ValidatorConfig → String → Body → Server L × Response
  after_read s validator cfg perm bytes =
      let call = some (perm, validator, level_for perm cfg, bytes) in
      if forward perm validator (level_for perm cfg) bytes
      then (
        record s {
          stats = add validator perm (length bytes) s.stats;
          metrics = s.metrics ++ received validator perm (length bytes) ∷ [];
        },
        record { status = 200; forwarded = call },
      )
      else (s, record { status = 502; forwarded = call })

  abbrev pub read_body :
      Server L → String → ValidatorConfig → String → Option Body → Server L × Response
  read_body s validator cfg perm none = (s, only 400)
  read_body s validator cfg perm (some bytes) =
      if leb (length bytes) max_body_bytes
      then after_read s validator cfg perm bytes
      else (s, only 400)

  unfoldable pub handle_payload :
      Server L → String → ValidatorConfig → String → Option Body → Server L × Response
  handle_payload s validator cfg perm body =
      if contains cfg.permissions perm
      then read_body s validator cfg perm body
      else (record s { metrics = s.metrics ++ permission_denied validator perm ∷ [] }, only 403)

  unfoldable pub serve_inner :
      Server L → String → ValidatorConfig → Option Body → Inner → Server L × Response
  unfolding handle_payload
  serve_inner s validator cfg body (payload perm) = handle_payload s validator cfg perm body
  serve_inner s validator cfg body auth_check = (s, only 200)
  serve_inner s validator cfg body (no_route status) = (s, only status)

  module _ (fresh : L) (allow_one : L → ℕ → L × Bool) where
    abbrev pub after_limit :
        Server L
        → String
        → ValidatorConfig
        → Request
        → Limiter L × RateLimit.Verdict
        → Server L × Response
    after_limit s name cfg r (rl, RateLimit.refused status after) =
        (record s { rl = rl }, only status)
    after_limit s name cfg r (rl, RateLimit.next) =
        serve_inner (record s { rl = rl }) name cfg r.body (inner_route r.method r.credentials.path)

    abbrev pub after_auth :
        Server L → ℕ → Request → Authenticator × Auth.Verdict → Server L × Response
    after_auth s now r (auth, Auth.rejected status line) = (record s { auth = auth }, only status)
    after_auth s now r (auth, Auth.passed name cfg) =
        after_limit (record s { auth = auth }) name cfg r
          (limit fresh allow_one s.rl now (some name))

    abbrev pub serve_route : Server L → ℕ → ℕ → ℕ → Request → Route → Server L × Response
    serve_route s now later at r health = (s, only 200)
    serve_route s now later at r metrics_page = (s, only 200)
    serve_route s now later at r protected =
        after_auth s at r (middleware s.auth now later r.credentials)

    -- `Handler`, at the instants at which the ban check, the record of a failure and the limiter run.
    unfoldable pub handle : Server L → ℕ → ℕ → ℕ → Request → Server L × Response
    handle s now later at r = serve_route s now later at r (outer_route r.method r.credentials.path)
