-- ===== src/Sentinel/Doctor/Remote.antt =====
-- internal/sentinel/doctor/remote.go: the token and its permissions, by one request to /auth/check.
use gno_watchtower.Base.{
  ℕ, String, Bool, true, false, ◌&&◌, ◌||◌, not, Option, none, some, List, [], ◌∷◌, ◌++◌, ◌==◌,
  cut_prefix, append_text, join, format_int, pos, if◌then◌else◌,
}
use gno_watchtower.Beacon.Config.{is_placeholder}
use gno_watchtower.Sentinel.Config.{Config, NoiseResult, no_noise, noise, key_error, contains}
use gno_watchtower.Sentinel.Doctor.{CheckResult, AuthResponse, result, green, red, orange}

abbrev pub unconfigured : String → List CheckResult
unconfigured detail =
    result "Watchtower" orange detail
    ∷ result "Token valid" orange detail
    ∷ result "Token permissions" orange detail
    ∷ []

unfoldable pub unreachable : String → List CheckResult
unreachable reason =
    result "Watchtower" red (append_text "unreachable: " reason)
    ∷ result "Token valid" red "cannot check: watchtower unreachable"
    ∷ result "Token permissions" red "cannot check: watchtower unreachable"
    ∷ []

abbrev pub missing_if : Bool → String → List String
missing_if true permission = permission ∷ []
missing_if false permission = []

abbrev pub lacks : AuthResponse → Bool → String → Bool
lacks ar enabled permission = enabled && not (contains ar.permissions permission)

unfoldable pub missing_permissions : Config → AuthResponse → List String
missing_permissions c ar =
    missing_if (lacks ar c.rpc.enabled "rpc") "rpc"
    ++ (missing_if (lacks ar (c.resources.enabled || c.metadata.enabled) "metrics") "metrics"
        ++ (missing_if (lacks ar c.logs.enabled "logs") "logs"
            ++ missing_if (lacks ar c.otlp.enabled "otlp") "otlp"))

abbrev pub permission_result : AuthResponse → List String → CheckResult
permission_result ar [] =
    result "Token permissions" green (append_text "granted: " (join ", " ar.permissions))
permission_result ar (p ∷ ps) =
    result "Token permissions" red
      (append_text "missing permissions for enabled features: " (join ", " (p ∷ ps)))

unfoldable pub check_permissions : Config → AuthResponse → CheckResult
check_permissions c ar = permission_result ar (missing_permissions c ar)

-- The URL of the request; its client dials with Noise in the last case. An error has a text.
pub data Client : Type 0 where
  no_client : String → Client
  plain_client noise_client : String → Client

module _ {K P : Type 0} (key_error_text : String) where
  abbrev pub noise_route : String → NoiseResult K P → Client
  noise_route rest key_error = no_client (append_text "noise config: " key_error_text)
  noise_route rest no_noise =
      no_client "server.url is noise:// but no beacon keypair was configured"
  noise_route rest (noise cfg) =
      noise_client (append_text "http://" (append_text rest "/auth/check"))

  abbrev pub route_of : String → Option String → NoiseResult K P → Client
  route_of url none cfg = plain_client (append_text url "/auth/check")
  route_of url (some rest) cfg = noise_route rest cfg

  -- `noise_cfg` is what `NoiseConfig` returns.
  unfoldable pub build_auth_check_client : Config → NoiseResult K P → Client
  build_auth_check_client c noise_cfg =
      route_of c.server.url (cut_prefix c.server.url "noise://") noise_cfg

-- A body, or the text of the decoder's error.
pub data Body : Type 0 where
  undecoded : String → Body
  decoded : AuthResponse → Body

-- What a request comes to: it is not built or not answered, or a status with a body.
pub data Answer : Type 0 where
  no_request no_answer : String → Answer
  answered : ℕ → Body → Answer

abbrev pub reachable : Config → CheckResult
reachable c = result "Watchtower" green c.server.url

abbrev pub judge_body : Config → Body → List CheckResult × Option AuthResponse
judge_body c (undecoded e) = (
  reachable c
      ∷ result "Token valid" red (append_text "decode auth response: " e)
      ∷ result "Token permissions" red "cannot check: auth response invalid"
      ∷ [],
  none,
)
judge_body c (decoded ar) = (
  reachable c
      ∷ result "Token valid" green (append_text "validator: " ar.validator)
      ∷ check_permissions c ar
      ∷ [],
  some ar,
)

abbrev pub judge_answer : Config → Answer → List CheckResult × Option AuthResponse
judge_answer c (no_request e) = (unreachable (append_text "build request: " e), none)
judge_answer c (no_answer e) = (unreachable e, none)
judge_answer c (answered status body) = if status == 200 then judge_body c body else (
  reachable c
      ∷ result "Token valid" red (append_text "auth/check returned HTTP " (format_int (pos status)))
      ∷ result "Token permissions" red "cannot check: token invalid"
      ∷ [],
  none,
)

module _ {K P : Type 0} (key_error_text : String) (noise_cfg : NoiseResult K P)
    (request : Client → String → Answer) where
  abbrev pub with_client : Config → Client → List CheckResult × Option AuthResponse
  with_client c (no_client e) = (unreachable e, none)
  with_client c client = judge_answer c (request client (append_text "Bearer " c.server.token))

  -- The results, and the response if there is one.
  unfoldable pub check_remote_token_and_permissions :
      Config → List CheckResult × Option AuthResponse
  check_remote_token_and_permissions c =
      if is_placeholder c.server.url
      then (unconfigured "server.url not configured", none)
      else if is_placeholder c.server.token
      then (unconfigured "server.token not configured", none)
      else with_client c (build_auth_check_client key_error_text c noise_cfg)
