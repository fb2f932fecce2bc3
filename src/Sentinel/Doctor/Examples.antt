-- ===== src/Sentinel/Doctor/Examples.antt =====
-- A doctor's run on a sentinel that posts logs and its own metrics.
use gno_watchtower.Base.{ℕ, String, true, false, List, [], ◌∷◌, ◌≡◌, refl, cut_prefix, append_text}
use gno_watchtower.Beacon.Config.{is_placeholder}
use gno_watchtower.Sentinel.Config.{Config, NoiseResult, no_noise, contains}
use gno_watchtower.Sentinel.Config.Defaults.{default_config}
use gno_watchtower.Sentinel.Logs.{level_rank}
use gno_watchtower.Sentinel.Doctor.{AuthResponse, result, green, has_red}
use gno_watchtower.Sentinel.Doctor.Remote.{
  Client, Answer, answered, decoded, missing_permissions, check_permissions,
  build_auth_check_client, check_remote_token_and_permissions,
}
use gno_watchtower.Sentinel.Doctor.Probes.{Line, check_logs, judge_logs, tally, check_otlp, export}
use gno_watchtower.Sentinel.Doctor.Checks.{
  Probed, metadata_check, logs_check, otlp_check, resources_check, rpc_check, health_check, run,
}
use gno_watchtower.Sentinel.Doctor.Granted.{Authorized, run-Authorized}

abbrev config : Config
config = record default_config {
  server = record { url = "https://tower"; token = "t0" };
  rpc = record default_config.rpc { enabled = false };
  otlp = record { enabled = false; listen_addr = "" };
  resources = record default_config.resources { enabled = false };
  metadata = record default_config.metadata { enabled = false };
}

abbrev response : AuthResponse
response = record { validator = "v"; permissions = "logs" ∷ []; logs_min_level = "warn" }

abbrev request : Client → String → Answer
request client credentials = answered 200 (decoded response)

abbrev no_keys : NoiseResult ℕ ℕ
no_keys = no_noise

abbrev lines : List Line
lines = record { level = "info"; valid = true } ∷ record { level = "error"; valid = true } ∷ []

abbrev probed : Probed
probed = record {
  quoted = λ source. source;
  metadata = λ c. result "Metadata config" green "";
  logs = λ level. check_logs level lines;
  otlp = λ addr. check_otlp addr export;
  resources = λ c. result "Resources" green "";
}

url-set : is_placeholder config.server.url ≡ false
unfolding is_placeholder
url-set = refl

token-set : is_placeholder config.server.token ≡ false
unfolding is_placeholder
token-set = refl

-- The sentinel's own metrics are enabled, and the token does not permit metrics.
doctor-content : (run "" no_keys request probed config).1 ≡ 0
unfolding run has_red check_remote_token_and_permissions is_placeholder build_auth_check_client
    cut_prefix check_permissions missing_permissions contains metadata_check logs_check check_logs
    judge_logs tally level_rank otlp_check resources_check rpc_check health_check
doctor-content = refl

run-Authorized_example : Authorized config (
    request (build_auth_check_client "" config no_keys) (append_text "Bearer " config.server.token))
run-Authorized_example =
    run-Authorized "" no_keys request probed config url-set token-set doctor-content

one-above : (check_logs "warn" lines).status ≡ green
unfolding check_logs judge_logs tally level_rank
one-above = refl
