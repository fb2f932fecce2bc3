-- ===== src/Sentinel/Doctor/Checks.antt =====
-- internal/sentinel/doctor/run.go: the checks in their order, and the exit code.
use gno_watchtower.Base.{
  ℕ, String, Bool, false, not, Option, none, some, List, [], ◌∷◌, ◌++◌, str_eq, ltb, append_text,
  if◌then◌else◌,
}
use gno_watchtower.Sentinel.Config.{
  Config, NoiseResult, MetadataConfig, ResourcesConfig, contains, log_sources,
}
use gno_watchtower.Sentinel.Logs.{level_rank}
use gno_watchtower.Sentinel.Doctor.{
  CheckResult, AuthResponse, result, green, red, orange, grey, has_red,
}
use gno_watchtower.Sentinel.Doctor.Remote.{Client, Answer, check_remote_token_and_permissions}

-- What the probes of the enabled features return.
pub record Probed : Type 0 where
  pub quoted : String → String  -- `%q`
  pub metadata : MetadataConfig → CheckResult
  pub logs : String → CheckResult  -- `CheckLogs`, for a minimum level
  pub otlp : String → CheckResult  -- `CheckOTLP`, for an address
  pub resources : ResourcesConfig → CheckResult

-- `ar != nil && !slices.Contains(ar.Permissions, permission)`
abbrev pub denied : Option AuthResponse → String → Bool
denied none permission = false
denied (some ar) permission = not (contains ar.permissions permission)

-- The guards that the checks begin with.
abbrev pub guarded : String → Bool → Option AuthResponse → String → CheckResult → CheckResult
guarded name enabled ar permission rest =
    if not enabled
    then result name orange "disabled in config"
    else if denied ar permission
    then result name grey (append_text permission " permission not granted")
    else rest

unfoldable pub metadata_check : Probed → Config → Option AuthResponse → CheckResult
metadata_check p c ar =
    guarded "Metadata config" c.metadata.enabled ar "metrics" (p.metadata c.metadata)

-- The higher of the two levels.
abbrev pub effective_level : String → Option AuthResponse → String
effective_level level none = level
effective_level level (some ar) =
    if ltb (level_rank level) (level_rank ar.logs_min_level) then ar.logs_min_level else level

abbrev pub invalid_source : Probed → String → CheckResult
invalid_source p source = result "Logs" red (
    append_text "invalid source config: unknown log source "
      (append_text (p.quoted source) ": must be docker or journald"))

unfoldable pub logs_check : Probed → Config → Option AuthResponse → CheckResult
logs_check p c ar = guarded "Logs" c.logs.enabled ar "logs" (
    if contains log_sources c.logs.source
    then p.logs (effective_level c.logs.min_level ar)
    else invalid_source p c.logs.source)

unfoldable pub otlp_check : Probed → Config → Option AuthResponse → CheckResult
otlp_check p c ar = guarded "OTLP" c.otlp.enabled ar "otlp" (p.otlp c.otlp.listen_addr)

unfoldable pub resources_check : Probed → Config → Option AuthResponse → CheckResult
resources_check p c ar =
    guarded "Resources" c.resources.enabled ar "metrics" (p.resources c.resources)

unfoldable pub rpc_check : Config → Option AuthResponse → CheckResult
rpc_check c ar = guarded "RPC" c.rpc.enabled ar "rpc" (
    if str_eq c.rpc.rpc_url ""
    then result "RPC" red "rpc_url not set"
    else result "RPC" green (append_text "configured: " c.rpc.rpc_url))

unfoldable pub health_check : Config → CheckResult
health_check c =
    if not c.health.enabled
    then result "Health" orange "disabled in config"
    else if str_eq c.health.listen_addr ""
    then result "Health" red "listen_addr not set"
    else result "Health" green (append_text "configured: " c.health.listen_addr)

abbrev pub results : Probed → Config → List CheckResult × Option AuthResponse → List CheckResult
results p c (remote, ar) =
    remote
    ++ metadata_check p c ar
      ∷ logs_check p c ar
      ∷ otlp_check p c ar
      ∷ resources_check p c ar
      ∷ rpc_check c ar
      ∷ health_check c
      ∷ []

abbrev pub exit_code : List CheckResult → ℕ
exit_code rs = if has_red rs then 1 else 0

-- `Run`: what it prints, and the exit code.
module _ {K P : Type 0} (key_error_text : String) (noise_cfg : NoiseResult K P)
    (request : Client → String → Answer) (p : Probed) where
  unfoldable pub run : Config → List CheckResult × ℕ
  run c =
      let remote = check_remote_token_and_permissions key_error_text noise_cfg request c in
      (results p c remote, exit_code (results p c remote))
