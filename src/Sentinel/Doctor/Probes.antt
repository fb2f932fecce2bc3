-- ===== src/Sentinel/Doctor/Probes.antt =====
-- internal/sentinel/doctor: logs.go, otlp.go, metadata.go and resources.go, the probes of what is enabled.
use gno_watchtower.Base.{
  ℕ, suc, ◌+◌, String, Bool, true, false, ◌&&◌, ◌||◌, Option, none, some, List, [], ◌∷◌, ◌++◌,
  str_eq, leb, ltb, ◌==◌, length, append_text, join, format_int, pos, if◌then◌else◌,
}
use gno_watchtower.Beacon.Config.{is_placeholder}
use gno_watchtower.Sentinel.Config.{MetadataConfig, ResourcesConfig}
use gno_watchtower.Sentinel.Logs.{level_rank}
use gno_watchtower.Sentinel.Metadata.{Host, read_config_key, run_cmd, replace_key, config_keys}
use gno_watchtower.Sentinel.Doctor.{CheckResult, result, green, red, orange}

abbrev pub number : ℕ → String
number n = format_int (pos n)

-- A line that the source gave within the three seconds: its level, and whether it is valid JSON.
pub record Line : Type 0 where
  pub level : String
  pub valid : Bool

pub record Tally : Type 0 where
  pub total : ℕ
  pub invalid_json : ℕ
  pub at_level : ℕ

abbrev pub one_if : Bool → ℕ
one_if true = 1
one_if false = 0

abbrev pub zero_if : Bool → ℕ
zero_if true = 0
zero_if false = 1

unfoldable pub tally : String → Tally → List Line → Tally
tally min_level t [] = t
tally min_level t (l ∷ ls) =
    tally min_level
      (record {
        total = suc t.total;
        invalid_json = t.invalid_json + zero_if l.valid;
        at_level = t.at_level + one_if (leb (level_rank min_level) (level_rank l.level));
      })
      ls

unfoldable pub judge_logs : String → Tally → CheckResult
judge_logs min_level t =
    if t.total == 0
    then result "Logs" red "no lines received in 3s"
    else if ltb 0 t.invalid_json
    then result "Logs" red (
        append_text (number t.invalid_json)
          (append_text "/" (append_text (number t.total) " lines are not valid JSON")))
    else if t.at_level == 0
    then result "Logs" red (
        append_text (number t.total)
          (append_text " lines received but none at " (append_text min_level " or above")))
    else result "Logs" green (
        append_text (number t.total) (
          append_text " valid JSON lines, " (
            append_text (number t.at_level)
              (append_text " at " (append_text min_level "+ in 3s")))))

unfoldable pub check_logs : String → List Line → CheckResult
check_logs min_level lines =
    judge_logs min_level
      (tally min_level (record { total = 0; invalid_json = 0; at_level = 0 }) lines)

-- What becomes of the listening address within its time: the port is taken, it cannot be listened on,
-- an export arrives, none does, or the context ends.
pub data Listening : Type 0 where
  taken export no_export : Listening
  no_listener ended : String → Listening

unfoldable pub check_otlp : String → Listening → CheckResult
check_otlp addr taken = result "OTLP" green (append_text "relay reachable on " addr)
check_otlp addr (no_listener e) =
    result "OTLP" red (append_text "listen " (append_text addr (append_text ": " e)))
check_otlp addr export = result "OTLP" green (append_text "export received on " addr)
check_otlp addr no_export = result "OTLP" red (append_text "no export received in 3s on " addr)
check_otlp addr (ended e) = result "OTLP" red (append_text "check cancelled: " e)

abbrev pub one_if_some : Option String → ℕ
one_if_some none = 0
one_if_some (some v) = 1

-- The keys that can be read.
unfoldable pub count_found : Host → String → List String → ℕ
count_found host path [] = 0
count_found host path (key ∷ keys) =
    let rest = count_found host path keys in one_if_some (read_config_key host path key) + rest

abbrev pub cmd_result : String → Option String → CheckResult
cmd_result e none = result "Metadata config" red e
cmd_result e (some out) = result "Metadata config" green "cmd accessible"

-- `open_error` is the text of the error with which a file is not opened, `cmd_error` that of a command.
module _ (host : Host) (open_error : String → Option String) (cmd_error : String → String) where
  abbrev pub opened : String → Option String → CheckResult
  opened path (some e) = result "Metadata config" red e
  opened path none = result "Metadata config" green (
      append_text (number (count_found host path config_keys))
        (append_text "/" (append_text (number (length config_keys)) " keys found")))

  abbrev pub check_cmd : String → CheckResult
  check_cmd cmd = cmd_result (cmd_error cmd) (run_cmd host cmd)

  unfoldable pub check_metadata_config : MetadataConfig → CheckResult
  check_metadata_config c =
      if str_eq c.config_path "" && str_eq c.config_get_cmd ""
      then result "Metadata config" orange "not configured"
      else if str_eq c.config_path ""
      then check_cmd (replace_key "application.prune_strategy" c.config_get_cmd)
      else if is_placeholder c.config_path
      then result "Metadata config" orange "config_path not configured"
      else opened c.config_path (open_error c.config_path)

-- The four readings of the host, and that of the container: `none`, or the text of an error.
pub record Stats : Type 0 where
  pub cpu : Option String
  pub memory : Option String
  pub disk : Option String
  pub network : Option String
  pub container : Option String

abbrev pub labelled : String → Option String → Option String → Option String
labelled label none rest = rest
labelled label (some e) rest = some (append_text label e)

unfoldable pub check_host_stats : Stats → Option String
check_host_stats s =
    labelled "cpu: " s.cpu (
      labelled "memory: " s.memory (labelled "disk: " s.disk (labelled "network: " s.network none)))

abbrev pub error_if : Bool → String → Option String → List String
error_if true label (some e) = append_text label e ∷ []
error_if _ label _ = []

abbrev pub resources_result : String → List String → CheckResult
resources_result source [] =
    result "Resources" green (append_text "source=" (append_text source " OK"))
resources_result source (e ∷ es) = result "Resources" red (join "; " (e ∷ es))

unfoldable pub check_resources : ResourcesConfig → Stats → CheckResult
check_resources c s =
    if str_eq c.source ""
    then result "Resources" orange "source not configured"
    else resources_result c.source (
        error_if (str_eq c.source "host" || str_eq c.source "both") "host: " (check_host_stats s)
        ++ error_if (str_eq c.source "docker" || str_eq c.source "both") "docker: " s.container)
