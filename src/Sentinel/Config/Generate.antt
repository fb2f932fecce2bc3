-- ===== src/Sentinel/Config/Generate.antt =====
-- internal/sentinel/config/generate.go: the lines that annotate a generated file. The text of the
-- configuration, which the TOML encoder writes, is an argument.
pub mod Settings
mod Examples
use gno_watchtower.Base.{
  String, Bool, true, false, ◌&&◌, ◌||◌, not, Option, none, some, List, [], ◌∷◌, ◌++◌, str_eq,
  has_prefix, split, is_space, trim_space, append_text, join, if◌then◌else◌, ◌==◌, ℕ,
}
use Prim.Native.Char.{Char, code}
use gno_watchtower.Sentinel.Config.{Config}
use gno_watchtower.Sentinel.Config.Detect.{DockerResult, Environment}

pub record Alternative : Type 0 where
  pub section : String  -- empty for any
  pub after_key : String
  pub comment : String
  pub key : String
  pub value : String

abbrev pub journald_alternative : Alternative
journald_alternative = record {
  section = "logs";
  after_key = "container_name";
  comment = "Alternative: use journald as log source";
  key = "journald_unit";
  value = "<gnoland-systemd-unit>";
}

abbrev pub docker_alternative : Alternative
docker_alternative = record {
  section = "logs";
  after_key = "journald_unit";
  comment = "Alternative: use docker as log source";
  key = "container_name";
  value = "<gnoland-container-name>";
}

abbrev pub cmd_value : Option DockerResult → String
cmd_value none = "docker exec <container> gnoland config get %s --raw"
cmd_value (some d) =
    append_text "docker exec " (append_text d.container_name " gnoland config get %s --raw")

abbrev pub cmd_alternative : Option DockerResult → Alternative
cmd_alternative docker = record {
  section = "";
  after_key = "config_path";
  comment =
      "Alternative: run a shell command (requires the command to be reachable from the sentinel process — not the case for containerised sentinels without a bundled CLI)";
  key = "config_get_cmd";
  value = cmd_value docker;
}

unfoldable pub build_alternatives : Config → Environment → List Alternative
build_alternatives c env =
    if str_eq c.logs.source "docker"
    then journald_alternative ∷ cmd_alternative env.docker ∷ []
    else if str_eq c.logs.source "journald"
    then docker_alternative ∷ cmd_alternative env.docker ∷ []
    else cmd_alternative env.docker ∷ []

-- The characters that `strings.Trim(trimmed, "[] ")` takes off.
abbrev pub is_bracket : Char → Bool
is_bracket c = code c == b'[' || code c == b']' || code c == b' '

unfoldable pub trim_brackets_left : String → String
trim_brackets_left String.[] = ""
trim_brackets_left (String.◌∷◌ c s) =
    let rest = trim_brackets_left s in if is_bracket c then rest else String.◌∷◌ c s

abbrev pub keep_unless : Char → String → String
keep_unless c String.[] = if is_bracket c then "" else String.◌∷◌ c ""
keep_unless c (String.◌∷◌ d s) = String.◌∷◌ c (String.◌∷◌ d s)

unfoldable pub trim_brackets_right : String → String
trim_brackets_right String.[] = ""
trim_brackets_right (String.◌∷◌ c s) = keep_unless c (trim_brackets_right s)

abbrev pub next_section : String → String → String
next_section current trimmed =
    if has_prefix trimmed "[" && not (has_prefix trimmed "[[")
    then trim_brackets_left (trim_brackets_right trimmed)
    else current

abbrev pub applies : String → String → Alternative → Bool
applies current trimmed alt =
    (str_eq alt.section "" || str_eq alt.section current)
    && (has_prefix trimmed (append_text alt.after_key " =")
        || has_prefix trimmed (append_text alt.after_key "="))

abbrev pub comment_line : Alternative → String
comment_line alt = append_text "# " alt.comment

abbrev pub setting_line : Alternative → String
setting_line alt =
    append_text "# " (append_text alt.key (append_text " = '" (append_text alt.value "'")))

-- The loop over the alternatives, for one line.
unfoldable pub lines_after : String → String → List Alternative → List String
lines_after current trimmed [] = []
lines_after current trimmed (alt ∷ alts) =
    let rest = lines_after current trimmed alts in
    if applies current trimmed alt then comment_line alt ∷ setting_line alt ∷ rest else rest

unfoldable pub inject_lines : List Alternative → String → List String → List String
unfolding trim_brackets_left trim_brackets_right
inject_lines alts current [] = []
inject_lines alts current (line ∷ lines) =
    let trimmed = trim_space line in
    let section = next_section current trimmed in
    line ∷ (lines_after section trimmed alts ++ inject_lines alts section lines)

unfoldable pub inject_alternatives : String → List Alternative → String
inject_alternatives toml alts = join "\n" (inject_lines alts "" (split b'\n' toml))
