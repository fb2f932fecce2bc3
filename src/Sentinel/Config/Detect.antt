-- ===== src/Sentinel/Config/Detect.antt =====
-- internal/sentinel/config/detect.go: what stands on the host, and the defaults that follow from it. What
-- Docker, systemctl and the file system answer is a parameter; the printed progress is left out.
pub mod Valid
mod Examples
use gno_watchtower.Base.{
  ℕ, String, Bool, true, false, not, Option, none, some, List, [], ◌∷◌, ◌&&◌, ◌||◌, ◌==◌, str_eq,
  has_prefix, cut_prefix, split, is_space, append_text, format_int, pos, if◌then◌else◌,
}
use Prim.Native.Char.{code}
use gno_watchtower.Sentinel.Config.{Config, LogsConfig, ResourcesConfig, RpcConfig, MetadataConfig}

pub record DockerResult : Type 0 where
  pub container_name : String
  pub rpc_port : ℕ  -- 0 if it is not exposed

pub record JournaldResult : Type 0 where
  pub unit_name : String

pub record BinaryResult : Type 0 where
  pub path : String
  pub config_path : String  -- empty if there is none

pub record Environment : Type 0 where
  pub docker : Option DockerResult
  pub journald : Option JournaldResult
  pub binary : Option BinaryResult

pub record Port : Type 0 where
  pub private_port : ℕ
  pub public_port : ℕ

pub record Container : Type 0 where
  pub names : List String
  pub ports : List Port

abbrev pub gnoland_rpc_port : ℕ
gnoland_rpc_port = 26657

-- `strings.Contains(s, part)`
unfoldable pub has_part : String → String → Bool
has_part String.[] part = str_eq part ""
has_part (String.◌∷◌ c s) part =
    let rest = has_part s part in has_prefix (String.◌∷◌ c s) part || rest

-- `strings.TrimPrefix(name, "/")`
abbrev pub or_whole : String → Option String → String
or_whole name none = name
or_whole name (some rest) = rest

-- The public port of the first matching port.
unfoldable pub rpc_port_of : List Port → ℕ
rpc_port_of [] = 0
rpc_port_of (p ∷ ps) =
    let rest = rpc_port_of ps in
    if p.private_port == gnoland_rpc_port && not (p.public_port == 0) then p.public_port else rest

-- The loop over the names of a container, before the containers that follow.
unfoldable pub probe_names : List Port → List String → Option DockerResult → Option DockerResult
unfolding has_part
probe_names ports [] next = next
probe_names ports (name ∷ names) next =
    let rest = probe_names ports names next in
    let trimmed = or_whole name (cut_prefix name "/") in
    if has_part trimmed "gnoland"
    then some (record { container_name = trimmed; rpc_port = rpc_port_of ports })
    else rest

unfoldable pub probe_containers : List Container → Option DockerResult
probe_containers [] = none
probe_containers (c ∷ cs) = probe_names c.ports c.names (probe_containers cs)

-- The containers are `none` where Docker is not available.
unfoldable pub probe_docker : Option (List Container) → Option DockerResult
probe_docker none = none
probe_docker (some containers) = probe_containers containers

unfoldable pub take_word : String → String
take_word String.[] = ""
take_word (String.◌∷◌ c s) =
    let rest = take_word s in if is_space (code c) then "" else String.◌∷◌ c rest

-- The first of `strings.Fields`, or the empty text.
unfoldable pub first_field : String → String
unfolding take_word
first_field String.[] = ""
first_field (String.◌∷◌ c s) =
    let rest = first_field s in if is_space (code c) then rest else take_word (String.◌∷◌ c s)

unfoldable pub probe_lines : List String → Option JournaldResult
unfolding has_part
probe_lines [] = none
probe_lines (line ∷ lines) =
    let rest = probe_lines lines in
    let field = first_field line in
    if has_part field "gnoland" then some (record { unit_name = field }) else rest

-- The output of systemctl is `none` where it fails.
unfoldable pub probe_journald : Option String → Option JournaldResult
probe_journald none = none
probe_journald (some out) = probe_lines (split b'\n' out)

-- The file system: where the binary lies, what a link points to, the path of the configuration in the
-- directory of a path, and which files are there.
pub record Files : Type 0 where
  pub look_path : Option String
  pub eval_symlinks : String → Option String
  pub config_beside : String → String
  pub is_there : String → Bool

abbrev pub binary_at : Files → String → BinaryResult
binary_at fs resolved = record {
  path = resolved;
  config_path = if fs.is_there (fs.config_beside resolved) then fs.config_beside resolved else "";
}

abbrev pub or_else : String → Option String → String
or_else path none = path
or_else path (some resolved) = resolved

abbrev pub probe_path : Files → Option String → Option BinaryResult
probe_path fs none = none
probe_path fs (some path) = some (binary_at fs (or_else path (fs.eval_symlinks path)))

unfoldable pub probe_binary : Files → Option BinaryResult
probe_binary fs = probe_path fs fs.look_path

unfoldable pub detect : Option (List Container) → Option String → Files → Environment
detect containers units fs = record {
  docker = probe_docker containers;
  journald = probe_journald units;
  binary = probe_binary fs;
}

abbrev pub with_port : ℕ → RpcConfig → RpcConfig
with_port port rpc =
    if port == 0
    then rpc
    else record rpc { rpc_url = append_text "http://localhost:" (format_int (pos port)) }

abbrev pub apply_docker : DockerResult → Config → Config
apply_docker d c = record c {
  logs = record c.logs { source = "docker"; container_name = d.container_name };
  resources = record c.resources { container_name = d.container_name; source = "both" };
  rpc = with_port d.rpc_port c.rpc;
}

abbrev pub apply_journald : JournaldResult → Config → Config
apply_journald j c = record c {
  logs = record c.logs { source = "journald"; journald_unit = j.unit_name; container_name = "" };
  resources = record c.resources { container_name = ""; source = "host" };
}

abbrev pub apply_binary : Option BinaryResult → Config → Config
apply_binary none c = c
apply_binary (some b) c =
    if str_eq b.config_path ""
    then c
    else record c { metadata = record c.metadata { config_path = b.config_path } }

abbrev pub apply_results :
    Option DockerResult → Option JournaldResult → Option BinaryResult → Config → Config
apply_results (some d) journald binary c = apply_docker d c
apply_results none (some j) binary c = apply_binary binary (apply_journald j c)
apply_results none none binary c = apply_binary binary c

unfoldable pub apply_detection : Config → Environment → Config
apply_detection c env = apply_results env.docker env.journald env.binary c
