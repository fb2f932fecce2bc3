-- ===== src/Sentinel/Metadata.antt =====
-- internal/sentinel/metadata/collector.go: the keys of the node's configuration, read from its file or by
-- a command, and sent when they change. What a file holds stands as its TOML tree, and the
-- standard output of a command and SHA-256 are parameters.
pub mod Extracted
mod Examples
use Prim.Native.Char.{code}
use gno_watchtower.Base.{
  ℕ, String, Bool, true, false, ◌&&◌, ◌||◌, not, Option, none, some, List, [], ◌∷◌, Assoc, lookup,
  insert, str_eq, ◌==◌, if◌then◌else◌, append_text, split, trim_space, ℤ, pos, lez,
}
use gno_watchtower.Json.{Json, text, object, members_of}
use gno_watchtower.Sentinel.Config.{MetadataConfig}
use gno_watchtower.Sentinel.Delta.{changed}

-- A leaf is what `%v` prints of it; the entries of a table are in the order of their keys, in which it
-- prints them.
mutual
  pub data Toml : Type 0 where
    leaf : String → Toml
    table : Entries → Toml

  pub data Entries : Type 0 where
    end_entries : Entries
    entry : String → Toml → Entries → Entries

unfoldable mutual
  pub print : Toml → String
  print (leaf s) = s
  print (table es) = append_text "map[" (append_text (print_entries es) "]")

  pub print_entries : Entries → String
  print_entries end_entries = ""
  print_entries (entry k v end_entries) = append_text k (append_text ":" (print v))
  print_entries (entry k v (entry k' v' es)) =
      append_text k
        (append_text ":" (append_text (print v) (append_text " " (print_entries (entry k' v' es)))))

unfoldable pub entry_at : String → Entries → Option Toml
entry_at k end_entries = none
entry_at k (entry j v es) = if str_eq j k then some v else entry_at k es

-- The walk down the parts of a key. A part in a leaf, or one that is not there, is an error.
abbrev pub printed : Option Toml → Option String
printed none = none
printed (some v) = some (print v)

unfoldable pub read_at : List String → Option Toml → Option String
read_at [] tree = none
read_at (part ∷ []) (some (table es)) = printed (entry_at part es)
read_at (part ∷ next ∷ rest) (some (table es)) = read_at (next ∷ rest) (entry_at part es)
read_at (part ∷ rest) (some (leaf s)) = none
read_at (part ∷ rest) none = none

-- `strings.ReplaceAll(s, "%s", key)`
unfoldable pub replace_key : String → String → String
replace_key key String.[] = ""
replace_key key (String.◌∷◌ c String.[]) = String.◌∷◌ c ""
replace_key key (String.◌∷◌ c (String.◌∷◌ d s)) =
    let skipped = replace_key key s in
    let kept = replace_key key (String.◌∷◌ d s) in
    if code c == b'%' && code d == b's' then append_text key skipped else String.◌∷◌ c kept

-- The host: what its files hold, `none` where one cannot be read or parsed, and what a shell command
-- prints, `none` where it fails.
pub record Host : Type 0 where
  pub read_file : String → Option Toml
  pub run : String → Option String

unfoldable pub read_config_key : Host → String → String → Option String
read_config_key host path key = read_at (split b'.' key) (host.read_file path)

abbrev pub trimmed : Option String → Option String
trimmed none = none
trimmed (some out) = some (trim_space out)

unfoldable pub run_cmd : Host → String → Option String
run_cmd host cmd = trimmed (host.run cmd)

-- From the file if there is a path, else by the command.
unfoldable pub read_value : Host → String → String → String → Option String
read_value host config_path config_get_cmd key =
    if str_eq config_path ""
    then run_cmd host (replace_key key config_get_cmd)
    else read_config_key host config_path key

abbrev pub with_value : String → Option String → Assoc String → Assoc String
with_value key none values = values
with_value key (some v) values = insert key v values

-- The loop over the keys, which skips one that cannot be read.
unfoldable pub read_values : Host → String → String → Assoc String → List String → Assoc String
read_values host config_path config_get_cmd values [] = values
read_values host config_path config_get_cmd values (key ∷ keys) =
    read_values host config_path config_get_cmd
      (with_value key (read_value host config_path config_get_cmd key) values) keys

abbrev pub config_keys : List String
config_keys =
    "application.prune_strategy" ∷ "consensus.peer_gossip_sleep_duration"
    ∷ "consensus.timeout_commit" ∷ "mempool.size" ∷ "p2p.flush_throttle_timeout"
    ∷ "p2p.max_num_outbound_peers" ∷ "p2p.pex" ∷ []

-- 12 hours.
abbrev pub default_force_interval : ℤ
default_force_interval = pos 43200000000000

unfoldable pub force_interval : MetadataConfig → ℤ
force_interval cfg =
    if lez cfg.force_interval (pos 0) then default_force_interval else cfg.force_interval

-- The file that is watched, in file mode only.
unfoldable pub watched_paths : MetadataConfig → List String
watched_paths cfg =
    if not (str_eq cfg.config_path "") && str_eq cfg.config_get_cmd ""
    then cfg.config_path ∷ []
    else []

module _ {H : Type 0} (hash : Json → H) (same : H → H → Bool) (zero : H) where
  abbrev pub put_if : Bool → Json → Assoc H → Assoc H × Assoc Json
  put_if true b hashes = (hashes, ("config", b) ∷ [])
  put_if false b hashes = (hashes, [])

  -- The filter is not asked, and keeps its hash, where the emission is forced.
  abbrev pub emit : Bool → Assoc H → Json → Assoc H × Assoc Json
  emit true hashes b = put_if true b hashes
  emit false hashes b =
      let (hashes', fresh) = changed hash same zero hashes "config" b in put_if fresh b hashes'

  abbrev pub emit_values : Bool → Assoc H → Assoc String → Assoc H × Assoc Json
  emit_values force hashes [] = (hashes, [])
  emit_values force hashes (e ∷ values) = emit force hashes (object (members_of text (e ∷ values)))

  -- The hashes and the data of the payload; it is sent unless it is empty.
  unfoldable pub collect_config : Host → MetadataConfig → Assoc H → Bool → Assoc H × Assoc Json
  collect_config host cfg hashes force =
      if str_eq cfg.config_path "" && str_eq cfg.config_get_cmd ""
      then (hashes, [])
      else emit_values force hashes
          (read_values host cfg.config_path cfg.config_get_cmd [] config_keys)
