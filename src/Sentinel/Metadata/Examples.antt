-- ===== src/Sentinel/Metadata/Examples.antt =====
-- A configuration with two of the keys, and one read by a command.
use gno_watchtower.Base.{
  ℕ, String, Bool, true, false, Option, none, some, [], ◌∷◌, lookup, insert, append_text, split,
  trim_space, str_eq, if◌then◌else◌, pos, Assoc, map, Distinct, ◌≡◌, refl,
}
use gno_watchtower.Json.{members_of, Json, text, object, end, member}
use gno_watchtower.Sentinel.Config.{MetadataConfig, contains}
use gno_watchtower.Sentinel.Delta.{changed}
use gno_watchtower.Sentinel.Metadata.{
  Toml, leaf, table, end_entries, entry, print, entry_at, read_at, replace_key, Host,
  read_config_key, run_cmd, read_value, read_values, collect_config,
}
use gno_watchtower.Sentinel.Metadata.Extracted.{asked, key_line, collect_config-extracted}
use gno_watchtower.Watchtower.Forwarder.Metrics.{append_node_config}

program : Unit {0}
unfolding lookup insert append_text split trim_space changed print entry_at read_at replace_key
    read_config_key run_cmd read_value read_values members_of collect_config
program = tt

abbrev file : Toml
file = table (
    entry "mempool" (table (entry "size" (leaf "5000") end_entries)) (
      entry "p2p" (table (entry "laddr" (leaf "x") (entry "pex" (leaf "false") end_entries)))
        end_entries))

abbrev files : String → Option Toml
files path = some file

abbrev ok_command : String
ok_command = "get p2p.pex"

abbrev runs : String → Option String
runs cmd = if str_eq cmd ok_command then some " true\n" else none

abbrev host : Host
host = record { read_file = files; run = runs }

abbrev cfg : String → String → MetadataConfig
cfg path cmd = record {
  enabled = true;
  check_interval = pos 1;
  force_interval = pos 0;
  config_path = path;
  config_get_cmd = cmd;
}

-- A hash that keeps nothing.
abbrev constant : Json → ℕ
constant j = 1

abbrev never_same : ℕ → ℕ → Bool
never_same a b = false

abbrev path : String
path = "config.toml"

abbrev raw : Json
raw = object (member "mempool.size" (text "5000") (member "p2p.pex" (text "false") end))

file-collected :
    (collect_config constant never_same 0 host (cfg path "") [] false).1 ≡ ("config", raw) ∷ []
unfolding program
file-collected = refl

command-collected :
    (collect_config constant never_same 0 host (cfg "" "get %s") [] true).1
    ≡ ("config", object (member "p2p.pex" (text "true") end)) ∷ []
unfolding program
command-collected = refl

table-printed : read_config_key host path "p2p" ≡ some "map[laddr:x pex:false]"
unfolding program
table-printed = refl

collect_config-extracted_example :
    (values : Assoc String) × Distinct values
    × (append_node_config [] "v" (pos 7) raw ≡ map (key_line "v" (pos 7)) values)
    × ((at : String)
        → lookup at values ≡ (if contains asked at then read_value host path "" at else none))
collect_config-extracted_example =
    collect_config-extracted constant never_same 0 host (cfg path "") [] false raw [] "v" (pos 7)
      file-collected
