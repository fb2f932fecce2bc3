-- ===== src/Beacon/Augment/Examples.antt =====
-- A sentry that answers one of two fetches, on a due payload, on one that is not, and on null data.
use gno_watchtower.Base.{split, String, Option, none, some, [], ◌∷◌, lookup, insert, pos, ◌≡◌, refl}
use gno_watchtower.Json.{
  members_of, Json, null, number, text, object, end, member, as_object, as_map,
}
use gno_watchtower.Sentinel.Metadata.{
  Toml, leaf, table, end_entries, entry, print, entry_at, read_at, read_config_key, read_value,
  read_values,
}
use gno_watchtower.Beacon.Augment.{
  MetadataConfig, Augmenter, Sentry, failed, got, nothing, payload_with, nil_map_panic, new,
  fetch_config, config_raw, is_stale, augment_rpc, transform,
}

program : Unit {0}
unfolding lookup insert as_object as_map new print entry_at read_at read_config_key read_value
    read_values members_of split fetch_config config_raw is_stale augment_rpc transform
program = tt

abbrev cfg : MetadataConfig
cfg = record { config_path = "config.toml"; config_get_cmd = ""; force_interval = pos 0 }

abbrev files : String → Option Toml
files path = some (table (entry "p2p" (table (entry "pex" (leaf "true") end_entries)) end_entries))

abbrev nothing_run : String → Option String
nothing_run cmd = none

abbrev sentry : Sentry
sentry = record {
  status = failed;
  net_info = got (number "4");
  host = record { read_file = files; run = nothing_run };
}

abbrev augmenter : Augmenter
augmenter = record {
  meta_cfg = cfg;
  meta_keys = "mempool.size" ∷ "p2p.pex" ∷ [];
  force_interval = pos 43200000000000;
  last_augment_at = 100;
}

new-augmenter : new cfg (some ("mempool.size" ∷ "p2p.pex" ∷ [])) 100 ≡ augmenter
unfolding program
new-augmenter = refl

abbrev payload : Json → Json
payload values = object (member "data" values end)

abbrev ticked : Json
ticked = object (member "net_info" null end)

abbrev rpc : String
rpc = "/rpc"

augmented : transform augmenter sentry 200 rpc (some (payload ticked)) ≡ (
  record augmenter { last_augment_at = 200 },
  payload_with (("data", ticked) ∷ []) (
      ("net_info", null)
      ∷ ("sentry_net_info", number "4")
      ∷ ("sentry_config", object (member "p2p.pex" (text "true") end))
      ∷ []),
)
unfolding program
augmented = refl

not_due : transform augmenter sentry 200 rpc (some (payload (object end))) ≡ (augmenter, nothing)
unfolding program
not_due = refl

null_data-panics :
    transform augmenter sentry 43200000000100 rpc (some (payload null)) ≡ (augmenter, nil_map_panic)
unfolding program
null_data-panics = refl
