-- ===== src/Sentinel/Metadata/Extracted.antt =====
-- From a node's configuration to the watchtower's lines: what the collector sends is what is extracted.
use gno_watchtower.Base.{
  String, Bool, true, false, Option, none, some, List, [], ◌∷◌, ◌++◌, lookup-insert, insert, map,
  pos, Assoc, Distinct, lookup, insert-Distinct, str_eq, eq_iff, if◌then◌else◌, ◌≡◌, refl, ap, ◌∙◌,
  ℤ, arith,
}
use gno_watchtower.Json.{Json, text, object, as_text, as_map, members_of}
use gno_watchtower.Json.Marshalled.{map_values, AllGood, as_map-members_of}
use gno_watchtower.Sentinel.Config.{MetadataConfig, contains}
use gno_watchtower.Sentinel.Delta.{changed}
use gno_watchtower.Sentinel.Metadata.{
  Host, with_value, read_value, read_values, config_keys, emit_values, put_if, collect_config,
}
use gno_watchtower.Watchtower.Forwarder.Samples.{VmLine, whole, vm_sample}
use gno_watchtower.Watchtower.Forwarder.Rpc.{append_decoded}
use gno_watchtower.Watchtower.Forwarder.Rpc.Extract.{config_lines}
use gno_watchtower.Watchtower.Forwarder.Metrics.{append_node_config}

-- The watchtower's line of one key and its value: the sample 1 at an instant, with the labels of both.
abbrev pub key_line : String → ℤ → String × String → VmLine
key_line validator ts (k, v) = record {
  metric =
      ("validator", validator)
      ∷ ("key", k)
      ∷ ("value", v)
      ∷ ("__name__", "sentinel_node_config")
      ∷ [];
  values = whole (pos 1) ∷ [];
  timestamps = ts ∷ [];
}

config_lines-map :
    (validator : String) (ts : ℤ) (values : Assoc String)
    → config_lines "sentinel_node_config" validator ts values ≡ map (key_line validator ts) values
unfolding config_lines vm_sample insert
config_lines-map validator ts [] = refl
config_lines-map validator ts ((k, v) ∷ rest) =
    ap (◌∷◌ (key_line validator ts (k, v))) (config_lines-map validator ts rest)

-- The keys of the configuration that are asked for.
abbrev pub asked : List String
asked =
    "application.prune_strategy" ∷ "consensus.peer_gossip_sleep_duration"
    ∷ "consensus.timeout_commit" ∷ "mempool.size" ∷ "p2p.flush_throttle_timeout"
    ∷ "p2p.max_num_outbound_peers" ∷ "p2p.pex" ∷ []

map_values-same : (values : Assoc String) → map_values (λ v. v) values ≡ values
unfolding map_values
map_values-same [] = refl
map_values-same ((k, v) ∷ rest) = ap (◌∷◌ (k, v)) (map_values-same rest)

texts-AnyText :
    (values : Assoc String)
    → AllGood text as_text (λ v. v) (λ v. Unit) (λ v o. unfold as_text in refl) values
texts-AnyText [] = tt
texts-AnyText ((k, v) ∷ rest) = (tt, texts-AnyText rest)

as_map-texts :
    (values : Assoc String)
    → Distinct values
    → as_map as_text (object (members_of text values)) ≡ some values
unfolding as_text
as_map-texts values d =
    as_map-members_of text as_text (λ v. v) (λ v. Unit) (λ v o. refl) values d
      (texts-AnyText values)
    ∙ ap some (map_values-same values)

with_value-Distinct :
    (key : String) (o : Option String) (values : Assoc String)
    → Distinct values
    → Distinct (with_value key o values)
with_value-Distinct key none values d = d
with_value-Distinct key (some v) values d = insert-Distinct key v values d

read_values-Distinct :
    (host : Host) (path cmd : String) (values : Assoc String) (keys : List String)
    → Distinct values
    → Distinct (read_values host path cmd values keys)
unfolding read_values
read_values-Distinct host path cmd values [] d = d
read_values-Distinct host path cmd values (key ∷ keys) d =
    read_values-Distinct host path cmd (with_value key (read_value host path cmd key) values) keys
      (with_value-Distinct key (read_value host path cmd key) values d)

abbrev first_of : Option String → Option String → Option String
first_of none old = old
first_of (some v) old = some v

first_of-none : (o : Option String) → first_of o none ≡ o
first_of-none none = refl
first_of-none (some v) = refl

lookup-with_value :
    (at key : String) (o : Option String) (values : Assoc String)
    → lookup at (with_value key o values)
      ≡ (if str_eq key at then first_of o (lookup at values) else lookup at values)
lookup-with_value at key none values = ground arith
lookup-with_value at key (some v) values = lookup-insert key at v values

lookup-read_values :
    (host : Host) (path cmd at : String) (values : Assoc String) (keys : List String)
    → lookup at (read_values host path cmd values keys) ≡ (
        if contains keys at
        then first_of (read_value host path cmd at) (lookup at values)
        else lookup at values)
unfolding read_values contains
lookup-read_values host path cmd at values [] = refl
lookup-read_values host path cmd at values (key ∷ keys) =
    let o = read_value host path cmd key in
    ground (
      arith,
      eq_iff key at,
      lookup-with_value at key o values,
      lookup-read_values host path cmd at (with_value key o values) keys,
    )

module _ {H : Type 0} (hash : Json → H) (same : H → H → Bool) (zero : H) where
  put_if-data :
      (fresh : Bool) (b raw : Json) (hashes : Assoc H)
      → (put_if hash same zero fresh b hashes).1 ≡ ("config", raw) ∷ []
      → raw ≡ b
  put_if-data true b raw hashes h = cc
  put_if-data false b raw hashes h = cc

  emit_values-data :
      (force : Bool) (hashes : Assoc H) (values : Assoc String) (raw : Json)
      → (emit_values hash same zero force hashes values).1 ≡ ("config", raw) ∷ []
      → raw ≡ object (members_of text values)
  emit_values-data force hashes [] raw h = cc
  emit_values-data true hashes (e ∷ values) raw h = put_if-data true _ raw hashes h
  emit_values-data false hashes (e ∷ values) raw h =
      let b = object (members_of text (e ∷ values)) in
      let (after, fresh) = changed hash same zero hashes "config" b in
      put_if-data fresh b raw after h

  past_guard :
      (b : Bool) (hashes : Assoc H) (r : Assoc H × Assoc Json) (e : String × Json)
      → (if b then (hashes, []) else r).1 ≡ e ∷ []
      → r.1 ≡ e ∷ []
  past_guard true hashes r e h = cc
  past_guard false hashes r e h = h

  -- Each payload of the collector, forced or not, becomes lines of the watchtower that are exactly a map with no
  -- key twice, one line for each key, labelled with the key and its value; and in that map each of the seven
  -- keys has the value that was read for it, where one could be read, and no other key has any.
  pub collect_config-extracted :
      (host : Host) (cfg : MetadataConfig) (hashes : Assoc H) (force : Bool) (raw : Json)
      (lines : List VmLine) (validator : String) (ts : ℤ)
      → (collect_config hash same zero host cfg hashes force).1 ≡ ("config", raw) ∷ []
      → (values : Assoc String) × Distinct values
        × (append_node_config lines validator ts raw ≡ lines ++ map (key_line validator ts) values)
        × ((at : String)
            → lookup at values ≡ (
                if contains asked at
                then read_value host cfg.config_path cfg.config_get_cmd at
                else none))
  unfolding collect_config append_node_config lookup
  collect_config-extracted host cfg hashes force raw lines validator ts h =
      let values = read_values host cfg.config_path cfg.config_get_cmd [] config_keys in
      let sent = past_guard _ hashes (emit_values hash same zero force hashes values) _ h in
      let encoded = emit_values-data force hashes values raw sent in
      let once = read_values-Distinct host cfg.config_path cfg.config_get_cmd [] config_keys tt in
      let decoded = ap (as_map as_text) encoded ∙ as_map-texts values once in
      (
        values,
        once,
        ap (λ o. append_decoded lines o (config_lines "sentinel_node_config" validator ts)) decoded
            ∙ ap (λ l. lines ++ l) (config_lines-map validator ts values),
        λ at.
            lookup-read_values host cfg.config_path cfg.config_get_cmd at [] config_keys
            ∙ ap (λ o. if contains config_keys at then o else none)
                (first_of-none (read_value host cfg.config_path cfg.config_get_cmd at)),
      )
