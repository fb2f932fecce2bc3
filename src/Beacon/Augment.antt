-- ===== src/Beacon/Augment.antt =====
-- internal/beacon/augment/augment.go: the sentry's own view, added to the sentinel's RPC payloads. A body
-- stands as its decoded tree, or `none` where it is no JSON; instants are numbers of nanoseconds; what
-- the sentry answers and what its host holds are parameters. An answer that is
-- empty has no raw message.
pub mod Keys
mod Examples
use gno_watchtower.Base.{
  ℕ, zero, suc, ◌+◌, ◌-◌, String, Bool, true, false, ◌&&◌, ◌||◌, not, Option, none, some, List, [],
  ◌∷◌, Assoc, lookup, insert, str_eq, leb, if◌then◌else◌, ℤ, pos, negsuc, lez,
}
use gno_watchtower.Sentinel.Metadata.{Host, config_keys, read_values}
use gno_watchtower.Json.{Json, null, object, text, as_map, members_of}

pub record MetadataConfig : Type 0 where
  pub config_path : String
  pub config_get_cmd : String
  pub force_interval : ℤ

pub record Augmenter : Type 0 where
  pub meta_cfg : MetadataConfig
  pub meta_keys : List String
  pub force_interval : ℤ
  pub last_augment_at : ℕ

-- 12 hours.
abbrev pub default_force_interval : ℤ
default_force_interval = pos 43200000000000

abbrev pub or_default_keys : Option (List String) → List String
or_default_keys none = config_keys
or_default_keys (some keys) = keys

unfoldable pub new : MetadataConfig → Option (List String) → ℕ → Augmenter
new cfg metadata_keys now = record {
  meta_cfg = cfg;
  meta_keys = or_default_keys metadata_keys;
  force_interval =
      if lez cfg.force_interval (pos 0) then default_force_interval else cfg.force_interval;
  last_augment_at = now;
}

-- The result of a fetch: an error, nothing, or a raw message.
pub data Fetched : Type 0 where
  failed empty : Fetched
  got : Json → Fetched

pub record Sentry : Type 0 where
  pub status : Fetched
  pub net_info : Fetched
  pub host : Host

abbrev pub as_fetched : Assoc String → Fetched
as_fetched [] = empty
as_fetched (entry ∷ rest) = got (object (members_of text (entry ∷ rest)))

unfoldable pub fetch_config : Augmenter → Sentry → Fetched
fetch_config a sentry =
    as_fetched
      (read_values sentry.host a.meta_cfg.config_path a.meta_cfg.config_get_cmd [] a.meta_keys)

-- Without a source for the configuration nothing is fetched.
unfoldable pub config_raw : Augmenter → Sentry → Fetched
config_raw a sentry =
    if not (str_eq a.meta_cfg.config_path "") || not (str_eq a.meta_cfg.config_get_cmd "")
    then fetch_config a sentry
    else empty

abbrev pub inject : String → Fetched → Assoc Json → Assoc Json
inject key failed values = values
inject key empty values = values
inject key (got raw) values = insert key raw values

abbrev pub is_got : Fetched → Bool
is_got failed = false
is_got empty = false
is_got (got raw) = true

abbrev pub any_got : Fetched → Fetched → Fetched → Bool
any_got status net config = is_got status || is_got net || is_got config

abbrev pub injected : Fetched → Fetched → Fetched → Assoc Json → Assoc Json
injected status net config values =
    inject "sentry_config" config
      (inject "sentry_net_info" net (inject "sentry_status" status values))

-- What `augmentRPC` comes to: an error, nil, the payload with new data, or a panic, where a null "data"
-- leaves a nil map to assign to.
pub data Result : Type 0 where
  failure nothing : Result
  payload_with : Assoc Json → Assoc Json → Result
  nil_map_panic : Result

abbrev pub is_present : Option Json → Bool
is_present none = false
is_present (some raw) = true

-- `time.Since(lastAugmentAt) >= forceInterval`; the clock does not go back.
unfoldable pub is_stale : Augmenter → ℕ → Bool
is_stale a now = lez a.force_interval (pos (now - a.last_augment_at))

abbrev pub is_null : Json → Bool
is_null null = true
is_null _ = false

-- Behind the fetches. `nil` is whether the data map is nil.
abbrev pub merge :
    Augmenter
    → ℕ
    → Bool
    → Assoc Json
    → Assoc Json
    → Fetched
    → Fetched
    → Fetched
    → Augmenter × Result
merge a now nil payload values status net config =
    if any_got status net config
    then if nil then (a, nil_map_panic) else (
      record a { last_augment_at = now },
      payload_with payload (injected status net config values),
    )
    else (a, nothing)

abbrev pub with_data :
    Augmenter → Sentry → ℕ → Assoc Json → Bool → Option (Assoc Json) → Augmenter × Result
with_data a sentry now payload nil none = (a, failure)
with_data a sentry now payload nil (some values) =
    if is_present (lookup "net_info" values) || is_stale a now
    then merge a now nil payload values sentry.status sentry.net_info (config_raw a sentry)
    else (a, nothing)

abbrev pub with_payload : Augmenter → Sentry → ℕ → Assoc Json → Option Json → Augmenter × Result
with_payload a sentry now payload none = (a, nothing)
with_payload a sentry now payload (some raw) =
    with_data a sentry now payload (is_null raw) (as_map some raw)

abbrev pub decoded : Augmenter → Sentry → ℕ → Option (Assoc Json) → Augmenter × Result
decoded a sentry now none = (a, failure)
decoded a sentry now (some payload) = with_payload a sentry now payload (lookup "data" payload)

abbrev pub parsed : Option Json → Option (Assoc Json)
parsed none = none
parsed (some body) = as_map some body

unfoldable pub augment_rpc : Augmenter → Sentry → ℕ → Option Json → Augmenter × Result
augment_rpc a sentry now body = decoded a sentry now (parsed body)

-- An error is logged, and becomes nil.
abbrev pub or_nothing : Augmenter × Result → Augmenter × Result
or_nothing (a, failure) = (a, nothing)
or_nothing (a, nothing) = (a, nothing)
or_nothing (a, payload_with payload values) = (a, payload_with payload values)
or_nothing (a, nil_map_panic) = (a, nil_map_panic)

unfoldable pub transform : Augmenter → Sentry → ℕ → String → Option Json → Augmenter × Result
transform a sentry now path body =
    if str_eq path "/rpc" then or_nothing (augment_rpc a sentry now body) else (a, nothing)
