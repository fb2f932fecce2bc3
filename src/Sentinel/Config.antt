-- ===== src/Sentinel/Config.antt =====
-- internal/sentinel/config/config.go: the configuration and its checks, and `New` of
-- internal/sentinel/sender/sender.go, which takes what the beacon section yields. Durations are
-- nanoseconds. The functions that read keys are parameters.
pub mod ByteSize
pub mod Detect
pub mod Generate
pub mod Checks
pub mod Defaults
mod Examples
use Prim.Native.String.{◌++◌}
use gno_watchtower.Base.{
  ℕ, String, Bool, true, false, Option, none, some, List, [], ◌∷◌, ℤ, str_eq, has_prefix,
  cut_prefix, ◌&&◌, ◌||◌, not, if◌then◌else◌,
}

pub record ServerConfig : Type 0 where
  pub url : String
  pub token : String

pub record BeaconConfig : Type 0 where
  pub keys_dir : String
  pub public_key : String

pub record RpcConfig : Type 0 where
  pub enabled : Bool
  pub poll_interval : ℤ
  pub rpc_url : String
  pub dump_consensus_state_interval : ℤ
  pub genesis_refresh_interval : ℤ
  pub validators_refresh_interval : ℤ

pub record LogsConfig : Type 0 where
  pub enabled : Bool
  pub source : String
  pub container_name : String
  pub journald_unit : String
  pub batch_size : ℤ
  pub batch_timeout : ℤ
  pub min_level : String
  pub resume_lookback : ℤ

pub record OtlpConfig : Type 0 where
  pub enabled : Bool
  pub listen_addr : String

pub record ResourcesConfig : Type 0 where
  pub enabled : Bool
  pub poll_interval : ℤ
  pub source : String
  pub container_name : String

pub record MetadataConfig : Type 0 where
  pub enabled : Bool
  pub check_interval : ℤ
  pub force_interval : ℤ
  pub config_path : String
  pub config_get_cmd : String

pub record SelfConfig : Type 0 where
  pub enabled : Bool
  pub report_interval : ℤ

pub record HealthConfig : Type 0 where
  pub enabled : Bool
  pub listen_addr : String

pub record Config : Type 0 where
  pub server : ServerConfig
  pub beacon : BeaconConfig
  pub rpc : RpcConfig
  pub logs : LogsConfig
  pub otlp : OtlpConfig
  pub resources : ResourcesConfig
  pub metadata : MetadataConfig
  pub self : SelfConfig
  pub health : HealthConfig

pub data ConfigError : Type 0 where
  url_required token_required keys_dir_required keys_dir_without_noise : ConfigError
  public_key_without_noise listen_addr_required both_config_sources : ConfigError
  bad_logs_source bad_min_level bad_resources_source : ConfigError

-- An early return with the error, or what follows.
abbrev pub refuse_if : Bool → ConfigError → Option ConfigError → Option ConfigError
refuse_if true e rest = some e
refuse_if false e rest = rest

-- `slices.Contains`
unfoldable pub contains : List String → String → Bool
contains [] s = false
contains (t ∷ ts) s = let rest = contains ts s in str_eq t s || rest

abbrev pub log_sources : List String
log_sources = "docker" ∷ "journald" ∷ []

abbrev pub log_levels : List String
log_levels = "debug" ∷ "info" ∷ "warn" ∷ "error" ∷ []

abbrev pub resource_sources : List String
resource_sources = "host" ∷ "docker" ∷ "both" ∷ []

abbrev pub any_collector_enabled : Config → Bool
any_collector_enabled c =
    c.rpc.enabled || c.logs.enabled || c.otlp.enabled || c.resources.enabled || c.metadata.enabled
    || c.self.enabled

unfoldable pub is_noise_scheme : Config → Bool
is_noise_scheme c = has_prefix c.server.url "noise://"

-- The conditions of the checks, in the order of the code.
abbrev pub url_missing : Config → Bool
url_missing c = any_collector_enabled c && str_eq c.server.url ""

abbrev pub token_missing : Config → Bool
token_missing c = any_collector_enabled c && str_eq c.server.token ""

abbrev pub keys_missing : Config → Bool
keys_missing c = is_noise_scheme c && str_eq c.beacon.keys_dir ""

abbrev pub keys_unused : Config → Bool
keys_unused c = not (is_noise_scheme c) && not (str_eq c.beacon.keys_dir "")

abbrev pub public_key_unused : Config → Bool
public_key_unused c = not (is_noise_scheme c) && not (str_eq c.beacon.public_key "")

abbrev pub address_missing : Config → Bool
address_missing c = c.health.enabled && str_eq c.health.listen_addr ""

abbrev pub two_sources : Config → Bool
two_sources c =
    c.metadata.enabled
    && not (str_eq c.metadata.config_path "")
    && not (str_eq c.metadata.config_get_cmd "")

abbrev pub unknown_source : Config → Bool
unknown_source c = c.logs.enabled && not (contains log_sources c.logs.source)

abbrev pub unknown_level : Config → Bool
unknown_level c = c.logs.enabled && not (contains log_levels c.logs.min_level)

abbrev pub unknown_resource : Config → Bool
unknown_resource c = c.resources.enabled && not (contains resource_sources c.resources.source)

-- `validateBeacon`, before what follows it.
abbrev pub validate_beacon : Config → Option ConfigError → Option ConfigError
validate_beacon c rest = refuse_if (keys_missing c) keys_dir_required (
    refuse_if (keys_unused c) keys_dir_without_noise
      (refuse_if (public_key_unused c) public_key_without_noise rest))

-- `validate`, whose `none` is nil.
unfoldable pub validate : Config → Option ConfigError
validate c = refuse_if (url_missing c) url_required (
    refuse_if (token_missing c) token_required (
      validate_beacon c (
        refuse_if (address_missing c) listen_addr_required (
          refuse_if (two_sources c) both_config_sources (
            refuse_if (unknown_source c) bad_logs_source (
              refuse_if (unknown_level c) bad_min_level
                (refuse_if (unknown_resource c) bad_resources_source none)))))))

-- A static keypair and the authorized keys, as `noise.Config` has them.
pub record NoiseConfig (K P : Type 0) : Type 0 where
  pub static : K
  pub authorized_keys : List P

-- What `NoiseConfig` returns: nil, a configuration, or an error.
pub data NoiseResult (K P : Type 0) : Type 0 where
  no_noise : NoiseResult K P
  noise : NoiseConfig K P → NoiseResult K P
  key_error : NoiseResult K P

pub record Sender (K P : Type 0) : Type 0 where
  pub server_url : String
  pub token : String
  pub transport : Option (NoiseConfig K P)

module _ {K P : Type 0} (load_keypair : String → Option K)
    (decode_public_key : String → Option P) where
  abbrev pub pinned : K → Option P → NoiseResult K P
  pinned kp none = key_error
  pinned kp (some pub_key) = noise (record { static = kp; authorized_keys = pub_key ∷ [] })

  abbrev pub with_keypair : BeaconConfig → Option K → NoiseResult K P
  with_keypair b none = key_error
  with_keypair b (some kp) =
      if str_eq b.public_key ""
      then noise (record { static = kp; authorized_keys = [] })
      else pinned kp (decode_public_key b.public_key)

  unfoldable pub noise_config : Config → NoiseResult K P
  noise_config c =
      if is_noise_scheme c then with_keypair c.beacon (load_keypair c.beacon.keys_dir) else no_noise

  abbrev pub noise_sender : String → String → NoiseResult K P → Option (Sender K P)
  noise_sender rewritten token (noise cfg) =
      some (record { server_url = rewritten; token = token; transport = some cfg })
  noise_sender rewritten token no_noise = none
  noise_sender rewritten token key_error = none

  abbrev pub routed : String → String → Option String → NoiseResult K P → Option (Sender K P)
  routed url token none cfg = some (record { server_url = url; token = token; transport = none })
  routed url token (some rest) cfg = noise_sender ("http://" ++ rest) token cfg

  -- `sender.New`; `none` is its error.
  unfoldable pub new_sender : String → String → NoiseResult K P → Option (Sender K P)
  new_sender url token cfg = routed url token (cut_prefix url "noise://") cfg
