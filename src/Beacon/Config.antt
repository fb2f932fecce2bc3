-- ===== src/Beacon/Config.antt =====
-- internal/beacon/config/config.go: the beacon's configuration, its checks, and the Noise
-- configuration it yields. Durations are nanoseconds. Reading files and TOML is a parameter.
pub mod Checks
mod Examples
use Prim.Native.Char.{code}
use gno_watchtower.Base.{
  ℕ, ◌+◌, String, Bool, true, false, ◌&&◌, ◌||◌, not, Option, none, some, List, [], ◌∷◌, Assoc, ℤ,
  pos, str_eq, ◌==◌, has_prefix, if◌then◌else◌,
}
use gno_watchtower.Noise.Frame.{Bytes}
use gno_watchtower.Noise.Keys.{Keypair, decode_public_key, load_keypair}
use gno_watchtower.Noise.Handshake

pub record ServerConfig : Type 0 where
  pub url : String

pub record BeaconConfig : Type 0 where
  pub listen_addr : String
  pub keys_dir : String
  pub authorized_keys : List String
  pub handshake_timeout : ℤ

pub record RpcConfig : Type 0 where
  pub rpc_url : String

pub record MetadataConfig : Type 0 where
  pub config_path : String
  pub config_get_cmd : String
  pub force_interval : ℤ

pub record Config : Type 0 where
  pub server : ServerConfig
  pub beacon : BeaconConfig
  pub rpc : RpcConfig
  pub metadata : MetadataConfig

abbrev pub placeholder_upstream : String
placeholder_upstream = "<watchtower-url>"

abbrev pub placeholder_keys_dir : String
placeholder_keys_dir = "<path-to-beacon-keys-dir>"

abbrev pub placeholder_config_path : String
placeholder_config_path = "<path-to-gnoland-config>"

abbrev pub placeholder_rpc_url : String
placeholder_rpc_url = "http://localhost:26657"

abbrev pub default_config : Config
default_config = record {
  server = record { url = placeholder_upstream };
  beacon = record {
    listen_addr = "0.0.0.0:8080";
    keys_dir = placeholder_keys_dir;
    authorized_keys = [];
    handshake_timeout = pos 5000000000;
  };
  rpc = record { rpc_url = placeholder_rpc_url };
  metadata = record {
    config_path = placeholder_config_path;
    config_get_cmd = "";
    force_interval = pos 0;
  };
}

-- Whether the last character of a text is `x`.
unfoldable pub ends_with : ℕ → String → Bool
ends_with x String.[] = false
ends_with x (String.◌∷◌ c String.[]) = code c == x
ends_with x (String.◌∷◌ c s) = ends_with x s

unfoldable pub is_placeholder : String → Bool
is_placeholder (String.◌∷◌ c (String.◌∷◌ d (String.◌∷◌ e s))) =
    code c == b'<' && ends_with b'>' (String.◌∷◌ e s)
is_placeholder s = false

pub data ConfigError : Type 0 where
  url_required url_scheme listen_addr_required keys_dir_required : ConfigError
  rpc_url_required both_config_sources : ConfigError
  bad_authorized_key : ℕ → ConfigError  -- its index

-- An early return with the error, or what follows.
abbrev pub refuse_if : Bool → ConfigError → Option ConfigError → Option ConfigError
refuse_if true e rest = some e
refuse_if false e rest = rest

abbrev pub check_key : Option Bytes → ℕ → Option ConfigError → Option ConfigError
check_key none i rest = some (bad_authorized_key i)
check_key (some pubk) i rest = rest

-- The loop over the authorized keys, from index `i`.
unfoldable pub check_keys : ℕ → List String → Option ConfigError
check_keys i [] = none
check_keys i (k ∷ ks) = check_key (decode_public_key k) i (check_keys (i + 1) ks)

abbrev pub wrong_scheme : String → Bool
wrong_scheme url =
    not (is_placeholder url) && not (has_prefix url "http://") && not (has_prefix url "https://")

abbrev pub two_sources : Config → Bool
two_sources c = not (str_eq c.metadata.config_path "") && not (str_eq c.metadata.config_get_cmd "")

-- `validate`, whose `none` is nil.
unfoldable pub validate : Config → Option ConfigError
validate c = refuse_if (str_eq c.server.url "") url_required (
    refuse_if (wrong_scheme c.server.url) url_scheme (
      refuse_if (str_eq c.beacon.listen_addr "") listen_addr_required (
        refuse_if (str_eq c.beacon.keys_dir "") keys_dir_required (
          refuse_if (str_eq c.rpc.rpc_url "") rpc_url_required (
            refuse_if (two_sources c) both_config_sources
              (check_keys 0 c.beacon.authorized_keys))))))

pub data LoadResult : Type 0 where
  not_read not_parsed : LoadResult
  invalid : ConfigError → LoadResult
  loaded : Config → LoadResult

abbrev pub judge : Config → Option ConfigError → LoadResult
judge c none = loaded c
judge c (some e) = invalid e

-- `os.ReadFile` is `none` where it fails, and so is `toml.Unmarshal`.
module _ {D : Type 0} (read_file : String → Option D) (unmarshal : D → Option Config) where
  abbrev pub parsed : Option Config → LoadResult
  parsed none = not_parsed
  parsed (some c) = judge c (validate c)

  abbrev pub after_read : Option D → LoadResult
  after_read none = not_read
  after_read (some data_read) = parsed (unmarshal data_read)

  unfoldable pub load : String → LoadResult
  load path = after_read (read_file path)

-- What `NoiseConfig` returns.
pub data NoiseResult : Type 0 where
  keypair_error key_error : NoiseResult
  noise : Handshake.Config → NoiseResult

abbrev pub add_key : Option Bytes → Option (List Bytes) → Option (List Bytes)
add_key (some pubk) (some rest) = some (pubk ∷ rest)
add_key _ _ = none

unfoldable pub decode_keys : List String → Option (List Bytes)
decode_keys [] = some []
decode_keys (k ∷ ks) = add_key (decode_public_key k) (decode_keys ks)

abbrev pub with_keys : Keypair → Option (List Bytes) → NoiseResult
with_keys kp none = key_error
with_keys kp (some keys) =
    noise (record { private_key = kp.private; public_key = kp.public; authorized_keys = keys })

abbrev pub with_keypair : List String → Option Keypair → NoiseResult
with_keypair ks none = keypair_error
with_keypair ks (some kp) = with_keys kp (decode_keys ks)

-- `dirs` is what the directories hold.
unfoldable pub noise_config : (String → Assoc String) → Config → NoiseResult
noise_config dirs c = with_keypair c.beacon.authorized_keys (load_keypair (dirs c.beacon.keys_dir))
