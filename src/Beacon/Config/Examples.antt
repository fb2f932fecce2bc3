-- ===== src/Beacon/Config/Examples.antt =====
-- Configurations of a beacon.
use gno_watchtower.Base.{
  ℕ, zero, suc, ◌+◌, true, String, Option, none, some, [], ◌∷◌, Assoc, map, ◌≡◌, refl, has_prefix,
  cut_prefix, str_eq, trim_space, lookup, pos, if◌then◌else◌,
}
use gno_watchtower.Noise.Frame.{Bytes}
use gno_watchtower.Noise.Keys.{
  Keypair, decode_string, decode_public_key, load_hex_file, load_keypair,
}
use gno_watchtower.Noise.Handshake
use gno_watchtower.Beacon.Config.{
  Config, default_config, is_placeholder, ends_with, check_keys, bad_authorized_key, url_scheme,
  both_config_sources, validate, noise_config, noise, loaded, load,
}
use gno_watchtower.Beacon.Config.Checks.{noise_config-load}

abbrev count_from : ℕ → ℕ → Bytes
count_from zero x = []
count_from (suc n) x = x ∷ count_from n (x + 1)

-- A secured beacon with two sentinels, the second key in capitals behind a blank.
abbrev secured : Config
secured = record default_config {
  server = record { url = "https://tower.example" };
  beacon = record {
    listen_addr = "0.0.0.0:8080";
    keys_dir = "/keys";
    authorized_keys =
        "000102030405060708090a0b0c0d0e0f101112131415161718191a1b1c1d1e1f"
        ∷ " F0F1F2F3F4F5F6F7F8F9FAFBFCFDFEFFF0F1F2F3F4F5F6F7F8F9FAFBFCFDFEFF" ∷ [];
    handshake_timeout = pos 5000000000;
  };
}

abbrev dirs : String → Assoc String
dirs d =
    ("privkey", "0a0b0c0d0e0f101112131415161718191a1b1c1d1e1f20212223242526272829\n")
    ∷ ("pubkey", "e0e1e2e3e4e5e6e7e8e9eaebecedeeeff0f1f2f3f4f5f6f7f8f9fafbfcfdfeff\n")
    ∷ []

abbrev pair : Keypair
pair = record { private = count_from 32 10; public = count_from 32 224 }

abbrev read_file : String → Option ℕ
read_file path = if str_eq path "beacon.toml" then some 1 else none

abbrev unmarshal : ℕ → Option Config
unmarshal n = some secured

secured-loaded : load read_file unmarshal "beacon.toml" ≡ loaded secured
unfolding load validate is_placeholder ends_with has_prefix cut_prefix check_keys decode_public_key
    decode_string trim_space
secured-loaded = refl

pair-loaded : load_keypair (dirs "/keys") ≡ some pair
unfolding load_keypair load_hex_file lookup decode_string trim_space
pair-loaded = refl

noise_config-load_example :
    (cfg : Handshake.Config) × (noise_config dirs secured ≡ noise cfg)
    × (Handshake.validate cfg ≡ true)
    × (cfg.private_key ≡ pair.private)
    × (cfg.public_key ≡ pair.public)
    × (map decode_public_key secured.beacon.authorized_keys ≡ map some cfg.authorized_keys)
noise_config-load_example =
    noise_config-load read_file unmarshal "beacon.toml" secured dirs pair secured-loaded pair-loaded

default-valid : validate default_config ≡ none
unfolding validate is_placeholder ends_with has_prefix cut_prefix check_keys
default-valid = refl

short-key :
    validate (record secured { beacon = record secured.beacon { authorized_keys = "" ∷ [] } })
    ≡ some (bad_authorized_key 0)
unfolding validate is_placeholder ends_with has_prefix cut_prefix check_keys decode_public_key
    decode_string trim_space
short-key = refl

no-scheme :
    validate (record secured { server = record { url = "tower.example" } }) ≡ some url_scheme
unfolding validate is_placeholder ends_with has_prefix cut_prefix check_keys
no-scheme = refl

both-sources :
    validate (record secured { metadata = record secured.metadata { config_get_cmd = "get %s" } })
    ≡ some both_config_sources
unfolding validate is_placeholder ends_with has_prefix cut_prefix check_keys
both-sources = refl
