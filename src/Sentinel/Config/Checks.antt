-- ===== src/Sentinel/Config/Checks.antt =====
-- What a configuration that passes the checks is, and that the sender takes it.
use Prim.Native.String.{◌++◌}
use gno_watchtower.Base.{
  String, Bool, true, false, Option, none, some, [], str_eq, eq_iff, has_prefix, cut_prefix,
  if◌then◌else◌, ◌⊎◌, ◌↔◌, ◌≡◌, ◌≢◌, refl, ap, arith,
}
use gno_watchtower.Sentinel.Config.{
  Config, ConfigError, refuse_if, contains, log_sources, log_levels, resource_sources,
  any_collector_enabled, is_noise_scheme, url_missing, token_missing, keys_missing, keys_unused,
  public_key_unused, address_missing, two_sources, unknown_source, unknown_level, unknown_resource,
  url_required, token_required, keys_dir_required, keys_dir_without_noise, public_key_without_noise,
  listen_addr_required, both_config_sources, bad_logs_source, bad_min_level, bad_resources_source,
  validate, NoiseConfig, no_noise, noise, key_error, Sender, BeaconConfig, pinned, with_keypair,
  routed, noise_sender, noise_config, new_sender,
}

-- The keys of the beacon section go with a noise:// URL, and with no other.
abbrev pub BeaconFits : Config → Type 0
BeaconFits c =
    ((has_prefix c.server.url "noise://" ≡ true) × (c.beacon.keys_dir ≢ ""))
    ⊎ ((has_prefix c.server.url "noise://" ≡ false)
        × (c.beacon.keys_dir ≡ "")
        × (c.beacon.public_key ≡ ""))

-- None of the six collectors is enabled.
abbrev pub AllOff : Config → Type 0
AllOff c =
    (c.rpc.enabled ≡ false)
    × (c.logs.enabled ≡ false)
    × (c.otlp.enabled ≡ false)
    × (c.resources.enabled ≡ false)
    × (c.metadata.enabled ≡ false)
    × (c.self.enabled ≡ false)

abbrev pub IsLogSource : String → Type 0
IsLogSource s = (s ≡ "docker") ⊎ (s ≡ "journald")

abbrev pub IsLevel : String → Type 0
IsLevel s = (s ≡ "debug") ⊎ (s ≡ "info") ⊎ (s ≡ "warn") ⊎ (s ≡ "error")

abbrev pub IsResourceSource : String → Type 0
IsResourceSource s = (s ≡ "host") ⊎ (s ≡ "docker") ⊎ (s ≡ "both")

off_iff : (c : Config) → (any_collector_enabled c ≡ false) ↔ AllOff c
off_iff c = (λ h. ground arith, λ h. ground arith)

IsLogSource-iff : (s : String) → (contains log_sources s ≡ true) ↔ IsLogSource s
unfolding contains
IsLogSource-iff s = (
  λ h. ground (arith, eq_iff "docker" s, eq_iff "journald" s),
  λ h. ground (arith, eq_iff "docker" s, eq_iff "journald" s),
)

IsLevel-iff : (s : String) → (contains log_levels s ≡ true) ↔ IsLevel s
unfolding contains
IsLevel-iff s = (
  λ h. ground (arith, eq_iff "debug" s, eq_iff "info" s, eq_iff "warn" s, eq_iff "error" s),
  λ h. ground (arith, eq_iff "debug" s, eq_iff "info" s, eq_iff "warn" s, eq_iff "error" s),
)

IsResourceSource-iff : (s : String) → (contains resource_sources s ≡ true) ↔ IsResourceSource s
unfolding contains
IsResourceSource-iff s = (
  λ h. ground (arith, eq_iff "host" s, eq_iff "docker" s, eq_iff "both" s),
  λ h. ground (arith, eq_iff "host" s, eq_iff "docker" s, eq_iff "both" s),
)

abbrev pub Sound : Config → Type 0
Sound c =
    (AllOff c ⊎ ((c.server.url ≢ "") × (c.server.token ≢ "")))
    × BeaconFits c
    × ((c.health.enabled ≡ false) ⊎ (c.health.listen_addr ≢ ""))
    × ((c.metadata.enabled ≡ false)
        ⊎ ((c.metadata.config_path ≡ "") ⊎ (c.metadata.config_get_cmd ≡ "")))
    × ((c.logs.enabled ≡ false) ⊎ (IsLogSource c.logs.source × IsLevel c.logs.min_level))
    × ((c.resources.enabled ≡ false) ⊎ IsResourceSource c.resources.source)

refuse_if-none :
    (b : Bool) (e : ConfigError) (rest : Option ConfigError)
    → refuse_if b e rest ≡ none
    → (b ≡ false) × (rest ≡ none)
refuse_if-none true e rest h = absurd (cc)
refuse_if-none false e rest h = (refl, h)

passes :
    (b : Bool) (e : ConfigError) (rest : Option ConfigError)
    → b ≡ false
    → rest ≡ none
    → refuse_if b e rest ≡ none
passes b e rest p q = rw p q

validate-Sound : (c : Config) → validate c ≡ none → Sound c
unfolding validate
validate-Sound c h =
    let (url, h1) = refuse_if-none (url_missing c) url_required _ h in
    let (token, h2) = refuse_if-none (token_missing c) token_required _ h1 in
    let (keys, h3) = refuse_if-none (keys_missing c) keys_dir_required _ h2 in
    let (no_keys, h4) = refuse_if-none (keys_unused c) keys_dir_without_noise _ h3 in
    let (no_public, h5) = refuse_if-none (public_key_unused c) public_key_without_noise _ h4 in
    let (health, h6) = refuse_if-none (address_missing c) listen_addr_required _ h5 in
    let (metadata, h7) = refuse_if-none (two_sources c) both_config_sources _ h6 in
    let (source, h8) = refuse_if-none (unknown_source c) bad_logs_source _ h7 in
    let (level, h9) = refuse_if-none (unknown_level c) bad_min_level _ h8 in
    let (resource, h10) = refuse_if-none (unknown_resource c) bad_resources_source _ h9 in
    (
      ground (arith, eq_iff c.server.url "", eq_iff c.server.token "", off_iff c),
      unfold is_noise_scheme in
          ground (arith, eq_iff c.beacon.keys_dir "", eq_iff c.beacon.public_key ""),
      ground (arith, eq_iff c.health.listen_addr ""),
      ground (arith, eq_iff c.metadata.config_path "", eq_iff c.metadata.config_get_cmd ""),
      ground (arith, IsLogSource-iff c.logs.source, IsLevel-iff c.logs.min_level),
      ground (arith, IsResourceSource-iff c.resources.source),
    )

Sound-validate : (c : Config) → Sound c → validate c ≡ none
unfolding validate is_noise_scheme
Sound-validate c (server, beacon, health, metadata, logs, resources) =
    passes (url_missing c) url_required _ (ground (arith, off_iff c, eq_iff c.server.url "")) (
      passes (token_missing c) token_required _
        (ground (arith, off_iff c, eq_iff c.server.token ""))
        (passes (keys_missing c) keys_dir_required _ (ground (arith, eq_iff c.beacon.keys_dir "")) (
          passes (keys_unused c) keys_dir_without_noise _
            (ground (arith, eq_iff c.beacon.keys_dir ""))
            (passes (public_key_unused c) public_key_without_noise _
              (ground (arith, eq_iff c.beacon.public_key ""))
              (passes (address_missing c) listen_addr_required _
                (ground (arith, eq_iff c.health.listen_addr ""))
                (passes (two_sources c) both_config_sources _
                  (ground
                    (arith, eq_iff c.metadata.config_path "", eq_iff c.metadata.config_get_cmd ""))
                  (passes (unknown_source c) bad_logs_source _
                    (ground (arith, IsLogSource-iff c.logs.source))
                    (passes (unknown_level c) bad_min_level _
                      (ground (arith, IsLevel-iff c.logs.min_level))
                      (passes (unknown_resource c) bad_resources_source _
                        (ground (arith, IsResourceSource-iff c.resources.source)) refl)))))))))

-- A configuration passes the checks exactly if it is sound: none of the six collectors is enabled or there
-- are a URL and a token; a noise:// URL has a directory of keys, and any other URL has neither keys nor a
-- public key of the beacon; an enabled health endpoint has an address; enabled metadata have at most one
-- source; enabled logs come from docker or journald, at one of the four levels; and enabled resources
-- from the host, docker or both.
pub validate-none_iff : (c : Config) → (validate c ≡ none) ↔ Sound c
validate-none_iff c = (validate-Sound c, Sound-validate c)

module _ {K P : Type 0} (load_keypair : String → Option K)
    (decode_public_key : String → Option P) where
  pinned-noise :
      (b : Bool) (kp : K) (key : Option P)
      → (if b
          then noise (record { static = kp; authorized_keys = [] })
          else pinned load_keypair decode_public_key kp key)
        ≢ key_error
      → (cfg : NoiseConfig K P) × ((if b
            then noise (record { static = kp; authorized_keys = [] })
            else pinned load_keypair decode_public_key kp key)
          ≡ noise cfg)
  pinned-noise true kp key h = (_, refl)
  pinned-noise false kp none h = absurd (h refl)
  pinned-noise false kp (some k) h = (_, refl)

  with_keypair-noise :
      (b : BeaconConfig) (kp : Option K)
      → with_keypair load_keypair decode_public_key b kp ≢ key_error
      → (cfg : NoiseConfig K P) × (with_keypair load_keypair decode_public_key b kp ≡ noise cfg)
  with_keypair-noise b none h = absurd (h refl)
  with_keypair-noise b (some kp) h =
      pinned-noise (str_eq b.public_key "") kp (decode_public_key b.public_key) h

  abbrev is_found : Option String → Bool
  is_found none = false
  is_found (some rest) = true

  routed-some :
      (c : Config) (rest : Option String)
      → (if is_found rest
          then with_keypair load_keypair decode_public_key c.beacon (load_keypair c.beacon.keys_dir)
          else no_noise)
        ≢ key_error
      → (s : Sender K P) × (routed load_keypair decode_public_key c.server.url c.server.token rest (
            if is_found rest
            then with_keypair load_keypair decode_public_key c.beacon
                (load_keypair c.beacon.keys_dir)
            else no_noise)
          ≡ some s)
  routed-some c none h = (_, refl)
  routed-some c (some rest) h =
      let (cfg, e) = with_keypair-noise c.beacon (load_keypair c.beacon.keys_dir) h in
      (_, ap (noise_sender load_keypair decode_public_key ("http://" ++ rest) c.server.token) e)

  -- Whenever the keys of a configuration can be read, or it needs none, `New` makes a sender of what
  -- `NoiseConfig` returns for it: it never lacks the keypair that a noise:// URL asks for.
  pub new_sender-some :
      (c : Config)
      → noise_config load_keypair decode_public_key c ≢ key_error
      → (s : Sender K P) × (new_sender load_keypair decode_public_key c.server.url c.server.token
            (noise_config load_keypair decode_public_key c)
          ≡ some s)
  unfolding new_sender noise_config is_noise_scheme has_prefix
  new_sender-some c h = routed-some c (cut_prefix c.server.url "noise://") h
