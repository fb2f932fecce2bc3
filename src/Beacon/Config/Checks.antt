-- ===== src/Beacon/Config/Checks.antt =====
-- What the checks promise to what starts the beacon.
use gno_watchtower.Base.{
  ℕ, ◌+◌, String, Bool, true, false, Option, none, some, List, [], ◌∷◌, Assoc, map, lookup, str_eq,
  trim_space, length, ◌≡◌, refl, ap, sym, ◌∙◌, arith,
}
use gno_watchtower.Noise.Frame.{Bytes}
use gno_watchtower.Noise.Keys.{
  Keypair, decode_string, of_length, pair_up, load_hex, load_hex_file, decode_public_key,
  load_keypair, priv_key_filename, pub_key_filename,
}
use gno_watchtower.Noise.Handshake
use gno_watchtower.Beacon.Config.{
  Config, ConfigError, refuse_if, check_key, check_keys, url_required, url_scheme,
  listen_addr_required, keys_dir_required, rpc_url_required, both_config_sources, wrong_scheme,
  two_sources, validate, loaded, judge, parsed, after_read, load, noise, decode_keys, with_keypair,
  noise_config,
}

refuse_if-none :
    (b : Bool) (e : ConfigError) (rest : Option ConfigError)
    → refuse_if b e rest ≡ none
    → rest ≡ none
refuse_if-none true e rest h = absurd (cc)
refuse_if-none false e rest h = h

validate-keys : (c : Config) → validate c ≡ none → check_keys 0 c.beacon.authorized_keys ≡ none
unfolding validate
validate-keys c h =
    let after_url = refuse_if-none (str_eq c.server.url "") url_required _ h in
    let after_scheme = refuse_if-none (wrong_scheme c.server.url) url_scheme _ after_url in
    let after_addr =
      refuse_if-none (str_eq c.beacon.listen_addr "") listen_addr_required _ after_scheme in
    let after_dir = refuse_if-none (str_eq c.beacon.keys_dir "") keys_dir_required _ after_addr in
    let after_rpc = refuse_if-none (str_eq c.rpc.rpc_url "") rpc_url_required _ after_dir in
    refuse_if-none (two_sources c) both_config_sources _ after_rpc

of_length-some : (n : ℕ) (o : Option Bytes) (bs : Bytes) → of_length n o ≡ some bs → length bs ≡ n
of_length-some n none bs h = absurd (cc)
of_length-some n (some xs) bs h = ground (arith, h)

-- The keys that `decode_public_key` reads.
check_key-none :
    (o : Option Bytes) (i : ℕ) (rest : Option ConfigError)
    → check_key o i rest ≡ none
    → ((pubk : Bytes) × (o ≡ some pubk)) × (rest ≡ none)
check_key-none none i rest h = absurd (cc)
check_key-none (some pubk) i rest h = ((pubk, refl), h)

-- What the texts of a list decode to: keys of 32 bytes.
abbrev AreDecoded : List String → List Bytes → Type 0
AreDecoded ks keys =
    (decode_keys ks ≡ some keys)
    × (Handshake.all_32 keys ≡ true)
    × (map decode_public_key ks ≡ map some keys)

AreDecoded-cons :
    (k : String) (ks : List String) (pubk : Bytes) (keys : List Bytes)
    → decode_public_key k ≡ some pubk
    → AreDecoded ks keys
    → AreDecoded (k ∷ ks) (pubk ∷ keys)
unfolding decode_keys decode_public_key Handshake.all_32
AreDecoded-cons k ks pubk keys e (ed, all, same) =
    let size : length pubk ≡ 32 = of_length-some 32 (decode_string (trim_space k)) pubk e in
    (rw (e, ed) refl, ground (arith, size, all), rw (e, same) refl)

check_keys-AreDecoded :
    (i : ℕ) (ks : List String) → check_keys i ks ≡ none → (keys : List Bytes) × AreDecoded ks keys
unfolding check_keys decode_keys Handshake.all_32
check_keys-AreDecoded i [] h = ([], (refl, refl, refl))
check_keys-AreDecoded i (k ∷ ks) h =
    let ((pubk, e), rest) = check_key-none (decode_public_key k) i (check_keys (i + 1) ks) h in
    let (keys, d) = check_keys-AreDecoded (i + 1) ks rest in
    (pubk ∷ keys, AreDecoded-cons k ks pubk keys e d)

load_hex-length : (n : ℕ) (o : Option String) (bs : Bytes) → load_hex n o ≡ some bs → length bs ≡ n
load_hex-length n none bs h = absurd (cc)
load_hex-length n (some content) bs h = of_length-some n (decode_string (trim_space content)) bs h

pair_up-Keys :
    (o p : Option Bytes) (kp : Keypair)
    → pair_up o p ≡ some kp
    → (o ≡ some kp.private) × (p ≡ some kp.public)
pair_up-Keys none p kp h = absurd (cc)
pair_up-Keys (some priv) none kp h = absurd (cc)
pair_up-Keys (some priv) (some pubk) kp h =
    let same : record { private = priv; public = pubk } ≡ kp = cc in
    (ap (λ q. some q.private) same, ap (λ q. some q.public) same)

load_keypair-length :
    (dir : Assoc String) (kp : Keypair)
    → load_keypair dir ≡ some kp
    → (length kp.private ≡ 32) × (length kp.public ≡ 32)
unfolding load_keypair load_hex_file
load_keypair-length dir kp h =
    let (r, u) =
      pair_up-Keys (load_hex_file dir priv_key_filename 32) (load_hex_file dir pub_key_filename 32)
        kp h in
    (
      load_hex-length 32 (lookup priv_key_filename dir) kp.private r,
      load_hex-length 32 (lookup pub_key_filename dir) kp.public u,
    )

with_keypair-noise :
    (ks : List String) (o : Option Keypair) (kp : Keypair) (keys : List Bytes)
    → o ≡ some kp
    → length kp.private ≡ 32
    → length kp.public ≡ 32
    → AreDecoded ks keys
    → (cfg : Handshake.Config) × (with_keypair ks o ≡ noise cfg)
      × (Handshake.validate cfg ≡ true)
      × (cfg.private_key ≡ kp.private)
      × (cfg.public_key ≡ kp.public)
      × (map decode_public_key ks ≡ map some cfg.authorized_keys)
unfolding Handshake.validate
with_keypair-noise ks o kp keys e lr lu (ed, all, same) =
    (_, rw (e, ed) refl, ground (arith, lr, lu, all), refl, refl, same)

module _ {D : Type 0} (read_file : String → Option D) (unmarshal : D → Option Config) where
  judge-loaded :
      (c : Config) (o : Option ConfigError) (c' : Config)
      → judge c o ≡ loaded c'
      → o ≡ none × (c ≡ c')
  judge-loaded c none c' h = let same : c ≡ c' = cc in (refl, same)
  judge-loaded c (some e) c' h = absurd (cc)

  parsed-loaded :
      (o : Option Config) (c : Config) → parsed read_file unmarshal o ≡ loaded c → validate c ≡ none
  parsed-loaded none c h = absurd (cc)
  parsed-loaded (some found) c h =
      let (ok, same) = judge-loaded found (validate found) c h in ap validate (sym same) ∙ ok

  after_read-loaded :
      (o : Option D) (c : Config) → after_read read_file unmarshal o ≡ loaded c → validate c ≡ none
  after_read-loaded none c h = absurd (cc)
  after_read-loaded (some data_read) c h = parsed-loaded (unmarshal data_read) c h

  -- Where a configuration was loaded and its directory holds a keypair that can be read, `NoiseConfig`
  -- succeeds: it has that keypair and one key for each authorized text, the one the text encodes, and
  -- the handshake's own checks accept it.
  pub noise_config-load :
      (path : String) (c : Config) (dirs : String → Assoc String) (kp : Keypair)
      → load read_file unmarshal path ≡ loaded c
      → load_keypair (dirs c.beacon.keys_dir) ≡ some kp
      → (cfg : Handshake.Config) × (noise_config dirs c ≡ noise cfg)
        × (Handshake.validate cfg ≡ true)
        × (cfg.private_key ≡ kp.private)
        × (cfg.public_key ≡ kp.public)
        × (map decode_public_key c.beacon.authorized_keys ≡ map some cfg.authorized_keys)
  unfolding load noise_config
  noise_config-load path c dirs kp h hk =
      let valid = after_read-loaded (read_file path) c h in
      let (keys, d) = check_keys-AreDecoded 0 c.beacon.authorized_keys (validate-keys c valid) in
      let (lr, lu) = load_keypair-length (dirs c.beacon.keys_dir) kp hk in
      with_keypair-noise c.beacon.authorized_keys (load_keypair (dirs c.beacon.keys_dir)) kp keys hk
        lr lu d
