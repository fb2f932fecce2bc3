-- ===== src/Watchtower/Config.antt =====
-- internal/watchtower/config/config.go: the settings, and the checks that `Load` makes on them.
-- Numbers that TOML reads as floats are a parameter: the code only asks whether one is at most 0.
pub mod Checks
pub mod Defaults
mod Examples
use gno_watchtower.Base.{
  String, Bool, true, false, Option, none, some, List, [], ◌∷◌, ℤ, pos, lez, ltz, Assoc, lookup,
  insert, str_eq, ◌||◌, if◌then◌else◌, zero, ◌≡◌, refl,
}

pub record ValidatorConfig : Type 0 where
  pub token : String
  pub permissions : List String
  pub logs_min_level : String

pub record TokenEntry : Type 0 where
  pub validator_name : String
  pub config : ValidatorConfig

pub record SecurityConfig (F : Type 0) : Type 0 where
  pub rate_limit_rps : F
  pub rate_limit_burst : ℤ
  pub ban_threshold : ℤ
  pub ban_duration : ℤ  -- nanoseconds

pub record Config (F : Type 0) : Type 0 where
  pub listen_addr : String
  pub security : SecurityConfig F
  pub victoria_metrics_url : String
  pub loki_url : String
  pub validators : Assoc ValidatorConfig

-- The errors of `validate`, with the names that they print.
pub data ConfigError : Type 0 where
  listen_addr_required victoria_metrics_url_required loki_url_required : ConfigError
  rate_limit_rps_not_positive rate_limit_burst_too_small : ConfigError
  ban_threshold_not_positive ban_duration_not_positive : ConfigError
  token_required : String → ConfigError
  token_shared : String → String → ConfigError
  unknown_permission : String → String → ConfigError

pub data Outcome {ℓ} (A : Type ℓ) : Type ℓ where
  ok : A → Outcome A
  err : ConfigError → Outcome A

infixl 5 ◌>>=◌ ◌>>◌
abbrev pub ◌>>=◌ {ℓ κ} : {A : Type ℓ} {B : Type κ} → Outcome A → (A → Outcome B) → Outcome B
ok a >>= f = f a
err e >>= f = err e

abbrev pub ◌>>◌ {ℓ} : {B : Type ℓ} → Outcome (Unit {0}) → Outcome B → Outcome B
m >> k = m >>= λ _. k

-- Inversion of a successful bind.
pub >>=-eq-ok {ℓ κ} :
    {A : Type ℓ} {B : Type κ} (first : Outcome A) (next : A → Outcome B) {result : B}
    → (first >>= next) ≡ ok result
    → (x : A) × (first ≡ ok x) × (next x ≡ ok result)
>>=-eq-ok (err _) _ q = cc
>>=-eq-ok (ok x) _ q = (x, refl, q)

abbrev pub refuse_if : Bool → ConfigError → Outcome (Unit {0})
refuse_if true e = err e
refuse_if false e = ok tt

abbrev pub min_rate_limit_burst : ℤ
min_rate_limit_burst = pos 4

abbrev pub is_valid_permission : String → Bool
is_valid_permission p = str_eq p "rpc" || str_eq p "metrics" || str_eq p "logs" || str_eq p "otlp"

-- The loop over one validator's permissions.
unfoldable pub check_permissions : String → List String → Outcome (Unit {0})
check_permissions name [] = ok tt
check_permissions name (p ∷ ps) =
    let rest = check_permissions name ps in
    if is_valid_permission p then rest else err (unknown_permission name p)

-- `seenTokens[v.Token]`, after the test for an empty token.
unfoldable pub check_token : Assoc String → String → ValidatorConfig → Outcome (Assoc String)
check_token seen name v =
    if str_eq v.token "" then err (token_required name) else elim (lookup v.token seen) [
      | some other ↦ err (token_shared other name)
      | none ↦ ok (insert v.token name seen)
    ]

-- The loop over the validators.
unfoldable pub check_validators : Assoc String → Assoc ValidatorConfig → Outcome (Unit {0})
unfolding check_permissions check_token
check_validators seen [] = ok tt
check_validators seen ((name, v) ∷ rest) = do
  seen' ← check_token seen name v
  check_permissions name v.permissions
  check_validators seen' rest

unfoldable pub check_security : {F : Type 0} → (F → Bool) → SecurityConfig F → Outcome (Unit {0})
check_security le_zero s = do
  refuse_if (le_zero s.rate_limit_rps) rate_limit_rps_not_positive
  refuse_if (ltz s.rate_limit_burst min_rate_limit_burst) rate_limit_burst_too_small
  refuse_if (lez s.ban_threshold (pos 0)) ban_threshold_not_positive
  refuse_if (lez s.ban_duration (pos 0)) ban_duration_not_positive

-- `(*Config).validate`
unfoldable pub validate : {F : Type 0} → (F → Bool) → Config F → Outcome (Unit {0})
unfolding check_security check_validators
validate le_zero c = do
  refuse_if (str_eq c.listen_addr "") listen_addr_required
  refuse_if (str_eq c.victoria_metrics_url "") victoria_metrics_url_required
  refuse_if (str_eq c.loki_url "") loki_url_required
  check_security le_zero c.security
  check_validators [] c.validators

abbrev burst_or_default : ℤ → ℤ
burst_or_default (pos zero) = pos 200
burst_or_default n = n

-- The default that `Load` fills in.
unfoldable pub with_default_burst : {F : Type 0} → Config F → Config F
with_default_burst c = record c {
  security = record c.security { rate_limit_burst = burst_or_default c.security.rate_limit_burst };
}

-- `Load`, from the decoded TOML on.
unfoldable pub load : {F : Type 0} → (F → Bool) → Config F → Outcome (Config F)
unfolding validate with_default_burst
load le_zero decoded = do let c = with_default_burst decoded; validate le_zero c; ok c
