-- ===== src/Watchtower/Config/Checks.antt =====
-- What a configuration that passes `validate` satisfies, and that nothing else is refused.
use gno_watchtower.Base.{
  String, Bool, true, false, none, List, [], ◌∷◌, pos, lez, ltz, Assoc, lookup, insert, eq_iff, ◌≡◌,
  ◌≢◌, ◌↔◌, arith, refl, ap, lookup-insert, All, All-map,
}
use gno_watchtower.Watchtower.Config.{
  ValidatorConfig, Config, ok, is_valid_permission, check_permissions, check_token,
  check_validators, validate, min_rate_limit_burst, >>=-eq-ok,
}

tt_eq : (u : Unit {0}) → u ≡ tt
tt_eq u = refl

-- Every permission is one that a handler asks for.
abbrev pub Permitted : List String → Type 0
Permitted = All (λ p. is_valid_permission p ≡ true)

-- No entry has the token.
abbrev pub Fresh : String → Assoc ValidatorConfig → Type 0
Fresh t = All (λ e. e.1.token ≢ t)

abbrev pub Unseen : Assoc String → Assoc ValidatorConfig → Type 0
Unseen seen = All (λ e. lookup e.1.token seen ≡ none)

-- Tokens that are there, differ from one another, and open known endpoints only.
abbrev pub Sound : Assoc ValidatorConfig → Type 0
Sound [] = Unit
Sound ((name, v) ∷ rest) =
    (v.token ≢ "") × Fresh v.token rest × Permitted v.permissions × Sound rest

check_permissions-Permitted :
    (name : String) (ps : List String) → check_permissions name ps ≡ ok tt → Permitted ps
unfolding check_permissions
check_permissions-Permitted name [] h = tt
check_permissions-Permitted name (p ∷ ps) h = ground (arith, check_permissions-Permitted name ps)

check_permissions_of_Permitted :
    (name : String) (ps : List String) → Permitted ps → check_permissions name ps ≡ ok tt
unfolding check_permissions
check_permissions_of_Permitted name [] h = refl
check_permissions_of_Permitted name (p ∷ ps) h = rw h.0 (check_permissions_of_Permitted name ps h.1)

check_token-ok :
    (seen : Assoc String) (name : String) (v : ValidatorConfig) {s : Assoc String}
    → check_token seen name v ≡ ok s
    → (v.token ≢ "") × (lookup v.token seen ≡ none) × (s ≡ insert v.token name seen)
unfolding check_token
check_token-ok seen name v h = ground (arith, eq_iff v.token "")

check_token_of_fresh :
    (seen : Assoc String) (name : String) (v : ValidatorConfig)
    → v.token ≢ ""
    → lookup v.token seen ≡ none
    → check_token seen name v ≡ ok (insert v.token name seen)
unfolding check_token
check_token_of_fresh seen name v t u = ground (arith, eq_iff v.token "")

-- A token is not among those seen after `t` was added, exactly if it was not before and is not `t`.
unseen_after :
    (seen : Assoc String) (t name u : String)
    → (lookup u (insert t name seen) ≡ none) ↔ ((lookup u seen ≡ none) × (u ≢ t))
unseen_after seen t name u = ground (arith, lookup-insert t u name seen, eq_iff t u)

All-split :
    (seen : Assoc String) (t name : String) (l : Assoc ValidatorConfig)
    → Unseen (insert t name seen) l
    → Unseen seen l × Fresh t l
All-split seen t name l h = (
  All-map (λ e p. ((unseen_after seen t name e.1.token).0 p).0) l h,
  All-map (λ e p. ((unseen_after seen t name e.1.token).0 p).1) l h,
)

All-join :
    (seen : Assoc String) (t name : String) (l : Assoc ValidatorConfig)
    → Unseen seen l
    → Fresh t l
    → Unseen (insert t name seen) l
All-join seen t name [] u f = tt
All-join seen t name (e ∷ l) u f =
    ((unseen_after seen t name e.1.token).1 (u.0, f.0), All-join seen t name l u.1 f.1)

pub check_validators-Sound :
    (seen : Assoc String) (l : Assoc ValidatorConfig)
    → check_validators seen l ≡ ok tt
    → Sound l × Unseen seen l
unfolding check_validators
check_validators-Sound seen [] h = (tt, tt)
check_validators-Sound seen ((name, v) ∷ rest) h =
    let (seen', taken, h') = >>=-eq-ok (check_token seen name v) _ h in
    let (_, permitted, h'') = >>=-eq-ok (check_permissions name v.permissions) _ h' in
    let (token, unseen, e) = check_token-ok seen name v taken in
    let (sound, later) = check_validators-Sound seen' rest h'' in
    let (before, fresh) = All-split seen v.token name rest (rw e at later) in
    (
      (
        token,
        fresh,
        check_permissions-Permitted name v.permissions (rw (ap ok (tt_eq _)) at permitted),
        sound,
      ),
      (unseen, before),
    )

check_validators_of_Sound :
    (seen : Assoc String) (l : Assoc ValidatorConfig)
    → Sound l
    → Unseen seen l
    → check_validators seen l ≡ ok tt
unfolding check_validators
check_validators_of_Sound seen [] h u = refl
check_validators_of_Sound seen ((name, v) ∷ rest) (token, fresh, permitted, sound) u =
    rw
      (
        check_token_of_fresh seen name v token u.0,
        check_permissions_of_Permitted name v.permissions permitted,
      )
      (check_validators_of_Sound (insert v.token name seen) rest sound
        (All-join seen v.token name rest u.1 fresh))

Unseen-none : (l : Assoc ValidatorConfig) → Unseen [] l
unfolding lookup
Unseen-none [] = tt
Unseen-none (e ∷ l) = (refl, Unseen-none l)

-- What the checks of `validate` ask for, read as one statement about the configuration.
pub record IsSound {F : Type 0} (le_zero : F → Bool) (c : Config F) : Type 0 where
  pub listens : c.listen_addr ≢ ""
  pub has_victoria_metrics : c.victoria_metrics_url ≢ ""
  pub has_loki : c.loki_url ≢ ""
  pub rate_positive : le_zero c.security.rate_limit_rps ≡ false
  pub burst_wide : ltz c.security.rate_limit_burst min_rate_limit_burst ≡ false
  pub threshold_positive : lez c.security.ban_threshold (pos 0) ≡ false
  pub duration_positive : lez c.security.ban_duration (pos 0) ≡ false
  pub validators_sound : Sound c.validators

module _ {F : Type 0} (le_zero : F → Bool) (c : Config F) where
  validate-IsSound : validate le_zero c ≡ ok tt → IsSound le_zero c
  unfolding validate
  validate-IsSound h = ground (
    arith,
    eq_iff c.listen_addr "",
    eq_iff c.victoria_metrics_url "",
    eq_iff c.loki_url "",
    check_validators-Sound [] c.validators,
  )

  validate_of_IsSound : IsSound le_zero c → validate le_zero c ≡ ok tt
  unfolding validate
  validate_of_IsSound h = ground (
    arith,
    eq_iff c.listen_addr "",
    eq_iff c.victoria_metrics_url "",
    eq_iff c.loki_url "",
    check_validators_of_Sound [] c.validators h.validators_sound (Unseen-none c.validators),
  )

  -- `validate` accepts a configuration exactly if the addresses are there, the rate, the ban threshold and the ban
  -- duration are positive, the burst is at least 4, and the validators have tokens that are not empty, differ
  -- from one another, and come with permissions out of rpc, metrics, logs and otlp.
  pub validate-ok_iff : (validate le_zero c ≡ ok tt) ↔ IsSound le_zero c
  validate-ok_iff = (validate-IsSound, validate_of_IsSound)
