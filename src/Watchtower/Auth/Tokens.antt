-- ===== src/Watchtower/Auth/Tokens.antt =====
-- Which validator a token opens, when the configuration has passed its checks.
use gno_watchtower.Base.{
  ℕ, String, Bool, true, false, Option, none, some, [], ◌∷◌, Assoc, Distinct, lookup, insert, ◌≡◌,
  ◌≢◌, ◌∙◌, refl, ap, sym, arith, eq_iff, str_eq, if◌then◌else◌, lookup-insert, cut_prefix,
  Bool-cases, inl, inr,
}
use gno_watchtower.Watchtower.Config.{ValidatorConfig, TokenEntry}
use gno_watchtower.Watchtower.Config.Checks.{Sound, Fresh}
use gno_watchtower.Watchtower.Auth.{
  Authenticator, index_tokens, new, reload, middleware, Request, bearer_token, remote_ip, passed,
  rejected, line,
}
use gno_watchtower.Watchtower.Auth.Headers.{or_empty}
use gno_watchtower.Watchtower.Auth.Bans.{banned_at, answer, middleware-expected}

abbrev pub entry : String → ValidatorConfig → TokenEntry
entry name v = record { validator_name = name; config = v }

-- The validator that has a token, read off the configuration.
unfoldable pub owner : String → Assoc ValidatorConfig → Option TokenEntry
owner t [] = none
owner t ((name, v) ∷ rest) = if str_eq v.token t then some (entry name v) else owner t rest

abbrev or_else {ℓ} : {A : Type ℓ} → Option A → Option A → Option A
or_else (some a) o = some a
or_else none o = o

or_else-none {ℓ} : {A : Type ℓ} (o : Option A) → or_else o none ≡ o
or_else-none none = refl
or_else-none (some a) = refl

owner-Fresh : (t : String) (vs : Assoc ValidatorConfig) → Fresh t vs → owner t vs ≡ none
unfolding owner
owner-Fresh t [] f = refl
owner-Fresh t ((name, v) ∷ rest) (ne, f) = ground (arith, eq_iff v.token t, owner-Fresh t rest f)

lookup-index_tokens :
    (t : String) (tokens : Assoc TokenEntry) (vs : Assoc ValidatorConfig)
    → Sound vs
    → lookup t (index_tokens tokens vs) ≡ or_else (owner t vs) (lookup t tokens)
unfolding owner index_tokens
lookup-index_tokens t tokens [] s = refl
lookup-index_tokens t tokens ((name, v) ∷ rest) (token, fresh, permitted, s) =
    lookup-index_tokens t (insert v.token (entry name v) tokens) rest s
    ∙ ground (
      arith,
      lookup-insert v.token t (entry name v) tokens,
      eq_iff v.token t,
      owner-Fresh v.token rest fresh,
    )

-- With sound validators, whatever the order in which the map is walked, a token is registered for
-- its owner, and a token of no validator is not registered.
pub lookup-new :
    (t : String) (vs : Assoc ValidatorConfig) (threshold duration : ℕ)
    → Sound vs
    → lookup t (new vs threshold duration).tokens ≡ owner t vs
unfolding new
lookup-new t vs threshold duration s =
    lookup-index_tokens t [] vs s ∙ unfold lookup in or_else-none (owner t vs)

lookup-reload :
    (t : String) (a : Authenticator) (vs : Assoc ValidatorConfig)
    → Sound vs
    → lookup t (reload a vs).tokens ≡ owner t vs
unfolding reload
lookup-reload t a vs s = lookup-index_tokens t [] vs s ∙ unfold lookup in or_else-none (owner t vs)

owner-token :
    (t : String) (vs : Assoc ValidatorConfig) (e : TokenEntry)
    → Sound vs
    → owner t vs ≡ some e
    → (e.config.token ≡ t) × (t ≢ "")
unfolding owner
owner-token t [] e s h = absurd (ground arith)
owner-token t ((name, v) ∷ rest) e (token, fresh, permitted, s) h =
    elim (Bool-cases (str_eq v.token t)) [
      | inl same ↦ ground (arith, eq_iff v.token t)
      | inr other ↦ owner-token t rest e s (rw other at h)
    ]

unpassed :
    (r : Request) (o : Option TokenEntry) {name : String} {v : ValidatorConfig}
    → answer r o ≡ passed name v
    → o ≡ some (entry name v)
unpassed r none h = cc
unpassed r (some e) h = ground arith

from_or_empty : (o : Option String) (t : String) → t ≢ "" → or_empty o ≡ t → o ≡ some t
from_or_empty none t ne e = absurd (ne (sym e))
from_or_empty (some u) t ne e = ap some e

passing :
    (r : Request) (b : Bool) (o : Option TokenEntry) {name : String} {v : ValidatorConfig}
    → (if b then rejected 403 (line r "banned") else answer r o) ≡ passed name v
    → (b ≡ false) × (o ≡ some (entry name v))
passing r true o h = absurd (cc)
passing r false o h = (refl, unpassed r o h)

bearer_token-prefix :
    (r : Request) (t : String)
    → t ≢ ""
    → bearer_token r ≡ t
    → cut_prefix r.authorization "Bearer " ≡ some t
unfolding bearer_token
bearer_token-prefix r t ne e = from_or_empty (cut_prefix r.authorization "Bearer ") t ne e

-- With sound validators, a request goes on as a validator only if its address is not banned and its
-- Authorization header is "Bearer " followed by the token, never empty, of that validator.
pub passed-owner :
    (a : Authenticator) (vs : Assoc ValidatorConfig) (now later : ℕ) (r : Request) (name : String)
    (v : ValidatorConfig)
    → Sound vs
    → Distinct a.ips
    → (middleware (reload a vs) now later r).1 ≡ passed name v
    → (banned_at a now (remote_ip r) ≡ false)
      × (cut_prefix r.authorization "Bearer " ≡ some v.token)
      × (v.token ≢ "")
      × (owner v.token vs ≡ some (entry name v))
passed-owner a vs now later r name v s d h =
    let b = reload a vs in
    let t = bearer_token r in
    let (free, found) =
      passing r (banned_at b now (remote_ip r)) (lookup t b.tokens)
        (sym (middleware-expected b now later r (unfold reload in d)) ∙ h) in
    let owned : owner t vs ≡ some (entry name v) = sym (lookup-reload t a vs s) ∙ found in
    let (same, ne) = owner-token t vs (entry name v) s owned in
    (
      unfold reload in free,
      rw same (bearer_token-prefix r t ne refl),
      rw same ne,
      ap (λ (u : String). owner u vs) same ∙ owned,
    )
