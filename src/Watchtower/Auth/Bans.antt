-- ===== src/Watchtower/Auth/Bans.antt =====
-- Who is banned, and what a request changes about it.
use gno_watchtower.Base
use gno_watchtower.Base.{
  ℕ, ◌+◌, ◌≤◌, ◌<◌, String, Bool, true, false, Option, none, some, Assoc, Distinct, lookup, insert,
  delete, keep, ltb, leb, not, ◌&&◌, ◌==◌, ◌≡◌, ◌∙◌, refl, ◌≢◌, arith, eq_iff, str_eq,
  if◌then◌else◌, lookup-keep, keep-Distinct, lookup-insert, lookup-delete, delete-Distinct,
  insert-Distinct,
}
use gno_watchtower.Watchtower.Config.{TokenEntry}
use gno_watchtower.Watchtower.Auth.{
  IpRecord, Authenticator, is_zero, survives, maybe_sweep, check_record, is_banned, middleware,
  Request, remote_ip, Verdict, count_failure, or_new, record_auth_failure, after_ban_check,
  check_token, bearer_token, line, rejected, passed,
}

-- The ban that a record stands for, at an instant.
abbrev pub active : ℕ → Option IpRecord → Bool
active now none = false
active now (some r) = not (is_zero r.ban_expiry) && leb now r.ban_expiry

-- Whether an address is banned, read off the records.
abbrev pub banned_at : Authenticator → ℕ → String → Bool
banned_at a now ip = active now (lookup ip a.ips)

survives-active :
    (now t duration : ℕ) (o : Option IpRecord)
    → now ≤ t
    → active t (Base.filter_some (survives now duration) o) ≡ active t o
unfolding survives
survives-active now t duration o h = ground arith

-- A sweep changes nothing about who is banned from then on.
maybe_sweep-banned_at :
    (a : Authenticator) (now t : ℕ) (ip : String)
    → Distinct a.ips
    → now ≤ t
    → banned_at (maybe_sweep a now) t ip ≡ banned_at a t ip
unfolding maybe_sweep
maybe_sweep-banned_at a now t ip d h = ground (
  arith,
  lookup-keep (survives now a.ban_duration) ip a.ips d,
  survives-active now t a.ban_duration (lookup ip a.ips) h,
)

maybe_sweep-Distinct :
    (a : Authenticator) (now : ℕ) → Distinct a.ips → Distinct (maybe_sweep a now).ips
unfolding maybe_sweep
maybe_sweep-Distinct a now d = ground (arith, keep-Distinct (survives now a.ban_duration) a.ips d)

check_record-active :
    (a : Authenticator) (now : ℕ) (ip : String) (o : Option IpRecord)
    → (check_record a now ip o).1 ≡ active now o
unfolding check_record
check_record-active a now ip none = refl
check_record-active a now ip (some r) = ground arith

-- `isBanned` answers by the record of the address, whether or not it sweeps first: yes exactly if
-- there is a ban whose expiry is not before the present instant.
pub is_banned-banned_at :
    (a : Authenticator) (now : ℕ) (ip : String)
    → Distinct a.ips
    → (is_banned a now ip).1 ≡ banned_at a now ip
unfolding is_banned
is_banned-banned_at a now ip d =
    check_record-active (maybe_sweep a now) now ip (lookup ip (maybe_sweep a now).ips)
    ∙ maybe_sweep-banned_at a now now ip d (omega arith)

check_record-banned_at :
    (a : Authenticator) (now t : ℕ) (ip j : String) (o : Option IpRecord)
    → lookup ip a.ips ≡ o
    → now ≤ t
    → banned_at (check_record a now ip o).0 t j ≡ banned_at a t j
unfolding check_record
check_record-banned_at a now t ip j none e h = refl
check_record-banned_at a now t ip j (some r) e h =
    ground (arith, eq_iff ip j, lookup-delete ip j a.ips)

-- The check, with its sweep and its removal of an expired ban, changes nothing about who is banned
-- from then on.
is_banned_keeps :
    (a : Authenticator) (now t : ℕ) (ip j : String)
    → Distinct a.ips
    → now ≤ t
    → banned_at (is_banned a now ip).0 t j ≡ banned_at a t j
unfolding is_banned
is_banned_keeps a now t ip j d h =
    check_record-banned_at (maybe_sweep a now) now t ip j (lookup ip (maybe_sweep a now).ips) refl h
    ∙ maybe_sweep-banned_at a now t j d h

maybe_sweep-tokens : (a : Authenticator) (now : ℕ) → (maybe_sweep a now).tokens ≡ a.tokens
unfolding maybe_sweep
maybe_sweep-tokens a now = ground arith

check_record-tokens :
    (a : Authenticator) (now : ℕ) (ip : String) (o : Option IpRecord)
    → (check_record a now ip o).0.tokens ≡ a.tokens
unfolding check_record
check_record-tokens a now ip none = refl
check_record-tokens a now ip (some r) = ground arith

is_banned-tokens :
    (a : Authenticator) (now : ℕ) (ip : String) → (is_banned a now ip).0.tokens ≡ a.tokens
unfolding is_banned
is_banned-tokens a now ip =
    check_record-tokens (maybe_sweep a now) now ip (lookup ip (maybe_sweep a now).ips)
    ∙ maybe_sweep-tokens a now

-- What the middleware answers, said without its records' upkeep.
abbrev pub answer : Request → Option TokenEntry → Verdict
answer r none = rejected 401 (line r "invalid_token")
answer r (some e) = passed e.validator_name e.config

abbrev pub expected : Authenticator → ℕ → Request → Verdict
expected a now r =
    if banned_at a now (remote_ip r)
    then rejected 403 (line r "banned")
    else answer r (lookup (bearer_token r) a.tokens)

check_token-answer :
    (a : Authenticator) (later : ℕ) (r : Request) (o : Option TokenEntry)
    → (check_token a later r o).1 ≡ answer r o
unfolding check_token
check_token-answer a later r none = refl
check_token-answer a later r (some e) = refl

after_ban_check-answer :
    (later : ℕ) (r : Request) (p : Authenticator × Bool)
    → (after_ban_check later r p).1 ≡ (
        if p.1
        then rejected 403 (line r "banned")
        else answer r (lookup (bearer_token r) p.0.tokens))
after_ban_check-answer later r (a, true) = refl
after_ban_check-answer later r (a, false) =
    check_token-answer a later r (lookup (bearer_token r) a.tokens)

-- A request is answered 403 exactly if its address is banned, else 401 exactly if its token is not
-- registered, and else it goes on as the validator that has the token. Sweeps do not matter.
pub middleware-expected :
    (a : Authenticator) (now later : ℕ) (r : Request)
    → Distinct a.ips
    → (middleware a now later r).1 ≡ expected a now r
unfolding middleware
middleware-expected a now later r d =
    after_ban_check-answer later r (is_banned a now (remote_ip r))
    ∙ rw (is_banned-banned_at a now (remote_ip r) d, is_banned-tokens a now (remote_ip r))

check_token-banned_at :
    (a : Authenticator) (later t : ℕ) (r : Request) (j : String) (o : Option TokenEntry)
    → remote_ip r ≢ j
    → banned_at (check_token a later r o).0 t j ≡ banned_at a t j
unfolding check_token
check_token-banned_at a later t r j none ne = ground (
  arith,
  eq_iff (remote_ip r) j,
  lookup-insert (remote_ip r) j
      (count_failure a.ban_threshold a.ban_duration later (or_new (lookup (remote_ip r) a.ips)))
      a.ips,
)
check_token-banned_at a later t r j (some e) ne =
    ground (arith, eq_iff (remote_ip r) j, lookup-delete (remote_ip r) j a.ips)

after_ban_check-banned_at :
    (later t : ℕ) (r : Request) (j : String) (p : Authenticator × Bool)
    → remote_ip r ≢ j
    → banned_at (after_ban_check later r p).0 t j ≡ banned_at p.0 t j
unfolding record_auth_failure
after_ban_check-banned_at later t r j (a, true) ne = refl
after_ban_check-banned_at later t r j (a, false) ne =
    check_token-banned_at a later t r j (lookup (bearer_token r) a.tokens) ne

-- A request from one address, whatever comes of it, leaves it open to no one to ban or to free
-- another address: from its ban check on, the other is banned when it was before.
pub middleware-banned_at_ne :
    (a : Authenticator) (now later t : ℕ) (r : Request) (j : String)
    → Distinct a.ips
    → now ≤ t
    → remote_ip r ≢ j
    → banned_at (middleware a now later r).0 t j ≡ banned_at a t j
unfolding middleware
middleware-banned_at_ne a now later t r j d h ne =
    after_ban_check-banned_at later t r j (is_banned a now (remote_ip r)) ne
    ∙ is_banned_keeps a now t (remote_ip r) j d h
