-- ===== src/Watchtower/Auth/Attempts.antt =====
-- A run of failed attempts from one address ends in a ban; a success forgets them.
use mathlib.Core.Path.{subst₂, sym}
use gno_watchtower.Base
use gno_watchtower.Base.{
  ℕ, suc, zero, ◌+◌, ◌≤◌, ◌<◌, String, Bool, true, false, Option, none, some, List, [], ◌∷◌, Assoc,
  Distinct, lookup, insert, keep, ltb, leb, not, ◌==◌, ◌≡◌, ◌∙◌, refl, arith, eq_iff, str_eq,
  if◌then◌else◌, eq_refl, lookup-keep, keep-Distinct, lookup-insert, insert-Distinct, length, All,
}
use gno_watchtower.Watchtower.Config.{TokenEntry}
use gno_watchtower.Watchtower.Auth.{
  IpRecord, Authenticator, survives, maybe_sweep, check_record, is_banned, record_failure,
  middleware, since, Request, remote_ip, count_failure, or_new, record_auth_failure, check_token,
  bearer_token,
}
use gno_watchtower.Watchtower.Auth.Bans.{banned_at}

-- The requests of a run, each with the instant at which it is handled.
unfoldable pub attempts : Authenticator → List (ℕ × Request) → Authenticator
attempts a [] = a
attempts a ((now, r) ∷ rest) = attempts (middleware a now now r).0 rest

-- What an attempt needs to be counted on: no ban, and the last failure within a ban's duration.
abbrev pub Recent : ℕ → ℕ → Option IpRecord → Type 0
Recent duration now none = Unit
Recent duration now (some r) =
    (r.ban_expiry ≡ 0) × (r.last_seen ≤ now) × (now ≤ r.last_seen + duration)

-- Attempts from `ip`, with tokens that are not registered, each within `duration` of the one before.
abbrev pub Failing : Assoc TokenEntry → String → ℕ → ℕ → List (ℕ × Request) → Type 0
Failing tokens ip duration before [] = Unit
Failing tokens ip duration before ((now, r) ∷ rest) =
    (remote_ip r ≡ ip)
    × (lookup (bearer_token r) tokens ≡ none)
    × (before ≤ now)
    × (now ≤ before + duration)
    × Failing tokens ip duration now rest

abbrev pub last_time : ℕ → List (ℕ × Request) → ℕ
last_time before [] = before
last_time before ((now, r) ∷ rest) = last_time now rest

-- `b` is `a` with `o` for the record of `ip`, as far as an attempt from `ip` can tell.
record Holds (a : Authenticator) (ip : String) (o : Option IpRecord) (b : Authenticator)
    : Type 0 where
  found : lookup ip b.ips ≡ o
  distinct : Distinct b.ips
  tokens : b.tokens ≡ a.tokens
  threshold : b.ban_threshold ≡ a.ban_threshold
  duration : b.ban_duration ≡ a.ban_duration

Recent-survives :
    (duration now : ℕ) (o : Option IpRecord)
    → Recent duration now o
    → Base.filter_some (survives now duration) o ≡ o
unfolding survives
Recent-survives duration now none h = refl
Recent-survives duration now (some r) h = ground arith

maybe_sweep-Holds :
    (a : Authenticator) (now : ℕ) (ip : String) (o : Option IpRecord)
    → Distinct a.ips
    → lookup ip a.ips ≡ o
    → Recent a.ban_duration now o
    → Holds a ip o (maybe_sweep a now)
unfolding maybe_sweep
maybe_sweep-Holds a now ip o d e h = go (ltb (since now a.last_cleanup) a.ban_duration)
  where
    kept : Authenticator
    kept = record a { ips = keep (survives now a.ban_duration) a.ips; last_cleanup = now }

    go : (b : Bool) → Holds a ip o (if b then a else kept)
    go true = record { found = e; distinct = d; tokens = refl; threshold = refl; duration = refl }
    go false = record {
      found =
          lookup-keep (survives now a.ban_duration) ip a.ips d
          ∙ rw e (Recent-survives a.ban_duration now o h);
      distinct = keep-Distinct (survives now a.ban_duration) a.ips d;
      tokens = refl;
      threshold = refl;
      duration = refl;
    }

check_record-Recent :
    (a : Authenticator) (duration now : ℕ) (ip : String) (o : Option IpRecord)
    → Recent duration now o
    → check_record a now ip o ≡ (a, false)
unfolding check_record
check_record-Recent a duration now ip none h = refl
check_record-Recent a duration now ip (some r) h = ground arith

abbrev count_next : Authenticator → ℕ → Option IpRecord → IpRecord
count_next a now o = count_failure a.ban_threshold a.ban_duration now (or_new o)

record_failure-Holds :
    (a b : Authenticator) (now : ℕ) (ip : String) (o : Option IpRecord)
    → Holds a ip o b
    → Holds a ip
        (some (count_next a now o))
        (record_auth_failure (record_failure b now ip) "invalid_token")
unfolding record_failure record_auth_failure
record_failure-Holds a b now ip o s = record {
  found = simp (lookup-insert, eq_refl, s.found, s.threshold, s.duration);
  distinct = insert-Distinct ip (count_next b now (lookup ip b.ips)) b.ips s.distinct;
  tokens = s.tokens;
  threshold = s.threshold;
  duration = s.duration;
}

-- One attempt with an unknown token, when the record is recent: it is counted.
failed_attempt :
    (a : Authenticator) (now : ℕ) (r : Request) (ip : String) (o : Option IpRecord)
    → Distinct a.ips
    → lookup ip a.ips ≡ o
    → Recent a.ban_duration now o
    → remote_ip r ≡ ip
    → lookup (bearer_token r) a.tokens ≡ none
    → Holds a ip (some (count_next a now o)) (middleware a now now r).0
unfolding middleware is_banned check_token
failed_attempt a now r ip o d e recent same unknown =
    let swept = maybe_sweep-Holds a now ip o d e recent in
    rw
      (
        same,
        swept.found,
        check_record-Recent (maybe_sweep a now) a.ban_duration now ip o recent,
        swept.tokens,
        unknown,
        same,
      )
      (record_failure-Holds a (maybe_sweep a now) now ip o swept)

abbrev Pending : ℕ → Option IpRecord → Type 0
Pending before none = Unit
Pending before (some r) = (r.ban_expiry ≡ 0) × (r.last_seen ≡ before)

Pending-Recent :
    (duration before now : ℕ) (o : Option IpRecord)
    → Pending before o
    → before ≤ now
    → now ≤ before + duration
    → Recent duration now o
Pending-Recent duration before now none p h k = tt
Pending-Recent duration before now (some r) p h k = omega arith

Pending-expiry : (before : ℕ) (o : Option IpRecord) → Pending before o → (or_new o).ban_expiry ≡ 0
Pending-expiry before none p = refl
Pending-expiry before (some r) p = p.0

-- The attempt that reaches the threshold bans for the whole duration.
last_attempt :
    (a b : Authenticator) (ip : String) (now t : ℕ) (o : Option IpRecord)
    → Holds a ip (some (count_next a now o)) b
    → (or_new o).failures + 1 ≡ a.ban_threshold
    → 0 < a.ban_duration
    → t ≤ now + a.ban_duration
    → banned_at b t ip ≡ true
unfolding count_failure
last_attempt a b ip now t o h e d k = rw (h.found) (ground arith)

earlier_attempt :
    (a : Authenticator) (before now : ℕ) (o : Option IpRecord)
    → Pending before o
    → (or_new o).failures + 1 < a.ban_threshold
    → Pending now (some (count_next a now o))
unfolding count_failure
earlier_attempt a before now o p h = let e = Pending-expiry before o p in ground arith

attempts-banned_at :
    (a : Authenticator) (ip : String) (o : Option IpRecord) (before t : ℕ) (ts : List (ℕ × Request))
    → Distinct a.ips
    → lookup ip a.ips ≡ o
    → Pending before o
    → Failing a.tokens ip a.ban_duration before ts
    → 0 < length ts
    → (or_new o).failures + length ts ≡ a.ban_threshold
    → 0 < a.ban_duration
    → t ≤ last_time before ts + a.ban_duration
    → banned_at (attempts a ts) t ip ≡ true
unfolding attempts
attempts-banned_at a ip o before t [] d e p f some_left n pos k = absurd (omega arith)
attempts-banned_at a ip o before t ((now, r) ∷ []) d e p (same, unknown, from, to, f) some_left n
      pos k =
    last_attempt a (middleware a now now r).0 ip now t o
      (failed_attempt a now r ip o d e (Pending-Recent a.ban_duration before now o p from to) same
        unknown)
      (omega arith) pos k
attempts-banned_at a ip o before t ((now, r) ∷ next ∷ rest) d e p (same, unknown, from, to, f)
      some_left n pos k =
    let h =
      failed_attempt a now r ip o d e (Pending-Recent a.ban_duration before now o p from to) same
        unknown in
    attempts-banned_at (middleware a now now r).0 ip (some (count_next a now o)) now t (next ∷ rest)
      h.distinct h.found (earlier_attempt a before now o p (omega arith))
      (subst₂ (λ tokens duration. Failing tokens ip duration now (next ∷ rest)) (sym h.tokens)
        (sym h.duration) f)
      (omega arith) (rw h.threshold (unfold count_failure in omega arith)) (rw h.duration pos)
      (rw h.duration k)

-- As many failed attempts in a row as the threshold, from an address with no record, each within a
-- ban's duration of the one before: from the last of them on the address is banned for a ban's
-- duration.
pub attempts_ban :
    (a : Authenticator) (ip : String) (first t : ℕ) (ts : List (ℕ × Request))
    → Distinct a.ips
    → lookup ip a.ips ≡ none
    → Failing a.tokens ip a.ban_duration first ts
    → 0 < a.ban_threshold
    → length ts ≡ a.ban_threshold
    → 0 < a.ban_duration
    → t ≤ last_time first ts + a.ban_duration
    → banned_at (attempts a ts) t ip ≡ true
attempts_ban a ip first t ts d e f p n pos k =
    attempts-banned_at a ip none first t ts d e tt f (omega arith) (omega arith) pos k
