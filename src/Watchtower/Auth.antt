-- ===== src/Watchtower/Auth.antt =====
-- internal/watchtower/auth/auth.go: bearer tokens, and bans of addresses that fail to authenticate.
-- An instant is a number of nanoseconds since Go's zero time, so 0 is the instant for which
-- `IsZero` holds. A critical section reads the clock once here; the durations and the threshold are
-- those of a validated configuration, hence positive.
mod Headers
pub mod Bans
pub mod Failures
pub mod Attempts
pub mod Tokens
pub mod Forwarded
mod Examples
use gno_watchtower.Base.{
  ℕ, ◌+◌, ◌-◌, ◌^◌, min, String, Bool, true, false, Option, none, some, List, [], ◌∷◌, ◌++◌, Assoc,
  lookup, insert, delete, keep, ltb, leb, ◌==◌, ◌&&◌, not, if◌then◌else◌,
}
use gno_watchtower.Watchtower.Config.{ValidatorConfig, TokenEntry}
pub use Headers.{Request}
unfoldable pub use Headers.{bearer_token, token_prefix, remote_ip}

pub record IpRecord : Type 0 where
  pub failures : ℕ
  pub ban_expiry : ℕ
  pub last_seen : ℕ

-- `metrics` is the installed sink with what was recorded in it, or `none` for a nil sink.
pub record Authenticator : Type 0 where
  pub tokens : Assoc TokenEntry
  pub ban_threshold : ℕ
  pub ban_duration : ℕ
  pub ips : Assoc IpRecord
  pub last_cleanup : ℕ
  pub metrics : Option (List String)

-- The loop of `New` and of `Reload`: a later validator with the same token takes its place.
unfoldable pub index_tokens : Assoc TokenEntry → Assoc ValidatorConfig → Assoc TokenEntry
index_tokens tokens [] = tokens
index_tokens tokens ((name, v) ∷ rest) =
    index_tokens (insert v.token (record { validator_name = name; config = v }) tokens) rest

unfoldable pub new : Assoc ValidatorConfig → ℕ → ℕ → Authenticator
unfolding index_tokens
new validators ban_threshold ban_duration = record {
  tokens = index_tokens [] validators;
  ban_threshold = ban_threshold;
  ban_duration = ban_duration;
  ips = [];
  last_cleanup = 0;
  metrics = none;
}

unfoldable pub set_metrics : Authenticator → Authenticator
set_metrics a = record a { metrics = some [] }

unfoldable pub reload : Authenticator → Assoc ValidatorConfig → Authenticator
unfolding index_tokens
reload a validators = record a { tokens = index_tokens [] validators }

-- The longest `time.Duration`, at which `Sub` and `Since` saturate.
abbrev pub max_duration : ℕ
max_duration = 2 ^ 63 - 1

-- `now.Sub(t)`, for an instant that is not after `now`.
abbrev pub since : ℕ → ℕ → ℕ
since now t = min (now - t) max_duration

abbrev pub is_zero : ℕ → Bool
is_zero t = t == 0

-- What `maybeSweep` leaves in the map: bans that have not expired, and failures that are recent.
unfoldable pub survives : ℕ → ℕ → IpRecord → Bool
survives now duration r =
    if is_zero r.ban_expiry
    then not (ltb duration (since now r.last_seen))
    else not (ltb r.ban_expiry now)

unfoldable pub maybe_sweep : Authenticator → ℕ → Authenticator
unfolding survives
maybe_sweep a now =
    if ltb (since now a.last_cleanup) a.ban_duration
    then a
    else record a { ips = keep (survives now a.ban_duration) a.ips; last_cleanup = now }

-- `isBanned`, behind the sweep and the look-up.
unfoldable pub check_record : Authenticator → ℕ → String → Option IpRecord → Authenticator × Bool
check_record a now ip none = (a, false)
check_record a now ip (some r) =
    if is_zero r.ban_expiry
    then (a, false)
    else if ltb r.ban_expiry now
    then (record a { ips = delete ip a.ips }, false)
    else (a, true)

unfoldable pub is_banned : Authenticator → ℕ → String → Authenticator × Bool
unfolding maybe_sweep check_record
is_banned a now ip =
    let swept = maybe_sweep a now in check_record swept now ip (lookup ip swept.ips)

unfoldable pub banned_count : Assoc IpRecord → ℕ → ℕ
banned_count [] now = 0
banned_count ((ip, r) ∷ rest) now =
    let n = banned_count rest now in
    if not (is_zero r.ban_expiry) && ltb now r.ban_expiry then n + 1 else n

abbrev pub no_record : IpRecord
no_record = record { failures = 0; ban_expiry = 0; last_seen = 0 }

abbrev pub or_new : Option IpRecord → IpRecord
or_new none = no_record
or_new (some r) = r

-- The counter is an `int`, which 2 ^ 63 failures of one address would take to overflow.
unfoldable pub count_failure : ℕ → ℕ → ℕ → IpRecord → IpRecord
count_failure threshold duration now r =
    let failures = r.failures + 1 in
    record {
      failures = failures;
      ban_expiry = if leb threshold failures then now + duration else r.ban_expiry;
      last_seen = now;
    }

unfoldable pub record_failure : Authenticator → ℕ → String → Authenticator
unfolding count_failure
record_failure a now ip = record a {
  ips =
      insert ip (count_failure a.ban_threshold a.ban_duration now (or_new (lookup ip a.ips))) a.ips;
}

unfoldable pub record_success : Authenticator → String → Authenticator
record_success a ip = record a { ips = delete ip a.ips }

abbrev pub record_metric : Option (List String) → String → Option (List String)
record_metric none reason = none
record_metric (some rs) reason = some (rs ++ reason ∷ [])

unfoldable pub record_auth_failure : Authenticator → String → Authenticator
record_auth_failure a reason = record a { metrics = record_metric a.metrics reason }

-- A line of the structured log.
pub record LogLine : Type 0 where
  pub reason : String
  pub ip : String
  pub path : String
  pub token_prefix : String

abbrev pub line : Request → String → LogLine
line r reason = record {
  reason = reason;
  ip = remote_ip r;
  path = r.path;
  token_prefix = token_prefix (bearer_token r);
}

-- What the middleware does with a request: an error response, or a call of the next handler with the
-- validator in its context.
pub data Verdict : Type 0 where
  rejected : ℕ → LogLine → Verdict
  passed : String → ValidatorConfig → Verdict

-- The token check, for an address that is not banned; `now` is when a failure is recorded.
unfoldable pub check_token :
    Authenticator → ℕ → Request → Option TokenEntry → Authenticator × Verdict
unfolding record_failure record_success record_auth_failure
check_token a now r none = (
  record_auth_failure (record_failure a now (remote_ip r)) "invalid_token",
  rejected 401 (line r "invalid_token"),
)
check_token a now r (some entry) =
    (record_success a (remote_ip r), passed entry.validator_name entry.config)

abbrev pub after_ban_check : ℕ → Request → Authenticator × Bool → Authenticator × Verdict
after_ban_check now r (a, true) = (record_auth_failure a "banned", rejected 403 (line r "banned"))
after_ban_check now r (a, false) = check_token a now r (lookup (bearer_token r) a.tokens)

-- `Middleware`, at the instants of its ban check and of its record of a failure.
unfoldable pub middleware : Authenticator → ℕ → ℕ → Request → Authenticator × Verdict
middleware a now later r = after_ban_check later r (is_banned a now (remote_ip r))
