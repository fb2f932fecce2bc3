-- ===== src/Watchtower/Auth/Examples.antt =====
-- The authenticator on concrete requests.
use Prim.Native.String.{◌++◌}
use gno_watchtower.Base.{
  ℕ, String, true, false, some, List, [], ◌∷◌, Assoc, lookup, insert, ◌≡◌, ◌≢◌, refl, arith, eq_iff,
  cut_prefix, split, last_of, occurs, trim_space, delete, keep,
}
use mathlib.Core.Bool.{false≢true}
use gno_watchtower.Watchtower.Config.{ValidatorConfig}
use gno_watchtower.Watchtower.Config.Checks.{Sound, check_validators-Sound}
use gno_watchtower.Watchtower.Config.{check_validators}
use gno_watchtower.Watchtower.Auth.{
  Authenticator, Request, middleware, new, reload, is_banned, remote_ip, bearer_token, passed,
  rejected, line, check_token, record_auth_failure, token_prefix,
}
use gno_watchtower.Watchtower.Auth.Bans.{banned_at, expected, middleware-expected}
use gno_watchtower.Watchtower.Auth.Failures.{
  IsWellFormed, Section, checks_ban, fails, perform_all, sections-IsWellFormed,
}
use gno_watchtower.Watchtower.Auth.Attempts.{attempts, attempts_ban}
use gno_watchtower.Watchtower.Auth.Tokens.{owner, entry, passed-owner}
use gno_watchtower.Watchtower.Auth.Headers.{remote_host}
use gno_watchtower.Watchtower.Auth.Forwarded.{chars, remote_ip-appended}

program : Unit {0}
unfolding new middleware is_banned check_token record_auth_failure remote_ip bearer_token
    token_prefix remote_host cut_prefix split last_of trim_space lookup insert delete keep attempts
    occurs chars reload owner
program = tt

abbrev alice : ValidatorConfig
alice = record { token = "tok-1"; permissions = "rpc" ∷ []; logs_min_level = "info" }

abbrev bob : ValidatorConfig
bob = record { token = "tok-2"; permissions = "otlp" ∷ []; logs_min_level = "" }

abbrev validators : Assoc ValidatorConfig
validators = ("alice", alice) ∷ ("bob", bob) ∷ []

abbrev start : Authenticator
start = new validators 2 100

-- A client that sends a fake X-Forwarded-For, to which the proxy has appended its address.
abbrev request : String → Request
request authorization = record {
  authorization = authorization;
  x_forwarded_for = "6.6.6.6" ++ ("," ++ " 1.2.3.4");
  remote_addr = "10.0.0.2:443";
  path = "/rpc";
}

abbrev good : Request
good = request "Bearer tok-1"

abbrev bad : Request
bad = request "Bearer guess-123456"

abbrev run : List (ℕ × Request)
run = (1000, bad) ∷ (1050, bad) ∷ []

abbrev after_run : Authenticator
after_run = attempts start run

passes : (middleware start 1000 1000 good).1 ≡ passed "alice" alice
unfolding program
passes = refl

-- The right token does not help a banned address.
bans : (middleware after_run 1150 1150 good).1 ≡ rejected 403 (line good "banned")
unfolding program
bans = refl

frees : (middleware after_run 1151 1151 good).1 ≡ passed "alice" alice
unfolding program
frees = refl

direct : remote_ip (record good { x_forwarded_for = ""; remote_addr = "[::1]:80" }) ≡ "::1"
unfolding program
direct = refl

middleware-expected_example : (middleware after_run 1100 1101 bad).1 ≡ expected after_run 1100 bad
unfolding program
middleware-expected_example = middleware-expected after_run 1100 1101 bad (refl, tt)

other_ne : ◌≢◌ {A = String} "1.2.3.4" "5.6.7.8"
other_ne p = false≢true ((eq_iff "1.2.3.4" "5.6.7.8").1 p)

-- Two requests whose ban checks both come before their failures.
abbrev overlapping : List Section
overlapping =
    checks_ban 10 "1.2.3.4" ∷ checks_ban 11 "1.2.3.4" ∷ fails 12 "1.2.3.4" ∷ fails 13 "1.2.3.4" ∷ []

sections-IsWellFormed_example : IsWellFormed (perform_all overlapping (new [] 1 100))
sections-IsWellFormed_example =
    sections-IsWellFormed [] 1 100 overlapping (omega arith) (omega arith)

attempts_ban_example : banned_at (attempts start run) 1150 "1.2.3.4" ≡ true
unfolding program
attempts_ban_example =
    attempts_ban start "1.2.3.4" 950 1150 run tt refl
      (refl, refl, omega arith, omega arith, (refl, refl, omega arith, omega arith, tt))
      (omega arith) refl (omega arith) (omega arith)

validators-Sound : Sound validators
unfolding check_validators program
validators-Sound = (check_validators-Sound [] validators refl).0

passed-owner_example :
    (banned_at (reload start validators) 1000 (remote_ip good) ≡ false)
    × (cut_prefix good.authorization "Bearer " ≡ some alice.token)
    × (alice.token ≢ "")
    × (owner alice.token validators ≡ some (entry "alice" alice))
unfolding program
passed-owner_example =
    passed-owner start validators 1000 1000 good "alice" alice validators-Sound tt refl

remote_ip-appended_example : remote_ip bad ≡ "1.2.3.4"
unfolding program
remote_ip-appended_example =
    remote_ip-appended bad "6.6.6.6" " 1.2.3.4" refl refl
      (λ p. false≢true ((eq_iff "1.2.3.4" "").1 p))
