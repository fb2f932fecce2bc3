-- ===== src/Watchtower/Handlers/Examples.antt =====
-- A validator that posts a payload.
use gno_watchtower.Base.{
  ℕ, ◌-◌, String, Bool, true, [], ◌∷◌, none, some, ltb, lookup, insert, delete, keep, cut_prefix,
  split, trim_space, last_of, ◌≡◌, ◌↔◌, refl,
}
use gno_watchtower.Watchtower.Config.{ValidatorConfig}
use gno_watchtower.Watchtower.Auth
use gno_watchtower.Watchtower.Auth.{
  middleware, new, is_banned, check_token, remote_ip, bearer_token, token_prefix,
}
use gno_watchtower.Watchtower.RateLimit.{allow, limit}
use gno_watchtower.Watchtower.Handlers.{
  Server, Body, Request, handle, handle_payload, serve_inner, inner_route, outer_route,
}
use gno_watchtower.Watchtower.Handlers.Credit.{Settled, handle-credit}
use gno_watchtower.Watchtower.Handlers.Pipeline.{Checked, Call, handle-Checked}

abbrev spend : ℕ → ℕ → ℕ × Bool
spend left now = (left - 1, ltb 0 left)

abbrev accepts : String → String → String → Body → Bool
accepts perm validator level bytes = true

abbrev alice : ValidatorConfig
alice = record { token = "t0ken"; permissions = "rpc" ∷ "logs" ∷ []; logs_min_level = "warn" }

abbrev server : Server ℕ
server = record {
  auth = Auth.new (("alice", alice) ∷ []) 5 900;
  rl = record { limiters = []; on_limit = none };
  stats = [];
  metrics = [];
}

abbrev post_logs : Request
post_logs = record {
  method = "POST";
  credentials = record {
    authorization = "Bearer t0ken";
    x_forwarded_for = "1.2.3.4";
    remote_addr = "10.0.0.1:80";
    path = "/logs";
  };
  body = some (1 ∷ 2 ∷ 3 ∷ []);
}

abbrev call : Call
call = ("logs", "alice", "warn", 1 ∷ 2 ∷ 3 ∷ [])

program : Unit {0}
unfolding handle handle_payload serve_inner inner_route outer_route limit allow middleware new
    is_banned check_token remote_ip bearer_token token_prefix lookup insert delete keep cut_prefix
    split trim_space last_of
program = tt

handles :
    (handle accepts 3 spend server 1000 1000 1000 post_logs).1
    ≡ record { status = 200; forwarded = some call }
unfolding program
handles = refl

handle-credit_example :
    let (after, answer) = handle accepts 3 spend server 1000 1000 1000 post_logs in
    Settled accepts answer.forwarded answer.status [] after.stats
handle-credit_example = handle-credit accepts 3 spend server 1000 1000 1000 post_logs

handle-Checked_example :
    ((handle accepts 3 spend server 1000 1000 1000 post_logs).1.forwarded ≡ some call)
    ↔ Checked accepts 3 spend server 1000 post_logs
        (middleware server.auth 1000 1000 post_logs.credentials).1
        call
handle-Checked_example = handle-Checked accepts 3 spend server 1000 1000 1000 post_logs call
