-- ===== src/Watchtower/Handlers/Credit.antt =====
-- What a request is answered with and what is counted for it.
use gno_watchtower.Base.{
  ℕ, String, Bool, Option, none, some, length, if◌then◌else◌, ◌≡◌, refl, arith,
}
use gno_watchtower.Watchtower.Config.{ValidatorConfig}
use gno_watchtower.Watchtower.Auth
use gno_watchtower.Watchtower.Auth.{Authenticator, middleware}
use gno_watchtower.Watchtower.RateLimit
use gno_watchtower.Watchtower.RateLimit.{Limiter, allow, limit, after_allow}
use gno_watchtower.Watchtower.Stats.{Data, add}
use gno_watchtower.Watchtower.Handlers.{
  Server, Request, Inner, payload, auth_check, no_route, health, metrics_page, protected, Route,
  outer_route, handle_payload, serve_inner, Body, after_auth, after_limit, serve_route, handle,
}
use gno_watchtower.Watchtower.Handlers.Pipeline.{Call}

-- What a response must be and what must be counted for it, by the answer of the forwarder for the payload
-- that it was given: 200 and the size of the body under the validator and the permission, or 502 and
-- nothing. For a request without a payload nothing is counted.
abbrev pub Settled :
    (String → String → String → Body → Bool) → Option Call → ℕ → Data → Data → Type 0
Settled forward none status before after = after ≡ before
Settled forward (some (perm, validator, level, body)) status before after =
    if forward perm validator level body
    then (status ≡ 200) × (after ≡ add validator perm (length body) before)
    else (status ≡ 502) × (after ≡ before)

module _ {L : Type 0} (forward : String → String → String → Body → Bool) where
  handle_payload-credit :
      (s : Server L) (validator : String) (cfg : ValidatorConfig) (perm : String)
      (body : Option Body)
      → Settled forward
          (handle_payload forward s validator cfg perm body).1.forwarded
          (handle_payload forward s validator cfg perm body).1.status
          s.stats
          (handle_payload forward s validator cfg perm body).0.stats
  unfolding handle_payload
  handle_payload-credit s validator cfg perm none = ground arith
  handle_payload-credit s validator cfg perm (some bytes) = ground arith

  module _ (fresh : L) (allow_one : L → ℕ → L × Bool) where
    serve_inner-credit :
        (s : Server L) (validator : String) (cfg : ValidatorConfig) (body : Option Body)
        (inner : Inner)
        → Settled forward
            (serve_inner forward s validator cfg body inner).1.forwarded
            (serve_inner forward s validator cfg body inner).1.status
            s.stats
            (serve_inner forward s validator cfg body inner).0.stats
    unfolding serve_inner
    serve_inner-credit s validator cfg body (payload perm) =
        handle_payload-credit s validator cfg perm body
    serve_inner-credit s validator cfg body auth_check = refl
    serve_inner-credit s validator cfg body (no_route status) = refl

    after_limit-credit :
        (s : Server L) (name : String) (cfg : ValidatorConfig) (r : Request)
        (limited : Limiter L × RateLimit.Verdict)
        → Settled forward
            (after_limit forward fresh allow_one s name cfg r limited).1.forwarded
            (after_limit forward fresh allow_one s name cfg r limited).1.status
            s.stats
            (after_limit forward fresh allow_one s name cfg r limited).0.stats
    after_limit-credit s name cfg r (rl, RateLimit.refused status after) = refl
    after_limit-credit s name cfg r (rl, RateLimit.next) =
        serve_inner-credit (record s { rl = rl }) name cfg r.body _

    after_auth-credit :
        (s : Server L) (at : ℕ) (r : Request) (checked : Authenticator × Auth.Verdict)
        → Settled forward
            (after_auth forward fresh allow_one s at r checked).1.forwarded
            (after_auth forward fresh allow_one s at r checked).1.status
            s.stats
            (after_auth forward fresh allow_one s at r checked).0.stats
    after_auth-credit s at r (auth, Auth.rejected status line) = refl
    after_auth-credit s at r (auth, Auth.passed name cfg) =
        after_limit-credit (record s { auth = auth }) name cfg r _

    serve_route-credit :
        (s : Server L) (now later at : ℕ) (r : Request) (route : Route)
        → Settled forward
            (serve_route forward fresh allow_one s now later at r route).1.forwarded
            (serve_route forward fresh allow_one s now later at r route).1.status
            s.stats
            (serve_route forward fresh allow_one s now later at r route).0.stats
    serve_route-credit s now later at r health = refl
    serve_route-credit s now later at r metrics_page = refl
    serve_route-credit s now later at r protected = after_auth-credit s at r _

    -- A request whose payload the forwarder took is answered with 200, and the statistics grow by the size
    -- of its body under its validator and its permission; one whose payload the forwarder refused is
    -- answered with 502, and neither it nor a request without a forwarded payload changes them.
    pub handle-credit :
        (s : Server L) (now later at : ℕ) (r : Request)
        → Settled forward
            (handle forward fresh allow_one s now later at r).1.forwarded
            (handle forward fresh allow_one s now later at r).1.status
            s.stats
            (handle forward fresh allow_one s now later at r).0.stats
    unfolding handle
    handle-credit s now later at r =
        serve_route-credit s now later at r (outer_route r.method r.credentials.path)
