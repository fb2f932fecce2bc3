-- ===== src/Watchtower/Handlers/Pipeline.antt =====
-- What a request must pass before its payload is forwarded.
use gno_watchtower.Base.{
  ℕ, ◌≤◌, inl, inr, String, Bool, true, false, Option, none, some, leb, length, if◌then◌else◌, ◌≡◌,
  ◌↔◌, refl, arith, Bool-cases,
}
use gno_watchtower.Watchtower.Config.{ValidatorConfig}
use gno_watchtower.Watchtower.Auth
use gno_watchtower.Watchtower.Auth.{Authenticator, middleware}
use gno_watchtower.Watchtower.RateLimit.{Limiter, allow, limit, after_allow}
use gno_watchtower.Watchtower.Handlers.Routes.{
  Endpoint, Listed, inner_route-payload, contains-Listed, Listed-contains, Endpoint-route,
}
use gno_watchtower.Watchtower.Handlers.{
  Server, Request, Response, only, Inner, payload, auth_check, no_route, health, metrics_page,
  protected, Route, inner_route, contains, level_for, max_body_bytes, handle_payload, serve_inner,
  Body, after_auth, after_limit, serve_route, handle,
}

abbrev pub Call : Type 0
Call = String × String × String × Body

abbrev tested {ℓ} : {S : Type ℓ} → Bool → Bool → Bool → Call → S → S → S → S → S × Response
tested a b c call w x y z =
    if a
    then if b
      then if c
        then (w, record { status = 200; forwarded = some call })
        else (x, record { status = 502; forwarded = some call })
      else (y, only 400)
    else (z, only 403)

-- The call in a response that has passed three tests.
forwarded_call {ℓ} :
    {S : Type ℓ} (a b c : Bool) (call : Call) (w x y z : S) {seen : Call}
    → (tested a b c call w x y z).1.forwarded ≡ some seen
    → seen ≡ call
forwarded_call true true true call w x y z h = cc
forwarded_call true true false call w x y z h = cc
forwarded_call true false c call w x y z h = absurd (cc)
forwarded_call false b c call w x y z h = absurd (cc)

module _ {L : Type 0} (forward : String → String → String → Body → Bool) where
  handle_payload-forwarded :
      (s : Server L) (validator : String) (cfg : ValidatorConfig) (perm : String)
      (body : Option Body) (call : Call)
      → (handle_payload forward s validator cfg perm body).1.forwarded ≡ some call
      → (bytes : Body) × (body ≡ some bytes)
        × (length bytes ≤ 52428800)
        × (contains cfg.permissions perm ≡ true)
        × (call ≡ (perm, validator, level_for perm cfg, bytes))
  unfolding handle_payload
  handle_payload-forwarded s validator cfg perm none call h = absurd (ground arith)
  handle_payload-forwarded s validator cfg perm (some bytes) call h = (
    bytes,
    refl,
    ground arith,
    ground arith,
    forwarded_call (contains cfg.permissions perm) (leb (length bytes) max_body_bytes)
        (forward perm validator (level_for perm cfg) bytes) _ _ _ _ _ h,
  )

  module _ (fresh : L) (allow_one : L → ℕ → L × Bool) where
    -- What stands behind a payload that was forwarded.
    abbrev pub Checked : Server L → ℕ → Request → Auth.Verdict → Call → Type 0
    Checked s at r verdict call =
        (cfg : ValidatorConfig) × (verdict ≡ Auth.passed call.1 cfg)
        × ((allow fresh allow_one s.rl at call.1).1 ≡ true)
        × (r.method ≡ "POST")
        × Endpoint r.credentials.path call.0 call.2 cfg.logs_min_level
        × Listed call.0 cfg.permissions
        × (r.body ≡ some call.3)
        × (length call.3 ≤ 52428800)

    serve_inner-Checked :
        (s : Server L) (name : String) (cfg : ValidatorConfig) (at : ℕ) (r : Request)
        (inner : Inner) (call : Call)
        → inner_route r.method r.credentials.path ≡ inner
        → (allow fresh allow_one s.rl at name).1 ≡ true
        → (rl : Limiter L)
        → (serve_inner forward (record s { rl = rl }) name cfg r.body inner).1.forwarded ≡ some call
        → Checked s at r (Auth.passed name cfg) call
    unfolding serve_inner
    serve_inner-Checked s name cfg at r (payload perm) call route fine rl h =
        let (bytes, read, small, allowed, same) =
          handle_payload-forwarded (record s { rl = rl }) name cfg perm r.body call h in
        let (post, endpoint) = inner_route-payload r.method r.credentials.path perm cfg route in
        rw same (
          (
            cfg,
            refl,
            fine,
            post,
            endpoint,
            contains-Listed cfg.permissions perm allowed,
            read,
            small,
          ))
    serve_inner-Checked s name cfg at r auth_check call route fine rl h = absurd (cc)
    serve_inner-Checked s name cfg at r (no_route status) call route fine rl h = absurd (cc)

    after_limit-Checked :
        (s : Server L) (name : String) (cfg : ValidatorConfig) (at : ℕ) (r : Request)
        (limited : Limiter L × Bool) (call : Call)
        → allow fresh allow_one s.rl at name ≡ limited
        → (after_limit forward fresh allow_one s name cfg r
            (after_allow fresh allow_one name limited)).1.forwarded
          ≡ some call
        → Checked s at r (Auth.passed name cfg) call
    after_limit-Checked s name cfg at r (rl, true) call q h =
        serve_inner-Checked s name cfg at r _ call refl (rw q refl) rl h
    after_limit-Checked s name cfg at r (rl, false) call q h = absurd (cc)

    after_auth-Checked :
        (s : Server L) (at : ℕ) (r : Request) (checked : Authenticator × Auth.Verdict) (call : Call)
        → (after_auth forward fresh allow_one s at r checked).1.forwarded ≡ some call
        → Checked s at r checked.1 call
    unfolding limit
    after_auth-Checked s at r (auth, Auth.rejected status line) call h = absurd (cc)
    after_auth-Checked s at r (auth, Auth.passed name cfg) call h =
        after_limit-Checked (record s { auth = auth }) name cfg at r _ call refl h

    serve_route-Checked :
        (s : Server L) (now later at : ℕ) (r : Request) (route : Route) (call : Call)
        → (serve_route forward fresh allow_one s now later at r route).1.forwarded ≡ some call
        → Checked s at r (middleware s.auth now later r.credentials).1 call
    serve_route-Checked s now later at r health call h = absurd (cc)
    serve_route-Checked s now later at r metrics_page call h = absurd (cc)
    serve_route-Checked s now later at r protected call h = after_auth-Checked s at r _ call h

    handle_payload-forwards :
        (s : Server L) (name : String) (cfg : ValidatorConfig) (perm : String) (body : Option Body)
        (bytes : Body)
        → contains cfg.permissions perm ≡ true
        → body ≡ some bytes
        → length bytes ≤ 52428800
        → (handle_payload forward s name cfg perm body).1.forwarded
          ≡ some (perm, name, level_for perm cfg, bytes)
    unfolding handle_payload
    handle_payload-forwards s name cfg perm body bytes allowed read small =
        let fits : leb (length bytes) max_body_bytes ≡ true = ground (arith, small) in
        rw (allowed, read, fits)
          (elim (Bool-cases (forward perm name (level_for perm cfg) bytes)) [
            | inl taken ↦ rw taken refl
            | inr refused ↦ rw refused refl
          ])

    after_limit-forwards :
        (s : Server L) (cfg : ValidatorConfig) (r : Request) (call : Call) (rl : Limiter L)
        (b : Bool)
        → b ≡ true
        → inner_route r.method r.credentials.path ≡ payload call.0
        → call.2 ≡ level_for call.0 cfg
        → contains cfg.permissions call.0 ≡ true
        → r.body ≡ some call.3
        → length call.3 ≤ 52428800
        → (after_limit forward fresh allow_one s call.1 cfg r
            (after_allow fresh allow_one call.1 (rl, b))).1.forwarded
          ≡ some call
    unfolding serve_inner
    after_limit-forwards s cfg r (perm, name, level, bytes) rl b go route same allowed read small =
        rw (go, route, same)
          (handle_payload-forwards (record s { rl = rl }) name cfg perm r.body bytes allowed read
            small)

    after_auth-forwards :
        (s : Server L) (at : ℕ) (r : Request) (call : Call) (cfg : ValidatorConfig)
        (auth : Authenticator) (verdict : Auth.Verdict)
        → verdict ≡ Auth.passed call.1 cfg
        → (allow fresh allow_one s.rl at call.1).1 ≡ true
        → inner_route r.method r.credentials.path ≡ payload call.0
        → call.2 ≡ level_for call.0 cfg
        → contains cfg.permissions call.0 ≡ true
        → r.body ≡ some call.3
        → length call.3 ≤ 52428800
        → (after_auth forward fresh allow_one s at r (auth, verdict)).1.forwarded ≡ some call
    unfolding limit
    after_auth-forwards s at r call cfg auth verdict passed go route same allowed read small =
        rw passed (
          after_limit-forwards (record s { auth = auth }) cfg r call
            (allow fresh allow_one s.rl at call.1).0 (allow fresh allow_one s.rl at call.1).1 go
            route same allowed read small)

    Checked-forwarded :
        (s : Server L) (now later at : ℕ) (r : Request) (call : Call)
        → Checked s at r (middleware s.auth now later r.credentials).1 call
        → (handle forward fresh allow_one s now later at r).1.forwarded ≡ some call
    unfolding handle
    Checked-forwarded s now later at r call (cfg, passed, go, post, endpoint, listed, read, small) =
        let (outer, inner, same) =
          Endpoint-route r.method r.credentials.path call.0 call.2 cfg post endpoint in
        rw outer (
          after_auth-forwards s at r call cfg (middleware s.auth now later r.credentials).0
            (middleware s.auth now later r.credentials).1 passed go inner same
            (Listed-contains cfg.permissions call.0 listed) read small)

    -- A payload is forwarded exactly if every check is passed: the authenticator passed the request on as the
    -- validator it is forwarded for, that validator's limiter allowed it, it is a POST on the path of one of
    -- the four permissions, the validator's list has that permission, and its body was read and has at most
    -- 50 MiB; what is forwarded is that body, byte for byte, under that permission, with the validator's
    -- minimum level for logs and none for the others.
    pub handle-Checked :
        (s : Server L) (now later at : ℕ) (r : Request) (call : Call)
        → ((handle forward fresh allow_one s now later at r).1.forwarded ≡ some call)
          ↔ Checked s at r (middleware s.auth now later r.credentials).1 call
    unfolding handle
    handle-Checked s now later at r call = (
      λ h. serve_route-Checked s now later at r _ call h,
      λ h. Checked-forwarded s now later at r call h,
    )
