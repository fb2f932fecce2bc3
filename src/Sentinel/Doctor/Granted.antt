-- ===== src/Sentinel/Doctor/Granted.antt =====
-- What an exit code of 0 shows of the token.
use gno_watchtower.Base.{
  String, Bool, true, false, ◌&&◌, ◌||◌, not, Option, List, [], ◌∷◌, ◌++◌, ◌==◌, append-nil,
  append_text, ◌≡◌, refl, ◌∙◌, inl, inr, Bool-cases, arith,
}
use gno_watchtower.Beacon.Config.{is_placeholder}
use gno_watchtower.Sentinel.Config.{Config, NoiseResult, contains}
use gno_watchtower.Sentinel.Doctor.{CheckResult, AuthResponse, is_red, has_red}
use gno_watchtower.Sentinel.Doctor.Remote.{
  Client, no_client, plain_client, noise_client, Answer, no_request, no_answer, answered, undecoded,
  decoded, unreachable, missing_if, missing_permissions, permission_result, check_permissions,
  judge_answer, with_client, build_auth_check_client, check_remote_token_and_permissions,
}
use gno_watchtower.Sentinel.Doctor.Checks.{Probed, results, exit_code, run}

has_red-append : (xs ys : List CheckResult) → has_red (xs ++ ys) ≡ false → has_red xs ≡ false
unfolding has_red
has_red-append [] ys h = refl
has_red-append (x ∷ xs) ys h = ground (arith, h, has_red-append xs ys)

-- Every enabled feature has its permission.
abbrev pub Granted : Config → AuthResponse → Type 0
Granted c ar =
    ((not c.rpc.enabled || contains ar.permissions "rpc") ≡ true)
    × ((not (c.resources.enabled || c.metadata.enabled) || contains ar.permissions "metrics")
        ≡ true)
    × ((not c.logs.enabled || contains ar.permissions "logs") ≡ true)
    × ((not c.otlp.enabled || contains ar.permissions "otlp") ≡ true)

missing_if-lacks :
    (e g : Bool) (p : String) (rest : List String)
    → missing_if (e && not g) p ++ rest ≡ []
    → ((not e || g) ≡ true) × (rest ≡ [])
missing_if-lacks true true p rest h = (refl, h)
missing_if-lacks true false p rest h = absurd (cc)
missing_if-lacks false g p rest h = (refl, h)

permission_result-nil :
    (ar : AuthResponse) (ps : List String)
    → is_red (permission_result ar ps).status ≡ false
    → ps ≡ []
permission_result-nil ar [] h = refl
permission_result-nil ar (p ∷ ps) h = absurd (cc)

missing_permissions-Granted :
    (c : Config) (ar : AuthResponse) → missing_permissions c ar ≡ [] → Granted c ar
unfolding missing_permissions
missing_permissions-Granted c ar h =
    let rpc = c.rpc.enabled in
    let metrics = c.resources.enabled || c.metadata.enabled in
    let g : String → Bool = λ p. contains ar.permissions p in
    let otlp_part = missing_if (c.otlp.enabled && not (g "otlp")) "otlp" in
    let logs_part = missing_if (c.logs.enabled && not (g "logs")) "logs" ++ otlp_part in
    let metrics_part = missing_if (metrics && not (g "metrics")) "metrics" ++ logs_part in
    let (r, h1) = missing_if-lacks rpc (g "rpc") "rpc" metrics_part h in
    let (m, h2) = missing_if-lacks metrics (g "metrics") "metrics" logs_part h1 in
    let (l, h3) = missing_if-lacks c.logs.enabled (g "logs") "logs" otlp_part h2 in
    let (o, h4) =
      missing_if-lacks c.otlp.enabled (g "otlp") "otlp" [] (append-nil otlp_part ∙ h3) in
    (r, m, l, o)

check_permissions-Granted :
    (c : Config) (ar : AuthResponse) → is_red (check_permissions c ar).status ≡ false → Granted c ar
unfolding check_permissions
check_permissions-Granted c ar h =
    missing_permissions-Granted c ar (permission_result-nil ar (missing_permissions c ar) h)

-- A watchtower that answered with a response whose permissions suffice.
abbrev pub Authorized : Config → Answer → Type 0
Authorized c answer = (ar : AuthResponse) × (answer ≡ answered 200 (decoded ar)) × Granted c ar

judge_answer-Authorized :
    (c : Config) (answer : Answer) → has_red (judge_answer c answer).0 ≡ false → Authorized c answer
unfolding has_red unreachable
judge_answer-Authorized c (no_request e) h = absurd (cc)
judge_answer-Authorized c (no_answer e) h = absurd (cc)
judge_answer-Authorized c (answered status (undecoded e)) h = absurd (ground (arith, h))
judge_answer-Authorized c (answered status (decoded ar)) h = elim (Bool-cases (status == 200)) [
  | inl ok ↦ (ar, ground (arith, ok), check_permissions-Granted c ar (ground (arith, ok, h)))
  | inr other ↦ absurd (ground (arith, other, h))
]

exit_code-remote :
    (p : Probed) (c : Config) (remote : List CheckResult × Option AuthResponse)
    → exit_code (results p c remote) ≡ 0
    → has_red remote.0 ≡ false
exit_code-remote p c (rs, ar) h =
    let quiet : has_red (results p c (rs, ar)) ≡ false = ground (arith, h) in
    has_red-append rs _ quiet

module _ {K P : Type 0} (key_error_text : String) (noise_cfg : NoiseResult K P)
    (request : Client → String → Answer) where
  with_client-Authorized :
      (c : Config) (client : Client)
      → has_red (with_client key_error_text noise_cfg request c client).0 ≡ false
      → Authorized c (request client (append_text "Bearer " c.server.token))
  unfolding has_red unreachable
  with_client-Authorized c (no_client e) h = absurd (cc)
  with_client-Authorized c (plain_client url) h = judge_answer-Authorized c _ h
  with_client-Authorized c (noise_client url) h = judge_answer-Authorized c _ h

  has_red-results :
      (p : Probed) (c : Config)
      → (run key_error_text noise_cfg request p c).1 ≡ 0
      → has_red (check_remote_token_and_permissions key_error_text noise_cfg request c).0 ≡ false
  unfolding run
  has_red-results p c h =
      exit_code-remote p c (check_remote_token_and_permissions key_error_text noise_cfg request c) h

  -- Where neither the URL nor the token is a placeholder and the doctor exits with 0, the watchtower
  -- answered its request, which carried the token, with the status 200 and permissions that include
  -- one for each of the enabled features among rpc, resources and metadata, logs and otlp.
  pub run-Authorized :
      (p : Probed) (c : Config)
      → is_placeholder c.server.url ≡ false
      → is_placeholder c.server.token ≡ false
      → (run key_error_text noise_cfg request p c).1 ≡ 0
      → Authorized c (
          request
            (build_auth_check_client key_error_text c noise_cfg)
            (append_text "Bearer " c.server.token))
  unfolding check_remote_token_and_permissions
  run-Authorized p c url token h =
      let quiet = has_red-results p c h in with_client-Authorized c _ (rw (url, token) at quiet)
