-- ===== src/Beacon/Server/Relay.antt =====
-- Every outcome of a request, and where two paths are joined.
use Prim.Native.String.{String}
use Prim.Native.Char.{Char, code}
use text.Mathlib.TextEquality.{Char-path}
use gno_watchtower.Base.{
  Bool, true, false, Option, none, some, List, [], ◌∷◌, Distinct, lookup, if◌then◌else◌, ◌≡◌, refl,
  sym, ap, arith, ◌⊎◌, Bool-cases, Option-cases, inl, inr, ◌==◌, has_prefix, cut_prefix,
  append_text,
}
use gno_watchtower.Beacon.Server.{
  Body, Headers, Request, UpRequest, Response, Reply, error, relayed, HookResult, returned,
  panicked, ends_with_slash, tail_of, single_join, copy_headers, safe_transform, or_original,
  read_capped, transformed, up_request, reply_of, handle,
}
use gno_watchtower.Beacon.Server.Headers.{values_at, end_to_end, values_at-copy_headers}

-- Without one slash at the end, and without one at the start.
unfoldable pub trim_end : String → String
trim_end String.[] = ""
trim_end (String.◌∷◌ c String.[]) = if code c == b'/' then "" else String.◌∷◌ c ""
trim_end (String.◌∷◌ c s) = String.◌∷◌ c (trim_end s)

unfoldable pub trim_start : String → String
trim_start String.[] = ""
trim_start (String.◌∷◌ c s) = if code c == b'/' then s else String.◌∷◌ c s

abbrev slash : Char
slash = "/"

is_slash : (c : Char) → (code c == b'/') ≡ true → c ≡ slash
is_slash c e = Char-path c slash (ground arith)

append-trim_end :
    (a x : String)
    → append_text (trim_end a) (append_text "/" x)
      ≡ (if ends_with_slash a then append_text a x else append_text a (append_text "/" x))
unfolding trim_end ends_with_slash append_text
append-trim_end String.[] x = refl
append-trim_end (String.◌∷◌ c String.[]) x = elim (Bool-cases (code c == b'/')) [
  | inl e ↦ rw e (ap (λ d. String.◌∷◌ d x) (sym (is_slash c e)))
  | inr e ↦ rw e refl
]
append-trim_end (String.◌∷◌ c (String.◌∷◌ d s)) x =
    ground (arith, append-trim_end (String.◌∷◌ d s) x)

starts-trim_start :
    (b : String)
    → String.◌∷◌ slash (trim_start b) ≡ (if has_prefix b "/" then b else String.◌∷◌ slash b)
unfolding trim_start has_prefix cut_prefix
starts-trim_start String.[] = refl
starts-trim_start (String.◌∷◌ c s) = elim (Bool-cases (code c == b'/')) [
  | inl e ↦ rw (e, has_prefix, cut_prefix) (ap (λ d. String.◌∷◌ d s) (sym (is_slash c e)))
  | inr e ↦ rw (e, has_prefix, cut_prefix) refl
]

tail_of-starts : (b : String) → has_prefix b "/" ≡ true → trim_start b ≡ tail_of b
unfolding trim_start tail_of has_prefix cut_prefix
tail_of-starts String.[] h = cc
tail_of-starts (String.◌∷◌ c s) h = ground (arith, h)

-- Two paths are joined by exactly one slash in the place of at most one on either side.
pub single_join-trimmed :
    (a b : String) → single_join a b ≡ append_text (trim_end a) (append_text "/" (trim_start b))
unfolding single_join append_text
single_join-trimmed a b =
    ground (arith, append-trim_end a (trim_start b), starts-trim_start b, tail_of-starts b)

-- The body that goes on: the one that the hook returned for the client's, or the client's own, where
-- there is no hook, or it returned nil or panicked.
abbrev pub IsForwarded : Option (String → Body → HookResult) → String → Body → Body → Type 0
IsForwarded none path body out = out ≡ body
IsForwarded (some hook) path body out =
    (hook path body ≡ returned (some out))
    ⊎ (((hook path body ≡ returned none) ⊎ (hook path body ≡ panicked)) × (out ≡ body))

-- The same call, path and body, and of the headers all but the hop-by-hop ones.
abbrev pub IsFaithful :
    Option (String → Body → HookResult) → String → Request → Body → UpRequest → Type 0
IsFaithful transform upstream_path r body up =
    (up.method ≡ r.method)
    × (up.path ≡ single_join upstream_path r.path)
    × (up.raw_query ≡ r.raw_query)
    × ((at : String) → values_at at up.headers ≡ end_to_end at (values_at at r.headers))
    × IsForwarded transform r.path body up.body

-- A 502 for no answer, or the upstream's status and body, with its headers but the hop-by-hop ones.
abbrev pub Answers : Option Response → Reply → Type 0
Answers none reply = reply ≡ error 502 "upstream unreachable"
Answers (some resp) reply =
    (back : Response) × (reply ≡ relayed back)
    × (back.status ≡ resp.status)
    × (back.body ≡ resp.body)
    × ((at : String) → values_at at back.headers ≡ end_to_end at (values_at at resp.headers))

-- What net/http promises of a header map.
abbrev pub KeysDistinct : Option Response → Type 0
KeysDistinct none = Unit
KeysDistinct (some resp) = Distinct resp.headers

values_at-copied :
    (at : String) (h : Headers)
    → Distinct h
    → values_at at (copy_headers [] h) ≡ end_to_end at (values_at at h)
unfolding lookup
values_at-copied at h d = values_at-copy_headers at [] h d

module _ (transform : Option (String → Body → HookResult)) (builds : UpRequest → Bool)
    (send : UpRequest → Option Response) where
  hooked-IsForwarded :
      (hook : String → Body → HookResult) (path : String) (body : Body) (result : HookResult)
      → hook path body ≡ result
      → IsForwarded (some hook) path body (or_original body (safe_transform result))
  unfolding safe_transform
  hooked-IsForwarded hook path body (returned none) e = inr (inl e, refl)
  hooked-IsForwarded hook path body (returned (some out)) e = inl e
  hooked-IsForwarded hook path body panicked e = inr (inr e, refl)

  transformed-IsForwarded :
      (t : Option (String → Body → HookResult)) (path : String) (body : Body)
      → IsForwarded t path body (transformed transform builds send t path body)
  transformed-IsForwarded none path body = refl
  transformed-IsForwarded (some hook) path body =
      hooked-IsForwarded hook path body (hook path body) refl

  -- The three ways that a request can go.
  abbrev pub Outcome : String → Request → List UpRequest × Reply → Type 0
  Outcome upstream_path r result =
      ((read_capped r.body ≡ none) × (result ≡ ([], error 400 "read body")))
      ⊎ ((body : Body) × (up : UpRequest) × (read_capped r.body ≡ some body)
          × IsFaithful transform upstream_path r body up
          × (((builds up ≡ false) × (result ≡ ([], error 500 "upstream")))
              ⊎ ((builds up ≡ true) × (result.0 ≡ up ∷ []) × Answers (send up) result.1)))

  reply_of-Answers :
      (answer : Option Response)
      → KeysDistinct answer
      → Answers answer (reply_of transform builds send answer)
  reply_of-Answers none h = refl
  reply_of-Answers (some resp) h = (
    record resp { headers = copy_headers [] resp.headers },
    refl,
    refl,
    refl,
    λ at. values_at-copied at resp.headers h,
  )

  up_request-IsFaithful :
      (upstream_path : String) (r : Request) (body : Body)
      → Distinct r.headers
      → IsFaithful transform upstream_path r body
          (up_request transform builds send upstream_path r body)
  unfolding up_request
  up_request-IsFaithful upstream_path r body h = (
    refl,
    refl,
    refl,
    (λ at. values_at-copied at r.headers h),
    transformed-IsForwarded transform r.path body,
  )

  -- Where no header map has a key twice: a body that cannot be read is a 400, and nothing is sent; a
  -- request that cannot be built is a 500. Otherwise one request goes out, with the client's method, query
  -- and end-to-end headers and with its body or what the hook made of it, and the client gets the upstream's
  -- status, body and end-to-end headers, or a 502.
  pub handle-Outcome :
      (upstream_path : String) (r : Request)
      → Distinct r.headers
      → ((up : UpRequest) → KeysDistinct (send up))
      → Outcome upstream_path r (handle transform builds send upstream_path r)
  unfolding handle
  handle-Outcome upstream_path r hr hs = elim (Option-cases (read_capped r.body)) [
    | inl e ↦ rw e (inl (refl, refl))
    | inr (body, e) ↦
        let up = up_request transform builds send upstream_path r body in
        let faithful = up_request-IsFaithful upstream_path r body hr in
        elim (Bool-cases (builds up)) [
          | inl ok ↦
              rw (e, ok)
                (inr (body, up, refl, faithful, inr (ok, refl, reply_of-Answers (send up) (hs up))))
          | inr bad ↦ rw (e, bad) (inr (body, up, refl, faithful, inl (bad, refl)))
        ]
  ]
