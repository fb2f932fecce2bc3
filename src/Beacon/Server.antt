-- ===== src/Beacon/Server.antt =====
-- internal/beacon/server/server.go: one request, from the sentinel's connection to the watchtower and
-- back. Bytes are numbers below 256. Header keys stand in the canonical form that net/http gives them.
pub mod Headers
pub mod Relay
mod Examples
use gno_watchtower.Base.{
  ℕ, String, Bool, true, false, ◌&&◌, ◌||◌, Option, none, some, List, [], ◌∷◌, ◌++◌, Assoc, lookup,
  insert, ltb, length, if◌then◌else◌, str_eq, ◌==◌, has_prefix, append_text,
}
use Prim.Native.Char.{code}

abbrev pub Body : Type 0
Body = List ℕ

-- Every value of a key, in order.
abbrev pub Headers : Type 0
Headers = Assoc (List String)

abbrev pub max_beacon_body_bytes : ℕ
max_beacon_body_bytes = 52428800

-- `hopByHop`, asked for a key.
unfoldable pub is_hop_by_hop : String → Bool
is_hop_by_hop k =
    str_eq k "Connection"
    || str_eq k "Keep-Alive"
    || str_eq k "Proxy-Authenticate"
    || str_eq k "Proxy-Authorization"
    || str_eq k "Te"
    || str_eq k "Trailer"
    || str_eq k "Transfer-Encoding"
    || str_eq k "Upgrade"

abbrev pub values_of : Option (List String) → List String
values_of none = []
values_of (some vs) = vs

-- `dst.Add(k, v)` for each value of a key.
unfoldable pub add_values : String → List String → Headers → Headers
add_values k [] dst = dst
add_values k (v ∷ vs) dst = add_values k vs (insert k (values_of (lookup k dst) ++ v ∷ []) dst)

unfoldable pub copy_headers : Headers → Headers → Headers
copy_headers dst [] = dst
copy_headers dst ((k, vs) ∷ src) =
    if is_hop_by_hop k then copy_headers dst src else copy_headers (add_values k vs dst) src

-- `strings.HasSuffix(s, "/")`
unfoldable pub ends_with_slash : String → Bool
ends_with_slash String.[] = false
ends_with_slash (String.◌∷◌ c String.[]) = code c == b'/'
ends_with_slash (String.◌∷◌ c s) = ends_with_slash s

-- `b[1:]`
unfoldable pub tail_of : String → String
tail_of String.[] = ""
tail_of (String.◌∷◌ c s) = s

unfoldable pub single_join : String → String → String
single_join a b =
    if ends_with_slash a && has_prefix b "/"
    then append_text a (tail_of b)
    else if ends_with_slash a || has_prefix b "/"
    then append_text a b
    else append_text a (append_text "/" b)

pub record Request : Type 0 where
  pub method : String
  pub path : String
  pub raw_query : String
  pub headers : Headers
  pub body : Option Body  -- `none` where reading it fails

-- A request to the upstream, on its scheme and host.
pub record UpRequest : Type 0 where
  pub method : String
  pub path : String
  pub raw_query : String
  pub headers : Headers
  pub body : Body

pub record Response : Type 0 where
  pub status : ℕ
  pub headers : Headers
  pub body : Body

-- What the client gets: an error of the beacon's own, or the upstream's response.
pub data Reply : Type 0 where
  error : ℕ → String → Reply
  relayed : Response → Reply

-- A hook's call: nil or a body, or a panic.
pub data HookResult : Type 0 where
  returned : Option Body → HookResult
  panicked : HookResult

unfoldable pub safe_transform : HookResult → Option Body
safe_transform (returned out) = out
safe_transform panicked = none

abbrev pub or_original : Body → Option Body → Body
or_original body none = body
or_original body (some out) = out

-- `io.ReadAll` over `http.MaxBytesReader`.
unfoldable pub read_capped : Option Body → Option Body
read_capped none = none
read_capped (some body) = if ltb max_beacon_body_bytes (length body) then none else some body

-- The hook, if one is installed; whether a request can be built; and the upstream's answer.
module _ (transform : Option (String → Body → HookResult)) (builds : UpRequest → Bool)
    (send : UpRequest → Option Response) where
  abbrev pub transformed : Option (String → Body → HookResult) → String → Body → Body
  transformed none path body = body
  transformed (some hook) path body = or_original body (safe_transform (hook path body))

  unfoldable pub up_request : String → Request → Body → UpRequest
  up_request upstream_path r body = record {
    method = r.method;
    path = single_join upstream_path r.path;
    raw_query = r.raw_query;
    headers = copy_headers [] r.headers;
    body = transformed transform r.path body;
  }

  abbrev pub reply_of : Option Response → Reply
  reply_of none = error 502 "upstream unreachable"
  reply_of (some resp) = relayed (record resp { headers = copy_headers [] resp.headers })

  abbrev pub forward : UpRequest → Bool → List UpRequest × Reply
  forward up false = ([], error 500 "upstream")
  forward up true = (up ∷ [], reply_of (send up))

  abbrev pub after_read : String → Request → Option Body → List UpRequest × Reply
  after_read upstream_path r none = ([], error 400 "read body")
  after_read upstream_path r (some body) =
      forward (up_request upstream_path r body) (builds (up_request upstream_path r body))

  -- The requests that go to the upstream, and the reply.
  unfoldable pub handle : String → Request → List UpRequest × Reply
  handle upstream_path r = after_read upstream_path r (read_capped r.body)
