-- ===== src/Watchtower/Auth/Headers.antt =====
-- What auth.go reads from a request: the bearer token and the caller's address.
use Prim.Native.Char.{code}
use mathlib.Core.Option
use gno_watchtower.Base.{
  ℕ, zero, suc, String, Option, none, some, cut_prefix, trim_space, split, last_of, occurs, str_eq,
  ◌==◌, ◌&&◌, ◌||◌, if◌then◌else◌, not,
}

-- The headers that are read, "" where a header is absent, as `Header.Get` returns it.
pub record Request : Type 0 where
  pub authorization : String
  pub x_forwarded_for : String
  pub remote_addr : String
  pub path : String

abbrev pub or_empty : Option String → String
or_empty none = ""
or_empty (some token) = token

unfoldable pub bearer_token : Request → String
bearer_token r = or_empty (cut_prefix r.authorization "Bearer ")

unfoldable pub take_chars : ℕ → String → String
take_chars zero s = ""
take_chars (suc n) String.[] = ""
take_chars (suc n) (String.◌∷◌ c s) = String.◌∷◌ c (take_chars n s)

-- `s[:8]` for a longer text, and `s` itself for one of at most 8 characters.
unfoldable pub token_prefix : String → String
unfolding take_chars
token_prefix s = take_chars 8 s

-- What stands before and behind the first occurrence of a character.
unfoldable pub split_first : ℕ → String → Option (String × String)
split_first x String.[] = none
split_first x (String.◌∷◌ c s) =
    let rest = Option.map (λ (e : String × String). (String.◌∷◌ c e.0, e.1)) (split_first x s) in
    if code c == x then some ("", s) else rest

-- `[host]:port`, from behind the `[` on.
unfoldable pub bracketed_host : Option (String × String) → Option String
bracketed_host none = none
bracketed_host (some (host, String.[])) = none
bracketed_host (some (host, String.◌∷◌ c port)) =
    if code c == b':'
      && not (occurs b':' port || occurs b'[' host || occurs b'[' port || occurs b']' port)
    then some host
    else none

-- `host:port`
unfoldable pub plain_host : Option (String × String) → Option String
plain_host none = none
plain_host (some (host, port)) =
    if occurs b':' port
      || occurs b'[' host
      || occurs b'[' port
      || occurs b']' host
      || occurs b']' port
    then none
    else some host

-- The host of `net.SplitHostPort` of the standard library, or `none` where that returns an error.
unfoldable pub split_host_port : String → Option String
unfolding split_first bracketed_host plain_host occurs
split_host_port String.[] = none
split_host_port (String.◌∷◌ c s) =
    if code c == b'['
    then bracketed_host (split_first b']' s)
    else plain_host (split_first b':' (String.◌∷◌ c s))

unfoldable pub remote_host : String → String
unfolding split_host_port
remote_host addr = elim (split_host_port addr) [ none ↦ addr | some host ↦ host ]

unfoldable pub remote_ip : Request → String
remote_ip r =
    let last = trim_space (last_of (split b',' r.x_forwarded_for)) in
    if not (str_eq r.x_forwarded_for "") && not (str_eq last "")
    then last
    else remote_host r.remote_addr
