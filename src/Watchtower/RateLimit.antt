-- ===== src/Watchtower/RateLimit.antt =====
-- internal/watchtower/ratelimit/ratelimit.go: one rate limiter for each validator. `rate.Limiter` is a
-- parameter: a fresh one, and `Allow` at an instant, which returns the limiter's next state.
pub mod Isolation
mod Examples
use gno_watchtower.Base.{
  ℕ, String, Bool, true, false, Option, none, some, List, [], ◌∷◌, ◌++◌, Assoc, lookup, insert,
}

-- `on_limit` is the installed hook with the names it was called with, or `none` for a nil hook.
pub record Limiter (L : Type 0) : Type 0 where
  pub limiters : Assoc L
  pub on_limit : Option (List String)

-- What the middleware does: an error response, with its Retry-After header, or a call of the next
-- handler.
pub data Verdict : Type 0 where
  refused : ℕ → Option String → Verdict
  next : Verdict

abbrev pub hooked : Option (List String) → String → Option (List String)
hooked none name = none
hooked (some names) name = some (names ++ name ∷ [])

module _ {L : Type 0} (fresh : L) (allow_one : L → ℕ → L × Bool) where
  unfoldable pub new : Bool → Limiter L
  new true = record { limiters = []; on_limit = some [] }
  new false = record { limiters = []; on_limit = none }

  abbrev pub or_fresh : Option L → L
  or_fresh none = fresh
  or_fresh (some lim) = lim

  unfoldable pub allow : Limiter L → ℕ → String → Limiter L × Bool
  allow l now name =
      let (lim, fine) = allow_one (or_fresh (lookup name l.limiters)) now in
      (record l { limiters = insert name lim l.limiters }, fine)

  abbrev pub after_allow : String → Limiter L × Bool → Limiter L × Verdict
  after_allow name (l, true) = (l, next)
  after_allow name (l, false) =
      (record l { on_limit = hooked l.on_limit name }, refused 429 (some "1"))

  -- `Middleware`, for the validator in the request's context.
  unfoldable pub limit : Limiter L → ℕ → Option String → Limiter L × Verdict
  limit l now none = (l, refused 401 none)
  limit l now (some name) = after_allow name (allow l now name)

  -- The answers to a list of requests, each of a validator at an instant.
  unfoldable pub answers : Limiter L → List (String × ℕ) → List (String × Bool)
  answers l [] = []
  answers l ((name, now) ∷ rest) =
      let (l', fine) = allow l now name in (name, fine) ∷ answers l' rest
