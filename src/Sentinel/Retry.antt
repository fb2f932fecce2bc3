-- ===== src/Sentinel/Retry.antt =====
-- internal/sentinel/sender/sender.go: one POST with what its response means, and the loop that
-- repeats it. The transport is a parameter: what each attempt meets, and which waits the context
-- cuts short.
pub mod Outcomes
pub mod Waits
mod Examples
use gno_watchtower.Base.{
  ℕ, zero, suc, ◌+◌, String, Bool, true, false, Option, none, some, List, [], ◌∷◌, ℤ, pos, negsuc,
  ltz, mul64, parse_int, str_eq, leb, ltb, ◌==◌, ◌&&◌, ◌||◌, not, if◌then◌else◌,
}

-- What `client.Do` returns; `retry_after` is "" where the header is absent.
pub data Reply : Type 0 where
  no_reply : Reply
  reply : ℕ → String → Reply

-- What one call of `fn` returns: nil, a `retryAfterError`, or another error.
pub data Attempt : Type 0 where
  sent failed : Attempt
  limited : ℤ → Attempt

abbrev pub second : ℤ
second = pos 1000000000

abbrev pub thirty_seconds : ℤ
thirty_seconds = pos 30000000000

-- `if d > 30*time.Second { d = 30 * time.Second }`
abbrev pub cap : ℤ → ℤ
cap d = if ltz thirty_seconds d then thirty_seconds else d

-- The branch of `post` for status 429.
unfoldable pub rate_limited : String → Attempt
rate_limited retry_after = if str_eq retry_after "" then failed else elim (parse_int retry_after) [
  | none ↦ failed
  | some secs ↦ limited (cap (mul64 secs second))
]

unfoldable pub post : Reply → Attempt
unfolding rate_limited
post no_reply = failed
post (reply status retry_after) =
    if status == 429
    then rate_limited retry_after
    else if ltb status 200 || leb 300 status
    then failed
    else sent

-- What the loop does, in order.
pub data Action : Type 0 where
  call : Action
  wait : ℤ → Action

-- How it ends: nil, the context's error, or an error that wraps the last one.
pub data Ending : Type 0 where
  delivered cancelled : Ending
  exhausted : Option Attempt → Ending

abbrev pub Trace : Type 0
Trace = List Action × Ending

abbrev pub prepend : Action → Trace → Trace
prepend a (actions, e) = (a ∷ actions, e)

abbrev is_nil : ℤ → Bool
is_nil (pos zero) = true
is_nil _ = false

-- A wait that the context may cut short, and what follows if it does not.
abbrev pub wait_for : Bool → ℤ → Trace → Trace
wait_for true d rest = (wait d ∷ [], cancelled)
wait_for false d rest = prepend (wait d) rest

-- What follows an attempt: `again` takes whether the next backoff is skipped.
unfoldable pub settle : Bool → Attempt → (Bool → Trace) → Trace
settle cut sent again = ([], delivered)
settle cut failed again = again false
settle cut (limited d) again = if is_nil d then again true else wait_for cut d (again true)

module _ (attempt : ℕ → Attempt) (cut_backoff cut_after : ℕ → Bool) where
  -- The loop with `left` rounds to go, at round `i`. In round `i` the context may cut the backoff
  -- before the attempt short (`cut_backoff`), or the wait that the server asked for (`cut_after`).
  unfoldable pub loop : ℕ → ℕ → ℤ → Bool → Option Attempt → Trace
  loop zero i backoff skip last = ([], exhausted last)
  loop (suc left) i backoff skip last =
      let again = loop left (suc i) in
      let try_at = λ (b : ℤ).
        prepend call (settle (cut_after i) (attempt i) (λ s. again b s (some (attempt i)))) in
      if i == 0 || skip
      then try_at backoff
      else wait_for (cut_backoff i) backoff (try_at (cap (mul64 backoff (pos 2))))

  unfoldable pub retry : ℕ → ℤ → Trace
  unfolding loop
  retry max_attempts initial_backoff = loop max_attempts 0 initial_backoff false none
