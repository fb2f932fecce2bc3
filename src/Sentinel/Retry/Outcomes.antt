-- ===== src/Sentinel/Retry/Outcomes.antt =====
-- How many calls the loop makes, and how it ends.
use gno_watchtower.Base.{
  ℕ, zero, suc, ◌+◌, ◌≤◌, Bool, true, false, Option, none, some, List, [], ◌∷◌, ℤ, pos, negsuc, ◌≡◌,
  ◌≢◌, refl, arith, ◌==◌, ◌||◌, mul64, if◌then◌else◌,
}
use gno_watchtower.Sentinel.Retry.{
  Attempt, sent, failed, limited, Action, call, wait, Ending, delivered, exhausted, Trace, prepend,
  settle, loop, retry, wait_for, cap,
}

abbrev pub calls : List Action → ℕ
calls [] = 0
calls (call ∷ rest) = suc (calls rest)
calls (wait d ∷ rest) = calls rest

module _ (attempt : ℕ → Attempt) where
  -- The loop with the waits left out: it stops behind the first success, or when no round is left.
  unfoldable pub until_sent : ℕ → ℕ → Option Attempt → ℕ × Ending
  until_sent zero i last = (0, exhausted last)
  until_sent (suc left) i last = elim (attempt i) [
    | sent ↦ (1, delivered)
    | _ ↦ let rest = until_sent left (suc i) (some (attempt i)) in (rest.0 + 1, rest.1)
  ]

  -- The first success of the rounds from `i` on, where there is one: its distance from `i`.
  abbrev pub SentAt : ℕ → ℕ → Type 0
  SentAt i zero = attempt i ≡ sent
  SentAt i (suc j) = (attempt i ≢ sent) × SentAt (suc i) j

  module _ (cut_backoff cut_after : ℕ → Bool) where
    abbrev summary : Trace → ℕ × Ending
    summary (actions, e) = (calls actions, e)

    loop-until_sent :
        ((i : ℕ) → cut_backoff i ≡ false)
        → ((i : ℕ) → cut_after i ≡ false)
        → (left i : ℕ) (backoff : ℤ) (skip : Bool) (last : Option Attempt)
        → summary (loop attempt cut_backoff cut_after left i backoff skip last)
          ≡ until_sent left i last
    unfolding loop settle until_sent
    loop-until_sent uncut unhurried zero i backoff skip last = refl
    loop-until_sent uncut unhurried (suc left) i backoff skip last = ground (
      arith,
      uncut i,
      unhurried i,
      loop-until_sent uncut unhurried left (suc i) backoff false (some (attempt i)),
      loop-until_sent uncut unhurried left (suc i) backoff true (some (attempt i)),
      loop-until_sent uncut unhurried left (suc i) (cap (mul64 backoff (pos 2))) false
          (some (attempt i)),
      loop-until_sent uncut unhurried left (suc i) (cap (mul64 backoff (pos 2))) true
          (some (attempt i)),
    )

    -- While no wait is cut short, the loop calls until the first success, and at most `max_attempts`
    -- times: it returns nil exactly if one of those calls succeeds, and else an error with the last
    -- failure, whatever the backoff and the server's waits are.
    pub retry-until_sent :
        ((i : ℕ) → cut_backoff i ≡ false)
        → ((i : ℕ) → cut_after i ≡ false)
        → (max_attempts : ℕ) (backoff : ℤ)
        → (
          calls (retry attempt cut_backoff cut_after max_attempts backoff).0,
          (retry attempt cut_backoff cut_after max_attempts backoff).1,
        )
          ≡ until_sent max_attempts 0 none
    unfolding retry
    retry-until_sent uncut unhurried max_attempts backoff =
        loop-until_sent uncut unhurried max_attempts 0 backoff false none

    -- What a trace may be, with `left` rounds to go.
    abbrev Honest : ℕ → ℕ → Trace → Type 0
    Honest left i t =
        (calls t.0 ≤ left) × (t.1 ≡ delivered → (j : ℕ) × (calls t.0 ≡ j + 1) × SentAt i j)

    wait_for-Honest :
        (left i : ℕ) (cut : Bool) (d : ℤ) (t : Trace)
        → Honest left i t
        → Honest left i (wait_for cut d t)
    wait_for-Honest left i true d t h = (omega arith, λ e. absurd (cc))
    wait_for-Honest left i false d t h = h

    later-Honest :
        (left i : ℕ) (t : Trace)
        → attempt i ≢ sent
        → Honest left (suc i) t
        → Honest (suc left) i (prepend call t)
    later-Honest left i (actions, e) ne (bound, found) =
        (omega arith, λ q. let (j, n, at) = found q in (suc j, omega arith, (ne, at)))

    settle-Honest :
        (left i : ℕ) (cut : Bool) (a : Attempt) (again : Bool → Trace)
        → attempt i ≡ a
        → ((s : Bool) → Honest left (suc i) (again s))
        → Honest (suc left) i (prepend call (settle cut a again))
    unfolding settle
    settle-Honest left i cut sent again e h = (omega arith, λ q. (0, omega arith, e))
    settle-Honest left i cut failed again e h =
        later-Honest left i (again false) (λ q. cc) (h false)
    settle-Honest left i cut (limited (pos zero)) again e h =
        later-Honest left i (again true) (λ q. cc) (h true)
    settle-Honest left i cut (limited (pos (suc n))) again e h =
        later-Honest left i (wait_for cut (pos (suc n)) (again true)) (λ q. cc)
          (wait_for-Honest left (suc i) cut (pos (suc n)) (again true) (h true))
    settle-Honest left i cut (limited (negsuc n)) again e h =
        later-Honest left i (wait_for cut (negsuc n) (again true)) (λ q. cc)
          (wait_for-Honest left (suc i) cut (negsuc n) (again true) (h true))

    if-Honest :
        (left i : ℕ) (b : Bool) (t u : Trace)
        → Honest left i t
        → Honest left i u
        → Honest left i (if b then t else u)
    if-Honest left i true t u ht hu = ht
    if-Honest left i false t u ht hu = hu

    loop-Honest :
        (left i : ℕ) (backoff : ℤ) (skip : Bool) (last : Option Attempt)
        → Honest left i (loop attempt cut_backoff cut_after left i backoff skip last)
    unfolding loop
    loop-Honest zero i backoff skip last = (omega arith, λ e. absurd (cc))
    loop-Honest (suc left) i backoff skip last =
        let tried = λ (b : ℤ).
          settle-Honest left i (cut_after i) (attempt i)
            (λ s. loop attempt cut_backoff cut_after left (suc i) b s (some (attempt i))) refl
            (λ s. loop-Honest left (suc i) b s (some (attempt i))) in
        if-Honest (suc left) i (i == 0 || skip) _ _ (tried backoff) (
          wait_for-Honest (suc left) i (cut_backoff i) backoff _
            (tried (cap (mul64 backoff (pos 2)))))

    -- Whatever the transport and the context do, `retry` makes at most `max_attempts` calls.
    pub calls-retry-le :
        (max_attempts : ℕ) (backoff : ℤ)
        → calls (retry attempt cut_backoff cut_after max_attempts backoff).0 ≤ max_attempts
    unfolding retry
    calls-retry-le max_attempts backoff = (loop-Honest max_attempts 0 backoff false none).0

    -- When `retry` returns nil, its last call, the one of round `j`, succeeded, and none before it did.
    pub retry-delivered :
        (max_attempts : ℕ) (backoff : ℤ)
        → (retry attempt cut_backoff cut_after max_attempts backoff).1 ≡ delivered
        → (j : ℕ) × (calls (retry attempt cut_backoff cut_after max_attempts backoff).0 ≡ j + 1)
          × SentAt 0 j
    unfolding retry
    retry-delivered max_attempts backoff e = (loop-Honest max_attempts 0 backoff false none).1 e
