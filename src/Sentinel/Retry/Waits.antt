-- ===== src/Sentinel/Retry/Waits.antt =====
-- How long the loop waits, and in which order it waits and calls.
use gno_watchtower.Base.{
  ℕ, zero, suc, ◌*◌, ◌^◌, ◌≤◌, min, Bool, true, false, Option, none, some, List, [], ◌∷◌, ℤ, pos,
  negsuc, lez, mul64, mul64-pos, parse_int, str_eq, ◌≡◌, refl, ap, sym, ◌∙◌, arith, leb, ltb, ◌==◌,
  ◌||◌, not, if◌then◌else◌, All,
}
use native.Mathlib.Nat.{mul_assoc, pow-suc}
use gno_watchtower.Sentinel.Retry.{
  Reply, no_reply, reply, Attempt, sent, failed, limited, Action, call, wait, exhausted, Trace,
  prepend, settle, loop, retry, wait_for, cap, post, rate_limited, second, thirty_seconds,
}

-- A wait of at most thirty seconds.
abbrev pub Short : Action → Type 0
Short call = Unit
Short (wait d) = lez d thirty_seconds ≡ true

-- No two waits in a row; the flag says whether a wait may come first.
abbrev pub Paced : Bool → List Action → Type 0
Paced b [] = Unit
Paced b (call ∷ rest) = Paced true rest
Paced true (wait d ∷ rest) = Paced false rest
Paced false (wait d ∷ rest) = ⊥

-- What `post` asks the loop to wait for.
abbrev pub Modest : Attempt → Type 0
Modest sent = Unit
Modest failed = Unit
Modest (limited d) = lez d thirty_seconds ≡ true

cap-short : (d : ℤ) → lez (cap d) thirty_seconds ≡ true
cap-short (pos n) = ground arith
cap-short (negsuc n) = refl

if-Modest : (b : Bool) (x y : Attempt) → Modest x → Modest y → Modest (if b then x else y)
if-Modest true x y hx hy = hx
if-Modest false x y hx hy = hy

header-Modest :
    (o : Option ℤ)
    → Modest (elim o [ none ↦ failed | some secs ↦ limited (cap (mul64 secs second)) ])
header-Modest none = tt
header-Modest (some secs) = cap-short (mul64 secs second)

post-Modest : (r : Reply) → Modest (post r)
unfolding post rate_limited
post-Modest no_reply = tt
post-Modest (reply status retry_after) =
    if-Modest (status == 429) _ _
      (if-Modest (str_eq retry_after "") _ _ tt (header-Modest (parse_int retry_after)))
      (if-Modest (ltb status 200 || leb 300 status) _ _ tt tt)

abbrev Steady : Bool → Trace → Type 0
Steady b t = Paced b t.0 × All Short t.0

Paced-weaken : (actions : List Action) → Paced false actions → Paced true actions
Paced-weaken [] h = tt
Paced-weaken (call ∷ rest) h = h
Paced-weaken (wait d ∷ rest) h = absurd h

wait_for-Steady :
    (cut : Bool) (d : ℤ) (t : Trace)
    → lez d thirty_seconds ≡ true
    → Steady false t
    → Steady true (wait_for cut d t)
wait_for-Steady true d t short h = (tt, (short, tt))
wait_for-Steady false d t short h = (h.0, (short, h.1))

settle-Steady :
    (cut : Bool) (a : Attempt) (again : Bool → Trace)
    → Modest a
    → Steady false (again true)
    → Steady true (again false)
    → Steady true (settle cut a again)
unfolding settle
settle-Steady cut sent again m skipped plain = (tt, tt)
settle-Steady cut failed again m skipped plain = plain
settle-Steady cut (limited (pos zero)) again m skipped plain =
    (Paced-weaken (again true).0 skipped.0, skipped.1)
settle-Steady cut (limited (pos (suc n))) again m skipped plain =
    wait_for-Steady cut (pos (suc n)) (again true) m skipped
settle-Steady cut (limited (negsuc n)) again m skipped plain =
    wait_for-Steady cut (negsuc n) (again true) m skipped

call_first : (b : Bool) (t : Trace) → Steady true t → Steady b (prepend call t)
call_first true (actions, e) h = (h.0, (tt, h.1))
call_first false (actions, e) h = (h.0, (tt, h.1))

-- A round: it starts with the attempt where the backoff is skipped.
round-Steady :
    (zeroth skip : Bool) (now later : Trace)
    → ((b : Bool) → Steady b now)
    → Steady true later
    → Steady (not skip) (if zeroth || skip then now else later)
round-Steady true skip now later hn hl = hn (not skip)
round-Steady false true now later hn hl = hn false
round-Steady false false now later hn hl = hl

module _ (replies : ℕ → Reply) (cut_backoff cut_after : ℕ → Bool) where
  loop-Steady :
      (left i : ℕ) (backoff : ℤ) (skip : Bool) (last : Option Attempt)
      → lez backoff thirty_seconds ≡ true
      → Steady
          (not skip)
          (loop (λ k. post (replies k)) cut_backoff cut_after left i backoff skip last)
  unfolding loop
  loop-Steady zero i backoff skip last short = (tt, tt)
  loop-Steady (suc left) i backoff skip last short =
      let answer = post (replies i) in
      let next = λ (b : ℤ) (s : Bool).
        loop (λ k. post (replies k)) cut_backoff cut_after left (suc i) b s (some answer) in
      let tried : (b : ℤ)
          → lez b thirty_seconds ≡ true
          → Steady true (settle (cut_after i) answer (next b)) =
        λ b h.
          settle-Steady (cut_after i) answer (next b) (post-Modest (replies i))
            (loop-Steady left (suc i) b true (some answer) h)
            (loop-Steady left (suc i) b false (some answer) h) in
      let twice = cap (mul64 backoff (pos 2)) in
      let after = λ (b : ℤ). settle (cut_after i) answer (next b) in
      round-Steady (i == 0) skip (prepend call (after backoff))
        (wait_for (cut_backoff i) backoff (prepend call (after twice)))
        (λ b. call_first b (after backoff) (tried backoff short))
        (wait_for-Steady (cut_backoff i) backoff (prepend call (after twice)) short
          (call_first false (after twice) (tried twice (cap-short (mul64 backoff (pos 2))))))

  -- With a first backoff of at most thirty seconds, no wait is longer than thirty seconds, whatever
  -- Retry-After says, and no two waits stand in a row.
  pub retry-Short :
      (max_attempts : ℕ) (backoff : ℤ)
      → lez backoff thirty_seconds ≡ true
      → All Short (retry (λ k. post (replies k)) cut_backoff cut_after max_attempts backoff).0
        × Paced true (retry (λ k. post (replies k)) cut_backoff cut_after max_attempts backoff).0
  unfolding retry
  retry-Short max_attempts backoff short =
      let h = loop-Steady max_attempts 0 backoff false none short in (h.1, h.0)

-- `n` more failing rounds, of which the first has waited `k` doublings of `b` nanoseconds, with thirty
-- seconds for a ceiling.
abbrev pub ceiling : ℕ
ceiling = 30000000000

abbrev pub schedule : ℕ → ℕ → ℕ → List Action
schedule b k zero = []
schedule b k (suc n) = wait (pos (min (b * 2 ^ k) ceiling)) ∷ call ∷ schedule b (suc k) n

doubled : (x : ℕ) → cap (mul64 (pos (min x ceiling)) (pos 2)) ≡ pos (min (x * 2) ceiling)
doubled x =
    rw (mul64-pos (min x ceiling) 2 (omega arith) (omega arith) (omega arith)) (ground arith)

doubled_pow :
    (b k : ℕ)
    → cap (mul64 (pos (min (b * 2 ^ k) ceiling)) (pos 2)) ≡ pos (min (b * 2 ^ suc k) ceiling)
doubled_pow b k =
    doubled (b * 2 ^ k)
    ∙ ap (λ (n : ℕ). pos (min n ceiling))
        (mul_assoc b (2 ^ k) 2 ∙ ap (λ (n : ℕ). b * n) (sym (pow-suc 2 k)))

suc-ne-zero : (i : ℕ) → (suc i == 0) ≡ false
suc-ne-zero i = ground arith

last_failed : (n : ℕ) → elim n [ zero ↦ some failed | suc _ ↦ some failed ] ≡ some failed
last_failed zero = refl
last_failed (suc n) = refl

module _ (cut_backoff cut_after : ℕ → Bool) (uncut : (i : ℕ) → cut_backoff i ≡ false) where
  loop-schedule :
      (b k n i : ℕ) (last : Option Attempt)
      → loop
          (λ j. failed)
          cut_backoff
          cut_after
          n
          (suc i)
          (pos (min (b * 2 ^ k) ceiling))
          false
          last
        ≡ (schedule b k n, exhausted (elim n [ zero ↦ last | suc _ ↦ some failed ]))
  unfolding loop settle
  loop-schedule b k zero i last = refl
  loop-schedule b k (suc n) i last =
      let rest = loop-schedule b (suc k) n (suc i) (some failed) in
      rw (suc-ne-zero i, uncut (suc i), doubled_pow b k, rest, last_failed n)

  -- When every attempt fails without a Retry-After and no wait is cut short, the wait before attempt
  -- number k + 2 is 2^k times the first backoff, or thirty seconds if that is less; each is followed by an attempt, and the last
  -- error is returned.
  pub retry-schedule :
      (b n : ℕ)
      → b ≤ ceiling
      → retry (λ j. failed) cut_backoff cut_after (suc n) (pos b)
        ≡ (call ∷ schedule b 0 n, exhausted (some failed))
  unfolding retry loop settle
  retry-schedule b n h =
      let first : min (b * 2 ^ 0) ceiling ≡ b = omega arith in
      let rest = loop-schedule b 0 n 0 (some failed) in rw (rw first at rest, last_failed n)
