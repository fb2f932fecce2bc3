-- ===== src/Watchtower/Auth/Failures.antt =====
-- How failures are counted, and when they lead to a ban, whatever the requests that overlap.
use gno_watchtower.Base
use gno_watchtower.Base.{
  ℕ, suc, zero, ◌+◌, ◌≤◌, ◌<◌, String, Bool, true, false, Option, none, some, List, [], ◌∷◌, Assoc,
  Distinct, lookup, insert, delete, keep, ltb, leb, not, ◌&&◌, ◌==◌, ◌≡◌, ◌∙◌, refl, ap, sym, ◌≢◌,
  arith, eq_iff, str_eq, if◌then◌else◌, lookup-keep, keep-Distinct, lookup-insert, lookup-delete,
  delete-Distinct, insert-Distinct, ◌⊎◌, inl, inr, Bool-cases,
}
use gno_watchtower.Watchtower.Config.{ValidatorConfig, TokenEntry}
use gno_watchtower.Watchtower.Auth.{
  IpRecord, Authenticator, is_zero, survives, maybe_sweep, check_record, is_banned, record_failure,
  middleware, since, Request, remote_ip, count_failure, or_new, record_success, record_auth_failure,
  after_ban_check, check_token, bearer_token, new, reload,
}

-- What every record satisfies: it has a ban exactly if its failures have reached the threshold.
abbrev pub Counted : ℕ → Option IpRecord → Type 0
Counted threshold none = Unit
Counted threshold (some r) =
    ((r.failures < threshold) × (r.ban_expiry ≡ 0))
    ⊎ ((threshold ≤ r.failures) × (0 < r.ban_expiry))

pub record IsWellFormed (a : Authenticator) : Type 0 where
  pub threshold_positive : 0 < a.ban_threshold
  pub duration_positive : 0 < a.ban_duration
  pub distinct : Distinct a.ips
  pub counted : (ip : String) → Counted a.ban_threshold (lookup ip a.ips)

kept-Counted :
    (threshold : ℕ) (p : IpRecord → Bool) (o : Option IpRecord)
    → Counted threshold o
    → Counted threshold (Base.filter_some p o)
kept-Counted threshold p none h = tt
kept-Counted threshold p (some r) h = go (p r)
  where
    go : (b : Bool) → Counted threshold (if b then some r else none)
    go true = h
    go false = tt

maybe_sweep-IsWellFormed :
    (a : Authenticator) (now : ℕ) → IsWellFormed a → IsWellFormed (maybe_sweep a now)
unfolding maybe_sweep
maybe_sweep-IsWellFormed a now h = go (ltb (since now a.last_cleanup) a.ban_duration)
  where
    kept : Authenticator
    kept = record a { ips = keep (survives now a.ban_duration) a.ips; last_cleanup = now }

    go : (b : Bool) → IsWellFormed (if b then a else kept)
    go true = h
    go false = record {
      threshold_positive = h.threshold_positive;
      duration_positive = h.duration_positive;
      distinct = keep-Distinct (survives now a.ban_duration) a.ips h.distinct;
      counted = λ ip.
          let e = lookup-keep (survives now a.ban_duration) ip a.ips h.distinct in
          rw e (
            kept-Counted a.ban_threshold (survives now a.ban_duration) (lookup ip a.ips)
              (h.counted ip));
    }

-- Dropping one address from the records.
without-IsWellFormed :
    (a : Authenticator) (ip : String) → IsWellFormed a → IsWellFormed (record_success a ip)
unfolding record_success
without-IsWellFormed a ip h = record {
  threshold_positive = h.threshold_positive;
  duration_positive = h.duration_positive;
  distinct = delete-Distinct ip a.ips h.distinct;
  counted = λ j. rw (lookup-delete ip j a.ips) (go j (str_eq ip j));
}
  where
    go : (j : String) (b : Bool) → Counted a.ban_threshold (if b then none else lookup j a.ips)
    go j true = tt
    go j false = h.counted j

check_record-IsWellFormed :
    (a : Authenticator) (now : ℕ) (ip : String) (o : Option IpRecord)
    → IsWellFormed a
    → IsWellFormed (check_record a now ip o).0
unfolding check_record
check_record-IsWellFormed a now ip none h = h
check_record-IsWellFormed a now ip (some r) h = go (is_zero r.ban_expiry) (ltb r.ban_expiry now)
  where
    go :
        (zero late : Bool)
        → IsWellFormed
            (if zero
              then (a, false)
              else if late
              then (record a { ips = delete ip a.ips }, false)
              else let p : Authenticator × Bool = (a, true) in p).0
    go true late = h
    go false true = unfold record_success in without-IsWellFormed a ip h
    go false false = h

count_failure-Counted :
    (threshold duration now : ℕ) (o : Option IpRecord)
    → 0 < threshold
    → 0 < duration
    → Counted threshold o
    → Counted threshold (some (count_failure threshold duration now (or_new o)))
unfolding count_failure
count_failure-Counted threshold duration now none t d h = elim (Bool-cases (leb threshold 1)) [
  | inl e ↦ rw e (inr (ground (arith, e), omega (arith, d)))
  | inr e ↦ rw e (inl (ground (arith, e), refl))
]
count_failure-Counted threshold duration now (some r) t d h =
    elim (Bool-cases (leb threshold (r.failures + 1))) [
      | inl e ↦ rw e (inr (ground (arith, e), omega (arith, d)))
      | inr e ↦ rw e (inl (ground (arith, e), ground (arith, e, h)))
    ]

record_failure-IsWellFormed :
    (a : Authenticator) (now : ℕ) (ip : String)
    → IsWellFormed a
    → IsWellFormed (record_failure a now ip)
unfolding record_failure
record_failure-IsWellFormed a now ip h = record {
  threshold_positive = h.threshold_positive;
  duration_positive = h.duration_positive;
  distinct = insert-Distinct ip counted a.ips h.distinct;
  counted = λ j. rw (lookup-insert ip j counted a.ips) (go j (str_eq ip j));
}
  where
    counted : IpRecord
    counted = count_failure a.ban_threshold a.ban_duration now (or_new (lookup ip a.ips))

    go :
        (j : String) (b : Bool)
        → Counted a.ban_threshold (if b then some counted else lookup j a.ips)
    go j true =
        count_failure-Counted a.ban_threshold a.ban_duration now (lookup ip a.ips)
          h.threshold_positive h.duration_positive (h.counted ip)
    go j false = h.counted j

-- What is done with the authenticator in one piece: each of its critical sections, and a metric.
pub data Section : Type 0 where
  checks_ban fails : ℕ → String → Section
  succeeds notes : String → Section
  reloads : Assoc ValidatorConfig → Section

abbrev pub perform : Section → Authenticator → Authenticator
perform (checks_ban now ip) a = (is_banned a now ip).0
perform (fails now ip) a = record_failure a now ip
perform (succeeds ip) a = record_success a ip
perform (notes reason) a = record_auth_failure a reason
perform (reloads validators) a = reload a validators

unfoldable pub perform_all : List Section → Authenticator → Authenticator
perform_all [] a = a
perform_all (s ∷ rest) a = perform_all rest (perform s a)

perform-IsWellFormed :
    (s : Section) (a : Authenticator) → IsWellFormed a → IsWellFormed (perform s a)
perform-IsWellFormed (checks_ban now ip) a h =
    let swept = maybe_sweep a now in
    unfold is_banned in
    check_record-IsWellFormed swept now ip (lookup ip swept.ips) (maybe_sweep-IsWellFormed a now h)
perform-IsWellFormed (fails now ip) a h = record_failure-IsWellFormed a now ip h
perform-IsWellFormed (succeeds ip) a h = without-IsWellFormed a ip h
perform-IsWellFormed (notes reason) a h =
    unfold record_auth_failure in
    record {
      threshold_positive = h.threshold_positive;
      duration_positive = h.duration_positive;
      distinct = h.distinct;
      counted = h.counted;
    }
perform-IsWellFormed (reloads validators) a h =
    unfold reload in
    record {
      threshold_positive = h.threshold_positive;
      duration_positive = h.duration_positive;
      distinct = h.distinct;
      counted = h.counted;
    }

perform_all-IsWellFormed :
    (sections : List Section) (a : Authenticator)
    → IsWellFormed a
    → IsWellFormed (perform_all sections a)
unfolding perform_all
perform_all-IsWellFormed [] a h = h
perform_all-IsWellFormed (s ∷ rest) a h =
    perform_all-IsWellFormed rest (perform s a) (perform-IsWellFormed s a h)

-- Whatever critical sections requests and reloads perform in whatever order, so that ban checks and failures
-- of requests that overlap may alternate: the records of a new authenticator with a positive threshold and
-- duration keep distinct addresses, and an address has a ban exactly if its failures have reached the
-- threshold.
pub sections-IsWellFormed :
    (validators : Assoc ValidatorConfig) (threshold duration : ℕ) (sections : List Section)
    → 0 < threshold
    → 0 < duration
    → IsWellFormed (perform_all sections (new validators threshold duration))
unfolding new lookup
sections-IsWellFormed validators threshold duration sections t d =
    perform_all-IsWellFormed sections _
      record { threshold_positive = t; duration_positive = d; distinct = tt; counted = λ ip. tt }

check_token-sections :
    (a : Authenticator) (later : ℕ) (r : Request) (o : Option TokenEntry)
    → (sections : List Section) × ((check_token a later r o).0 ≡ perform_all sections a)
unfolding check_token perform_all
check_token-sections a later r none = (fails later (remote_ip r) ∷ notes "invalid_token" ∷ [], refl)
check_token-sections a later r (some entry) = (succeeds (remote_ip r) ∷ [], refl)

after_ban_check-sections :
    (later : ℕ) (r : Request) (p : Authenticator × Bool)
    → (sections : List Section) × ((after_ban_check later r p).0 ≡ perform_all sections p.0)
unfolding perform_all
after_ban_check-sections later r (a, true) = (notes "banned" ∷ [], refl)
after_ban_check-sections later r (a, false) =
    check_token-sections a later r (lookup (bearer_token r) a.tokens)

-- A request does nothing with the authenticator but such sections, its ban check first.
middleware-sections :
    (a : Authenticator) (now later : ℕ) (r : Request)
    → (sections : List Section) × ((middleware a now later r).0
        ≡ perform_all (checks_ban now (remote_ip r) ∷ sections) a)
unfolding middleware perform_all
middleware-sections a now later r = after_ban_check-sections later r (is_banned a now (remote_ip r))
