-- ===== src/Sentinel/Resources/Received.antt =====
-- Who keeps the last value that was sent under each key has the last value that was read.
use gno_watchtower.Base.{
  String, Bool, true, false, Option, none, some, List, [], ◌∷◌, ◌++◌, Assoc, lookup, insert,
  lookup-insert, str_eq, eq_iff, ◌≡◌, ◌≢◌, ◌↔◌, refl, ap, sym, ◌∙◌, inl, inr, Bool-cases, arith,
}
use gno_watchtower.Sentinel.Config.{ResourcesConfig}
use gno_watchtower.Sentinel.Delta.{changed, or_zero}
use gno_watchtower.Sentinel.Resources.{Readings, calls, report, report_all, collect}

module _ {D : Type 0} where
  -- The entries of a payload over what was there before.
  unfoldable pub overlay : Assoc D → Assoc D → Assoc D
  overlay before [] = before
  overlay before ((k, v) ∷ rest) = insert k v (overlay before rest)

  abbrev or_before : Option D → Option D → Option D
  or_before none o = o
  or_before (some v) o = some v

  lookup-overlay :
      (k : String) (before payload : Assoc D)
      → lookup k (overlay before payload) ≡ or_before (lookup k payload) (lookup k before)
  unfolding overlay lookup
  lookup-overlay k before [] = refl
  lookup-overlay k before ((j, v) ∷ rest) =
      ground (arith, lookup-insert j k v (overlay before rest), lookup-overlay k before rest)

  abbrev pub replace : Bool → Option D → Option D → Option D
  replace true (some v) o = some v
  replace true none o = o
  replace false v o = o

  -- The last value that was read under a key, after the one before.
  unfoldable pub last_read : String → Option D → List (String × Option D) → Option D
  last_read k o [] = o
  last_read k o ((j, v) ∷ rest) = last_read k (replace (str_eq j k) v o) rest

module _ {D H : Type 0} (hash : D → H) (same : H → H → Bool) (zero : H) (valid : D → Bool)
    (cfg : ResourcesConfig) where
  -- The filter and the values received, after a list of ticks.
  unfoldable pub receive : List (Readings D) → Assoc H × Assoc D → Assoc H × Assoc D
  receive [] s = s
  receive (r ∷ rs) (hashes, before) =
      let (hashes', payload) = collect hash same zero valid cfg r hashes in
      receive rs (hashes', overlay before payload)

  -- What the ticks read, in order.
  unfoldable pub all_calls : List (Readings D) → List (String × Option D)
  all_calls [] = []
  all_calls (r ∷ rs) = calls valid cfg r ++ all_calls rs

module _ {D H : Type 0} (hash : D → H) (same : H → H → Bool) (zero : H)
    (same_iff : (g h : H) → (same g h ≡ true) ↔ (g ≡ h))
    (apart : (x y : D) → hash x ≡ hash y → x ≡ y) (nonzero : (x : D) → zero ≢ hash x) where
  abbrev hash_of : Option D → Option H
  hash_of none = none
  hash_of (some v) = some (hash v)

  -- What stands under a key, after the payload that is being filled.
  abbrev view : Assoc D → Assoc D → String → Option D
  view before payload k = or_before (lookup k payload) (lookup k before)

  -- The filter holds the hash of each value that was sent, and no other.
  abbrev pub Agree : Assoc H → (String → Option D) → Type 0
  Agree hashes sent = (k : String) → lookup k hashes ≡ hash_of (sent k)

  same-sent :
      (o : Option D) (b : D)
      → same (or_zero hash same zero (hash_of o)) (hash b) ≡ true
      → o ≡ some b
  same-sent none b h = absurd (nonzero b ((same_iff zero (hash b)).0 h))
  same-sent (some y) b h = ap some (apart y b ((same_iff (hash y) (hash b)).0 h))

  -- One report, where `fresh` is what the filter says.
  put_if-view :
      (before : Assoc D) (key : String) (b : D) (payload : Assoc D) (k : String)
      → view before (insert key b payload) k
        ≡ replace (str_eq key k) (some b) (view before payload k)
  put_if-view before key b payload k = elim (Bool-cases (str_eq key k)) [
    | inl h ↦ rw (lookup-insert key k b payload, h) refl
    | inr h ↦ rw (lookup-insert key k b payload, h) refl
  ]

  report-view :
      (before : Assoc D) (key : String) (o : Option D) (hashes : Assoc H) (payload : Assoc D)
      → Agree hashes (view before payload)
      → let (hashes', payload') = report hash same zero key o (hashes, payload) in
        Agree hashes' (view before payload')
        × ((k : String) → view before payload' k ≡ replace (str_eq key k) o (view before payload k))
  unfolding changed
  report-view before key none hashes payload h =
      (h, λ k. elim (Bool-cases (str_eq key k)) [ inl e ↦ rw e refl | inr e ↦ rw e refl ])
  report-view before key (some b) hashes payload h =
      elim (Bool-cases (same (or_zero hash same zero (lookup key hashes)) (hash b))) [
        | inl stale ↦
            let sent = same-sent (view before payload key) b (rw (← h key) stale) in
            rw stale (
              h,
              λ k. elim (Bool-cases (str_eq key k)) [
                | inl e ↦ rw e (ap (view before payload) (sym ((eq_iff key k).0 e)) ∙ sent)
                | inr e ↦ rw e refl
              ],
            )
        | inr fresh ↦ rw fresh (
          λ k. elim (Bool-cases (str_eq key k)) [
            | inl e ↦
                lookup-insert key k (hash b) hashes
                ∙ rw (put_if-view before key b payload k, e) refl
            | inr e ↦
                lookup-insert key k (hash b) hashes
                ∙ rw (put_if-view before key b payload k, e) (h k)
          ],
          put_if-view before key b payload,
        )
      ]

  report_all-view :
      (before : Assoc D) (cs : List (String × Option D)) (hashes : Assoc H) (payload : Assoc D)
      → Agree hashes (view before payload)
      → let (hashes', payload') = report_all hash same zero cs (hashes, payload) in
        Agree hashes' (view before payload')
        × ((k : String) → view before payload' k ≡ last_read k (view before payload k) cs)
  unfolding report_all last_read
  report_all-view before [] hashes payload h = (h, λ k. refl)
  report_all-view before ((key, o) ∷ cs) hashes payload h =
      let s = report hash same zero key o (hashes, payload) in
      let (agree, one) = report-view before key o hashes payload h in
      let (agree', all) = report_all-view before cs s.0 s.1 agree in
      (agree', λ k. all k ∙ ap (λ v. last_read k v cs) (one k))

  module _ (valid : D → Bool) (cfg : ResourcesConfig) where
    last_read-append :
        (k : String) (o : Option D) (xs ys : List (String × Option D))
        → last_read k o (xs ++ ys) ≡ last_read k (last_read k o xs) ys
    unfolding last_read
    last_read-append k o [] ys = refl
    last_read-append k o ((j, v) ∷ xs) ys = last_read-append k (replace (str_eq j k) v o) xs ys

    receive-from :
        (rs : List (Readings D)) (hashes : Assoc H) (before : Assoc D)
        → Agree hashes (λ k. lookup k before)
        → (k : String)
        → lookup k (receive hash same zero valid cfg rs (hashes, before)).1
          ≡ last_read k (lookup k before) (all_calls hash same zero valid cfg rs)
    unfolding receive all_calls last_read collect lookup
    receive-from [] hashes before h k = refl
    receive-from (r ∷ rs) hashes before h k =
        let s = report_all hash same zero (calls valid cfg r) (hashes, []) in
        let (agree, read) = report_all-view before (calls valid cfg r) hashes [] h in
        let agree' : Agree s.0 (λ j. lookup j (overlay before s.1)) =
          λ j. agree j ∙ ap hash_of (sym (lookup-overlay j before s.1)) in
        receive-from rs s.0 (overlay before s.1) agree' k
        ∙ ap (λ v. last_read k v (all_calls hash same zero valid cfg rs))
            (lookup-overlay k before s.1 ∙ read k)
        ∙ sym (
            last_read-append k (lookup k before) (calls valid cfg r)
              (all_calls hash same zero valid cfg rs))

    -- Whatever the ticks read: who keeps the last value received under each key has, under every key, the
    -- last value that was read without an error. Hashes must be equal only for equal values, and none is
    -- all zeros.
    pub receive-last_read :
        (rs : List (Readings D)) (k : String)
        → lookup k (receive hash same zero valid cfg rs ([], [])).1
          ≡ last_read k none (all_calls hash same zero valid cfg rs)
    unfolding lookup
    receive-last_read rs k = receive-from rs [] [] (λ j. refl) k
