-- ===== src/Sentinel/Otlp/Relayed.antt =====
-- What the sender takes, and what is dropped.
use gno_watchtower.Base.{
  ℕ, suc, ◌+◌, ◌≤◌, Bool, false, Option, none, some, List, [], ◌∷◌, ◌++◌, append_assoc, ltb, length,
  length-append, All, All-append, true, ◌⊎◌, String, eq_iff, ◌≡◌, refl, inl, inr, Bool-cases, arith,
}
use gno_watchtower.Sentinel.Otlp.{
  Metric, ScopeMetrics, ResourceMetrics, Export, is_denied, filter_metrics, filter_scopes,
  filter_denied, Bytes, Relay, idle, hand_off, Event, metrics, traces, receive, take_first,
  count_ok, read_body, after_marshal, after_unmarshal, after_read, handle_metrics, run,
}

-- The names of the metrics that the sentinel drops.
abbrev pub Denied : String → Type 0
Denied name =
    (name ≡ "block_txs_hist")
    ⊎ (name ≡ "validator_count_hist")
    ⊎ (name ≡ "validator_vp_hist")
    ⊎ (name ≡ "num_mempool_txs_hist")

-- A list of metrics and what is kept of it, in order: the metrics that are not denied.
pub data Kept {M : Type 0} : List (Metric M) → List (Metric M) → Type 0 where
  none_left : Kept [] []
  dropped :
      (m : Metric M) {ms kept : List (Metric M)} → Denied m.name → Kept ms kept → Kept (m ∷ ms) kept
  passed :
      (m : Metric M) {ms kept : List (Metric M)}
      → ¬ Denied m.name
      → Kept ms kept
      → Kept (m ∷ ms) (m ∷ kept)

-- The same scopes, each with what is kept of its metrics.
pub data KeptScopes {M S : Type 0}
    : List (ScopeMetrics M S) → List (ScopeMetrics M S) → Type 0 where
  no_scopes : KeptScopes [] []
  scoped :
      (sm : ScopeMetrics M S) {kept : List (Metric M)} {sms rest : List (ScopeMetrics M S)}
      → Kept sm.metrics kept
      → KeptScopes sms rest
      → KeptScopes (sm ∷ sms) (record sm { metrics = kept } ∷ rest)

-- The same resources, each with its scopes.
pub data KeptExport {M S R : Type 0} : Export M S R → Export M S R → Type 0 where
  no_resources : KeptExport [] []
  resource :
      (rm : ResourceMetrics M S R) {kept : List (ScopeMetrics M S)} {rms rest : Export M S R}
      → KeptScopes rm.scope_metrics kept
      → KeptExport rms rest
      → KeptExport (rm ∷ rms) (record rm { scope_metrics = kept } ∷ rest)

is_denied-Denied : (name : String) → is_denied name ≡ true → Denied name
unfolding is_denied
is_denied-Denied name h = ground (
  arith,
  eq_iff name "block_txs_hist",
  eq_iff name "validator_count_hist",
  eq_iff name "validator_vp_hist",
  eq_iff name "num_mempool_txs_hist",
)

passed-is_denied : (name : String) → is_denied name ≡ false → ¬ Denied name
unfolding is_denied
passed-is_denied name h d = ground (
  arith,
  eq_iff name "block_txs_hist",
  eq_iff name "validator_count_hist",
  eq_iff name "validator_vp_hist",
  eq_iff name "num_mempool_txs_hist",
)

filter_metrics-Kept : {M : Type 0} (ms : List (Metric M)) → Kept ms (filter_metrics ms)
unfolding filter_metrics
filter_metrics-Kept [] = none_left
filter_metrics-Kept (m ∷ ms) =
    let rest = filter_metrics-Kept ms in
    elim (Bool-cases (is_denied m.name)) [
      | inl h ↦ rw h (dropped m (is_denied-Denied m.name h) rest)
      | inr h ↦ rw h (passed m (passed-is_denied m.name h) rest)
    ]

filter_scopes-KeptScopes :
    {M S : Type 0} (sms : List (ScopeMetrics M S)) → KeptScopes sms (filter_scopes sms)
unfolding filter_scopes
filter_scopes-KeptScopes [] = no_scopes
filter_scopes-KeptScopes (sm ∷ sms) =
    scoped sm (filter_metrics-Kept sm.metrics) (filter_scopes-KeptScopes sms)

filter_denied-KeptExport :
    {M S R : Type 0} (msg : Export M S R) → KeptExport msg (filter_denied msg)
unfolding filter_denied
filter_denied-KeptExport [] = no_resources
filter_denied-KeptExport (rm ∷ rms) =
    resource rm (filter_scopes-KeptScopes rm.scope_metrics) (filter_denied-KeptExport rms)

module _ {M S R : Type 0} (gunzip : Bytes → Bool → Option (Bytes × Bool))
    (unmarshal : Bytes → Option (Export M S R)) (marshal : Export M S R → Option Bytes)
    (cap : ℕ) where
  -- Bytes that a body's message was written as, with its resources and scopes, without its denied metrics,
  -- and with the others in their order.
  abbrev pub Clean : Bytes → Type 0
  Clean b =
      (body : Bytes) × (msg : Export M S R) × (sent : Export M S R) × (unmarshal body ≡ some msg)
      × KeptExport msg sent
      × (marshal sent ≡ some b)

  abbrev pub Accounted : ℕ → Relay → Type 0
  Accounted oks s =
      (oks ≡ length (s.taken ++ s.out) + s.drops)
      × (length s.out ≤ cap)
      × ((s.drops ≡ 0) ⊎ (cap ≤ length (s.taken ++ s.out)))
      × All Clean (s.taken ++ s.out)

  still_early :
      (drops : ℕ) (bs : List Bytes) (b : Bytes)
      → (drops ≡ 0) ⊎ (cap ≤ length bs)
      → (drops ≡ 0) ⊎ (cap ≤ length (bs ++ b ∷ []))
  still_early drops bs b (inl none_yet) = inl none_yet
  still_early drops bs b (inr many) = inr (omega (arith, many, length-append bs (b ∷ [])))

  hand_off-Accounted :
      (oks : ℕ) (b : Bytes) (s : Relay)
      → Clean b
      → Accounted oks s
      → Accounted (suc oks) (hand_off cap b s)
  unfolding hand_off
  hand_off-Accounted oks b s clean (count, bound, early, all) =
      elim (Bool-cases (ltb (length s.out) cap)) [
        | inl room ↦
            rw (room, ← append_assoc s.taken s.out (b ∷ []))
              (
                omega (arith, length-append (s.taken ++ s.out) (b ∷ []), count),
                ground (arith, length-append s.out (b ∷ []), room),
                still_early s.drops (s.taken ++ s.out) b early,
                All-append Clean (s.taken ++ s.out) (b ∷ []) all (clean, tt),
              )
        | inr full ↦ rw full (
          ground (arith, count),
          bound,
          inr (ground (arith, full, length-append s.taken s.out)),
          all,
        )
      ]

  take_first-Accounted :
      (oks : ℕ) (s : Relay) → Accounted oks s → Accounted oks (take_first s.out s)
  take_first-Accounted oks s h = taken_from s.out oks s.taken s.drops h
    where
      taken_from :
          (out : List Bytes) (oks : ℕ) (done : List Bytes) (drops : ℕ)
          → Accounted oks (record { out = out; taken = done; drops = drops })
          → Accounted oks (take_first out (record { out = out; taken = done; drops = drops }))
      taken_from [] oks done drops h = h
      taken_from (b ∷ bs) oks done drops (count, bound, early, all) =
          let same : (done ++ b ∷ []) ++ bs ≡ done ++ b ∷ bs = append_assoc done (b ∷ []) bs in
          rw same (count, omega (arith, bound), early, all)

  after_marshal-Accounted :
      (oks : ℕ) (body : Bytes) (msg : Export M S R) (o : Option Bytes) (s : Relay)
      → unmarshal body ≡ some msg
      → marshal (filter_denied msg) ≡ o
      → Accounted oks s
      → let (status, s') = after_marshal gunzip unmarshal marshal cap o s in
        Accounted (count_ok status oks) s'
  after_marshal-Accounted oks body msg none s u e h = h
  after_marshal-Accounted oks body msg (some b) s u e h =
      hand_off-Accounted oks b s (body, msg, filter_denied msg, u, filter_denied-KeptExport msg, e)
        h

  after_unmarshal-Accounted :
      (oks : ℕ) (body : Bytes) (o : Option (Export M S R)) (s : Relay)
      → unmarshal body ≡ o
      → Accounted oks s
      → let (status, s') = after_unmarshal gunzip unmarshal marshal cap o s in
        Accounted (count_ok status oks) s'
  after_unmarshal-Accounted oks body none s u h = h
  after_unmarshal-Accounted oks body (some msg) s u h =
      after_marshal-Accounted oks body msg (marshal (filter_denied msg)) s u refl h

  after_read-Accounted :
      (oks : ℕ) (o : Option Bytes) (s : Relay)
      → Accounted oks s
      → let (status, s') = after_read gunzip unmarshal marshal cap o s in
        Accounted (count_ok status oks) s'
  after_read-Accounted oks none s h = h
  after_read-Accounted oks (some body) s h =
      after_unmarshal-Accounted oks body (unmarshal body) s refl h

  run-from :
      (es : List Event) (oks : ℕ) (s : Relay)
      → Accounted oks s
      → let (n, s') = run gunzip unmarshal marshal cap es oks s in Accounted n s'
  unfolding run handle_metrics
  run-from [] oks s h = h
  run-from (metrics r ∷ es) oks s h =
      run-from es _ _ (after_read-Accounted oks (read_body gunzip unmarshal marshal cap r) s h)
  run-from (traces r ∷ es) oks s h = run-from es oks s h
  run-from (receive ∷ es) oks s h = run-from es oks _ (take_first-Accounted oks s h)

  -- In every sequence of requests and receives, the exports answered with 200 are as many as those that the
  -- sender has taken, those that wait in the channel and the drops; the channel holds no more than its
  -- capacity; none is dropped while fewer than that have been put into the channel; and whatever was taken or
  -- waits was written from the message of a body, of which it has the resources and scopes and just the
  -- metrics that have none of the four denied names, in their order.
  pub run-Accounted :
      (es : List Event)
      → let (oks, s) = run gunzip unmarshal marshal cap es 0 idle in Accounted oks s
  run-Accounted es = run-from es 0 idle (refl, omega arith, inl refl, tt)
