-- ===== src/Sentinel/Logs/Batches.antt =====
-- No line is lost, duplicated or reordered, and no batch outgrows its size.
use gno_watchtower.Base.{
  ℕ, ◌<◌, String, Bool, true, false, none, List, [], ◌∷◌, ◌++◌, Assoc, lookup, Distinct,
  insert-Distinct, lookup-insert, eq_iff, str_eq, ltb, leb, if◌then◌else◌, All, append-nil,
  append_assoc, Bool-cases, inl, inr, ◌≡◌, refl, ap, sym, ◌∙◌, arith,
}
use gno_watchtower.Sentinel.Logs.{
  level_rank, LogPayload, Batch, empty_batch, or_nil, payloads, flush, Event, line, tick, done,
  accumulate, step, run,
}

-- The lines of the payloads of a level.
unfoldable pub lines_of : String → List LogPayload → List String
lines_of k [] = []
lines_of k (p ∷ ps) = let rest = lines_of k ps in if str_eq p.level k then p.lines ++ rest else rest

lines_of-append :
    (k : String) (ps qs : List LogPayload) → lines_of k (ps ++ qs) ≡ lines_of k ps ++ lines_of k qs
unfolding lines_of
lines_of-append k [] qs = refl
lines_of-append k (p ∷ ps) qs = elim (Bool-cases (str_eq p.level k)) [
  | inl e ↦ rw e (
      ap (λ xs. p.lines ++ xs) (lines_of-append k ps qs)
      ∙ sym (append_assoc p.lines (lines_of k ps) (lines_of k qs)))
  | inr e ↦ rw e (lines_of-append k ps qs)
]

lines_of_absent :
    (k : String) (m : Assoc (List String)) → lookup k m ≡ none → lines_of k (payloads m) ≡ []
unfolding lookup payloads lines_of
lines_of_absent k [] h = refl
lines_of_absent k ((j, v) ∷ m) h = ground (arith, lines_of_absent k m)

lines_of-payloads :
    (k : String) (m : Assoc (List String))
    → Distinct m
    → lines_of k (payloads m) ≡ or_nil (lookup k m)
unfolding lookup payloads lines_of
lines_of-payloads k [] d = refl
lines_of-payloads k ((j, v) ∷ m) d = elim (Bool-cases (str_eq j k)) [
  | inl e ↦
      let same : j ≡ k = (eq_iff j k).0 e in
      rw e (ap (λ xs. v ++ xs) (lines_of_absent k m (rw same at d.0)) ∙ append-nil v)
  | inr e ↦ rw e (lines_of-payloads k m d.1)
]

-- All that the batch has of a level: what was sent, and what waits.
abbrev held : String → Batch → List String
held k b = lines_of k b.out ++ or_nil (lookup k b.accumulated)

abbrev extended : String → String → String → List String → List String
extended level raw k xs = if str_eq level k then xs ++ raw ∷ [] else xs

-- No flush is cut short by the end of the context.
abbrev pub Uncut : Event → Type 0
Uncut (line level raw cut) = cut ≡ none
Uncut (tick cut) = cut ≡ none
Uncut (done cut) = cut ≡ none

flush-held : (k : String) (b : Batch) → Distinct b.accumulated → held k (flush none b) ≡ held k b
unfolding flush lookup
flush-held k b d =
    append-nil (lines_of k (b.out ++ payloads b.accumulated))
    ∙ lines_of-append k b.out (payloads b.accumulated)
    ∙ ap (λ xs. lines_of k b.out ++ xs) (lines_of-payloads k b.accumulated d)

if-append :
    (t : Bool) (xs : List String) (raw : String)
    → (if t then xs ++ raw ∷ [] else xs) ≡ xs ++ (if t then raw ∷ [] else [])
if-append true xs raw = refl
if-append false xs raw = sym (append-nil xs)

module _ (size : String → ℕ) (min_level batch_size : ℕ) where
  -- The lines of a level that pass the filter, in order.
  unfoldable pub kept : String → List Event → List String
  kept k [] = []
  kept k (line level raw cut ∷ events) =
      let rest = kept k events in
      if ltb (level_rank level) min_level then rest else if str_eq level k then raw ∷ rest else rest
  kept k (tick cut ∷ events) = kept k events
  kept k (done cut ∷ events) = kept k events

  accumulate-held :
      (k level raw : String) (b : Batch)
      → held k (accumulate size min_level batch_size level raw b) ≡ extended level raw k (held k b)
  unfolding accumulate
  accumulate-held k level raw b =
      let found =
        lookup-insert level k (or_nil (lookup level b.accumulated) ++ raw ∷ []) b.accumulated in
      elim (Bool-cases (str_eq level k)) [
        | inl e ↦
            let own : level ≡ k = (eq_iff level k).0 e in
            rw (e, found)
              (rw (e, own)
                (sym
                  (append_assoc (lines_of k b.out) (or_nil (lookup k b.accumulated)) (raw ∷ []))))
        | inr e ↦ rw (e, found) (rw e refl)
      ]

  accumulate-Distinct :
      (level raw : String) (b : Batch)
      → Distinct b.accumulated
      → Distinct (accumulate size min_level batch_size level raw b).accumulated
  unfolding accumulate
  accumulate-Distinct level raw b d =
      insert-Distinct level (or_nil (lookup level b.accumulated) ++ raw ∷ []) b.accumulated d

  step-Distinct :
      (e : Event) (b : Batch)
      → Uncut e
      → Distinct b.accumulated
      → Distinct (step size min_level batch_size e b).accumulated
  unfolding step flush
  step-Distinct (line level raw cut) b uncut d =
      let more = accumulate-Distinct level raw b d in rw uncut (ground (arith, more, d))
  step-Distinct (tick cut) b uncut d = rw uncut tt
  step-Distinct (done cut) b uncut d = rw uncut tt

  if-held :
      (k : String) (full : Bool) (b : Batch)
      → Distinct b.accumulated
      → held k (if full then flush none b else b) ≡ held k b
  if-held k true b d = flush-held k b d
  if-held k false b d = refl

  step-held :
      (k : String) (e : Event) (b : Batch)
      → Uncut e
      → Distinct b.accumulated
      → held k (step size min_level batch_size e b) ≡ held k b ++ kept k (e ∷ [])
  unfolding step kept
  step-held k (line level raw cut) b uncut d =
      elim (Bool-cases (ltb (level_rank level) min_level)) [
        | inl low ↦ rw low (sym (append-nil (held k b)))
        | inr high ↦
            let b' = accumulate size min_level batch_size level raw b in
            let more = accumulate-Distinct level raw b d in
            rw (high, uncut)
              (if-held k (leb batch_size b'.total_bytes) b' more
                ∙ accumulate-held k level raw b
                ∙ if-append (str_eq level k) (held k b) raw)
      ]
  step-held k (tick cut) b uncut d = rw uncut (flush-held k b d ∙ sym (append-nil (held k b)))
  step-held k (done cut) b uncut d = rw uncut (flush-held k b d ∙ sym (append-nil (held k b)))

  kept_cons :
      (k : String) (e : Event) (events : List Event)
      → kept k (e ∷ events) ≡ kept k (e ∷ []) ++ kept k events
  unfolding kept
  kept_cons k (line level raw cut) events = ground arith
  kept_cons k (tick cut) events = refl
  kept_cons k (done cut) events = refl

  run-held :
      (k : String) (events : List Event) (b : Batch)
      → All Uncut events
      → Distinct b.accumulated
      → held k (run size min_level batch_size events b) ≡ held k b ++ kept k events
  unfolding run kept
  run-held k [] b uncut d = sym (append-nil (held k b))
  run-held k (e ∷ events) b uncut d =
      run-held k events (step size min_level batch_size e b) uncut.1 (step-Distinct e b uncut.0 d)
      ∙ ap (λ xs. xs ++ kept k events) (step-held k e b uncut.0 d)
      ∙ append_assoc (held k b) (kept k (e ∷ [])) (kept k events)
      ∙ ap (λ xs. held k b ++ xs) (sym (kept_cons k e events))

  bounded :
      (e : Event) (b : Batch)
      → Uncut e
      → b.total_bytes < batch_size
      → (step size min_level batch_size e b).total_bytes < batch_size
  unfolding step flush
  bounded (line level raw cut) b uncut h = rw uncut (ground arith)
  bounded (tick cut) b uncut h = rw uncut (omega arith)
  bounded (done cut) b uncut h = rw uncut (omega arith)

  -- Until the context ends: the lines of a level that were sent, followed by those that wait for the
  -- next flush, are the lines of that level that pass the filter, each once and in order.
  pub run-kept :
      (k : String) (events : List Event)
      → All Uncut events
      → lines_of k (run size min_level batch_size events empty_batch).out
          ++ or_nil (lookup k (run size min_level batch_size events empty_batch).accumulated)
        ≡ kept k events
  unfolding lookup lines_of
  run-kept k events uncut = run-held k events empty_batch uncut tt

  -- Between events less than a batch waits, so that a flush is never overdue.
  pub run-Bounded :
      (events : List Event) (b : Batch)
      → All Uncut events
      → b.total_bytes < batch_size
      → (run size min_level batch_size events b).total_bytes < batch_size
  unfolding run
  run-Bounded [] b uncut h = h
  run-Bounded (e ∷ events) b uncut h =
      run-Bounded events (step size min_level batch_size e b) uncut.1 (bounded e b uncut.0 h)
