-- ===== src/Sentinel/App/Lines/Conserved.antt =====
-- No payload is lost between the collector and the end of its flush, and their order is kept.
use gno_watchtower.Base.{
  ℕ, ◌≤◌, ◌<◌, String, true, false, Option, none, some, List, [], ◌∷◌, ◌++◌, Assoc, append_assoc,
  append-nil, ltb, leb, length, length-append, ◌≡◌, refl, ap, sym, ◌∙◌, inl, inr, Bool-cases, arith,
}
use gno_watchtower.Sentinel.Buffer.{Buffer, push, rest_of, drain}
use gno_watchtower.Sentinel.Stats.{Entry}
use gno_watchtower.Sentinel.App.{Fate, Encoded, Transport, flush, wire_buffered}
use gno_watchtower.Sentinel.App.Flushes.{flush-Accounted}
use gno_watchtower.Sentinel.App.Lines.{
  Exit, Line, start, Event, emit, receive, push_hand, tick, finish, others, overflow, exits,
  receive_first, push_received, flush_line, step, run,
}

-- The payloads of a list of exits.
abbrev pub payloads {ℓ} : {A : Type ℓ} → List (A × Exit) → List A
payloads [] = []
payloads ((p, e) ∷ rest) = p ∷ payloads rest

payloads-append {ℓ} :
    {A : Type ℓ} (xs ys : List (A × Exit)) → payloads (xs ++ ys) ≡ payloads xs ++ payloads ys
payloads-append [] ys = refl
payloads-append ((p, e) ∷ xs) ys = ap (◌∷◌ p) (payloads-append xs ys)

payloads-exits {ℓ} :
    {A : Type ℓ} (xs : List A) (fs : List Fate)
    → length fs ≡ length xs
    → payloads (exits xs fs) ≡ xs
payloads-exits [] fs h = refl
payloads-exits (x ∷ xs) [] h = absurd (omega (arith, h))
payloads-exits (x ∷ xs) (f ∷ fs) h = ap (◌∷◌ x) (payloads-exits xs fs (omega (arith, h)))

-- What the goroutine has in its hand.
abbrev pub held {ℓ} : {A : Type ℓ} → Option A → List A
held none = []
held (some p) = p ∷ []

-- What left, what is buffered, what the goroutine holds and what waits in the channel are together what
-- was emitted, in order.
abbrev pub Conserved {ℓ} : {A : Type ℓ} → ℕ → Line A → Type ℓ
Conserved size s =
    (payloads s.gone ++ (s.buffer.items ++ (held s.hand ++ s.channel)) ≡ s.emitted)
    × (length s.buffer.items ≤ size)
    × (s.buffer.max_size ≡ size)
    × (length s.channel ≤ size)

module _ {ℓ} {A : Type ℓ} where
  -- The oldest of a full buffer leaves, or none of another.
  push-overflow :
      (b : Buffer A) (p : A)
      → 0 < b.max_size
      → length b.items ≤ b.max_size
      → (payloads (overflow (leb b.max_size (length b.items)) b.items) ++ (push b p).0.items
          ≡ b.items ++ p ∷ [])
        × (length (push b p).0.items ≤ b.max_size)
        × ((push b p).0.max_size ≡ b.max_size)
  unfolding push rest_of
  push-overflow b p h le = elim (Bool-cases (leb b.max_size (length b.items))) [
    | inl full ↦ rw full (full_case b.items (ground (arith, full, h)) le)
    | inr room ↦ rw room (refl, ground (arith, room, length-append b.items (p ∷ [])), refl)
  ]
    where
      full_case :
          (items : List A)
          → 0 < length items
          → length items ≤ b.max_size
          → (payloads (overflow true items) ++ (rest_of items ++ p ∷ []) ≡ items ++ p ∷ [])
            × (length (rest_of items ++ p ∷ []) ≤ b.max_size)
            × (b.max_size ≡ b.max_size)
      full_case [] h le = absurd (omega (arith, h))
      full_case (x ∷ xs) h le = (refl, omega (arith, le, length-append xs (p ∷ [])), refl)

  regroup :
      (gone over pushed items : List A) (p : A) (ps : List A)
      → over ++ pushed ≡ items ++ p ∷ []
      → (gone ++ over) ++ (pushed ++ ps) ≡ gone ++ (items ++ p ∷ ps)
  regroup gone over pushed items p ps e =
      append_assoc gone over (pushed ++ ps)
      ∙ ap (λ l. gone ++ l)
          (sym (append_assoc over pushed ps) ∙ ap (λ l. l ++ ps) e ∙ append_assoc items (p ∷ []) ps)

module _ {ℓ} {A : Type ℓ} (encode : A → Option Encoded) (name typ : String) (size : ℕ) where
  receive_first-Conserved :
      (hand : Option A) (waiting : List A) (s : Line A)
      → s.hand ≡ hand
      → s.channel ≡ waiting
      → Conserved size s
      → Conserved size (receive_first encode name typ size hand waiting s)
  receive_first-Conserved none [] s e f h = h
  receive_first-Conserved (some x) waiting s e f h = h
  receive_first-Conserved none (p ∷ ps) s e f (sum, le, max, room) = (
    ap (λ l. payloads s.gone ++ (s.buffer.items ++ l)) (sym (ap (λ o. held o ++ s.channel) e ∙ f))
        ∙ sum,
    le,
    max,
    omega (arith, room, ap length f),
  )

  push_received-Conserved :
      (hand : Option A) (s : Line A)
      → 0 < size
      → s.hand ≡ hand
      → Conserved size s
      → Conserved size (push_received encode name typ size hand s)
  unfolding wire_buffered
  push_received-Conserved none s pos_size e h = h
  push_received-Conserved (some p) s pos_size e (sum, le, max, room) =
      let over = overflow (leb s.buffer.max_size (length s.buffer.items)) s.buffer.items in
      let (kept, fits, same) =
        push-overflow s.buffer p (ground (arith, max, pos_size)) (ground (arith, max, le)) in
      (
        ap (λ l. l ++ ((push s.buffer p).0.items ++ s.channel)) (payloads-append s.gone over)
            ∙ regroup (payloads s.gone) (payloads over) (push s.buffer p).0.items s.buffer.items p
                s.channel kept
            ∙ ap (λ o. payloads s.gone ++ (s.buffer.items ++ (held o ++ s.channel))) (sym e)
            ∙ sum,
        ground (arith, fits, max),
        same ∙ max,
        room,
      )

  flush_line-Conserved :
      (t : Transport) (s : Line A)
      → Conserved size s
      → Conserved size (flush_line encode name typ size t s)
  unfolding flush_line flush drain
  flush_line-Conserved t s (sum, le, max, room) =
      let (empty, (count, stats)) = flush-Accounted encode typ t s.buffer s.stats in
      let fates = (flush encode typ t s.buffer s.stats).1.fates in
      (
        ap (λ l. l ++ (held s.hand ++ s.channel))
              (payloads-append s.gone (exits s.buffer.items fates))
            ∙ ap (λ l. (payloads s.gone ++ l) ++ (held s.hand ++ s.channel))
                (payloads-exits s.buffer.items fates count)
            ∙ append_assoc (payloads s.gone) s.buffer.items (held s.hand ++ s.channel)
            ∙ sum,
        omega arith,
        max,
        room,
      )

  step-Conserved :
      (e : Event A) (s : Line A)
      → 0 < size
      → Conserved size s
      → Conserved size (step encode name typ size e s)
  unfolding step flush_line
  step-Conserved (emit p) s pos_size (sum, le, max, room) =
      elim (Bool-cases (ltb (length s.channel) size)) [
        | inl free ↦ rw free (
          ap (λ l. payloads s.gone ++ (s.buffer.items ++ l))
                (sym (append_assoc (held s.hand) s.channel (p ∷ [])))
              ∙ ap (λ l. payloads s.gone ++ l)
                  (sym (append_assoc s.buffer.items (held s.hand ++ s.channel) (p ∷ [])))
              ∙ sym (
                  append_assoc (payloads s.gone) (s.buffer.items ++ (held s.hand ++ s.channel))
                    (p ∷ []))
              ∙ ap (λ l. l ++ p ∷ []) sum,
          le,
          max,
          ground (arith, free, length-append s.channel (p ∷ [])),
        )
        | inr full ↦ rw full (sum, le, max, room)
      ]
  step-Conserved receive s pos_size h = receive_first-Conserved s.hand s.channel s refl refl h
  step-Conserved push_hand s pos_size h = push_received-Conserved s.hand s pos_size refl h
  step-Conserved (tick t) s pos_size h = elim (Bool-cases s.drained) [
    | inl d ↦ rw d h
    | inr d ↦ rw d (flush_line-Conserved t s h)
  ]
  step-Conserved (finish t) s pos_size h = elim (Bool-cases s.drained) [
    | inl d ↦ rw d h
    | inr d ↦ rw d (flush_line-Conserved t s h)
  ]
  step-Conserved (others f) s pos_size h = h

  run-from :
      (es : List (Event A)) (s : Line A)
      → 0 < size
      → Conserved size s
      → Conserved size (run encode name typ size es s)
  unfolding run
  run-from [] s pos_size h = h
  run-from (e ∷ es) s pos_size h =
      run-from es (step encode name typ size e s) pos_size (step-Conserved e s pos_size h)

  -- Whatever the goroutines and the ticks do in whatever order: the payloads that left the buffer, by an
  -- overflow or a flush, those in the buffer, the one that was received and is not pushed yet and those in
  -- the channel are together what the collector emitted, each once and in its order, and neither the buffer
  -- nor the channel exceeds its size.
  pub run-Conserved :
      (es : List (Event A)) (st : Assoc Entry)
      → 0 < size
      → Conserved size (run encode name typ size es (start size st))
  run-Conserved es st pos_size =
      run-from es (start size st) pos_size (refl, omega arith, refl, omega arith)

  flush_line-empties :
      (t : Transport) (s : Line A)
      → ((flush_line encode name typ size t s).buffer.items ≡ [])
        × ((flush_line encode name typ size t s).channel ≡ s.channel)
        × ((flush_line encode name typ size t s).hand ≡ s.hand)
        × ((flush_line encode name typ size t s).emitted ≡ s.emitted)
  unfolding flush_line flush drain
  flush_line-empties t s = (refl, refl, refl, refl)

  -- Where the channel is empty and nothing is received and not pushed when Run leaves its loop, the last flush leaves nothing behind: every payload
  -- that the collector ever emitted has left, in its order.
  pub run-finished :
      (es : List (Event A)) (t : Transport) (st : Assoc Entry)
      → 0 < size
      → (run encode name typ size es (start size st)).drained ≡ false
      → (run encode name typ size es (start size st)).channel ≡ []
      → (run encode name typ size es (start size st)).hand ≡ none
      → let s = run encode name typ size es (start size st) in
        payloads (step encode name typ size (finish t) s).gone ≡ s.emitted
  unfolding step run
  run-finished es t st pos_size open_loop quiet idle =
      let s = run encode name typ size es (start size st) in
      let after = flush_line encode name typ size t s in
      let (sum, le, max, room) = flush_line-Conserved t s (run-Conserved es st pos_size) in
      let (empty, same, same_hand, emitted) = flush_line-empties t s in
      rw open_loop (
        sym (append-nil (payloads after.gone))
        ∙ ap (λ l. payloads after.gone ++ l)
            (sym (
              ap (λ l. l ++ (held after.hand ++ after.channel)) empty
              ∙ ap (λ o. held o ++ after.channel) (same_hand ∙ idle)
              ∙ same
              ∙ quiet))
        ∙ sum
        ∙ emitted)
