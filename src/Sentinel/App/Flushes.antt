-- ===== src/Sentinel/App/Flushes.antt =====
-- What a flush does with every payload that it drained, and what the statistics say of it.
use gno_watchtower.Base.{
  ℕ, zero, suc, ◌+◌, ◌<◌, String, Bool, true, false, Option, none, some, List, [], ◌∷◌, Assoc,
  length, ◌≡◌, refl, sym, ap, ◌∙◌, arith, Option-cases, inl, inr,
}
use gno_watchtower.Sentinel.Buffer.{Buffer, drain}
use gno_watchtower.Sentinel.Retry.{
  Attempt, sent as answered, Ending, delivered, cancelled, exhausted,
}
use gno_watchtower.Sentinel.Retry.Outcomes.{until_sent, retry-until_sent}
use gno_watchtower.Sentinel.Stats.{Entry, Op, sent, dropped, step, run}
use gno_watchtower.Sentinel.App.{
  max_send_attempts, initial_backoff, Fate, is_sent, is_unencodable, is_dropped, is_lost, Encoded,
  Transport, send, Flushed, with_fate, lose, after_send, flush_items, flush,
}

-- The calls of the statistics for a payload of a fate.
abbrev pub op_of : String → Option Encoded → Fate → List Op → List Op
op_of typ (some e) is_sent ops = sent typ e.uncompressed e.wire ∷ ops
op_of typ none is_sent ops = ops
op_of typ o is_unencodable ops = ops
op_of typ o is_dropped ops = dropped typ "retry_exhausted" ∷ ops
op_of typ o is_lost ops = ops

-- A success among the first `left` attempts from the i-th on.
until_sent-delivered :
    (attempt : ℕ → Attempt) (left i j : ℕ) (last : Option Attempt)
    → j < left
    → attempt (i + j) ≡ answered
    → (until_sent attempt left i last).1 ≡ delivered
unfolding until_sent
until_sent-delivered attempt zero i j last lt e = absurd (omega (arith, lt))
until_sent-delivered attempt (suc left) i zero last lt e =
    let at : attempt i ≡ answered = ap attempt (omega arith) ∙ e in ground (arith, at)
until_sent-delivered attempt (suc left) i (suc j) last lt e =
    let at : attempt (suc i + j) ≡ answered = ap attempt (omega arith) ∙ e in
    let rest =
      until_sent-delivered attempt left (suc i) j (some (attempt i)) (omega (arith, lt)) at in
    ground (arith, rest)

module _ {ℓ} {A : Type ℓ} (encode : A → Option Encoded) (typ : String) (t : Transport) where
  unfoldable pub ops_of : List A → List Fate → List Op
  ops_of [] fates = []
  ops_of (p ∷ ps) [] = []
  ops_of (p ∷ ps) (f ∷ fates) = op_of typ (encode p) f (ops_of ps fates)

  -- A fate for every payload, and the statistics that go with them.
  abbrev pub Accounted : List A → Assoc Entry → Flushed → Type 0
  Accounted items st r = (length r.fates ≡ length items) × (r.stats ≡ run (ops_of items r.fates) st)

  lose-Accounted :
      (ps : List A) (st : Assoc Entry)
      → (length (lose encode typ t ps) ≡ length ps)
        × (st ≡ run (ops_of ps (lose encode typ t ps)) st)
  unfolding lose ops_of run
  lose-Accounted [] st = (refl, refl)
  lose-Accounted (p ∷ ps) st =
      let (len, stats) = lose-Accounted ps st in (omega (arith, len), stats)

  -- One payload more.
  Accounted-more :
      (p : A) (ps : List A) (f : Fate) (st st' : Assoc Entry) (r : Flushed)
      → run (op_of typ (encode p) f (ops_of ps r.fates)) st ≡ run (ops_of ps r.fates) st'
      → Accounted ps st' r
      → Accounted (p ∷ ps) st (with_fate f r)
  unfolding ops_of
  Accounted-more p ps f st st' r one (len, stats) = (omega (arith, len), stats ∙ sym one)

  after_send-Accounted :
      (p : A) (ps : List A) (e : Encoded) (next : Assoc Entry → Flushed) (st : Assoc Entry)
      → encode p ≡ some e
      → ((st' : Assoc Entry) → Accounted ps st' (next st'))
      → (ending : Ending) (done : Bool)
      → Accounted (p ∷ ps) st (after_send encode typ t ending done e ps next st)
  unfolding run step ops_of
  after_send-Accounted p ps e next st coded h delivered done =
      Accounted-more p ps is_sent st (step (sent typ e.uncompressed e.wire) st) (next _)
        (rw coded refl) (h _)
  after_send-Accounted p ps e next st coded h cancelled true =
      let (len, stats) = lose-Accounted ps st in (omega (arith, len), stats)
  after_send-Accounted p ps e next st coded h cancelled false =
      Accounted-more p ps is_dropped st (step (dropped typ "retry_exhausted") st) (next _) refl
        (h _)
  after_send-Accounted p ps e next st coded h (exhausted last) true =
      let (len, stats) = lose-Accounted ps st in (omega (arith, len), stats)
  after_send-Accounted p ps e next st coded h (exhausted last) false =
      Accounted-more p ps is_dropped st (step (dropped typ "retry_exhausted") st) (next _) refl
        (h _)

  flush_items-Accounted :
      (n : ℕ) (ps : List A) (st : Assoc Entry) → Accounted ps st (flush_items encode typ t n ps st)
  unfolding flush_items run ops_of
  flush_items-Accounted n [] st = (refl, refl)
  flush_items-Accounted n (p ∷ ps) st = elim (Option-cases (encode p)) [
    | inl none_coded ↦ rw none_coded (
        Accounted-more p ps is_unencodable st st (flush_items encode typ t (suc n) ps st) refl
          (flush_items-Accounted (suc n) ps st))
    | inr (e, coded) ↦ rw coded (
        after_send-Accounted p ps e (flush_items encode typ t (suc n) ps) st coded
          (flush_items-Accounted (suc n) ps) (send t n) (t.done n))
  ]

  -- A flush empties its buffer, gives every payload of it one fate, and leaves the statistics as the calls
  -- for these fates, in the payloads' order, make them: those of what is sent and of what is dropped, and
  -- none for a payload without JSON or behind the end of the context.
  pub flush-Accounted :
      (b : Buffer A) (st : Assoc Entry)
      → let (after, r) = flush encode typ t b st in (after.items ≡ []) × Accounted b.items st r
  unfolding flush drain
  flush-Accounted b st = (refl, flush_items-Accounted 0 b.items st)

  -- Every payload sent.
  abbrev pub all_sent : List A → List Fate
  all_sent [] = []
  all_sent (p ∷ ps) = is_sent ∷ all_sent ps

  -- Each payload has JSON, and each send meets an answer of success within its attempts.
  abbrev pub Deliverable : ℕ → List A → Type 0
  Deliverable n [] = Unit
  Deliverable n (p ∷ ps) =
      ((e : Encoded) × (encode p ≡ some e))
      × ((j : ℕ) × (j < max_send_attempts) × (t.attempt n j ≡ answered))
      × Deliverable (suc n) ps

  send-delivered :
      ((n i : ℕ) → t.cut_backoff n i ≡ false)
      → ((n i : ℕ) → t.cut_after n i ≡ false)
      → (n j : ℕ) → j < max_send_attempts
      → t.attempt n j ≡ answered
      → send t n ≡ delivered
  unfolding send
  send-delivered uncut unhurried n j lt e =
      ap (λ q. q.1)
        (retry-until_sent (t.attempt n) (t.cut_backoff n) (t.cut_after n) (uncut n) (unhurried n)
          max_send_attempts initial_backoff)
      ∙ until_sent-delivered (t.attempt n) max_send_attempts 0 j none lt
          (ap (t.attempt n) (omega arith) ∙ e)

  flush_items-all_sent :
      ((n i : ℕ) → t.cut_backoff n i ≡ false)
      → ((n i : ℕ) → t.cut_after n i ≡ false)
      → (n : ℕ) (ps : List A) (st : Assoc Entry) → Deliverable n ps
      → (flush_items encode typ t n ps st).fates ≡ all_sent ps
  unfolding flush_items step
  flush_items-all_sent uncut unhurried n [] st h = refl
  flush_items-all_sent uncut unhurried n (p ∷ ps) st ((e, coded), (j, lt, hit), rest) =
      rw (coded, send-delivered uncut unhurried n j lt hit)
        (ap (◌∷◌ is_sent) (
          flush_items-all_sent uncut unhurried (suc n) ps (step (sent typ e.uncompressed e.wire) st)
            rest))

  -- While the context lasts, a flush sends every payload that has JSON and meets a success within its five
  -- attempts: where all do, the buffer is empty behind it, every payload is sent, and each is counted once.
  pub flush-all_sent :
      (b : Buffer A) (st : Assoc Entry)
      → ((n i : ℕ) → t.cut_backoff n i ≡ false)
      → ((n i : ℕ) → t.cut_after n i ≡ false)
      → Deliverable 0 b.items
      → let (after, r) = flush encode typ t b st in
        (after.items ≡ [])
        × (r.fates ≡ all_sent b.items)
        × (r.stats ≡ run (ops_of b.items (all_sent b.items)) st)
  unfolding flush drain
  flush-all_sent b st uncut unhurried h =
      let fates = flush_items-all_sent uncut unhurried 0 b.items st h in
      let (len, stats) = flush_items-Accounted 0 b.items st in
      (refl, fates, stats ∙ ap (λ fs. run (ops_of b.items fs) st) fates)
