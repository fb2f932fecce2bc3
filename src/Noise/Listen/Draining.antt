-- ===== src/Noise/Listen/Draining.antt =====
-- Behind Close every goroutine of the listener comes to its end, whether or not anyone calls Accept again.
use gno_watchtower.Base.{
  ℕ, suc, ◌+◌, ◌*◌, ◌≤◌, ◌<◌, Bool, true, false, List, [], ◌∷◌, ◌++◌, length, length-append, ◌⊎◌,
  ◌≡◌, ◌∙◌, refl, ap, arith, Bool-cases, inl, inr,
}
use gno_watchtower.Noise.Listen.{
  Listen, Loop, accepting, surfacing, returned, Step, arrive, stop, fail, surface, give_up, reject,
  complete, publish, drop, accept, accept_failure, close,
}

-- What the goroutines of the listener still have to do: one step for the accept loop, two for a handshake,
-- and one for a result that is not sent.
abbrev pub loop_work : Loop → ℕ
loop_work accepting = 1
loop_work surfacing = 1
loop_work returned = 0

abbrev pub work : Listen → ℕ
work l = loop_work l.loop + (2 * length l.handshaking + length l.ready)

-- No goroutine of the listener is left.
abbrev pub Settled : Listen → Type 0
Settled l = (l.loop ≡ returned) × (l.handshaking ≡ []) × (l.ready ≡ [])

module _ (authorized : ℕ → Bool) where
  -- A step of the accept loop or of a handshake's goroutine; a new connection is the peers' step, and the
  -- others are those of the callers of Accept and Close.
  abbrev pub is_own : {l m : Listen} → Step authorized l m → Bool
  is_own (arrive _) = false
  is_own (accept _ _ _) = false
  is_own (accept_failure _ _) = false
  is_own close = false
  is_own _ = true

  -- A number of such steps, in any order.
  pub data Run : ℕ → Listen → Listen → Type 0 where
    stay : (l : Listen) → Run 0 l l
    go :
        {n : ℕ} {l m k : Listen} (s : Step authorized l m)
        → is_own s ≡ true
        → Run n m k
        → Run (suc n) l k

  -- A step that can be done now.
  abbrev pub Moves : Listen → Type 0
  Moves l = (m : Listen) × (s : Step authorized l m) × (is_own s ≡ true)

  taken :
      (before after handshaking : List ℕ) (c : ℕ)
      → handshaking ≡ before ++ c ∷ after
      → length handshaking ≡ suc (length (before ++ after))
  taken before after handshaking c e =
      omega (arith, ap length e, length-append before (c ∷ after), length-append before after)

  own-works :
      {l m : Listen} (s : Step authorized l m)
      → is_own s ≡ true
      → l.closed ≡ true
      → (work m < work l) × (m.closed ≡ true) × (m.accepted ≡ l.accepted)
  own-works (arrive e) own shut = absurd (cc)
  own-works (stop e f) own shut = (omega (arith, ap loop_work e), shut, refl)
  own-works (fail e f) own shut = absurd (cc)
  own-works (surface e f) own shut = (omega (arith, ap loop_work e), shut, refl)
  own-works (give_up e f) own shut = (omega (arith, ap loop_work e), shut, refl)
  own-works {l} (reject before after c e f) own shut =
      (omega (arith, taken before after l.handshaking c e), shut, refl)
  own-works {l} (complete before after c e f) own shut =
      (omega (arith, taken before after l.handshaking c e), shut, refl)
  own-works {l} (publish before after c e f) own shut =
      (omega (arith, taken before after l.ready c e), shut, refl)
  own-works {l} (drop before after c e f) own shut =
      (omega (arith, taken before after l.ready c e), shut, refl)
  own-works (accept c rest e) own shut = absurd (cc)
  own-works (accept_failure rest e) own shut = absurd (cc)
  own-works close own shut = absurd (cc)

  Settled-or_Moves :
      (l : Listen) (loop : Loop) (handshaking ready : List ℕ)
      → l.loop ≡ loop
      → l.handshaking ≡ handshaking
      → l.ready ≡ ready
      → l.closed ≡ true
      → Settled l ⊎ Moves l
  Settled-or_Moves l accepting handshaking ready e h r shut = inr (_, stop e shut, refl)
  Settled-or_Moves l surfacing handshaking ready e h r shut = inr (_, give_up e shut, refl)
  Settled-or_Moves l returned (c ∷ rest) ready e h r shut = elim (Bool-cases (authorized c)) [
    | inl granted ↦ inr (_, complete [] rest c h granted, refl)
    | inr refused ↦ inr (_, reject [] rest c h refused, refl)
  ]
  Settled-or_Moves l returned [] (c ∷ rest) e h r shut = inr (_, drop [] rest c r shut, refl)
  Settled-or_Moves l returned [] [] e h r shut = inl (e, h, r)

  -- From any state behind Close, whatever steps the accept loop and the handshakes do in whatever order and
  -- without a caller: they are at most as many as the work that was left, they hand nothing to Accept, and
  -- behind them either no goroutine is left or one of them can do a further step. So none of them waits
  -- for a caller that is gone, not even for room in the channel of results.
  pub closed-Settled :
      (n : ℕ) (l m : Listen)
      → l.closed ≡ true
      → Run n l m
      → (n ≤ work l) × (m.accepted ≡ l.accepted) × (Settled m ⊎ Moves m)
  closed-Settled n l m shut (stay _) =
      (omega arith, refl, Settled-or_Moves l l.loop l.handshaking l.ready refl refl refl shut)
  closed-Settled (suc n) l k shut (go {m = m} s own run) =
      let (less, shut', same) = own-works s own shut in
      let (few, kept, done) = closed-Settled n m k shut' run in
      (omega (arith, less, few), kept ∙ same, done)
