-- ===== src/Watchtower/RateLimit/Isolation.antt =====
-- A validator is limited by its own requests alone.
use gno_watchtower.Base.{
  ℕ, String, Bool, some, List, [], ◌∷◌, lookup, insert, lookup-insert, eq_iff, str_eq,
  if◌then◌else◌, ◌≡◌, refl, ap, ◌∙◌, Bool-cases, inl, inr,
}
use gno_watchtower.Watchtower.RateLimit.{Limiter, allow, answers, or_fresh}

module _ {L : Type 0} (fresh : L) (allow_one : L → ℕ → L × Bool) where
  -- A single limiter that is asked at these instants.
  unfoldable pub alone : L → List ℕ → List Bool
  alone lim [] = []
  alone lim (now ∷ rest) = let (lim', fine) = allow_one lim now in fine ∷ alone lim' rest

  -- The instants at which a validator asks, and the answers it gets.
  unfoldable pub asked_by : String → List (String × ℕ) → List ℕ
  asked_by name [] = []
  asked_by name ((other, now) ∷ rest) =
      let tail = asked_by name rest in if str_eq other name then now ∷ tail else tail

  unfoldable pub given_to : String → List (String × Bool) → List Bool
  given_to name [] = []
  given_to name ((other, fine) ∷ rest) =
      let tail = given_to name rest in if str_eq other name then fine ∷ tail else tail

  -- However the requests of several validators interleave, each validator gets the answers of a
  -- limiter of its own that sees only its requests, and starts fresh if it is a new one.
  pub given_to-answers :
      (requests : List (String × ℕ)) (l : Limiter L) (name : String)
      → given_to name (answers fresh allow_one l requests)
        ≡ alone (or_fresh fresh allow_one (lookup name l.limiters)) (asked_by name requests)
  unfolding alone asked_by given_to answers allow
  given_to-answers [] l name = refl
  given_to-answers ((other, now) ∷ rest) l name =
      let (lim, fine) = allow_one (or_fresh fresh allow_one (lookup other l.limiters)) now in
      let ih = given_to-answers rest (record l { limiters = insert other lim l.limiters }) name in
      let found = lookup-insert other name lim l.limiters in
      elim (Bool-cases (str_eq other name)) [
        | inl e ↦
            let found' : lookup name (insert other lim l.limiters) ≡ some lim = found ∙ rw e refl in
            let same : other ≡ name = (eq_iff other name).0 e in
            let own : lookup other l.limiters ≡ lookup name l.limiters =
              ap (λ n. lookup n l.limiters) same in
            let ih' =
              ih ∙ ap (λ o. alone (or_fresh fresh allow_one o) (asked_by name rest)) found' in
            rw e (rw (ih', own) refl)
        | inr e ↦
            let found' : lookup name (insert other lim l.limiters) ≡ lookup name l.limiters =
              found ∙ rw e refl in
            rw e (ih ∙ ap (λ o. alone (or_fresh fresh allow_one o) (asked_by name rest)) found')
      ]
