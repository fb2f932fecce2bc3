-- ===== src/Watchtower/RateLimit/Examples.antt =====
-- Two validators and limiters that allow two requests each.
use gno_watchtower.Base.{ℕ, ◌-◌, String, Bool, true, false, List, [], ◌∷◌, none, ltb, lookup, ◌≡◌}
use gno_watchtower.Watchtower.RateLimit.{Limiter, answers}
use gno_watchtower.Watchtower.RateLimit.Isolation.{alone, asked_by, given_to, given_to-answers}

abbrev spend : ℕ → ℕ → ℕ × Bool
spend left now = (left - 1, ltb 0 left)

abbrev requests : List (String × ℕ)
requests = ("a", 1) ∷ ("b", 2) ∷ ("a", 3) ∷ ("a", 4) ∷ ("b", 5) ∷ []

abbrev start : Limiter ℕ
start = record { limiters = []; on_limit = none }

given_to-answers_example :
    given_to 2 spend "a" (answers 2 spend start requests) ≡ true ∷ true ∷ false ∷ []
unfolding lookup alone asked_by
given_to-answers_example = given_to-answers 2 spend requests start "a"
