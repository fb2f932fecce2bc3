-- ===== src/Noise/Listen/Counts.antt =====
-- How often a connection occurs in a list of them, or of results.
use gno_watchtower.Base.{ℕ, ◌+◌, List, [], ◌∷◌, ◌++◌, ◌==◌, if◌then◌else◌, ◌≡◌, refl, arith}
use gno_watchtower.Noise.Listen.{AcceptResult, conn, accept_error}

-- One for the connection asked for.
abbrev pub one : ℕ → ℕ → ℕ
one x c = if c == x then 1 else 0

unfoldable pub count : ℕ → List ℕ → ℕ
count x [] = 0
count x (c ∷ cs) = one x c + count x cs

unfoldable pub count_results : ℕ → List AcceptResult → ℕ
count_results x [] = 0
count_results x (conn c ∷ rs) = one x c + count_results x rs
count_results x (accept_error ∷ rs) = count_results x rs

pub count-middle :
    (x : ℕ) (before after : List ℕ) (c : ℕ)
    → count x (before ++ c ∷ after) ≡ one x c + count x (before ++ after)
unfolding count
count-middle x [] after c = refl
count-middle x (b ∷ before) after c = omega (arith, count-middle x before after c)

pub count_results-last :
    (x : ℕ) (rs : List AcceptResult) (c : ℕ)
    → count_results x (rs ++ conn c ∷ []) ≡ one x c + count_results x rs
unfolding count_results
count_results-last x [] c = refl
count_results-last x (conn d ∷ rs) c = omega (arith, count_results-last x rs c)
count_results-last x (accept_error ∷ rs) c = count_results-last x rs c

pub count_results-error :
    (x : ℕ) (rs : List AcceptResult)
    → count_results x (rs ++ accept_error ∷ []) ≡ count_results x rs
unfolding count_results
count_results-error x [] = refl
count_results-error x (conn d ∷ rs) = omega (arith, count_results-error x rs)
count_results-error x (accept_error ∷ rs) = count_results-error x rs
