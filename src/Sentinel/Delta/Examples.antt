-- ===== src/Sentinel/Delta/Examples.antt =====
-- The filter over numbers, with a hash that separates them.
use gno_watchtower.Base.{ℕ, suc, String, Bool, List, [], ◌∷◌, lookup, insert, ◌≡◌, refl, ◌==◌}
use gno_watchtower.Sentinel.Delta.{changed, after}

abbrev polls : List (String × ℕ)
polls = ("status", 7) ∷ ("net_info", 3) ∷ ("status", 8) ∷ []

repeats : (changed suc ◌==◌ 0 (after suc ◌==◌ 0 [] polls) "net_info" 3).1 ≡ Bool.false
unfolding changed after lookup insert
repeats = refl
