-- ===== src/Watchtower/Stats/Examples.antt =====
-- The counters over a short day.
use gno_watchtower.Base.{List, [], ◌∷◌, lookup, insert, ◌≡◌, refl}
use gno_watchtower.Watchtower.Stats.{Op, received, report, run, step, add, reset}
use gno_watchtower.Watchtower.Stats.Totals.{entry}

abbrev day : List Op
day = received "alice" "rpc" 100 ∷ received "bob" "rpc" 5 ∷ report ∷ received "alice" "rpc" 20 ∷ []

counts : entry (run [] day).0 "alice" "rpc" ≡ record { last_hour = 20; total = 120 }
unfolding entry run step add reset lookup insert
counts = refl
