-- ===== src/Sentinel/Logs/Examples.antt =====
-- A collector at level "info" that flushes at ten bytes.
use gno_watchtower.Base.{ℕ, String, none, some, List, [], ◌∷◌, ◌++◌, lookup, insert, ◌≡◌, refl}
use gno_watchtower.Sentinel.Logs.{
  Event, line, done, empty_batch, or_nil, run, step, accumulate, flush, level_rank, payloads,
}
use gno_watchtower.Sentinel.Logs.Batches.{lines_of, kept, run-kept}

abbrev five : String → ℕ
five raw = 5

abbrev events : List Event
events =
    line "info" "a" none ∷ line "debug" "b" none ∷ line "warn" "c" none ∷ line "info" "d" none ∷ []

program : Unit {0}
unfolding run step accumulate flush level_rank payloads lookup insert lines_of kept
program = tt

run-kept_example :
    lines_of "info" (run five 1 10 events empty_batch).out
      ++ or_nil (lookup "info" (run five 1 10 events empty_batch).accumulated)
    ≡ "a" ∷ "d" ∷ []
unfolding program
run-kept_example = run-kept five 1 10 "info" events (refl, (refl, (refl, (refl, tt))))

-- A flush that the end of the context cuts short keeps what it has sent, and the last flush sends it
-- again.
sent_twice :
    lines_of "info"
      (run five 1 10
        (line "info" "a" none ∷ line "warn" "b" (some 1) ∷ done none ∷ [])
        empty_batch).out
    ≡ "a" ∷ "a" ∷ []
unfolding program
sent_twice = refl
