-- ===== src/Watchtower/Stats.antt =====
-- internal/watchtower/stats/stats.go: bytes received, for each validator and each type of data. The
-- counters are `int64`, as bit patterns: numbers that wrap around at 2^64.
pub mod Totals
mod Examples
use gno_watchtower.Base.{
  ℕ, ◌+◌, ◌%◌, String, Option, none, some, List, [], ◌∷◌, Assoc, lookup, insert, two64,
}

pub record Entry : Type 0 where
  pub last_hour : ℕ
  pub total : ℕ

pub record TypeSnapshot : Type 0 where
  pub last_hour_bytes : ℕ
  pub total_bytes : ℕ

abbrev pub Data : Type 0
Data = Assoc (Assoc Entry)

abbrev pub or_empty : Option (Assoc Entry) → Assoc Entry
or_empty none = []
or_empty (some types) = types

abbrev pub or_zero : Option Entry → Entry
or_zero none = record { last_hour = 0; total = 0 }
or_zero (some e) = e

-- `Record`; the maps are made where they are missing.
unfoldable pub add : String → String → ℕ → Data → Data
add validator collector_type bytes s =
    let types = or_empty (lookup validator s) in
    let e = or_zero (lookup collector_type types) in
    let e' : Entry = record {
      last_hour = (e.last_hour + bytes) % two64;
      total = (e.total + bytes) % two64;
    } in
    insert validator (insert collector_type e' types) s

-- The inner loop of `Snapshot`: what is reported, and what is kept.
unfoldable pub snapshot_types : Assoc Entry → Assoc TypeSnapshot
snapshot_types [] = []
snapshot_types ((typ, e) ∷ rest) =
    (typ, record { last_hour_bytes = e.last_hour; total_bytes = e.total }) ∷ snapshot_types rest

unfoldable pub reset_types : Assoc Entry → Assoc Entry
reset_types [] = []
reset_types ((typ, e) ∷ rest) = (typ, record e { last_hour = 0 }) ∷ reset_types rest

unfoldable pub snapshot : Data → Assoc (Assoc TypeSnapshot)
unfolding snapshot_types
snapshot [] = []
snapshot ((validator, types) ∷ rest) = (validator, snapshot_types types) ∷ snapshot rest

unfoldable pub reset : Data → Data
unfolding reset_types
reset [] = []
reset ((validator, types) ∷ rest) = (validator, reset_types types) ∷ reset rest

-- What the server does with its statistics.
pub data Op : Type 0 where
  received : String → String → ℕ → Op
  report : Op

unfoldable pub step : Data → Op → Data
step s (received validator collector_type bytes) = add validator collector_type bytes s
step s report = reset s

-- The state after the operations, and the snapshots that were reported.
unfoldable pub run : Data → List Op → Data × List (Assoc (Assoc TypeSnapshot))
run s [] = (s, [])
run s (received v t n ∷ ops) = run (step s (received v t n)) ops
run s (report ∷ ops) = let (s', taken) = run (step s report) ops in (s', snapshot s ∷ taken)
