-- ===== src/Sentinel/Stats.antt =====
-- internal/sentinel/stats/stats.go: bytes sent and drops, for each type of collector. The counters are
-- `int64`, as bit patterns: numbers that wrap around at 2^64.
pub mod Tallies
mod Examples
use gno_watchtower.Base.{
  ℕ, ◌+◌, ◌%◌, String, Option, none, some, List, [], ◌∷◌, Assoc, lookup, insert, two64,
}

pub record Entry : Type 0 where
  pub total_bytes : ℕ
  pub total_wire_bytes : ℕ
  pub total_drops : Assoc ℕ
  pub last_bytes : ℕ
  pub last_drops : Assoc ℕ

pub record TypeSnapshot : Type 0 where
  pub total_bytes : ℕ
  pub total_wire_bytes : ℕ
  pub total_drops : Assoc ℕ
  pub last_snapshot_bytes : ℕ
  pub last_snapshot_drops : Assoc ℕ

abbrev pub no_entry : Entry
no_entry = record {
  total_bytes = 0;
  total_wire_bytes = 0;
  total_drops = [];
  last_bytes = 0;
  last_drops = [];
}

-- `getOrCreate`
abbrev pub or_create : Option Entry → Entry
or_create none = no_entry
or_create (some e) = e

unfoldable pub add : String → ℕ → ℕ → Assoc Entry → Assoc Entry
add collector_type uncompressed wire s =
    let e = or_create (lookup collector_type s) in
    let e' : Entry = record e {
      total_bytes = (e.total_bytes + uncompressed) % two64;
      total_wire_bytes = (e.total_wire_bytes + wire) % two64;
      last_bytes = (e.last_bytes + uncompressed) % two64;
    } in
    insert collector_type e' s

abbrev pub or_zero : Option ℕ → ℕ
or_zero none = 0
or_zero (some n) = n

-- `m[reason]++`
unfoldable pub bump : String → Assoc ℕ → Assoc ℕ
bump reason m = insert reason ((or_zero (lookup reason m) + 1) % two64) m

unfoldable pub add_drop : String → String → Assoc Entry → Assoc Entry
unfolding bump
add_drop collector_type reason s =
    let e = or_create (lookup collector_type s) in
    let e' : Entry = record e {
      total_drops = bump reason e.total_drops;
      last_drops = bump reason e.last_drops;
    } in
    insert collector_type e' s

abbrev pub snapshot_entry : Entry → TypeSnapshot
snapshot_entry e = record {
  total_bytes = e.total_bytes;
  total_wire_bytes = e.total_wire_bytes;
  total_drops = e.total_drops;
  last_snapshot_bytes = e.last_bytes;
  last_snapshot_drops = e.last_drops;
}

-- `Snapshot`: what it returns, and what it leaves.
unfoldable pub snapshot : Assoc Entry → Assoc TypeSnapshot
snapshot [] = []
snapshot ((k, e) ∷ rest) = (k, snapshot_entry e) ∷ snapshot rest

unfoldable pub reset : Assoc Entry → Assoc Entry
reset [] = []
reset ((k, e) ∷ rest) = (k, record e { last_bytes = 0; last_drops = [] }) ∷ reset rest

-- What the collectors and the loggers do with the statistics.
pub data Op : Type 0 where
  sent : String → ℕ → ℕ → Op
  dropped : String → String → Op
  report : Op

unfoldable pub step : Op → Assoc Entry → Assoc Entry
step (sent k uncompressed wire) s = add k uncompressed wire s
step (dropped k reason) s = add_drop k reason s
step report s = reset s

unfoldable pub run : List Op → Assoc Entry → Assoc Entry
run [] s = s
run (op ∷ ops) s = run ops (step op s)
