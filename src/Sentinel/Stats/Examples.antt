-- ===== src/Sentinel/Stats/Examples.antt =====
-- A collector of logs between two snapshots.
use gno_watchtower.Base.{List, [], ◌∷◌, lookup, insert, ◌≡◌, refl}
use gno_watchtower.Sentinel.Stats.{
  TypeSnapshot, Op, sent, dropped, report, run, step, add, add_drop, bump, reset, snapshot,
}
use gno_watchtower.Sentinel.Stats.Tallies.{
  tally, tallies, wrap, nothing, reported, snapshot-tallies,
}

abbrev ops : List Op
ops =
    sent "logs" 100 40
    ∷ dropped "logs" "buffer_full"
    ∷ report
    ∷ sent "logs" 7 3
    ∷ sent "rpc" 9 9
    ∷ []

abbrev logs : TypeSnapshot
logs = record {
  total_bytes = 107;
  total_wire_bytes = 43;
  total_drops = ("buffer_full", 1) ∷ [];
  last_snapshot_bytes = 7;
  last_snapshot_drops = [];
}

program : Unit {0}
unfolding run step add add_drop bump reset snapshot lookup insert tally tallies
program = tt

snapshot-tallies_example :
    reported "buffer_full" logs ≡ wrap (tallies "logs" "buffer_full" ops nothing)
snapshot-tallies_example = snapshot-tallies "logs" "buffer_full" ops logs (unfold program in refl)
