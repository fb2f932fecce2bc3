-- ===== src/Watchtower/Forwarder/Examples.antt =====
-- A payload of two lines out of order, received 700000 s after the epoch; no text is a time.
use gno_watchtower.Base.{ℕ, String, Option, none, some, List, [], ◌∷◌, lookup, delete, ◌≡◌, refl}
use gno_watchtower.Sentinel.Logs.{level_rank}
use gno_watchtower.Watchtower.Forwarder.{
  text, number, Line, object, not_object, Payload, Stream, pushed, strip_body_fields, insert_sorted,
  sort_entries, clamp, extract_module_and_ts, entry_of, entries_of, to_loki_push, forward_logs,
}

abbrev no_time : String → Option ℕ
no_time s = none

abbrev info : String
info = "info"

abbrev now : ℕ
now = 700000000000000

abbrev later : Line
later = object (("module", text "consensus") ∷ ("ts", number 699000000000000) ∷ [])

abbrev earlier : Line
earlier = object (("ts", number 698000000000000) ∷ ("level", text "warn") ∷ [])

abbrev payload : Payload
payload = record { level = "warn"; lines = later ∷ earlier ∷ not_object "?" ∷ [] }

program : Unit {0}
unfolding to_loki_push forward_logs entries_of entry_of sort_entries insert_sorted clamp
    extract_module_and_ts strip_body_fields lookup delete level_rank
program = tt

abbrev streams : List Stream
streams =
    record {
      validator = "alice";
      level = "warn";
      values =
          record { nano = 698000000000000; raw = object []; mod_name = "unknown" }
          ∷ record {
            nano = 699000000000000;
            raw = object (("module", text "consensus") ∷ []);
            mod_name = "consensus";
          }
          ∷ record { nano = 700000000000000; raw = not_object "?"; mod_name = "unknown" }
          ∷ [];
    }
    ∷ []

pushes : forward_logs no_time "alice" "info" now (some payload) ≡ pushed streams
unfolding program
pushes = refl
