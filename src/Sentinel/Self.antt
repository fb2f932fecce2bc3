-- ===== src/Sentinel/Self.antt =====
-- internal/sentinel/self/collector.go: the sentinel's own counters, as a metrics payload. A counter is an
-- int64 in the bit pattern that Stats keeps. The ticker is left out, and `emit` is one of its ticks.
pub mod Reported
mod Examples
use gno_watchtower.Base.{ℕ, String, Option, none, some, List, [], ◌∷◌, Assoc, ℤ, int64, format_int}
use gno_watchtower.Json.{Json, number, object, end, member, members_of}
use gno_watchtower.Sentinel.Stats.{Entry, TypeSnapshot, snapshot, reset}

pub record TypeStats : Type 0 where
  pub uncompressed_bytes : ℕ
  pub wire_bytes : ℕ
  pub drops : Assoc ℕ

abbrev pub type_stats : TypeSnapshot → TypeStats
type_stats s = record {
  uncompressed_bytes = s.total_bytes;
  wire_bytes = s.total_wire_bytes;
  drops = s.total_drops;
}

-- `json.Marshal` of an int64.
abbrev pub marshal_count : ℕ → Json
marshal_count w = number (format_int (int64 w))

unfoldable pub marshal_type_stats : TypeStats → Json
marshal_type_stats s = object (
    member "uncompressed_bytes" (marshal_count s.uncompressed_bytes) (
      member "wire_bytes" (marshal_count s.wire_bytes)
        (member "drops" (object (members_of marshal_count s.drops)) end)))

unfoldable pub by_type : Assoc TypeSnapshot → Assoc TypeStats
by_type [] = []
by_type ((typ, s) ∷ rest) = (typ, type_stats s) ∷ by_type rest

abbrev pub payload_of : Assoc TypeSnapshot → Option Json
payload_of [] = none
payload_of (s ∷ rest) = some (object (members_of marshal_type_stats (by_type (s ∷ rest))))

-- What `Snapshot` leaves of the statistics, and the value under "self_stats" of the payload, if any.
unfoldable pub emit : Assoc Entry → Assoc Entry × Option Json
emit st = (reset st, payload_of (snapshot st))
