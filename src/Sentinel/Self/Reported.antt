-- ===== src/Sentinel/Self/Reported.antt =====
-- From the sentinel's statistics to the watchtower's series: every counter arrives as it is kept.
use gno_watchtower.Base.{
  ℕ, String, none, some, List, [], ◌∷◌, ◌++◌, Assoc, map, insert, Distinct, lookup, ℤ, int64,
  int64-Fits, parse_int-format_int, ◌≡◌, refl, ap, ◌∙◌, arith,
}
use gno_watchtower.Json.{Json, object, field, as_object, as_int64, as_map, members_of}
use gno_watchtower.Json.Marshalled.{map_values, AllGood, as_map-members_of}
use gno_watchtower.Sentinel.Stats.{Entry, TypeSnapshot, snapshot}
use gno_watchtower.Sentinel.Self.{
  TypeStats, marshal_count, marshal_type_stats, by_type, payload_of, emit,
}
use gno_watchtower.Watchtower.Forwarder.Samples.{VmLine, whole, vm_sample}
use gno_watchtower.Watchtower.Forwarder.Rpc.{append_decoded}
use gno_watchtower.Watchtower.Forwarder.Metrics.{
  SelfTypeStats, decode_self_type_stats, drop_lines, self_stats_lines, append_self_stats,
}

-- A type's counters as the watchtower decodes them.
abbrev pub received : TypeStats → SelfTypeStats
received s = record {
  uncompressed_bytes = int64 s.uncompressed_bytes;
  wire_bytes = int64 s.wire_bytes;
  drops = map_values int64 s.drops;
}

as_int64-marshal_count : (w : ℕ) → as_int64 (marshal_count w) ≡ some (int64 w)
unfolding as_int64
as_int64-marshal_count w = parse_int-format_int (int64 w) (int64-Fits w)

-- What Go promises of the maps.
abbrev pub IsMap : TypeStats → Type 0
IsMap s = Distinct s.drops

drops-AllGood :
    (drops : Assoc ℕ)
    → AllGood marshal_count as_int64 int64 (λ w. Unit) (λ w o. as_int64-marshal_count w) drops
drops-AllGood [] = tt
drops-AllGood ((k, w) ∷ rest) = (tt, drops-AllGood rest)

decode-marshal_type_stats :
    (s : TypeStats) → IsMap s → decode_self_type_stats (marshal_type_stats s) ≡ some (received s)
unfolding decode_self_type_stats marshal_type_stats field as_object
decode-marshal_type_stats s d =
    let drops =
      as_map-members_of marshal_count as_int64 int64 (λ w. Unit) (λ w o. as_int64-marshal_count w)
        s.drops d (drops-AllGood s.drops) in
    rw (as_int64-marshal_count s.uncompressed_bytes, as_int64-marshal_count s.wire_bytes, drops)
      refl

-- A type's counters as the statistics keep them.
abbrev pub kept : Entry → SelfTypeStats
kept e = record {
  uncompressed_bytes = int64 e.total_bytes;
  wire_bytes = int64 e.total_wire_bytes;
  drops = map_values int64 e.total_drops;
}

abbrev pub DropsDistinct : Assoc Entry → Type 0
DropsDistinct [] = Unit
DropsDistinct ((typ, e) ∷ rest) = Distinct e.total_drops × DropsDistinct rest

abbrev reports : Assoc Entry → Assoc TypeStats
reports st = by_type (snapshot st)

lookup-reports-none :
    (k : String) (st : Assoc Entry) → lookup k st ≡ none → lookup k (reports st) ≡ none
unfolding lookup by_type snapshot
lookup-reports-none k [] h = refl
lookup-reports-none k ((typ, e) ∷ rest) h = ground (arith, h, lookup-reports-none k rest)

reports-Distinct : (st : Assoc Entry) → Distinct st → Distinct (reports st)
unfolding by_type snapshot
reports-Distinct [] d = tt
reports-Distinct ((typ, e) ∷ rest) d = (lookup-reports-none typ rest d.0, reports-Distinct rest d.1)

reports-AllGood :
    (st : Assoc Entry)
    → DropsDistinct st
    → AllGood marshal_type_stats decode_self_type_stats received IsMap decode-marshal_type_stats
        (reports st)
unfolding by_type snapshot
reports-AllGood [] d = tt
reports-AllGood ((typ, e) ∷ rest) d = (d.0, reports-AllGood rest d.1)

received-kept : (st : Assoc Entry) → map_values received (reports st) ≡ map_values kept st
unfolding map_values by_type snapshot
received-kept [] = refl
received-kept ((typ, e) ∷ rest) = ap (◌∷◌ (typ, kept e)) (received-kept rest)

payload_of-some :
    (snap : Assoc TypeSnapshot) (raw : Json)
    → payload_of snap ≡ some raw
    → raw ≡ object (members_of marshal_type_stats (by_type snap))
payload_of-some [] raw h = cc
payload_of-some (s ∷ rest) raw h = cc

-- A sample of the watchtower: its labels, its count and its instant.
abbrev pub count_line : Assoc String → ℤ → ℤ → VmLine
count_line metric n ts = record { metric = metric; values = whole n ∷ []; timestamps = ts ∷ [] }

abbrev pub bytes_line : String → String → String → ℤ → ℤ → VmLine
bytes_line validator typ encoding n ts =
    count_line
      (("validator", validator)
        ∷ ("type", typ)
        ∷ ("encoding", encoding)
        ∷ ("__name__", "sentinel_self_bytes_sent_total")
        ∷ [])
      n ts

abbrev pub drop_line : String → String → ℤ → String × ℕ → VmLine
drop_line validator typ ts (reason, n) =
    count_line
      (("validator", validator)
        ∷ ("type", typ)
        ∷ ("reason", reason)
        ∷ ("__name__", "sentinel_self_drops_total")
        ∷ [])
      (int64 n) ts

-- The series of one type: its uncompressed bytes, its bytes on the wire, and one for each reason of a drop.
abbrev pub type_series : String → ℤ → String × Entry → List VmLine
type_series validator ts (typ, e) =
    bytes_line validator typ "uncompressed" (int64 e.total_bytes) ts
    ∷ bytes_line validator typ "wire" (int64 e.total_wire_bytes) ts
    ∷ map (drop_line validator typ ts) e.total_drops

abbrev pub series : String → ℤ → Assoc Entry → List VmLine
series validator ts [] = []
series validator ts (e ∷ rest) = type_series validator ts e ++ series validator ts rest

drop_lines-map :
    (validator : String) (ts : ℤ) (typ : String) (drops : Assoc ℕ)
    → drop_lines validator ts typ (map_values int64 drops) ≡ map (drop_line validator typ ts) drops
unfolding drop_lines vm_sample insert map_values
drop_lines-map validator ts typ [] = refl
drop_lines-map validator ts typ ((reason, n) ∷ rest) =
    ap (◌∷◌ (drop_line validator typ ts (reason, n))) (drop_lines-map validator ts typ rest)

self_stats_lines-series :
    (validator : String) (ts : ℤ) (st : Assoc Entry)
    → self_stats_lines validator ts (map_values kept st) ≡ series validator ts st
unfolding self_stats_lines vm_sample insert map_values
self_stats_lines-series validator ts [] = refl
self_stats_lines-series validator ts ((typ, e) ∷ rest) =
    rw (drop_lines-map validator ts typ e.total_drops, self_stats_lines-series validator ts rest)
      refl

-- Where no map of the statistics has a key twice, the payload of a tick becomes the watchtower's series of just
-- the counters that the sentinel keeps, as the int64 that they are: for each type the bytes before and after
-- compression, each under its own encoding, and the drops by reason.
pub emit-reported :
    (st : Assoc Entry) (raw : Json) (lines : List VmLine) (validator : String) (ts : ℤ)
    → Distinct st
    → DropsDistinct st
    → (emit st).1 ≡ some raw
    → append_self_stats lines validator ts raw ≡ lines ++ series validator ts st
unfolding emit append_self_stats
emit-reported st raw lines validator ts d dd h =
    let decoded =
      ap (as_map decode_self_type_stats) (payload_of-some (snapshot st) raw h)
      ∙ as_map-members_of marshal_type_stats decode_self_type_stats received IsMap
          decode-marshal_type_stats (reports st) (reports-Distinct st d) (reports-AllGood st dd)
      ∙ ap some (received-kept st) in
    ap (λ o. append_decoded lines o (self_stats_lines validator ts)) decoded
    ∙ ap (λ l. lines ++ l) (self_stats_lines-series validator ts st)
