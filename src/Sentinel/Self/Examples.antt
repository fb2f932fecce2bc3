-- ===== src/Sentinel/Self/Examples.antt =====
-- Two types, one with a counter that has wrapped around to a negative int64.
use gno_watchtower.Base.{
  some, none, [], ◌∷◌, Assoc, pos, int64, format_int, lookup, append_text, spell_with, ◌≡◌, refl,
}
use gno_watchtower.Json.{Json, number, object, end, member, members_of}
use gno_watchtower.Sentinel.Stats.{Entry, snapshot, reset}
use gno_watchtower.Sentinel.Self.{marshal_type_stats, by_type, emit}
use gno_watchtower.Sentinel.Self.Reported.{series, emit-reported}
use gno_watchtower.Watchtower.Forwarder.Metrics.{append_self_stats}

program : Unit {0}
unfolding lookup snapshot reset int64 format_int append_text spell_with members_of
    marshal_type_stats by_type emit
program = tt

abbrev wrapped : Entry
wrapped = record {
  total_bytes = 18446744073709551614;
  total_wire_bytes = 1050;
  total_drops = ("buffer_full", 3) ∷ [];
  last_bytes = 5;
  last_drops = [];
}

abbrev stats : Assoc Entry
stats = ("rpc", wrapped) ∷ []

abbrev raw : Json
raw = object (
    member "rpc"
      (object (
        member "uncompressed_bytes" (number "-2") (
          member "wire_bytes" (number "1050")
            (member "drops" (object (member "buffer_full" (number "3") end)) end))))
      end)

emitted : (emit stats).1 ≡ some raw
unfolding program
emitted = refl

nothing_emitted : (emit []).1 ≡ none
unfolding program
nothing_emitted = refl

emit-reported_example : append_self_stats [] "v" (pos 7) raw ≡ series "v" (pos 7) stats
emit-reported_example =
    emit-reported stats raw [] "v" (pos 7) (unfold program in (refl, tt))
      (unfold program in ((refl, tt), tt)) emitted
