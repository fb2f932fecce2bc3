-- ===== src/Sentinel/App/Lines/Examples.antt =====
-- A buffer of two places: one overflow, one flush, and the last flush.
use gno_watchtower.Base.{
  ℕ, false, Option, none, some, List, [], ◌∷◌, lookup, insert, ◌≡◌, refl, arith,
}
use gno_watchtower.Sentinel.Buffer.{push, rest_of, drain}
use gno_watchtower.Sentinel.Retry.{sent as answered, retry, loop, settle}
use gno_watchtower.Sentinel.Stats.{add, add_drop}
use gno_watchtower.Sentinel.App.{
  Encoded, Transport, is_sent, send, flush_items, flush, wire_buffered,
}
use gno_watchtower.Sentinel.App.Lines.{
  Event, emit, receive, push_hand, tick, finish, overflowed, flushed, start, flush_line, step, run,
}
use gno_watchtower.Sentinel.App.Lines.Conserved.{Conserved, payloads, run-Conserved, run-finished}

abbrev encode : ℕ → Option Encoded
encode n = some (record { uncompressed = n; wire = n })

abbrev transport : Transport
transport = record {
  attempt = λ n i. answered;
  cut_backoff = λ n i. false;
  cut_after = λ n i. false;
  done = λ n. false;
}

abbrev events : List (Event ℕ)
events =
    emit 1
    ∷ emit 2
    ∷ receive
    ∷ push_hand
    ∷ emit 3
    ∷ receive
    ∷ push_hand
    ∷ receive
    ∷ push_hand
    ∷ tick transport
    ∷ emit 4
    ∷ receive
    ∷ push_hand
    ∷ []

run-Conserved_example : Conserved 2 (run encode "rpc" "rpc" 2 events (start 2 []))
run-Conserved_example = run-Conserved encode "rpc" "rpc" 2 events [] (omega arith)

open_loop : (run encode "rpc" "rpc" 2 events (start 2 [])).drained ≡ false
unfolding run step flush_line wire_buffered push rest_of flush drain flush_items send retry loop
    settle add add_drop lookup insert
open_loop = refl

quiet : (run encode "rpc" "rpc" 2 events (start 2 [])).channel ≡ []
unfolding run step flush_line wire_buffered push rest_of flush drain flush_items send retry loop
    settle add add_drop lookup insert
quiet = refl

idle : (run encode "rpc" "rpc" 2 events (start 2 [])).hand ≡ none
unfolding run step flush_line wire_buffered push rest_of flush drain flush_items send retry loop
    settle add add_drop lookup insert
idle = refl

run-finished_example :
    let s = run encode "rpc" "rpc" 2 events (start 2 []) in
    payloads (step encode "rpc" "rpc" 2 (finish transport) s).gone ≡ s.emitted
run-finished_example =
    run-finished encode "rpc" "rpc" 2 events transport [] (omega arith) open_loop quiet idle

all_exits :
    (run encode "rpc" "rpc" 2
      (emit 1
        ∷ receive
        ∷ push_hand
        ∷ emit 2
        ∷ receive
        ∷ push_hand
        ∷ emit 3
        ∷ receive
        ∷ push_hand
        ∷ finish transport
        ∷ [])
      (start 2 [])).gone
    ≡ (1, overflowed) ∷ (2, flushed is_sent) ∷ (3, flushed is_sent) ∷ []
unfolding run step flush_line wire_buffered push rest_of flush drain flush_items send retry loop
    settle add add_drop lookup insert
all_exits = refl

-- A payload that was received before the last flush and is pushed behind it stays in the buffer.
in_hand-lost :
    let s =
      run encode "logs" "logs" 2
        (emit 7 ∷ receive ∷ finish transport ∷ push_hand ∷ tick transport ∷ [])
        (start 2 []) in
    (s.gone ≡ []) × (s.buffer.items ≡ 7 ∷ [])
unfolding run step flush_line wire_buffered push rest_of flush drain flush_items send retry loop
    settle add add_drop lookup insert
in_hand-lost = (refl, refl)

-- A payload that is emitted once the context has ended stays in the buffer.
late-lost :
    let s =
      run encode "logs" "logs" 2
        (finish transport ∷ emit 7 ∷ receive ∷ push_hand ∷ tick transport ∷ [])
        (start 2 []) in
    (s.gone ≡ []) × (s.buffer.items ≡ 7 ∷ [])
unfolding run step flush_line wire_buffered push rest_of flush drain flush_items send retry loop
    settle add add_drop lookup insert
late-lost = (refl, refl)
