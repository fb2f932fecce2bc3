-- ===== src/Sentinel/Otlp/Examples.antt =====
-- Three exports into a channel of one place, and a receive.
use gno_watchtower.Base.{
  ℕ, String, Bool, true, false, Option, none, some, List, [], ◌∷◌, length, ◌≡◌, refl,
}
use gno_watchtower.Sentinel.Otlp.{
  Metric, Export, Bytes, Request, idle, Event, metrics, traces, receive, is_denied, filter_denied,
  filter_scopes, filter_metrics, hand_off, read_all, read_body, handle_metrics, run,
}
use gno_watchtower.Sentinel.Otlp.Relayed.{Accounted, run-Accounted}

abbrev metric : String → Metric ℕ
metric name = record { name = name; rest = 0 }

abbrev message : Export ℕ ℕ ℕ
message =
    record {
      resource = 0;
      scope_metrics =
          record { scope = 0; metrics = metric "block_txs_hist" ∷ metric "rpc_time" ∷ [] } ∷ [];
    }
    ∷ []

abbrev gunzip : Bytes → Bool → Option (Bytes × Bool)
gunzip bytes whole = none

abbrev unmarshal : Bytes → Option (Export ℕ ℕ ℕ)
unmarshal [] = none
unmarshal (b ∷ bs) = some message

abbrev count_metrics : Export ℕ ℕ ℕ → ℕ
count_metrics [] = 0
count_metrics (rm ∷ rms) = elim rm.scope_metrics [ [] ↦ 0 | sm ∷ rest ↦ length sm.metrics ]

abbrev marshal : Export ℕ ℕ ℕ → Option Bytes
marshal msg = some (count_metrics msg ∷ [])

abbrev plain : Bytes → Request
plain bytes = record { gzip = false; body = bytes; whole = true }

abbrev events : List Event
events =
    metrics (plain (1 ∷ []))
    ∷ metrics (plain (2 ∷ []))
    ∷ receive
    ∷ metrics (plain [])
    ∷ traces (plain [])
    ∷ metrics (plain (3 ∷ []))
    ∷ []

run-Accounted_example :
    let (oks, s) = run gunzip unmarshal marshal 1 events 0 idle in
    Accounted gunzip unmarshal marshal 1 oks s
run-Accounted_example = run-Accounted gunzip unmarshal marshal 1 events

one-dropped :
    run gunzip unmarshal marshal 1 events 0 idle
    ≡ (3, record { out = (1 ∷ []) ∷ []; taken = (1 ∷ []) ∷ []; drops = 1 })
unfolding run handle_metrics read_body read_all hand_off filter_denied filter_scopes filter_metrics
    is_denied
one-dropped = refl
