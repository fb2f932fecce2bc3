-- ===== src/Sentinel/Logs.antt =====
-- internal/sentinel/logs/collector.go, the loop of `Run`: lines filtered by level, gathered by level,
-- and flushed as payloads; and `LevelRank` of pkg/logger/logger.go. The goroutine that reads the
-- source and the timers are the sequence of events.
pub mod Batches
pub mod Source
mod Examples
use gno_watchtower.Base.{
  ℕ, zero, suc, ◌+◌, String, Bool, true, false, Option, none, some, List, [], ◌∷◌, ◌++◌, Assoc,
  lookup, insert, str_eq, ltb, leb, take, if◌then◌else◌,
}

unfoldable pub level_rank : String → ℕ
level_rank level =
    if str_eq level "debug"
    then 0
    else if str_eq level "info"
    then 1
    else if str_eq level "warn"
    then 2
    else if str_eq level "error"
    then 3
    else 1

-- `protocol.LogPayload`
pub record LogPayload : Type 0 where
  pub level : String
  pub lines : List String

-- The variables of `Run`, and the payloads that went into `out`. `total_bytes` stays below the batch
-- size between events, so that it does not overflow.
pub record Batch : Type 0 where
  pub accumulated : Assoc (List String)
  pub total_bytes : ℕ
  pub out : List LogPayload

abbrev pub empty_batch : Batch
empty_batch = record { accumulated = []; total_bytes = 0; out = [] }

abbrev pub or_nil : Option (List String) → List String
or_nil none = []
or_nil (some lines) = lines

-- One payload for each level.
unfoldable pub payloads : Assoc (List String) → List LogPayload
payloads [] = []
payloads ((level, lines) ∷ rest) = record { level = level; lines = lines } ∷ payloads rest

-- `flush`: it sends every payload and resets, or the context ends behind some of the sends, and it
-- returns at once.
unfoldable pub flush : Option ℕ → Batch → Batch
unfolding payloads
flush none b = record { accumulated = []; total_bytes = 0; out = b.out ++ payloads b.accumulated }
flush (some sends) b = record b { out = b.out ++ take sends (payloads b.accumulated) }

-- What `select` takes, with how a flush would go.
pub data Event : Type 0 where
  line : String → String → Option ℕ → Event
  tick : Option ℕ → Event
  done : Option ℕ → Event

module _ (size : String → ℕ) (min_level batch_size : ℕ) where
  unfoldable pub accumulate : String → String → Batch → Batch
  accumulate level raw b = record b {
    accumulated = insert level (or_nil (lookup level b.accumulated) ++ raw ∷ []) b.accumulated;
    total_bytes = b.total_bytes + size raw;
  }

  abbrev pub flush_if_full : Option ℕ → Batch → Batch
  flush_if_full cut b = if leb batch_size b.total_bytes then flush cut b else b

  unfoldable pub step : Event → Batch → Batch
  step (line level raw cut) b =
      if ltb (level_rank level) min_level then b else flush_if_full cut (accumulate level raw b)
  step (tick cut) b = flush cut b
  step (done cut) b = flush cut b

  unfoldable pub run : List Event → Batch → Batch
  run [] b = b
  run (e ∷ events) b = run events (step e b)
