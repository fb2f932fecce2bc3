-- ===== src/Sentinel/App/Lines.antt =====
-- internal/sentinel/app/run.go: `Run`, for one collector: its channel, the goroutine that receives payloads
-- and pushes them into the buffer, the ticks that flush it, and the last flush once the context has ended. The other
-- collectors touch only the shared statistics.
pub mod Conserved
mod Examples
use gno_watchtower.Base.{
  ℕ, String, Bool, true, false, Option, none, some, List, [], ◌∷◌, ◌++◌, Assoc, ltb, leb, length,
  if◌then◌else◌,
}
use gno_watchtower.Sentinel.Buffer.{Buffer, push}
use gno_watchtower.Sentinel.Stats.{Entry}
use gno_watchtower.Sentinel.App.{Fate, Encoded, Transport, Flushed, flush, wire_buffered}

abbrev pub rpc_buffer_size : ℕ
rpc_buffer_size = 300

abbrev pub logs_buffer_size : ℕ
logs_buffer_size = 500

abbrev pub resources_buffer_size : ℕ
resources_buffer_size = 20

abbrev pub metadata_buffer_size : ℕ
metadata_buffer_size = 10

abbrev pub self_buffer_size : ℕ
self_buffer_size = 5

-- How a payload left: it was the oldest in a full buffer, or it was flushed.
pub data Exit : Type 0 where
  overflowed : Exit
  flushed : Fate → Exit

-- The state. `emitted` and `gone` record what the collector has sent into the channel, and what has left
-- the buffer, both in order.
pub record Line {ℓ} (A : Type ℓ) : Type ℓ where
  pub channel : List A
  pub hand : Option A  -- received by the goroutine of wireBuffered, and not pushed yet
  pub buffer : Buffer A
  pub stats : Assoc Entry
  pub drained : Bool  -- behind the loop of Run
  pub emitted : List A
  pub gone : List (A × Exit)

-- The channel and the buffer of a collector have the same size.
abbrev pub start {ℓ} : {A : Type ℓ} → ℕ → Assoc Entry → Line A
start size st = record {
  channel = [];
  hand = none;
  buffer = record { items = []; max_size = size };
  stats = st;
  drained = false;
  emitted = [];
  gone = [];
}

-- What happens: the collector sends a payload, the goroutine receives one or pushes the one it
-- has received, a tick of the loop, the end of
-- the context with the last flush, and a change of the statistics by another goroutine.
pub data Event {ℓ} (A : Type ℓ) : Type ℓ where
  emit : A → Event A
  receive push_hand : Event A
  tick finish : Transport → Event A
  others : (Assoc Entry → Assoc Entry) → Event A

-- The oldest payload, where the buffer is full.
abbrev pub overflow {ℓ} : {A : Type ℓ} → Bool → List A → List (A × Exit)
overflow true (x ∷ xs) = (x, overflowed) ∷ []
overflow _ _ = []

abbrev pub exits {ℓ} : {A : Type ℓ} → List A → List Fate → List (A × Exit)
exits (x ∷ xs) (f ∷ fs) = (x, flushed f) ∷ exits xs fs
exits _ _ = []

-- `name` is what overflows are counted under, and `typ` what sends are.
module _ {ℓ} {A : Type ℓ} (encode : A → Option Encoded) (name typ : String) (size : ℕ) where
  -- The receive of `wireBuffered`: its goroutine is there again only once it has pushed what it has.
  abbrev pub receive_first : Option A → List A → Line A → Line A
  receive_first none (p ∷ ps) s = record s { channel = ps; hand = some p }
  receive_first _ _ s = s

  abbrev pub push_received : Option A → Line A → Line A
  push_received none s = s
  push_received (some p) s =
      let (b, st) = wire_buffered name s.buffer p s.stats in
      record s {
        hand = none;
        buffer = b;
        stats = st;
        gone = s.gone ++ overflow (leb s.buffer.max_size (length s.buffer.items)) s.buffer.items;
      }

  unfoldable pub flush_line : Transport → Line A → Line A
  flush_line t s =
      let (b, r) = flush encode typ t s.buffer s.stats in
      record s { buffer = b; stats = r.stats; gone = s.gone ++ exits s.buffer.items r.fates }

  -- A collector waits where its channel is full.
  unfoldable pub step : Event A → Line A → Line A
  step (emit p) s =
      if ltb (length s.channel) size
      then record s { channel = s.channel ++ p ∷ []; emitted = s.emitted ++ p ∷ [] }
      else s
  step receive s = receive_first s.hand s.channel s
  step push_hand s = push_received s.hand s
  step (tick t) s = if s.drained then s else flush_line t s
  step (finish t) s = if s.drained then s else record (flush_line t s) { drained = true }
  step (others f) s = record s { stats = f s.stats }

  unfoldable pub run : List (Event A) → Line A → Line A
  run [] s = s
  run (e ∷ es) s = run es (step e s)
