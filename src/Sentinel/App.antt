-- ===== src/Sentinel/App.antt =====
-- internal/sentinel/app/run.go: what lies between a collector and the watchtower. A collector's payloads
-- go through a bounded buffer (Buffer), which each tick and the end of Run flush: every payload is sent
-- with up to five attempts (Retry), and counted (Stats). The encoding of a payload and the
-- transport are parameters; the log lines are left out.
pub mod Flushes
pub mod Lines
mod Examples
use gno_watchtower.Base.{
  ℕ, zero, suc, ◌+◌, String, Bool, true, false, Option, none, some, List, [], ◌∷◌, ◌++◌, Assoc, ℤ,
  pos, if◌then◌else◌,
}
use gno_watchtower.Sentinel.Buffer.{Buffer, push, drain}
use gno_watchtower.Sentinel.Retry.{Attempt, Ending, delivered, cancelled, exhausted, second, retry}
use gno_watchtower.Sentinel.Stats.{Entry, add, add_drop}

abbrev pub max_send_attempts : ℕ
max_send_attempts = 5

abbrev pub initial_backoff : ℤ
initial_backoff = second

-- What becomes of a payload that was drained: it is sent, it has no JSON, it is dropped behind its last
-- attempt, or the context ended before it was sent.
pub data Fate : Type 0 where
  is_sent is_unencodable is_dropped is_lost : Fate

-- A payload with the bytes of its JSON and those on the wire, which differ for logs.
pub record Encoded : Type 0 where
  pub uncompressed : ℕ
  pub wire : ℕ

-- What the transport and the context do to the n-th payload of a flush: its attempts, the waits that the
-- context cuts short, and whether the context has ended behind them.
pub record Transport : Type 0 where
  pub attempt : ℕ → ℕ → Attempt
  pub cut_backoff : ℕ → ℕ → Bool
  pub cut_after : ℕ → ℕ → Bool
  pub done : ℕ → Bool

-- `SendRawWithRetry`, for the n-th payload.
unfoldable pub send : Transport → ℕ → Ending
send t n =
    (retry (t.attempt n) (t.cut_backoff n) (t.cut_after n) max_send_attempts initial_backoff).1

-- The statistics behind a flush, and the fates of the payloads, in order.
pub record Flushed : Type 0 where
  pub stats : Assoc Entry
  pub fates : List Fate

abbrev pub with_fate : Fate → Flushed → Flushed
with_fate f r = record r { fates = f ∷ r.fates }

module _ {ℓ} {A : Type ℓ} (encode : A → Option Encoded) (typ : String) (t : Transport) where
  unfoldable pub lose : List A → List Fate
  lose [] = []
  lose (p ∷ ps) = is_lost ∷ lose ps

  -- Behind the send of a payload; `next` is the rest of the loop.
  abbrev pub after_send :
      Ending → Bool → Encoded → List A → (Assoc Entry → Flushed) → Assoc Entry → Flushed
  after_send delivered done e rest next st =
      with_fate is_sent (next (add typ e.uncompressed e.wire st))
  after_send cancelled true e rest next st = record { stats = st; fates = is_lost ∷ lose rest }
  after_send cancelled false e rest next st =
      with_fate is_dropped (next (add_drop typ "retry_exhausted" st))
  after_send (exhausted last) true e rest next st = record {
    stats = st;
    fates = is_lost ∷ lose rest;
  }
  after_send (exhausted last) false e rest next st =
      with_fate is_dropped (next (add_drop typ "retry_exhausted" st))

  abbrev pub after_encode :
      Option Encoded → ℕ → List A → (Assoc Entry → Flushed) → Assoc Entry → Flushed
  after_encode none n rest next st = with_fate is_unencodable (next st)
  after_encode (some e) n rest next st = after_send (send t n) (t.done n) e rest next st

  -- The loop of `flush`, `flushLogs` and `flushMetrics`, from the n-th payload on.
  unfoldable pub flush_items : ℕ → List A → Assoc Entry → Flushed
  flush_items n [] st = record { stats = st; fates = [] }
  flush_items n (p ∷ ps) st = after_encode (encode p) n ps (flush_items (suc n) ps) st

  unfoldable pub flush : Buffer A → Assoc Entry → Buffer A × Flushed
  flush b st = let (b', items) = drain b in (b', flush_items 0 items st)

-- One round of `wireBuffered`.
unfoldable pub wire_buffered {ℓ} :
    {A : Type ℓ} → String → Buffer A → A → Assoc Entry → Buffer A × Assoc Entry
wire_buffered name b p st =
    let (b', dropped) = push b p in (b', if dropped then add_drop name "buffer_full" st else st)
