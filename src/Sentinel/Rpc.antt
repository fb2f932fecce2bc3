-- ===== src/Sentinel/Rpc.antt =====
-- internal/sentinel/rpc/collector.go: one poll of the node, `collect`. Its answers are a parameter of
-- the tick, and so are SHA-256 and the height that the JSON of a status holds, which is not positive
-- where it holds none. A tick reads the clock once.
pub mod Ticks
pub mod Heights
mod Examples
use gno_watchtower.Base.{
  ℕ, zero, suc, ◌+◌, ◌-◌, ◌^◌, min, String, Bool, true, false, Option, none, some, List, [], ◌∷◌,
  Assoc, lookup, insert, ℤ, pos, negsuc, ltz, ltb, leb, ◌==◌, ◌&&◌, ◌||◌, not, if◌then◌else◌,
}
use gno_watchtower.Sentinel.Delta.{changed}

-- The fields that change; instants are nanoseconds after Go's zero time.
pub record Collector (H : Type 0) : Type 0 where
  pub hashes : Assoc H
  pub last_height : ℤ
  pub last_dump : ℕ
  pub last_genesis_sent_at : ℕ
  pub last_validators_sent_at : ℕ
  pub genesis_failed : ℕ

pub record Intervals : Type 0 where
  pub dump : ℕ
  pub genesis_refresh : ℕ
  pub validators_refresh : ℕ

-- What the calls of one tick return, `none` for an error; the second call for the validators may
-- differ from the first.
pub record Answers : Type 0 where
  pub status : Option String
  pub net_info : Option String
  pub num_unconfirmed_txs : Option String
  pub dump : Option String
  pub validators : ℤ → Option String
  pub block : ℤ → Option String
  pub validators_again : ℤ → Option String
  pub genesis : Option String

-- The collector with the payload's data.
pub record Poll (H : Type 0) : Type 0 where
  pub collector : Collector H
  pub payload : Assoc String

-- `time.Since`, which saturates.
abbrev pub since : ℕ → ℕ → ℕ
since now t = min (now - t) (2 ^ 63 - 1)

abbrev pub is_some : Option String → Bool
is_some none = false
is_some (some raw) = true

-- Go's zero where the call fails or the JSON does not parse.
abbrev pub height_of : (String → ℤ) → Option String → ℤ
height_of height none = pos 0
height_of height (some raw) = height raw

abbrev pub reachable : Answers → Bool
reachable a = is_some a.status || is_some a.net_info || is_some a.num_unconfirmed_txs

module _ {H : Type 0} (hash : String → H) (same : H → H → Bool) (zero_hash : H)
    (height : String → ℤ) (every : Intervals) where
  unfoldable pub put : String → String → Poll H → Poll H
  put key raw p = record p { payload = insert key raw p.payload }

  abbrev pub keep_change : String → String → Poll H → Assoc H × Bool → Poll H
  keep_change key raw p (hashes, true) =
      put key raw (record p { collector = record p.collector { hashes = hashes } })
  keep_change key raw p (hashes, false) = record p {
    collector = record p.collector { hashes = hashes };
  }

  -- `if c.delta.Changed(key, raw) { payload.Data[key] = raw }`
  unfoldable pub put_changed : String → String → Poll H → Poll H
  put_changed key raw p =
      keep_change key raw p (changed hash same zero_hash p.collector.hashes key raw)

  abbrev pub poll_changed : String → Option String → Poll H → Poll H
  poll_changed key none p = p
  poll_changed key (some raw) p = put_changed key raw p

  abbrev pub poll_always : String → Option String → Poll H → Poll H
  poll_always key none p = p
  poll_always key (some raw) p = put key raw p

  -- The loop over the polled endpoints.
  unfoldable pub poll_endpoints : Answers → Poll H → Poll H
  poll_endpoints a p =
      poll_always "num_unconfirmed_txs" a.num_unconfirmed_txs
        (poll_changed "net_info" a.net_info (poll_changed "status" a.status p))

  abbrev pub dumped : ℕ → Option String → Poll H → Poll H
  dumped now none p = p
  dumped now (some raw) p =
      let p' = put_changed "dump_consensus_state" raw p in
      record p' { collector = record p'.collector { last_dump = now } }

  unfoldable pub dump_state : ℕ → Answers → Poll H → Poll H
  dump_state now a p =
      if leb every.dump (since now p.collector.last_dump) then dumped now a.dump p else p

  abbrev pub mark_validators : ℕ → Poll H → Poll H
  mark_validators now p = record p {
    collector = record p.collector { last_validators_sent_at = now };
  }

  abbrev pub keep_validators : ℕ → String → Poll H → Assoc H × Bool → Poll H
  keep_validators now raw p (hashes, true) =
      mark_validators now (keep_change "validators" raw p (hashes, true))
  keep_validators now raw p (hashes, false) = keep_change "validators" raw p (hashes, false)

  abbrev pub new_validators : ℕ → Option String → Poll H → Poll H
  new_validators now none p = p
  new_validators now (some raw) p =
      keep_validators now raw p (changed hash same zero_hash p.collector.hashes "validators" raw)

  unfoldable pub new_block : ℕ → Answers → ℤ → Poll H → Poll H
  new_block now a h p = poll_always "block" (a.block h) (
      new_validators now (a.validators h)
        (record p { collector = record p.collector { last_height = h } }))

  unfoldable pub check_block : ℕ → Answers → ℤ → Poll H → Poll H
  check_block now a h p =
      if ltz p.collector.last_height h && ltz (pos 0) h then new_block now a h p else p

  abbrev pub again : ℕ → Option String → Poll H → Poll H
  again now none p = p
  again now (some raw) p = mark_validators now (put "validators" raw p)

  -- The periodic re-emit of the validators.
  unfoldable pub resend_validators : ℕ → Answers → Poll H → Poll H
  resend_validators now a p =
      if not (is_some (lookup "validators" p.payload))
        && ltz (pos 0) p.collector.last_height
        && leb every.validators_refresh (since now p.collector.last_validators_sent_at)
      then again now (a.validators_again p.collector.last_height) p
      else p

  abbrev pub sent_genesis : ℕ → Option String → Poll H → Poll H
  sent_genesis now none p = record p {
    collector = record p.collector { genesis_failed = p.collector.genesis_failed + 1 };
  }
  sent_genesis now (some raw) p =
      let p' = put "genesis" raw p in
      record p' {
        collector = record p'.collector { last_genesis_sent_at = now; genesis_failed = 0 };
      }

  unfoldable pub send_genesis : ℕ → Answers → Poll H → Poll H
  send_genesis now a p =
      if p.collector.last_genesis_sent_at == 0
        || leb every.genesis_refresh (since now p.collector.last_genesis_sent_at)
      then sent_genesis now a.genesis p
      else p

  -- `collect`: the collector after the tick, and the payload that it sends.
  unfoldable pub collect : Collector H → ℕ → Answers → Poll H
  collect c now a = put "rpc_reachable" (if reachable a then "1" else "0") (
      send_genesis now a (
        resend_validators now a (
          check_block now a (height_of height a.status)
            (dump_state now a (poll_endpoints a (record { collector = c; payload = [] }))))))

  -- A list of ticks: for each, its height and its block if its payload has one.
  unfoldable pub blocks : Collector H → List (ℕ × Answers) → List (ℤ × String)
  blocks c [] = []
  blocks c ((now, a) ∷ ticks) =
      let p = collect c now a in
      let rest = blocks p.collector ticks in
      elim (lookup "block" p.payload) [
        | none ↦ rest
        | some raw ↦ (height_of height a.status, raw) ∷ rest
      ]
