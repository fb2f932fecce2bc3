-- ===== src/Sentinel/App/Examples.antt =====
-- Two payloads: the first is sent at its second attempt, the second is limited, and then sent.
use gno_watchtower.Base.{
  ℕ, zero, suc, Bool, false, Option, some, none, [], ◌∷◌, lookup, insert, pos, ◌≡◌, refl, arith,
}
use gno_watchtower.Sentinel.Buffer.{Buffer, drain, push}
use gno_watchtower.Sentinel.Retry.{Attempt, sent as answered, failed, limited, retry, loop, settle}
use gno_watchtower.Sentinel.Stats.{add, add_drop, run, step}
use gno_watchtower.Sentinel.App.{
  Encoded, Transport, is_sent, is_dropped, is_unencodable, send, flush_items, flush, lose,
  wire_buffered,
}
use gno_watchtower.Sentinel.App.Flushes.{ops_of, Deliverable, flush-all_sent}

program : Unit {0}
unfolding lookup insert drain push retry loop settle add add_drop run step send flush_items flush
    lose wire_buffered ops_of
program = tt

-- A payload is its size, and one of size 0 has no JSON.
abbrev encode : ℕ → Option Encoded
encode zero = none
encode (suc n) = some (record { uncompressed = suc n; wire = suc n })

abbrev second_time : ℕ → ℕ → Attempt
second_time zero zero = failed
second_time (suc n) zero = limited (pos 5)
second_time n (suc i) = answered

abbrev never : ℕ → ℕ → Bool
never n i = false

abbrev open_ended : ℕ → Bool
open_ended n = false

abbrev transport : Transport
transport = record {
  attempt = second_time;
  cut_backoff = never;
  cut_after = never;
  done = open_ended;
}

abbrev refusing : ℕ → ℕ → Attempt
refusing n i = failed

abbrev buffer : Buffer ℕ
buffer = record { items = 7 ∷ 9 ∷ []; max_size = 300 }

fates_sent : (flush encode "rpc" transport buffer []).1.fates ≡ is_sent ∷ is_sent ∷ []
unfolding program
fates_sent = refl

fates_dropped :
    (flush encode "rpc"
      (record transport { attempt = refusing })
      (record buffer { items = 7 ∷ 0 ∷ [] })
      []).1.fates
    ≡ is_dropped ∷ is_unencodable ∷ []
unfolding program
fates_dropped = refl

deliverable : Deliverable encode "rpc" transport 0 (7 ∷ 9 ∷ [])
deliverable = (
  (record { uncompressed = 7; wire = 7 }, refl),
  (1, omega arith, refl),
  ((record { uncompressed = 9; wire = 9 }, refl), (1, omega arith, refl), tt),
)

flush-all_sent_example :
    let (after, r) = flush encode "rpc" transport buffer [] in
    (after.items ≡ [])
    × (r.fates ≡ is_sent ∷ is_sent ∷ [])
    × (r.stats ≡ run (ops_of encode "rpc" transport (7 ∷ 9 ∷ []) (is_sent ∷ is_sent ∷ [])) [])
flush-all_sent_example =
    flush-all_sent encode "rpc" transport buffer [] (λ n i. refl) (λ n i. refl) deliverable
