-- ===== src/Sentinel/Rpc/Examples.antt =====
-- A node that stays at height 7 for two polls and then reaches 8. The toy hash is the text itself.
use gno_watchtower.Base.{
  ℕ, String, Option, none, some, List, [], ◌∷◌, lookup, insert, ℤ, pos, str_eq, if◌then◌else◌, ◌≡◌,
  refl,
}
use gno_watchtower.Sentinel.Delta.{changed}
use gno_watchtower.Sentinel.Rpc.{
  Collector, Intervals, Answers, put, put_changed, poll_endpoints, dump_state, new_block,
  check_block, resend_validators, send_genesis, collect, blocks,
}
use gno_watchtower.Sentinel.Rpc.Ticks.{collect-block}
use gno_watchtower.Sentinel.Rpc.Heights.{Rising, blocks-Rising}

abbrev id : String → String
id s = s

abbrev height : String → ℤ
height s = if str_eq s "seven" then pos 7 else if str_eq s "eight" then pos 8 else pos 0

abbrev every : Intervals
every = record { dump = 100; genesis_refresh = 1000; validators_refresh = 50 }

abbrev start : Collector String
start = record {
  hashes = [];
  last_height = pos 0;
  last_dump = 0;
  last_genesis_sent_at = 0;
  last_validators_sent_at = 0;
  genesis_failed = 0;
}

abbrev answers : String → Option String → Answers
answers status block = record {
  status = some status;
  net_info = some "net";
  num_unconfirmed_txs = some "0";
  dump = none;
  validators = λ h. some "vals";
  block = λ h. block;
  validators_again = λ h. some "vals";
  genesis = some "genesis";
}

abbrev ticks : List (ℕ × Answers)
ticks =
    (10, answers "seven" (some "b7"))
    ∷ (20, answers "seven" (some "b7"))
    ∷ (30, answers "eight" (some "b8"))
    ∷ []

program : Unit {0}
unfolding collect put put_changed poll_endpoints dump_state new_block check_block resend_validators
    send_genesis changed lookup insert blocks
program = tt

sends : blocks id str_eq "" height every start ticks ≡ (pos 7, "b7") ∷ (pos 8, "b8") ∷ []
unfolding program
sends = refl

blocks-Rising_example : Rising (pos 0) (blocks id str_eq "" height every start ticks)
blocks-Rising_example = blocks-Rising id str_eq "" height every ticks start

collect-block_example :
    (lookup "block" (collect id str_eq "" height every start 10 (answers "seven" none)).payload
      ≡ none)
    × ((collect id str_eq "" height every start 10 (answers "seven" none)).collector.last_height
        ≡ pos 7)
collect-block_example = collect-block id str_eq "" height every start 10 (answers "seven" none)
