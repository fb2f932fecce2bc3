-- ===== src/Sentinel/Rpc/Ticks.antt =====
-- What one tick puts into its payload, and what it leaves in the collector.
use gno_watchtower.Base.{
  ℕ, String, Bool, true, false, Option, none, some, [], Assoc, lookup, lookup-insert, str_eq, ℤ,
  pos, ltz, ◌&&◌, if◌then◌else◌, ◌≡◌, refl, ap, ◌∙◌,
}
use gno_watchtower.Sentinel.Delta.{changed}
use gno_watchtower.Sentinel.Rpc.{
  Collector, Intervals, Answers, Poll, height_of, put, keep_change, put_changed, poll_changed,
  poll_always, poll_endpoints, dumped, dump_state, keep_validators, new_validators, new_block,
  check_block, again, resend_validators, sent_genesis, send_genesis, reachable, collect,
}

module _ {H : Type 0} (hash : String → H) (same : H → H → Bool) (zero_hash : H)
    (height : String → ℤ) (every : Intervals) where
  -- A stage that leaves a key of the payload alone, and the height.
  record Kept (k : String) (p q : Poll H) : Type 0 where
    at_key : lookup k q.payload ≡ lookup k p.payload
    height_at : q.collector.last_height ≡ p.collector.last_height

  Kept-trans : (k : String) (p q r : Poll H) → Kept k p q → Kept k q r → Kept k p r
  Kept-trans k p q r h g = record {
    at_key = g.at_key ∙ h.at_key;
    height_at = g.height_at ∙ h.height_at;
  }

  Kept-refl : (k : String) (p : Poll H) → Kept k p p
  Kept-refl k p = record { at_key = refl; height_at = refl }

  put-Kept :
      (k key raw : String) (p : Poll H)
      → str_eq key k ≡ false
      → Kept k p (put hash same zero_hash height every key raw p)
  unfolding put
  put-Kept k key raw p ne = record {
    at_key = lookup-insert key k raw p.payload ∙ rw ne refl;
    height_at = refl;
  }

  keep_change-Kept :
      (k key raw : String) (p : Poll H) (result : Assoc H × Bool)
      → str_eq key k ≡ false
      → Kept k p (keep_change hash same zero_hash height every key raw p result)
  keep_change-Kept k key raw p (hashes, false) ne = record { at_key = refl; height_at = refl }
  keep_change-Kept k key raw p (hashes, true) ne =
      let kept =
        put-Kept k key raw (record p { collector = record p.collector { hashes = hashes } }) ne in
      record { at_key = kept.at_key; height_at = kept.height_at }

  poll_changed-Kept :
      (k key : String) (answer : Option String) (p : Poll H)
      → str_eq key k ≡ false
      → Kept k p (poll_changed hash same zero_hash height every key answer p)
  unfolding put_changed
  poll_changed-Kept k key none p ne = Kept-refl k p
  poll_changed-Kept k key (some raw) p ne =
      keep_change-Kept k key raw p (changed hash same zero_hash p.collector.hashes key raw) ne

  poll_always-Kept :
      (k key : String) (answer : Option String) (p : Poll H)
      → str_eq key k ≡ false
      → Kept k p (poll_always hash same zero_hash height every key answer p)
  poll_always-Kept k key none p ne = Kept-refl k p
  poll_always-Kept k key (some raw) p ne = put-Kept k key raw p ne

  if-Kept : (k : String) (b : Bool) (p q : Poll H) → Kept k p q → Kept k p (if b then q else p)
  if-Kept k true p q h = h
  if-Kept k false p q h = Kept-refl k p

  dumped-Kept :
      (k : String) (now : ℕ) (answer : Option String) (p : Poll H)
      → str_eq "dump_consensus_state" k ≡ false
      → Kept k p (dumped hash same zero_hash height every now answer p)
  dumped-Kept k now none p ne = Kept-refl k p
  dumped-Kept k now (some raw) p ne =
      let kept = poll_changed-Kept k "dump_consensus_state" (some raw) p ne in
      record { at_key = kept.at_key; height_at = kept.height_at }

  dump_state-Kept :
      (k : String) (now : ℕ) (a : Answers) (p : Poll H)
      → str_eq "dump_consensus_state" k ≡ false
      → Kept k p (dump_state hash same zero_hash height every now a p)
  unfolding dump_state
  dump_state-Kept k now a p ne = if-Kept k _ p _ (dumped-Kept k now a.dump p ne)

  poll_endpoints-Kept :
      (a : Answers) (p : Poll H)
      → Kept "block" p (poll_endpoints hash same zero_hash height every a p)
  unfolding poll_endpoints
  poll_endpoints-Kept a p =
      let q = poll_changed hash same zero_hash height every "status" a.status p in
      let r = poll_changed hash same zero_hash height every "net_info" a.net_info q in
      Kept-trans "block" p q _ (poll_changed-Kept "block" "status" a.status p refl) (
        Kept-trans "block" q r _ (poll_changed-Kept "block" "net_info" a.net_info q refl)
          (poll_always-Kept "block" "num_unconfirmed_txs" a.num_unconfirmed_txs r refl))

  again-Kept :
      (now : ℕ) (answer : Option String) (p : Poll H)
      → Kept "block" p (again hash same zero_hash height every now answer p)
  again-Kept now none p = Kept-refl "block" p
  again-Kept now (some raw) p =
      let kept = put-Kept "block" "validators" raw p refl in
      record { at_key = kept.at_key; height_at = kept.height_at }

  resend_validators-Kept :
      (now : ℕ) (a : Answers) (p : Poll H)
      → Kept "block" p (resend_validators hash same zero_hash height every now a p)
  unfolding resend_validators
  resend_validators-Kept now a p = if-Kept "block" _ p _ (again-Kept now _ p)

  sent_genesis-Kept :
      (now : ℕ) (answer : Option String) (p : Poll H)
      → Kept "block" p (sent_genesis hash same zero_hash height every now answer p)
  sent_genesis-Kept now none p = record { at_key = refl; height_at = refl }
  sent_genesis-Kept now (some raw) p =
      let kept = put-Kept "block" "genesis" raw p refl in
      record { at_key = kept.at_key; height_at = kept.height_at }

  send_genesis-Kept :
      (now : ℕ) (a : Answers) (p : Poll H)
      → Kept "block" p (send_genesis hash same zero_hash height every now a p)
  unfolding send_genesis
  send_genesis-Kept now a p = if-Kept "block" _ p _ (sent_genesis-Kept now a.genesis p)

  keep_validators-Kept :
      (now : ℕ) (raw : String) (p : Poll H) (result : Assoc H × Bool)
      → Kept "block" p (keep_validators hash same zero_hash height every now raw p result)
  keep_validators-Kept now raw p (hashes, true) =
      let kept = keep_change-Kept "block" "validators" raw p (hashes, true) refl in
      record { at_key = kept.at_key; height_at = kept.height_at }
  keep_validators-Kept now raw p (hashes, false) = record { at_key = refl; height_at = refl }

  new_validators-Kept :
      (now : ℕ) (answer : Option String) (p : Poll H)
      → Kept "block" p (new_validators hash same zero_hash height every now answer p)
  new_validators-Kept now none p = Kept-refl "block" p
  new_validators-Kept now (some raw) p =
      keep_validators-Kept now raw p
        (changed hash same zero_hash p.collector.hashes "validators" raw)

  -- A height that is new to the collector.
  abbrev pub is_new : Collector H → Answers → Bool
  is_new c a =
      ltz c.last_height (height_of height a.status) && ltz (pos 0) (height_of height a.status)

  -- What a poll leaves for the block of a height that is new or not.
  abbrev Outcome : Bool → ℤ → Option String → Poll H → Poll H → Type 0
  Outcome new h answer p q =
      (lookup "block" q.payload ≡ (if new then answer else none))
      × (q.collector.last_height ≡ (if new then h else p.collector.last_height))

  block-Outcome :
      (h : ℤ) (answer : Option String) (p q : Poll H)
      → lookup "block" q.payload ≡ none
      → q.collector.last_height ≡ h
      → Outcome true h answer p (poll_always hash same zero_hash height every "block" answer q)
  unfolding put
  block-Outcome h none p q e at = (e, at)
  block-Outcome h (some raw) p q e at = (lookup-insert "block" "block" raw q.payload, at)

  check_block-Outcome :
      (now : ℕ) (a : Answers) (h : ℤ) (new : Bool) (p : Poll H)
      → lookup "block" p.payload ≡ none
      → Outcome new h
          (a.block h)
          p
          (if new then new_block hash same zero_hash height every now a h p else p)
  unfolding new_block
  check_block-Outcome now a h false p e = (e, refl)
  check_block-Outcome now a h true p e =
      let kept =
        new_validators-Kept now (a.validators h)
          (record p { collector = record p.collector { last_height = h } }) in
      block-Outcome h (a.block h) p _ (kept.at_key ∙ e) kept.height_at

  -- In every tick: the payload has a block exactly if the status reports a positive height above all
  -- those before and the call for the block of that height succeeds, and then it has that block; the
  -- collector takes the new height over, whether that call succeeds or not.
  pub collect-block :
      (c : Collector H) (now : ℕ) (a : Answers)
      → (lookup "block" (collect hash same zero_hash height every c now a).payload
          ≡ (if is_new c a then a.block (height_of height a.status) else none))
        × ((collect hash same zero_hash height every c now a).collector.last_height
            ≡ (if is_new c a then height_of height a.status else c.last_height))
  unfolding collect check_block lookup
  collect-block c now a =
      let h = height_of height a.status in
      let p0 : Poll H = record { collector = c; payload = [] } in
      let p1 = poll_endpoints hash same zero_hash height every a p0 in
      let p2 = dump_state hash same zero_hash height every now a p1 in
      let p3 = check_block hash same zero_hash height every now a h p2 in
      let p4 = resend_validators hash same zero_hash height every now a p3 in
      let p5 = send_genesis hash same zero_hash height every now a p4 in
      let before =
        Kept-trans "block" p0 p1 p2 (poll_endpoints-Kept a p0)
          (dump_state-Kept "block" now a p1 refl) in
      let out =
        check_block-Outcome now a h (ltz p2.collector.last_height h && ltz (pos 0) h) p2
          before.at_key in
      let after = Kept-trans "block" p3 p4 _ (resend_validators-Kept now a p3) (
        Kept-trans "block" p4 p5 _ (send_genesis-Kept now a p4)
          (put-Kept "block" "rpc_reachable" (if reachable a then "1" else "0") p5 refl)) in
      (
        after.at_key
            ∙ out.0
            ∙ ap (λ x. if ltz x h && ltz (pos 0) h then a.block h else none) before.height_at,
        after.height_at
            ∙ out.1
            ∙ ap (λ x. if ltz x h && ltz (pos 0) h then h else x) before.height_at,
      )
