-- ===== src/Sentinel/Stats/Tallies.antt =====
-- What the counters of one type and one reason stand for.
use gno_watchtower.Base.{
  ℕ, ◌+◌, ◌%◌, String, some, List, [], ◌∷◌, Assoc, lookup, insert, two64, lookup-insert, eq_iff,
  str_eq, ◌&&◌, if◌then◌else◌, Bool-cases, inl, inr, ◌≡◌, refl, ap, sym, ◌∙◌, arith,
}
use gno_watchtower.Sentinel.Stats.{
  Entry, TypeSnapshot, snapshot_entry, or_create, add, or_zero, bump, add_drop, reset, snapshot, Op,
  sent, dropped, report, step, run,
}

-- The sums that the counters of a type and a reason hold: all, and those since the last snapshot.
pub record Tally : Type 0 where
  pub bytes : ℕ
  pub wire : ℕ
  pub drops : ℕ
  pub last_bytes : ℕ
  pub last_drops : ℕ

-- The counters as they stand in the map.
abbrev pub counters : String → Entry → Tally
counters r e = record {
  bytes = e.total_bytes;
  wire = e.total_wire_bytes;
  drops = or_zero (lookup r e.total_drops);
  last_bytes = e.last_bytes;
  last_drops = or_zero (lookup r e.last_drops);
}

unfoldable pub view : String → String → Assoc Entry → Tally
view k r s = counters r (or_create (lookup k s))

-- The same, of exact sums.
unfoldable pub tally : String → String → Op → Tally → Tally
tally k r (sent j uncompressed wire) t =
    if str_eq j k
    then record t {
      bytes = t.bytes + uncompressed;
      wire = t.wire + wire;
      last_bytes = t.last_bytes + uncompressed;
    }
    else t
tally k r (dropped j reason) t =
    if str_eq j k && str_eq reason r
    then record t { drops = t.drops + 1; last_drops = t.last_drops + 1 }
    else t
tally k r report t = record t { last_bytes = 0; last_drops = 0 }

unfoldable pub tallies : String → String → List Op → Tally → Tally
tallies k r [] t = t
tallies k r (op ∷ ops) t = tallies k r ops (tally k r op t)

-- The sums as `int64` counters hold them.
unfoldable pub wrap : Tally → Tally
wrap t = record {
  bytes = t.bytes % two64;
  wire = t.wire % two64;
  drops = t.drops % two64;
  last_bytes = t.last_bytes % two64;
  last_drops = t.last_drops % two64;
}

lookup-reset :
    (k : String) (s : Assoc Entry)
    → or_create (lookup k (reset s))
      ≡ record (or_create (lookup k s)) { last_bytes = 0; last_drops = [] }
unfolding lookup reset
lookup-reset k [] = refl
lookup-reset k ((j, e) ∷ s) = elim (Bool-cases (str_eq j k)) [
  | inl same ↦ rw same
  | inr other ↦ rw other (lookup-reset k s)
]

lookup-bump :
    (q r : String) (m : Assoc ℕ)
    → or_zero (lookup r (bump q m))
      ≡ (if str_eq q r then (or_zero (lookup r m) + 1) % two64 else or_zero (lookup r m))
unfolding bump
lookup-bump q r m =
    ground (arith, eq_iff q r, lookup-insert q r ((or_zero (lookup q m) + 1) % two64) m)

found-insert :
    (j k : String) (e : Entry) (s : Assoc Entry)
    → or_create (lookup k (insert j e s)) ≡ (if str_eq j k then e else or_create (lookup k s))
found-insert j k e s = ground (arith, lookup-insert j k e s)

same_tally :
    (t u : Tally)
    → t.bytes ≡ u.bytes
    → t.wire ≡ u.wire
    → t.drops ≡ u.drops
    → t.last_bytes ≡ u.last_bytes
    → t.last_drops ≡ u.last_drops
    → t ≡ u
same_tally t u p q r s v = cc

add-tally :
    (r : String) (e : Entry) (t : Tally) (n w : ℕ)
    → counters r e ≡ wrap t
    → counters r (record e {
      total_bytes = (e.total_bytes + n) % two64;
      total_wire_bytes = (e.total_wire_bytes + w) % two64;
      last_bytes = (e.last_bytes + n) % two64;
    })
      ≡ wrap (record t { bytes = t.bytes + n; wire = t.wire + w; last_bytes = t.last_bytes + n })
unfolding wrap
add-tally r e t n w h =
    let p = ap (λ (x : Tally). x.bytes) h in
    let q = ap (λ (x : Tally). x.wire) h in
    let l = ap (λ (x : Tally). x.last_bytes) h in
    same_tally _ _ (omega arith) (omega arith) (ap (λ (x : Tally). x.drops) h) (omega arith)
      (ap (λ (x : Tally). x.last_drops) h)

drop-tally :
    (q r : String) (e : Entry) (t : Tally)
    → counters r e ≡ wrap t
    → counters r (record e { total_drops = bump q e.total_drops; last_drops = bump q e.last_drops })
      ≡ wrap (
          if str_eq q r then record t { drops = t.drops + 1; last_drops = t.last_drops + 1 } else t)
unfolding wrap
drop-tally q r e t h =
    let d = ap (λ (x : Tally). x.drops) h in
    let l = ap (λ (x : Tally). x.last_drops) h in
    elim (Bool-cases (str_eq q r)) [
      | inl same ↦ rw same (
          same_tally _ _ (ap (λ (x : Tally). x.bytes) h) (ap (λ (x : Tally). x.wire) h)
            (lookup-bump q r e.total_drops ∙ rw same (omega arith))
            (ap (λ (x : Tally). x.last_bytes) h)
            (lookup-bump q r e.last_drops ∙ rw same (omega arith)))
      | inr other ↦ rw other (
          same_tally _ _ (ap (λ (x : Tally). x.bytes) h) (ap (λ (x : Tally). x.wire) h)
            (lookup-bump q r e.total_drops ∙ rw other d) (ap (λ (x : Tally). x.last_bytes) h)
            (lookup-bump q r e.last_drops ∙ rw other l))
    ]

report-tally :
    (r : String) (e : Entry) (t : Tally)
    → counters r e ≡ wrap t
    → counters r (record e { last_bytes = 0; last_drops = [] })
      ≡ wrap (record t { last_bytes = 0; last_drops = 0 })
unfolding wrap lookup
report-tally r e t h =
    same_tally _ _ (ap (λ (x : Tally). x.bytes) h) (ap (λ (x : Tally). x.wire) h)
      (ap (λ (x : Tally). x.drops) h) (omega arith) (omega arith)

step-tally :
    (k r : String) (op : Op) (s : Assoc Entry) (t : Tally)
    → view k r s ≡ wrap t
    → view k r (step op s) ≡ wrap (tally k r op t)
unfolding step view tally add add_drop
step-tally k r (sent j n w) s t h =
    let e = or_create (lookup j s) in
    let found =
      found-insert j k
        (record e {
          total_bytes = (e.total_bytes + n) % two64;
          total_wire_bytes = (e.total_wire_bytes + w) % two64;
          last_bytes = (e.last_bytes + n) % two64;
        })
        s in
    elim (Bool-cases (str_eq j k)) [
      | inl same ↦
          let own : k ≡ j = sym ((eq_iff j k).0 same) in
          rw (found, same) (add-tally r e t n w (rw (sym own) h))
      | inr other ↦ rw (found, other) h
    ]
step-tally k r (dropped j q) s t h =
    let e = or_create (lookup j s) in
    let found =
      found-insert j k
        (record e { total_drops = bump q e.total_drops; last_drops = bump q e.last_drops }) s in
    elim (Bool-cases (str_eq j k)) [
      | inl same ↦
          let own : k ≡ j = sym ((eq_iff j k).0 same) in
          rw (found, same) (drop-tally q r e t (rw (sym own) h))
      | inr other ↦ rw (found, other) h
    ]
step-tally k r report s t h = rw (lookup-reset k s) (report-tally r (or_create (lookup k s)) t h)

run-tally :
    (k r : String) (ops : List Op) (s : Assoc Entry) (t : Tally)
    → view k r s ≡ wrap t
    → view k r (run ops s) ≡ wrap (tallies k r ops t)
unfolding run tallies
run-tally k r [] s t h = h
run-tally k r (op ∷ ops) s t h =
    run-tally k r ops (step op s) (tally k r op t) (step-tally k r op s t h)

abbrev pub nothing : Tally
nothing = record { bytes = 0; wire = 0; drops = 0; last_bytes = 0; last_drops = 0 }

-- For every type and reason, and whatever the collectors do in whatever order, each counter is the
-- sum of what was recorded for it, modulo 2^64: the totals over all operations, the others since the
-- last snapshot.
pub view-tallies :
    (k r : String) (ops : List Op) → view k r (run ops []) ≡ wrap (tallies k r ops nothing)
unfolding view wrap lookup
view-tallies k r ops = run-tally k r ops [] nothing refl

abbrev pub reported : String → TypeSnapshot → Tally
reported r t = record {
  bytes = t.total_bytes;
  wire = t.total_wire_bytes;
  drops = or_zero (lookup r t.total_drops);
  last_bytes = t.last_snapshot_bytes;
  last_drops = or_zero (lookup r t.last_snapshot_drops);
}

snapshot_of :
    (r : String) (e : Entry) (t : TypeSnapshot)
    → some (snapshot_entry e) ≡ some t
    → reported r t ≡ counters r e
snapshot_of r e t h = cc

reported-snapshot :
    (k r : String) (s : Assoc Entry) (t : TypeSnapshot)
    → lookup k (snapshot s) ≡ some t
    → reported r t ≡ view k r s
unfolding lookup snapshot view
reported-snapshot k r [] t h = absurd (cc)
reported-snapshot k r ((j, e) ∷ s) t h = elim (Bool-cases (str_eq j k)) [
  | inl same ↦ rw same (snapshot_of r e t (rw same at h))
  | inr other ↦ rw other (reported-snapshot k r s t (rw other at h))
]

-- What `Snapshot` returns for a type, after any operations: its totals are the sums of all that was
-- recorded, and its other counters the sums since the snapshot before, all modulo 2^64.
pub snapshot-tallies :
    (k r : String) (ops : List Op) (t : TypeSnapshot)
    → lookup k (snapshot (run ops [])) ≡ some t
    → reported r t ≡ wrap (tallies k r ops nothing)
snapshot-tallies k r ops t h = reported-snapshot k r (run ops []) t h ∙ view-tallies k r ops
