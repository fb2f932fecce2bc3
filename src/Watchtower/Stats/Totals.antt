-- ===== src/Watchtower/Stats/Totals.antt =====
-- What the counters stand for.
use gno_watchtower.Base.{
  ℕ, ◌+◌, ◌%◌, String, Bool, true, false, Option, none, some, List, [], ◌∷◌, Assoc, lookup, insert,
  two64, ◌≡◌, refl, ap, ◌∙◌, arith, eq_iff, str_eq, ◌&&◌, if◌then◌else◌, lookup-insert, Bool-cases,
  inl, inr,
}
use gno_watchtower.Watchtower.Stats.{
  Entry, TypeSnapshot, Data, or_empty, or_zero, add, snapshot_types, reset_types, snapshot, reset,
  Op, received, report, step, run,
}

-- The counters of a validator and a type, zero where there are none.
unfoldable pub entry : Data → String → String → Entry
entry s v t = or_zero (lookup t (or_empty (lookup v s)))

bump : Entry → ℕ → Entry
bump e n = record { last_hour = (e.last_hour + n) % two64; total = (e.total + n) % two64 }

lookup-reset_types :
    (t : String) (m : Assoc Entry)
    → or_zero (lookup t (reset_types m)) ≡ record (or_zero (lookup t m)) { last_hour = 0 }
unfolding lookup reset_types
lookup-reset_types t [] = refl
lookup-reset_types t ((j, e) ∷ m) = elim (Bool-cases (str_eq j t)) [
  | inl same ↦ rw same
  | inr other ↦ rw other (lookup-reset_types t m)
]

entry-reset :
    (s : Data) (v t : String) → entry (reset s) v t ≡ record (entry s v t) { last_hour = 0 }
unfolding lookup reset entry
entry-reset [] v t = refl
entry-reset ((j, m) ∷ s) v t = elim (Bool-cases (str_eq j v)) [
  | inl same ↦ rw same (lookup-reset_types t m)
  | inr other ↦ rw other (entry-reset s v t)
]

entry-add :
    (s : Data) (v t w u : String) (n : ℕ)
    → entry (add v t n s) w u
      ≡ (if str_eq v w && str_eq t u then bump (entry s w u) n else entry s w u)
unfolding entry add bump
entry-add s v t w u n =
    let types = or_empty (lookup v s) in
    let e' = bump (or_zero (lookup t types)) n in
    ground (
      arith,
      eq_iff v w,
      eq_iff t u,
      lookup-insert v w (insert t e' types) s,
      lookup-insert t u e' types,
    )

-- The bytes that a list of operations brings for a validator and a type.
abbrev pub received_by : String → String → List Op → ℕ
received_by w u [] = 0
received_by w u (received v t n ∷ ops) =
    (if str_eq v w && str_eq t u then n else 0) + received_by w u ops
received_by w u (report ∷ ops) = received_by w u ops

abbrev or_empty_snapshot : Option (Assoc TypeSnapshot) → Assoc TypeSnapshot
or_empty_snapshot none = []
or_empty_snapshot (some types) = types

abbrev hour_of : Option TypeSnapshot → ℕ
hour_of none = 0
hour_of (some t) = t.last_hour_bytes

-- The hourly bytes that a list of snapshots reports for a validator and a type.
unfoldable pub reported_by : String → String → List (Assoc (Assoc TypeSnapshot)) → ℕ
reported_by w u [] = 0
reported_by w u (snap ∷ rest) =
    hour_of (lookup u (or_empty_snapshot (lookup w snap))) + reported_by w u rest

hour_of-snapshot_types :
    (u : String) (m : Assoc Entry)
    → hour_of (lookup u (snapshot_types m)) ≡ (or_zero (lookup u m)).last_hour
unfolding lookup snapshot_types
hour_of-snapshot_types u [] = refl
hour_of-snapshot_types u ((j, e) ∷ m) = elim (Bool-cases (str_eq j u)) [
  | inl same ↦ rw same
  | inr other ↦ rw other (hour_of-snapshot_types u m)
]

hour_of-snapshot :
    (w u : String) (s : Data)
    → hour_of (lookup u (or_empty_snapshot (lookup w (snapshot s)))) ≡ (entry s w u).last_hour
unfolding lookup snapshot entry
hour_of-snapshot w u [] = refl
hour_of-snapshot w u ((j, m) ∷ s) = elim (Bool-cases (str_eq j w)) [
  | inl same ↦ rw same (hour_of-snapshot_types u m)
  | inr other ↦ rw other (hour_of-snapshot w u s)
]

bump_if :
    (b : Bool) (e : Entry) (n : ℕ)
    → ((if b then bump e n else e).total % two64 ≡ (e.total + (if b then n else 0)) % two64)
      × ((if b then bump e n else e).last_hour % two64
          ≡ (e.last_hour + (if b then n else 0)) % two64)
unfolding bump
bump_if true e n = (omega arith, omega arith)
bump_if false e n = (omega arith, omega arith)

entry-add_sums :
    (s : Data) (v t w u : String) (n : ℕ)
    → ((entry (add v t n s) w u).total % two64
        ≡ ((entry s w u).total + (if str_eq v w && str_eq t u then n else 0)) % two64)
      × ((entry (add v t n s) w u).last_hour % two64
          ≡ ((entry s w u).last_hour + (if str_eq v w && str_eq t u then n else 0)) % two64)
entry-add_sums s v t w u n =
    rw (entry-add s v t w u n) (bump_if (str_eq v w && str_eq t u) (entry s w u) n)

run-total :
    (s : Data) (ops : List Op) (w u : String)
    → (entry (run s ops).0 w u).total % two64 ≡ ((entry s w u).total + received_by w u ops) % two64
unfolding run step
run-total s [] w u = omega arith
run-total s (received v t n ∷ ops) w u =
    omega (arith, run-total (add v t n s) ops w u, entry-add_sums s v t w u n)
run-total s (report ∷ ops) w u = run-total (reset s) ops w u ∙ rw (entry-reset s w u)

run-hours :
    (s : Data) (ops : List Op) (w u : String)
    → (reported_by w u (run s ops).1 + (entry (run s ops).0 w u).last_hour) % two64
      ≡ ((entry s w u).last_hour + received_by w u ops) % two64
unfolding run step reported_by
run-hours s [] w u = omega arith
run-hours s (received v t n ∷ ops) w u =
    omega (arith, run-hours (add v t n s) ops w u, entry-add_sums s v t w u n)
run-hours s (report ∷ ops) w u = omega (
  arith,
  run-hours (reset s) ops w u,
  ap (λ (e : Entry). e.last_hour) (entry-reset s w u),
  hour_of-snapshot w u s,
)

-- From the start, whatever is received and whenever reports are taken: the total of a validator and
-- a type is the sum of what was received for the two, modulo 2^64, and the hourly figures of all
-- reports and the running one add up to the same sum.
pub run-received_by :
    (ops : List Op) (w u : String)
    → ((entry (run [] ops).0 w u).total % two64 ≡ received_by w u ops % two64)
      × ((reported_by w u (run [] ops).1 + (entry (run [] ops).0 w u).last_hour) % two64
          ≡ received_by w u ops % two64)
run-received_by ops w u = (
  unfold entry lookup in omega (arith, run-total [] ops w u),
  unfold entry lookup in omega (arith, run-hours [] ops w u),
)
