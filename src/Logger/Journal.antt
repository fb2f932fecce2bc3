-- ===== src/Logger/Journal.antt =====
-- What the journal accepts: `^[A-Z_][A-Z0-9_]*$`, without a leading underscore.
use gno_watchtower.Base.{
  ℕ, true, List, [], ◌∷◌, ◌==◌, ◌||◌, All, All-append, ◌≡◌, refl, arith, Bool-cases, inl, inr,
}
use gno_watchtower.Logger.{
  Runes, is_upper, is_digit, underscore, sanitized, write_sanitized, joined_groups, prefix_start,
  journal_key,
}

abbrev pub Allowed : ℕ → Type 0
Allowed c = (is_upper c || is_digit c || c == underscore) ≡ true

-- A key of the journal that is not reserved.
abbrev pub Accepted : Runes → Type 0
Accepted [] = Unit
Accepted (c ∷ s) = (is_upper c ≡ true) × All Allowed s

sanitized-Allowed : (c : ℕ) → Allowed (sanitized c)
unfolding sanitized
sanitized-Allowed c = ground arith

write_sanitized-Allowed : (s : Runes) → All Allowed (write_sanitized s)
unfolding write_sanitized
write_sanitized-Allowed [] = tt
write_sanitized-Allowed (c ∷ s) = (sanitized-Allowed c, write_sanitized-Allowed s)

joined_groups-Allowed : (groups : List Runes) (key : Runes) → All Allowed (joined_groups groups key)
unfolding joined_groups
joined_groups-Allowed [] key = write_sanitized-Allowed key
joined_groups-Allowed (g ∷ gs) key =
    All-append Allowed (write_sanitized g) _ (write_sanitized-Allowed g)
      (refl, joined_groups-Allowed gs key)

prefix_start-Accepted : (s : Runes) → All Allowed s → Accepted (prefix_start s)
prefix_start-Accepted [] h = tt
prefix_start-Accepted (c ∷ s) h = elim (Bool-cases (c == underscore)) [
  | inl e ↦ rw e (refl, h)
  | inr e ↦ elim (Bool-cases (is_digit c)) [
    | inl d ↦ rw (e, d) (refl, (refl, h))
    | inr n ↦ rw (e, n) (ground arith, h.1)
  ]
]

-- Whatever the groups and the key are, the rewritten key is empty or starts with a capital letter and
-- goes on with capitals, digits and underscores, so that the journal keeps the attribute.
pub journal_key-Accepted : (groups : List Runes) (key : Runes) → Accepted (journal_key groups key)
unfolding journal_key
journal_key-Accepted groups key =
    prefix_start-Accepted (joined_groups groups key) (joined_groups-Allowed groups key)
