-- ===== src/Sentinel/Delta.antt =====
-- internal/sentinel/delta/delta.go: a filter that passes a value only if it differs from the last
-- one under its key. SHA-256 is a parameter; `zero` is the array of zero bytes, which a Go map
-- returns for a key that is not there.
pub mod Filter
mod Examples
use gno_watchtower.Base.{
  String, Bool, true, false, Option, none, some, List, [], ◌∷◌, Assoc, lookup, insert,
  if◌then◌else◌,
}

module _ {D H : Type 0} (hash : D → H) (same : H → H → Bool) (zero : H) where
  abbrev pub or_zero : Option H → H
  or_zero none = zero
  or_zero (some h) = h

  unfoldable pub changed : Assoc H → String → D → Assoc H × Bool
  changed hashes key value =
      if same (or_zero (lookup key hashes)) (hash value)
      then (hashes, false)
      else (insert key (hash value) hashes, true)

  -- The map after a list of calls.
  unfoldable pub after : Assoc H → List (String × D) → Assoc H
  after hashes [] = hashes
  after hashes ((key, value) ∷ rest) = after (changed hashes key value).0 rest
