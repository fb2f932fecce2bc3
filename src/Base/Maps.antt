-- ===== src/Base/Maps.antt =====
-- Go maps with string keys, as association lists. Iteration over a Go map takes its entries in an
-- order of the runtime's choice: here the order of the list, so that a statement about every list
-- covers every order.
use Prim.Native.String.{String}
use mathlib.Core.Path.{◌≡◌, refl}
use mathlib.Core.Bool.{Bool}
use mathlib.Core.Option.{Option, none, some}
use mathlib.Core.List.{List, [], ◌∷◌}
use native.Mathlib.Omega.{arith}
use text.Mathlib.Text.{◌==◌ as str_eq}
use text.Mathlib.TextEquality.{eq_iff}
use gno_watchtower.Base.Tests.{if◌then◌else◌}

abbrev pub Assoc {ℓ} : Type ℓ → Type ℓ
Assoc V = List (String × V)

module _ {ℓ} {V : Type ℓ} where
  -- `v, ok := m[k]`
  unfoldable pub lookup : String → Assoc V → Option V
  lookup k [] = none
  lookup k ((j, v) ∷ m) = if str_eq j k then some v else lookup k m

  -- `m[k] = v`
  unfoldable pub insert : String → V → Assoc V → Assoc V
  insert k v [] = (k, v) ∷ []
  insert k v ((j, w) ∷ m) = if str_eq j k then (k, v) ∷ m else (j, w) ∷ insert k v m

  -- `delete(m, k)`
  unfoldable pub delete : String → Assoc V → Assoc V
  delete k [] = []
  delete k ((j, v) ∷ m) = let rest = delete k m in if str_eq j k then rest else (j, v) ∷ rest

  -- A loop that deletes, while it ranges over the map, the entries whose value fails the test.
  unfoldable pub keep : (V → Bool) → Assoc V → Assoc V
  keep p [] = []
  keep p ((j, v) ∷ m) = let rest = keep p m in if p v then (j, v) ∷ rest else rest

  -- What a Go map guarantees: no key stands twice.
  abbrev pub Distinct : Assoc V → Type ℓ
  Distinct [] = Unit
  Distinct ((k, v) ∷ m) = (lookup k m ≡ none) × Distinct m

  abbrev pub filter_some : (V → Bool) → Option V → Option V
  filter_some p none = none
  filter_some p (some v) = if p v then some v else none

  pub lookup-insert :
      (key at : String) (v : V) (m : Assoc V)
      → lookup at (insert key v m) ≡ (if str_eq key at then some v else lookup at m)
  unfolding lookup insert
  lookup-insert key at v [] = refl
  lookup-insert key at v ((other, _) ∷ rest) =
      ground (lookup-insert key at v rest, eq_iff other key, eq_iff other at, eq_iff key at, arith)

  pub lookup-delete :
      (k j : String) (m : Assoc V)
      → lookup j (delete k m) ≡ (if str_eq k j then none else lookup j m)
  unfolding lookup delete
  lookup-delete key at [] = ground arith
  lookup-delete key at ((other, _) ∷ rest) =
      ground (lookup-delete key at rest, eq_iff other key, eq_iff other at, eq_iff key at, arith)

  lookup-keep-none :
      (p : V → Bool) (k : String) (m : Assoc V) → lookup k m ≡ none → lookup k (keep p m) ≡ none
  unfolding lookup keep
  lookup-keep-none p k [] h = refl
  lookup-keep-none p k ((j, v) ∷ m) h = ground (arith, lookup-keep-none p k m)

  pub lookup-keep :
      (p : V → Bool) (k : String) (m : Assoc V)
      → Distinct m
      → lookup k (keep p m) ≡ filter_some p (lookup k m)
  unfolding lookup keep
  lookup-keep p k [] h = refl
  lookup-keep p k ((j, v) ∷ m) h =
      ground (arith, eq_iff j k, lookup-keep p k m h.1, lookup-keep-none p k m)

  pub keep-Distinct : (p : V → Bool) (m : Assoc V) → Distinct m → Distinct (keep p m)
  unfolding keep
  keep-Distinct p [] h = h
  keep-Distinct p ((j, v) ∷ m) h = ground (arith, keep-Distinct p m h.1, lookup-keep-none p j m h.0)

  pub delete-Distinct : (k : String) (m : Assoc V) → Distinct m → Distinct (delete k m)
  unfolding delete
  delete-Distinct k [] h = h
  delete-Distinct k ((j, v) ∷ m) h = ground (arith, delete-Distinct k m h.1, lookup-delete k j m)

  pub insert-Distinct : (k : String) (v : V) (m : Assoc V) → Distinct m → Distinct (insert k v m)
  unfolding lookup insert
  insert-Distinct k v [] h = (refl, h)
  insert-Distinct k v ((j, w) ∷ m) h =
      ground (arith, eq_iff j k, eq_iff k j, insert-Distinct k v m h.1, lookup-insert k j v m)
