-- ===== src/Sentinel/Buffer/Examples.antt =====
-- A buffer of two items.
use gno_watchtower.Base.{ℕ, none, [], ◌∷◌, pos, ◌≡◌, refl}
use gno_watchtower.Sentinel.Buffer.{Buffer, new, push, pushes, rest_of}

abbrev pair : Buffer ℕ
pair = record { items = 7 ∷ []; max_size = 2 }

new_pair : new {A = ℕ} (pos 0) ≡ none
unfolding new
new_pair = refl

overflows : pushes pair (8 ∷ 9 ∷ []) ≡ (record pair { items = 8 ∷ 9 ∷ [] }, 1)
unfolding pushes push rest_of
overflows = refl
