-- ===== src/Json/Marshalled.antt =====
-- A map that is marshalled and decoded again is the map of its elements, marshalled and decoded.
use gno_watchtower.Base.{
  String, Option, none, some, [], ◌∷◌, ◌++◌, append_assoc, append-nil, Assoc, Distinct, lookup,
  lookup-insert, insert, eq_iff, ◌≡◌, refl, sym, ap, ◌∙◌, arith,
}
use gno_watchtower.Json.{Json, object, as_object, into_map, as_map, members_of}

-- The same keys, with other elements.
unfoldable pub map_values {ℓ κ} : {A : Type ℓ} {B : Type κ} → (A → B) → Assoc A → Assoc B
map_values h [] = []
map_values h ((k, a) ∷ rest) = (k, h a) ∷ map_values h rest

insert-new {ℓ} :
    {A : Type ℓ} (k : String) (v : A) (m : Assoc A)
    → lookup k m ≡ none
    → insert k v m ≡ m ++ (k, v) ∷ []
unfolding lookup insert
insert-new k v [] h = refl
insert-new k v ((j, w) ∷ m) h = ground (arith, h, insert-new k v m)

-- No key of the second stands in the first.
abbrev Apart {ℓ κ} : {A : Type ℓ} {B : Type κ} → Assoc A → Assoc B → Type ℓ
Apart m [] = Unit
Apart m ((k, v) ∷ rest) = (lookup k m ≡ none) × Apart m rest

Apart-more {ℓ κ} :
    {A : Type ℓ} {B : Type κ} (k : String) (v : A) (m : Assoc A) (rest : Assoc B)
    → Apart m rest
    → lookup k rest ≡ none
    → Apart (insert k v m) rest
unfolding lookup
Apart-more k v m [] a h = tt
Apart-more k v m ((j, w) ∷ rest) a h =
    ground (arith, h, a.0, lookup-insert k j v m, eq_iff j k, eq_iff k j, Apart-more k v m rest a.1)

Apart-nil {ℓ κ} : (A : Type ℓ) {B : Type κ} (values : Assoc B) → Apart {A = A} [] values
unfolding lookup
Apart-nil A [] = tt
Apart-nil A ((k, v) ∷ rest) = (refl, Apart-nil A rest)

module _ {ℓ κ} {A : Type ℓ} {B : Type κ} (g : A → Json) (f : Json → Option B) (h : A → B)
    (Good : A → Type 0) (back : (a : A) → Good a → f (g a) ≡ some (h a)) where
  -- Of every element.
  abbrev pub AllGood : Assoc A → Type 0
  AllGood [] = Unit
  AllGood ((k, a) ∷ rest) = Good a × AllGood rest

  into_map-members_of :
      (m : Assoc B) (values : Assoc A)
      → Apart m values
      → Distinct values
      → AllGood values
      → into_map f m (members_of g values) ≡ some (m ++ map_values h values)
  unfolding members_of map_values
  into_map-members_of m [] a d o = ap some (sym (append-nil m))
  into_map-members_of m ((k, v) ∷ rest) a d o = rw (back v o.0) (
      into_map-members_of (insert k (h v) m) rest (Apart-more k (h v) m rest a.1 d.0) d.1 o.1
      ∙ ap (λ n. some (n ++ map_values h rest)) (insert-new k (h v) m a.0)
      ∙ ap some (append_assoc m ((k, h v) ∷ []) (map_values h rest)))

  pub as_map-members_of :
      (values : Assoc A)
      → Distinct values
      → AllGood values
      → as_map f (object (members_of g values)) ≡ some (map_values h values)
  unfolding as_map as_object
  as_map-members_of values d o = into_map-members_of [] values (Apart-nil B values) d o
