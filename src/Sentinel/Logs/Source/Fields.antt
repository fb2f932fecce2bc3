-- ===== src/Sentinel/Logs/Source/Fields.antt =====
-- The fields of a line whose missing ones are filled in.
use gno_watchtower.Base.{
  String, Bool, true, false, ◌||◌, Option, none, some, Assoc, lookup, str_eq, lookup-insert, ◌⊎◌,
  inl, inr, ◌≡◌, refl, ap, ◌∙◌, Option-cases, arith, eq_iff,
}
use gno_watchtower.Sentinel.Logs.Source.{present, has_all, put_missing, fill_missing}

-- What stood in the line stands in the object, possibly spelled in the compact form.
abbrev pub Kept : (String → String) → Option String → Option String → Type 0
Kept compact none found = Unit
Kept compact (some raw) found = (found ≡ some raw) ⊎ (found ≡ some (compact raw))

-- A field that is filled in where it is missing.
abbrev or_new : Bool → String → Option String → Option String
or_new b v (some raw) = some raw
or_new true v none = some v
or_new false v none = none

lookup-put_missing :
    (k v at : String) (obj : Assoc String)
    → lookup at (put_missing k v obj) ≡ or_new (str_eq k at) v (lookup at obj)
unfolding put_missing
lookup-put_missing k v at obj = elim (Option-cases (lookup k obj)) [
  | inl e ↦ ground (arith, e, lookup-insert k at v obj, eq_iff k at)
  | inr (raw, e) ↦ ground (arith, e, eq_iff k at)
]

or_new-some :
    (b : Bool) (v raw : String) (o : Option String) → o ≡ some raw → or_new b v o ≡ some raw
or_new-some b v raw none h = absurd (cc)
or_new-some b v raw (some x) h = h

present-or_new :
    (b : Bool) (v : String) (o : Option String) → present (or_new b v o) ≡ (b || present o)
present-or_new true v none = refl
present-or_new true v (some raw) = refl
present-or_new false v none = refl
present-or_new false v (some raw) = refl

abbrev pub mapped {ℓ} : {V : Type ℓ} → (V → String) → Option V → Option String
mapped f none = none
mapped f (some v) = some (f v)

pub mapped-Kept :
    (compact : String → String) (b : Option String) (found : Option String) (filled : Option String)
    → ((raw : String) → b ≡ some raw → filled ≡ some raw)
    → found ≡ mapped compact filled
    → Kept compact b found
mapped-Kept compact none found filled h e = tt
mapped-Kept compact (some raw) found filled h e = inr (e ∙ ap (mapped compact) (h raw refl))

pub Kept-same : (compact : String → String) (o : Option String) → Kept compact o o
Kept-same compact none = tt
Kept-same compact (some raw) = inl refl

present-mapped : (f : String → String) (o : Option String) → present (mapped f o) ≡ present o
present-mapped f none = refl
present-mapped f (some v) = refl

lookup-fill_missing :
    (ts at : String) (obj : Assoc String)
    → lookup at (fill_missing ts obj)
      ≡ or_new (str_eq "module" at) "\"unknown\"" (
          or_new
            (str_eq "msg" at)
            "\"\""
            (or_new (str_eq "level" at) "\"info\"" (or_new (str_eq "ts" at) ts (lookup at obj))))
unfolding fill_missing
lookup-fill_missing ts at obj =
    let with_ts = put_missing "ts" ts obj in
    let with_level = put_missing "level" "\"info\"" with_ts in
    let with_msg = put_missing "msg" "\"\"" with_level in
    rw
      (
        lookup-put_missing "module" "\"unknown\"" at with_msg,
        lookup-put_missing "msg" "\"\"" at with_level,
        lookup-put_missing "level" "\"info\"" at with_ts,
        lookup-put_missing "ts" ts at obj,
      )
      refl

present-fill_missing :
    (compact : String → String) (ts at : String) (obj : Assoc String)
    → present (mapped compact (lookup at (fill_missing ts obj))) ≡ (
        str_eq "module" at
        || (str_eq "msg" at || (str_eq "level" at || (str_eq "ts" at || present (lookup at obj)))))
present-fill_missing compact ts at obj =
    present-mapped compact _
    ∙ ap present (lookup-fill_missing ts at obj)
    ∙ simp (present-or_new) refl

-- What is read back of a filled object has the four fields.
pub fill_missing-has_all :
    (compact : String → String) (ts : String) (obj o : Assoc String)
    → ((k : String) → lookup k o ≡ mapped compact (lookup k (fill_missing ts obj)))
    → has_all o ≡ true
unfolding has_all
fill_missing-has_all compact ts obj o h =
    rw
      (
        h "ts",
        present-fill_missing compact ts "ts" obj,
        h "level",
        present-fill_missing compact ts "level" obj,
        h "msg",
        present-fill_missing compact ts "msg" obj,
        h "module",
        present-fill_missing compact ts "module" obj,
      )
      refl

pub lookup-fill_missing_of_some :
    (ts at raw : String) (obj : Assoc String)
    → lookup at obj ≡ some raw
    → lookup at (fill_missing ts obj) ≡ some raw
lookup-fill_missing_of_some ts at raw obj h = lookup-fill_missing ts at obj ∙ rw h refl
