-- ===== src/Sentinel/Logs/Source/Normal.antt =====
-- Every line that is not blank becomes an object with the four fields, and stays as it is from then on.
use gno_watchtower.Base.{
  String, Bool, true, false, Option, none, some, Assoc, lookup, str_eq, trim_space, inl, inr, ◌≡◌,
  ◌≢◌, ◌∙◌, ap, if◌then◌else◌, arith, refl, Bool-cases,
}
use gno_watchtower.Sentinel.Logs.Source.{
  Decoded, failed, nil_map, object, Value, text, seconds, present, has_all, wrapped_line,
  wrap_as_sentinel_raw, fill_missing, after_unmarshal, ensure_json,
}
use gno_watchtower.Sentinel.Logs.Source.Fields.{
  Kept, mapped, lookup-fill_missing_of_some, fill_missing-has_all, mapped-Kept, Kept-same,
}

-- What `unmarshal` makes of a text, where it is valid.
abbrev pub Reads : (String → Bool) → (String → Decoded) → String → Assoc String → Type 0
Reads valid unmarshal s obj = (valid s ≡ true) × (unmarshal s ≡ object obj)

-- A text that was written, and the object it is read back as, whose fields are given.
abbrev pub Written :
    (String → Bool) → (String → Decoded) → Option String → (String → Option String) → Type 0
Written valid unmarshal o fields =
    (s : String) × (obj : Assoc String) × (o ≡ some s)
    × Reads valid unmarshal s obj
    × ((k : String) → lookup k obj ≡ fields k)

-- The four mandatory fields stand in an object.
abbrev pub FourFields : Assoc String → Type 0
FourFields o =
    (lookup "ts" o ≢ none)
    × (lookup "level" o ≢ none)
    × (lookup "msg" o ≢ none)
    × (lookup "module" o ≢ none)

present-some : (o : Option String) → present o ≡ true → o ≢ none
present-some none h e = absurd (cc)
present-some (some x) h e = absurd (cc)

has_all-FourFields : (o : Assoc String) → has_all o ≡ true → FourFields o
unfolding has_all
has_all-FourFields o h = (
  present-some (lookup "ts" o) (ground arith),
  present-some (lookup "level" o) (ground arith),
  present-some (lookup "msg" o) (ground arith),
  present-some (lookup "module" o) (ground arith),
)

-- What the wrapping of a line at an instant has under a name: the line itself is the message.
abbrev pub wrapped_field : {T : Type 0} → String → T → String → Option (Value T)
wrapped_field raw now at =
    if str_eq "level" at
    then some (text "info")
    else if str_eq "ts" at
    then some (seconds now)
    else if str_eq "module" at
    then some (text "sentinel-raw")
    else if str_eq "msg" at
    then some (text raw)
    else none

lookup-wrapped_line :
    {T : Type 0} (raw : String) (now : T) (at : String)
    → lookup at (wrapped_line raw now) ≡ wrapped_field raw now at
unfolding lookup
lookup-wrapped_line raw now at = refl

-- Where a field of the result comes from: the line, if it is an object, or else the wrapping.
abbrev pub Carried :
    {T : Type 0}
    → (String → String)
    → (Value T → String)
    → String
    → T
    → Bool
    → Decoded
    → String
    → Option String
    → Type 0
Carried compact encode raw now true (object obj) at found = Kept compact (lookup at obj) found
Carried compact encode raw now _ _ at found = found ≡ mapped encode (wrapped_field raw now at)

module _ {T : Type 0} (valid : String → Bool) (unmarshal : String → Decoded)
    (marshal : Assoc String → Option String) (marshal_any : Assoc (Value T) → Option String)
    (format_float : T → String) (compact : String → String) (encode : Value T → String)
    (raw : String) (now : T) where
  abbrev Outcome : Bool → Decoded → String → String → Type 0
  Outcome b d at s =
      (o : Assoc String) × Reads valid unmarshal s o
      × (has_all o ≡ true)
      × Carried compact encode raw now b d at (lookup at o)

  abbrev Wrapped : String → String → Type 0
  Wrapped at s =
      (o : Assoc String) × Reads valid unmarshal s o
      × (has_all o ≡ true)
      × (lookup at o ≡ mapped encode (wrapped_field raw now at))

  module _
      (wraps : Written valid unmarshal
        (marshal_any (wrapped_line raw now))
        (λ k. mapped encode (lookup k (wrapped_line raw now)))) where
    wrap_as_sentinel_raw-Wrapped :
        (at : String)
        → Wrapped at (wrap_as_sentinel_raw valid unmarshal marshal marshal_any format_float raw now)
    unfolding wrap_as_sentinel_raw has_all lookup
    wrap_as_sentinel_raw-Wrapped at =
        let (s, o, e, r, h) = wraps in
        rw e (
          o,
          r,
          rw (h "ts", h "level", h "msg", h "module") refl,
          h at ∙ ap (mapped encode) (lookup-wrapped_line raw now at),
        )

    after_unmarshal-Outcome :
        (fills : (obj : Assoc String)
          → unmarshal raw ≡ object obj
          → Written valid unmarshal
              (marshal (fill_missing (format_float now) obj))
              (λ k. mapped compact (lookup k (fill_missing (format_float now) obj))))
        (at : String) (d : Decoded)
        → valid raw ≡ true
        → unmarshal raw ≡ d
        → Outcome true d at
            (after_unmarshal valid unmarshal marshal marshal_any format_float raw now d)
    after_unmarshal-Outcome fills at failed v e = wrap_as_sentinel_raw-Wrapped at
    after_unmarshal-Outcome fills at nil_map v e = wrap_as_sentinel_raw-Wrapped at
    after_unmarshal-Outcome fills at (object obj) v e = elim (Bool-cases (has_all obj)) [
      | inl h ↦ rw h (obj, (v, e), h, Kept-same compact (lookup at obj))
      | inr h ↦
          let (s, o, m, r, f) = fills obj e in
          rw (h, m)
            (
              o,
              r,
              fill_missing-has_all compact (format_float now) obj o f,
              mapped-Kept compact (lookup at obj) (lookup at o)
                  (lookup at (fill_missing (format_float now) obj))
                  (λ x hx. lookup-fill_missing_of_some (format_float now) at x obj hx) (f at),
            )
    ]

    ensure_json-again :
        (s : String) (o : Assoc String) (later : T)
        → str_eq (trim_space s) "" ≡ false
        → Reads valid unmarshal s o
        → has_all o ≡ true
        → ensure_json valid unmarshal marshal marshal_any format_float s later ≡ some s
    unfolding ensure_json
    ensure_json-again s o later b (v, u) all = rw (b, v, u, all) refl

    -- A line that is not blank becomes a text which is read as an object with the four mandatory fields
    -- "ts", "level", "msg" and "module", and which stays as it is when it is normalised again. Its fields are the line's own, where
    -- the line is a JSON object, and else those of the wrapping: the line itself as the message, the
    -- level "info", the module "sentinel-raw" and the instant.
    -- Two marshalled objects must be read back, the filled and the wrapped one, and valid JSON is not
    -- blank.
    pub ensure_json-normal :
        (fills : (obj : Assoc String)
          → unmarshal raw ≡ object obj
          → Written valid unmarshal
              (marshal (fill_missing (format_float now) obj))
              (λ k. mapped compact (lookup k (fill_missing (format_float now) obj))))
        (not_blank : (s : String) → valid s ≡ true → str_eq (trim_space s) "" ≡ false) (at : String)
        (later : T)
        → str_eq (trim_space raw) "" ≡ false
        → (s : String) × (o : Assoc String) × (ensure_json valid unmarshal marshal marshal_any
              format_float raw now
            ≡ some s)
          × Reads valid unmarshal s o
          × FourFields o
          × Carried compact encode raw now (valid raw) (unmarshal raw) at (lookup at o)
          × (ensure_json valid unmarshal marshal marshal_any format_float s later ≡ some s)
    unfolding ensure_json
    ensure_json-normal fills not_blank at later h = elim (Bool-cases (valid raw)) [
      | inl v ↦
          let (o, r, all, c) = after_unmarshal-Outcome fills at (unmarshal raw) v refl in
          rw (h, v)
            (
              _,
              o,
              refl,
              r,
              has_all-FourFields o all,
              c,
              ensure_json-again _ o later (not_blank _ r.0) r all,
            )
      | inr v ↦
          let (o, r, all, c) = wrap_as_sentinel_raw-Wrapped at in
          rw (h, v)
            (
              _,
              o,
              refl,
              r,
              has_all-FourFields o all,
              c,
              ensure_json-again _ o later (not_blank _ r.0) r all,
            )
    ]
