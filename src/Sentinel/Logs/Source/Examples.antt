-- ===== src/Sentinel/Logs/Source/Examples.antt =====
-- A line of a log that lacks all fields but the message, and one that is no JSON.
use gno_watchtower.Base.{
  ℕ, String, Bool, true, false, ◌||◌, Option, none, some, [], ◌∷◌, Assoc, lookup, insert, str_eq,
  trim_space, if◌then◌else◌, eq_iff, Bool-cases, inl, inr, ◌≡◌, refl, ap, sym, ◌∙◌, arith,
}
use gno_watchtower.Sentinel.Logs.Source.{
  Decoded, failed, object, Value, text, seconds, fill_missing, put_missing, wrapped_line, has_all,
  ensure_json, wrap_as_sentinel_raw, parse_level,
}
use gno_watchtower.Sentinel.Logs.Source.Fields.{mapped}
use gno_watchtower.Sentinel.Logs.Source.Normal.{
  Reads, FourFields, Carried, Written, ensure_json-normal,
}

abbrev short_line : String
short_line = "{\"msg\":\"hi\"}"

abbrev full_line : String
full_line = "{\"level\":\"info\",\"module\":\"unknown\",\"msg\":\"hi\",\"ts\":7}"

abbrev wrapped : String
wrapped =
    "{\"level\":\"info\",\"module\":\"sentinel-raw\",\"msg\":\"{\\\"msg\\\":\\\"hi\\\"}\",\"ts\":7}"

abbrev format_float : ℕ → String
format_float now = "7"

abbrev encode : Value ℕ → String
encode (text s) = s
encode (seconds now) = "7"

abbrev same : String → String
same raw = raw

abbrev short_object : Assoc String
short_object = ("msg", "\"hi\"") ∷ []

abbrev full_object : Assoc String
full_object =
    ("msg", "\"hi\"") ∷ ("ts", "7") ∷ ("level", "\"info\"") ∷ ("module", "\"unknown\"") ∷ []

abbrev values : Assoc (Value ℕ) → Assoc String
values [] = []
values ((k, v) ∷ line) = (k, encode v) ∷ values line

abbrev wrapped_object : Assoc String
wrapped_object = values (wrapped_line short_line 7)

abbrev valid : String → Bool
valid s = str_eq s short_line || (str_eq s full_line || str_eq s wrapped)

abbrev unmarshal : String → Decoded
unmarshal s =
    if str_eq s short_line
    then object short_object
    else if str_eq s full_line
    then object full_object
    else if str_eq s wrapped
    then object wrapped_object
    else failed

abbrev marshal : Assoc String → Option String
marshal obj = some full_line

abbrev marshal_any : Assoc (Value ℕ) → Option String
marshal_any line = some wrapped

is_text-not_blank :
    (s t : String)
    → str_eq s t ≡ true
    → str_eq (trim_space t) "" ≡ false
    → str_eq (trim_space s) "" ≡ false
is_text-not_blank s t h b = rw ((eq_iff s t).0 h) b

texts-not_blank :
    (str_eq (trim_space short_line) "" ≡ false)
    × (str_eq (trim_space full_line) "" ≡ false)
    × (str_eq (trim_space wrapped) "" ≡ false)
unfolding trim_space
texts-not_blank = (refl, refl, refl)

valid-not_blank : (s : String) → valid s ≡ true → str_eq (trim_space s) "" ≡ false
valid-not_blank s h = elim (Bool-cases (str_eq s short_line)) [
  | inl a ↦ is_text-not_blank s short_line a texts-not_blank.0
  | inr a ↦ elim (Bool-cases (str_eq s full_line)) [
    | inl b ↦ is_text-not_blank s full_line b texts-not_blank.1
    | inr b ↦
        let c : str_eq s wrapped ≡ true = ground (arith, h, a, b) in
        is_text-not_blank s wrapped c texts-not_blank.2
  ]
]

mapped-same : (o : Option String) → o ≡ mapped same o
mapped-same none = refl
mapped-same (some raw) = refl

full-filled : fill_missing "7" short_object ≡ full_object
unfolding fill_missing put_missing lookup insert
full-filled = refl

object-inj : (a b : Assoc String) → object a ≡ object b → a ≡ b
object-inj a b h = cc

full-Written :
    (obj : Assoc String)
    → unmarshal short_line ≡ object obj
    → Written valid unmarshal
        (marshal (fill_missing "7" obj))
        (λ k. mapped same (lookup k (fill_missing "7" obj)))
full-Written obj h =
    let e : fill_missing "7" obj ≡ full_object =
      ap (fill_missing "7") (sym (object-inj short_object obj h)) ∙ full-filled in
    (
      full_line,
      full_object,
      refl,
      (refl, refl),
      λ k. ap (lookup k) (sym e) ∙ mapped-same (lookup k (fill_missing "7" obj)),
    )

lookup-values :
    (k : String) (line : Assoc (Value ℕ)) → lookup k (values line) ≡ mapped encode (lookup k line)
unfolding lookup
lookup-values k [] = refl
lookup-values k ((j, v) ∷ line) = elim (Bool-cases (str_eq j k)) [
  | inl h ↦ rw h refl
  | inr h ↦ rw h (lookup-values k line)
]

wrapped-Written :
    Written valid unmarshal
      (marshal_any (wrapped_line short_line 7))
      (λ k. mapped encode (lookup k (wrapped_line short_line 7)))
wrapped-Written =
    (wrapped, wrapped_object, refl, (refl, refl), λ k. lookup-values k (wrapped_line short_line 7))

ensure_json-normal_example :
    (s : String) × (o : Assoc String) × (ensure_json valid unmarshal marshal marshal_any
        format_float short_line 7
      ≡ some s)
    × Reads valid unmarshal s o
    × FourFields o
    × Carried same encode short_line 7
        (valid short_line)
        (unmarshal short_line)
        "msg"
        (lookup "msg" o)
    × (ensure_json valid unmarshal marshal marshal_any format_float s 9 ≡ some s)
ensure_json-normal_example =
    ensure_json-normal valid unmarshal marshal marshal_any format_float same encode short_line 7
      wrapped-Written full-Written valid-not_blank "msg" 9 texts-not_blank.0

short-filled :
    ensure_json valid unmarshal marshal marshal_any format_float short_line 7 ≡ some full_line
unfolding ensure_json trim_space has_all lookup
short-filled = refl

other-wrapped :
    ensure_json valid unmarshal marshal marshal_any format_float "panic" 7 ≡ some wrapped
unfolding ensure_json trim_space wrap_as_sentinel_raw
other-wrapped = refl

blank-skipped : ensure_json valid unmarshal marshal marshal_any format_float " \t" 7 ≡ none
unfolding ensure_json trim_space
blank-skipped = refl

odd-level : parse_level (λ raw. some "WARN") "" ≡ "info"
unfolding parse_level
odd-level = refl
