-- ===== src/Sentinel/Logs/Source.antt =====
-- internal/sentinel/logs/source.go: what a raw line of a log becomes. JSON as text is a parameter.
pub mod Fields
pub mod Normal
mod Examples
use gno_watchtower.Base.{
  String, Bool, true, false, ◌&&◌, Option, none, some, List, [], ◌∷◌, Assoc, lookup, insert, str_eq,
  trim_space, if◌then◌else◌,
}

-- `json.Unmarshal` into a map of raw messages: an error, the nil map of `null`, or a map.
pub data Decoded : Type 0 where
  failed nil_map : Decoded
  object : Assoc String → Decoded

-- A value of the wrapped line: a text, or an instant as seconds.
pub data Value (T : Type 0) : Type 0 where
  text : String → Value T
  seconds : T → Value T

abbrev pub present : Option String → Bool
present none = false
present (some raw) = true

unfoldable pub has_all : Assoc String → Bool
has_all obj =
    present (lookup "ts" obj)
    && (present (lookup "level" obj)
        && (present (lookup "msg" obj) && present (lookup "module" obj)))

abbrev pub put_at : String → String → Assoc String → Option String → Assoc String
put_at k v obj none = insert k v obj
put_at k v obj (some raw) = obj

unfoldable pub put_missing : String → String → Assoc String → Assoc String
put_missing k v obj = put_at k v obj (lookup k obj)

abbrev pub unserializable : String
unserializable = "{\"level\":\"info\",\"module\":\"sentinel-raw\",\"msg\":\"<unserializable>\"}"

abbrev pub or_unserializable : Option String → String
or_unserializable none = unserializable
or_unserializable (some wrapped) = wrapped

abbrev pub known_level : String → String
known_level level =
    if str_eq level "debug"
    then level
    else if str_eq level "info"
    then level
    else if str_eq level "warn"
    then level
    else if str_eq level "error"
    then level
    else "info"

abbrev pub level_or_info : Option String → String
level_or_info none = "info"
level_or_info (some level) = known_level level

-- `level_of` is `json.Unmarshal` into the struct with the level: `none` where it fails, and the empty
-- text where there is none.
unfoldable pub parse_level : (String → Option String) → String → String
parse_level level_of raw = level_or_info (level_of raw)

-- `ts` is the instant as `strconv.FormatFloat` writes it.
unfoldable pub fill_missing : String → Assoc String → Assoc String
fill_missing ts obj =
    put_missing "module" "\"unknown\""
      (put_missing "msg" "\"\"" (put_missing "level" "\"info\"" (put_missing "ts" ts obj)))

abbrev pub wrapped_line : {T : Type 0} → String → T → Assoc (Value T)
wrapped_line raw now =
    ("level", text "info")
    ∷ ("ts", seconds now)
    ∷ ("module", text "sentinel-raw")
    ∷ ("msg", text raw)
    ∷ []

module _ {T : Type 0} (valid : String → Bool) (unmarshal : String → Decoded)
    (marshal : Assoc String → Option String) (marshal_any : Assoc (Value T) → Option String)
    (format_float : T → String) where
  unfoldable pub wrap_as_sentinel_raw : String → T → String
  wrap_as_sentinel_raw raw now = or_unserializable (marshal_any (wrapped_line raw now))

  abbrev pub filled_or_wrapped : String → T → Option String → String
  filled_or_wrapped raw now none = wrap_as_sentinel_raw raw now
  filled_or_wrapped raw now (some filled) = filled

  abbrev pub after_unmarshal : String → T → Decoded → String
  after_unmarshal raw now failed = wrap_as_sentinel_raw raw now
  after_unmarshal raw now nil_map = wrap_as_sentinel_raw raw now
  after_unmarshal raw now (object obj) =
      if has_all obj
      then raw
      else filled_or_wrapped raw now (marshal (fill_missing (format_float now) obj))

  -- `EnsureJSON`, whose `none` is nil.
  unfoldable pub ensure_json : String → T → Option String
  ensure_json raw now =
      if str_eq (trim_space raw) ""
      then none
      else if valid raw
      then some (after_unmarshal raw now (unmarshal raw))
      else some (wrap_as_sentinel_raw raw now)
