-- ===== src/Watchtower/Forwarder.antt =====
-- internal/watchtower/forwarder/forwarder.go, the path of a log payload: the filter by level, and the
-- push to Loki. A JSON line stands as its value, with its object's members; the instant of an RFC 3339
-- text is a parameter. Keys are matched as they are written.
pub mod Pushes
pub mod Samples
pub mod Rpc
pub mod Posts
pub mod Metrics
mod Examples
use gno_watchtower.Base.{
  ℕ, zero, suc, ◌+◌, ◌-◌, String, Bool, true, false, Option, none, some, List, [], ◌∷◌, ◌++◌, Assoc,
  lookup, delete, str_eq, ltb, leb, ◌&&◌, ◌||◌, not, if◌then◌else◌,
}
use gno_watchtower.Sentinel.Logs.{level_rank}

-- A member of a JSON object: a text, a number with the instant in nanoseconds that it is as epoch
-- seconds (one before 1970 stands as 1970: both are too old), null, or another value.
pub data Member : Type 0 where
  text : String → Member
  number : ℕ → Member
  null : Member
  other : String → Member

pub data Line : Type 0 where
  object : Assoc Member → Line
  not_object : String → Line

pub record Payload : Type 0 where
  pub level : String
  pub lines : List Line

pub record Entry : Type 0 where
  pub nano : ℕ
  pub raw : Line
  pub mod_name : String

pub record Stream : Type 0 where
  pub validator : String
  pub level : String
  pub values : List Entry

-- Nanoseconds of 10 minutes and of 168 hours.
abbrev pub future_skew : ℕ
future_skew = 600000000000

abbrev pub past_skew : ℕ
past_skew = 604800000000000

abbrev pub or_unknown : String → String
or_unknown s = if str_eq s "" then "unknown" else s

-- `stripBodyFields`
unfoldable pub strip_body_fields : List String → Line → Line
strip_body_fields [] l = l
strip_body_fields (k ∷ ks) (object members) = strip_body_fields ks (object (delete k members))
strip_body_fields (k ∷ ks) (not_object raw) = not_object raw

-- `slices.SortFunc` on the instants. It leaves the order of equal ones open; here they keep theirs.
unfoldable pub insert_sorted : Entry → List Entry → List Entry
insert_sorted e [] = e ∷ []
insert_sorted e (f ∷ fs) =
    let rest = insert_sorted e fs in if leb e.nano f.nano then e ∷ f ∷ fs else f ∷ rest

unfoldable pub sort_entries : List Entry → List Entry
sort_entries [] = []
sort_entries (e ∷ es) = insert_sorted e (sort_entries es)

-- What becomes of a payload of logs.
pub data Forwarded : Type 0 where
  failed below_min_level : Forwarded
  pushed : List Stream → Forwarded

module _ (parse_time : String → Option ℕ) where
  abbrev pub or_fallback : ℕ → Option ℕ → ℕ
  or_fallback fallback none = fallback
  or_fallback fallback (some ts) = ts

  abbrev pub ts_of : ℕ → Option Member → ℕ
  ts_of fallback none = fallback
  ts_of fallback (some (text s)) =
      if str_eq s "" then fallback else or_fallback fallback (parse_time s)
  ts_of fallback (some (number ts)) = ts
  ts_of fallback (some null) = 0
  ts_of fallback (some (other v)) = fallback

  -- Null leaves Go's zero value where it is decoded: an empty module, or the epoch. A "module" that is no text fails the whole decoding.
  abbrev pub module_and_ts : ℕ → Option Member → Option Member → String × ℕ
  module_and_ts fallback none ts = ("unknown", ts_of fallback ts)
  module_and_ts fallback (some (text s)) ts = (or_unknown s, ts_of fallback ts)
  module_and_ts fallback (some (number n)) ts = ("unknown", fallback)
  module_and_ts fallback (some null) ts = ("unknown", ts_of fallback ts)
  module_and_ts fallback (some (other v)) ts = ("unknown", fallback)

  unfoldable pub extract_module_and_ts : Line → ℕ → String × ℕ
  extract_module_and_ts (object members) fallback =
      module_and_ts fallback (lookup "module" members) (lookup "ts" members)
  extract_module_and_ts (not_object raw) fallback = ("unknown", fallback)

  -- `ts`, or `now` where it is outside of Loki's window.
  unfoldable pub clamp : ℕ → ℕ → ℕ
  clamp now ts = if ltb ts (now - past_skew) || ltb (now + future_skew) ts then now else ts

  unfoldable pub entry_of : ℕ → Line → Entry
  entry_of now raw =
      let (mod_name, ts) = extract_module_and_ts raw now in
      record {
        nano = clamp now ts;
        raw = strip_body_fields ("ts" ∷ "level" ∷ []) raw;
        mod_name = mod_name;
      }

  unfoldable pub entries_of : ℕ → List Line → List Entry
  entries_of now [] = []
  entries_of now (l ∷ ls) = entry_of now l ∷ entries_of now ls

  abbrev pub streams : String → String → List Entry → List Stream
  streams validator level [] = []
  streams validator level (e ∷ es) =
      record { validator = validator; level = level; values = e ∷ es } ∷ []

  unfoldable pub to_loki_push : String → Payload → ℕ → List Stream
  to_loki_push validator payload now =
      streams validator payload.level (sort_entries (entries_of now payload.lines))

  -- `ForwardLogs` up to the post to Loki, for a body that decodes to a payload or not.
  unfoldable pub forward_logs : String → String → ℕ → Option Payload → Forwarded
  forward_logs validator min_level now none = failed
  forward_logs validator min_level now (some payload) =
      if not (str_eq min_level "") && ltb (level_rank payload.level) (level_rank min_level)
      then below_min_level
      else pushed (to_loki_push validator payload now)
