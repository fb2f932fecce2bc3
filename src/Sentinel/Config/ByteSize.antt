-- ===== src/Sentinel/Config/ByteSize.antt =====
-- internal/sentinel/config/config.go: `ByteSize`, a size in bytes as a text with a unit.
pub mod RoundTrip
mod Examples
use Prim.Native.Char.{code}
use gno_watchtower.Base.{
  ℕ, ◌-◌, ◌*◌, ◌/◌, ◌%◌, String, Bool, true, false, ◌&&◌, Option, none, some, List, [], ◌∷◌, ℤ, pos,
  negsuc, str_eq, ltb, leb, ◌==◌, if◌then◌else◌, append_text, spell_with, trim_space, mul64,
  parse_int, format_int,
}

abbrev pub kb : ℕ
kb = 1024

abbrev pub mb : ℕ
mb = 1048576

abbrev pub gb : ℕ
gb = 1073741824

abbrev pub put_back : String → Option String → Option String
put_back head none = none
put_back head (some rest) = some (append_text head rest)

-- `strings.HasSuffix(s, suffix)` with `strings.TrimSuffix(s, suffix)`: what stands before the suffix.
unfoldable pub cut_suffix : String → String → Option String
cut_suffix suffix String.[] = if str_eq "" suffix then some "" else none
cut_suffix suffix (String.◌∷◌ c s) =
    let rest = cut_suffix suffix s in
    if str_eq (String.◌∷◌ c s) suffix then some "" else put_back (String.◌∷◌ c "") rest

-- `strings.ToUpper` on ASCII letters. No other letter has a capital that `ParseInt` or a unit accepts.
unfoldable pub to_upper : String → String
to_upper String.[] = ""
to_upper (String.◌∷◌ c s) =
    let rest = to_upper s in
    if leb b'a' (code c) && leb (code c) b'z'
    then spell_with "ABCDEFGHIJKLMNOPQRSTUVWXYZ" (code c - b'a') rest
    else String.◌∷◌ c rest

abbrev pub units : List (String × ℕ)
units = ("GB", gb) ∷ ("MB", mb) ∷ ("KB", kb) ∷ []

abbrev pub scaled : ℕ → Option ℤ → Option ℤ
scaled mult none = none
scaled mult (some n) = some (mul64 n (pos mult))

abbrev pub with_unit : ℕ → Option String → Option ℤ → Option ℤ
with_unit mult none rest = rest
with_unit mult (some figures) rest = scaled mult (parse_int figures)

-- The loop over the units.
unfoldable pub parse_size : List (String × ℕ) → String → Option ℤ
parse_size [] s = parse_int s
parse_size ((suffix, mult) ∷ rest) s = with_unit mult (cut_suffix suffix s) (parse_size rest s)

-- `UnmarshalText`, whose `none` is its error.
unfoldable pub unmarshal_text : String → Option ℤ
unmarshal_text text = parse_size units (to_upper (trim_space text))

abbrev pub whole : ℕ → ℕ → Bool
whole unit n = ltb 0 n && n % unit == 0

-- `MarshalText`
unfoldable pub marshal_text : ℤ → String
marshal_text (pos n) =
    if whole gb n
    then append_text (format_int (pos (n / gb))) "GB"
    else if whole mb n
    then append_text (format_int (pos (n / mb))) "MB"
    else if whole kb n
    then append_text (format_int (pos (n / kb))) "KB"
    else format_int (pos n)
marshal_text (negsuc n) = format_int (negsuc n)
