-- ===== src/Json.antt =====
-- The decoded form of a JSON text, and what Go's `encoding/json` makes of it for the types that the
-- source decodes into. An object's members are distinct and spelled as the source's tags; null leaves
-- a field at its zero value, as an absent member does.
pub mod Marshalled
use Prim.Native.Char.{Char, code}
use gno_watchtower.Base.{
  ℕ, String, Bool, true, false, ◌&&◌, ◌||◌, Option, none, some, List, [], ◌∷◌, Assoc, insert, leb,
  ◌==◌, if◌then◌else◌, str_eq, ℤ, pos, parse_int, parse_uint,
}

mutual
  pub data Json : Type 0 where
    null : Json
    boolean : Bool → Json
    number : String → Json
    text : String → Json
    array : Elements → Json
    object : Members → Json

  pub data Elements : Type 0 where
    nil : Elements
    cons : Json → Elements → Elements

  pub data Members : Type 0 where
    end : Members
    member : String → Json → Members → Members

-- `do` blocks: the first field that does not decode fails the whole.
infixl 5 ◌>>=◌
abbrev pub ◌>>=◌ {ℓ κ} : {A : Type ℓ} {B : Type κ} → Option A → (A → Option B) → Option B
none >>= f = none
some a >>= f = f a

unfoldable pub field : String → Members → Json
field k end = null
field k (member j v rest) = if str_eq j k then v else field k rest

-- Into a struct or a map.
unfoldable pub as_object : Json → Option Members
as_object null = some end
as_object (object fields) = some fields
as_object _ = none

-- Into a `string`.
unfoldable pub as_text : Json → Option String
as_text null = some ""
as_text (text s) = some s
as_text _ = none

-- Into a `bool`.
unfoldable pub as_bool : Json → Option Bool
as_bool null = some false
as_bool (boolean b) = some b
as_bool _ = none

-- Into a `float64`, kept as its literal; a literal beyond the range of float64 is not modelled.
unfoldable pub as_float : Json → Option String
as_float null = some "0"
as_float (number s) = some s
as_float _ = none

-- Into an `int64`.
unfoldable pub as_int64 : Json → Option ℤ
as_int64 null = some (pos 0)
as_int64 (number s) = parse_int s
as_int64 _ = none

-- Into a `uint64`.
unfoldable pub as_uint64 : Json → Option ℕ
as_uint64 null = some 0
as_uint64 (number s) = parse_uint s
as_uint64 _ = none

abbrev is_digit : Char → Bool
is_digit c = leb 48 (code c) && leb (code c) 57

-- Where a number may stand: before its first digit, behind a leading 0, among its digits, behind the
-- point, among the decimals, behind the E, behind the exponent's sign, among its digits.
pub data Place : Type 0 where
  start signed leading whole point decimals exponent exponent_signed exponent_digits bad : Place

abbrev is_e : Char → Bool
is_e c = code c == b'e' || code c == b'E'

abbrev pub next : Place → Char → Place
next start c =
    if code c == b'-'
    then signed
    else if code c == b'0'
    then leading
    else if is_digit c
    then whole
    else bad
next signed c = if code c == b'0' then leading else if is_digit c then whole else bad
next leading c = if code c == b'.' then point else if is_e c then exponent else bad
next whole c =
    if is_digit c then whole else if code c == b'.' then point else if is_e c then exponent else bad
next point c = if is_digit c then decimals else bad
next decimals c = if is_digit c then decimals else if is_e c then exponent else bad
next exponent c =
    if code c == b'+' || code c == b'-'
    then exponent_signed
    else if is_digit c
    then exponent_digits
    else bad
next exponent_signed c = if is_digit c then exponent_digits else bad
next exponent_digits c = if is_digit c then exponent_digits else bad
next bad c = bad

abbrev pub is_end : Place → Bool
is_end leading = true
is_end whole = true
is_end decimals = true
is_end exponent_digits = true
is_end _ = false

unfoldable pub number_from : Place → String → Bool
number_from p String.[] = is_end p
number_from p (String.◌∷◌ c s) = number_from (next p c) s

-- The package's `isValidNumber`.
unfoldable pub is_valid_number : String → Bool
unfolding number_from
is_valid_number s = number_from start s

-- Into a `json.Number`: a number, or a text that spells one. Its zero value is the empty text.
unfoldable pub as_number : Json → Option String
as_number null = some ""
as_number (number s) = some s
as_number (text s) = if is_valid_number s then some s else none
as_number _ = none

-- Into a slice, of elements that `f` decodes.
abbrev pub into_list {ℓ} : {A : Type ℓ} → (Json → Option A) → Elements → Option (List A)
into_list f nil = some []
into_list f (cons j rest) = do a ← f j; l ← into_list f rest; some (a ∷ l)

unfoldable pub as_list {ℓ} : {A : Type ℓ} → (Json → Option A) → Json → Option (List A)
as_list f null = some []
as_list f (array items) = into_list f items
as_list f _ = none

-- Into a map with string keys: a member replaces an earlier one of its key.
abbrev pub into_map {ℓ} : {A : Type ℓ} → (Json → Option A) → Assoc A → Members → Option (Assoc A)
into_map f m end = some m
into_map f m (member k j rest) = do a ← f j; into_map f (insert k a m) rest

unfoldable pub as_map {ℓ} : {A : Type ℓ} → (Json → Option A) → Json → Option (Assoc A)
as_map f j = do fields ← as_object j; into_map f [] fields

-- `json.Marshal` of a map with string keys: `g` marshals an element.
unfoldable pub members_of {ℓ} : {A : Type ℓ} → (A → Json) → Assoc A → Members
members_of g [] = end
members_of g ((k, a) ∷ rest) = member k (g a) (members_of g rest)
