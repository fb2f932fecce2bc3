-- ===== src/Base/Text.antt =====
-- What the program uses of Go's `strings`, on native texts. A text is its code points, which are
-- Go's bytes where the text is ASCII.
use Prim.Native.Nat.{ℕ, zero, suc}
use mathlib.Core.Path.{◌≡◌, refl}
use native.Mathlib.Omega.{arith}
use Prim.Native.Char.{Char, code}
use Prim.Native.String.{String}
use mathlib.Core.Bool.{Bool, true, false, ◌&&◌, ◌||◌, not}
use mathlib.Core.Option.{Option, none, some}
use mathlib.Core.List.{List, [], ◌∷◌}
use gno_watchtower.Base.Tests.{leb, ◌==◌, if◌then◌else◌}

-- `strings.CutPrefix(s, p)`: the rest of `s` behind `p`.
unfoldable pub cut_prefix : String → String → Option String
cut_prefix s String.[] = some s
cut_prefix String.[] (String.◌∷◌ d p) = none
cut_prefix (String.◌∷◌ c s) (String.◌∷◌ d p) =
    let rest = cut_prefix s p in if code c == code d then rest else none

-- `strings.HasPrefix(s, p)`
unfoldable pub has_prefix : String → String → Bool
unfolding cut_prefix
has_prefix s p = elim (cut_prefix s p) [ none ↦ false | some _ ↦ true ]

-- `unicode.IsSpace`
unfoldable pub is_space : ℕ → Bool
is_space c =
    (leb 9 c && leb c 13)
    || c == 0x20
    || c == 0x85
    || c == 0xA0
    || c == 0x1680
    || (leb 0x2000 c && leb c 0x200A)
    || c == 0x2028
    || c == 0x2029
    || c == 0x202F
    || c == 0x205F
    || c == 0x3000

trim_left : String → String
trim_left String.[] = String.[]
trim_left (String.◌∷◌ c s) =
    let rest = trim_left s in if is_space (code c) then rest else String.◌∷◌ c s

cons_unless_blank : Char → String → String
cons_unless_blank c String.[] = if is_space (code c) then String.[] else String.◌∷◌ c String.[]
cons_unless_blank c s = String.◌∷◌ c s

trim_right : String → String
trim_right String.[] = String.[]
trim_right (String.◌∷◌ c s) = cons_unless_blank c (trim_right s)

-- `strings.TrimSpace`
unfoldable pub trim_space : String → String
unfolding is_space trim_left trim_right cons_unless_blank
trim_space s = trim_left (trim_right s)

unfoldable pub push_head : Char → List String → List String
push_head c [] = String.◌∷◌ c String.[] ∷ []
push_head c (s ∷ r) = String.◌∷◌ c s ∷ r

-- `strings.Split(s, sep)`, for a separator of one character.
unfoldable pub split : ℕ → String → List String
unfolding push_head
split sep String.[] = "" ∷ []
split sep (String.◌∷◌ c s) =
    let rest = split sep s in if code c == sep then "" ∷ rest else push_head c rest

-- `parts[len(parts)-1]`; `split` never returns an empty list.
unfoldable pub last_of : List String → String
last_of [] = ""
last_of (s ∷ []) = s
last_of (s ∷ t ∷ r) = last_of (t ∷ r)

-- Whether a character occurs.
unfoldable pub occurs : ℕ → String → Bool
occurs x String.[] = false
occurs x (String.◌∷◌ c s) = code c == x || occurs x s

-- `s + t`
unfoldable pub append_text : String → String → String
append_text String.[] t = t
append_text (String.◌∷◌ c s) t = String.◌∷◌ c (append_text s t)

-- `strings.Join`
unfoldable pub join : String → List String → String
join sep [] = ""
join sep (s ∷ []) = s
join sep (s ∷ t ∷ rest) = append_text s (append_text sep (join sep (t ∷ rest)))

-- `alphabet[i]`, before a text; an index is within the alphabet.
unfoldable pub spell_with : String → ℕ → String → String
spell_with String.[] i tail = tail
spell_with (String.◌∷◌ c cs) i tail = elim i [
  | zero ↦ String.◌∷◌ c tail
  | suc j ↦ spell_with cs j tail
]

-- No character is white space.
unfoldable pub has_no_space : String → Bool
has_no_space String.[] = true
has_no_space (String.◌∷◌ c s) = not (is_space (code c)) && has_no_space s

newline-blank : is_space 10 ≡ true
unfolding is_space
newline-blank = refl

trim_right-newline : (s : String) → has_no_space s ≡ true → trim_right (append_text s "\n") ≡ s
unfolding trim_right cons_unless_blank append_text has_no_space
trim_right-newline String.[] h = rw newline-blank refl
trim_right-newline (String.◌∷◌ c String.[]) h = rw newline-blank (ground (arith, h))
trim_right-newline (String.◌∷◌ c (String.◌∷◌ d s)) h =
    rw (trim_right-newline (String.◌∷◌ d s) (ground (arith, h))) refl

trim_left-same : (s : String) → has_no_space s ≡ true → trim_left s ≡ s
unfolding trim_left has_no_space
trim_left-same String.[] h = refl
trim_left-same (String.◌∷◌ c s) h = ground (arith, h)

-- A line that ends in a newline, trimmed.
pub trim_space-newline : (s : String) → has_no_space s ≡ true → trim_space (append_text s "\n") ≡ s
unfolding trim_space
trim_space-newline s h = rw (trim_right-newline s h) (trim_left-same s h)

trim_right-same : (s : String) → has_no_space s ≡ true → trim_right s ≡ s
unfolding trim_right cons_unless_blank has_no_space
trim_right-same String.[] h = refl
trim_right-same (String.◌∷◌ c String.[]) h = ground (arith, h)
trim_right-same (String.◌∷◌ c (String.◌∷◌ d s)) h =
    rw (trim_right-same (String.◌∷◌ d s) (ground (arith, h))) refl

-- A text without white space stays as it is.
pub trim_space-same : (s : String) → has_no_space s ≡ true → trim_space s ≡ s
unfolding trim_space
trim_space-same s h = rw (trim_right-same s h) (trim_left-same s h)

pub append_text-nil : (s : String) → append_text s "" ≡ s
unfolding append_text
append_text-nil String.[] = refl
append_text-nil (String.◌∷◌ c s) = rw (append_text-nil s) refl
