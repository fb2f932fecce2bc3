-- ===== src/Base/Words.antt =====
-- Go's `int64` (and `int`, on 64-bit targets): arithmetic that wraps around modulo 2^64.
pub mod Decimal
use Prim.Native.Nat.{ℕ, ◌+◌, ◌-◌, ◌*◌, ◌%◌, ◌<◌}
use Prim.Native.Char.{code}
use Prim.Native.String.{String}
use mathlib.Core.Path.{◌≡◌, refl}
use mathlib.Core.Bool.{◌&&◌}
use mathlib.Core.Option.{Option, none, some}
use native.Mathlib.Omega.{arith}
use gno_watchtower.Base.Tests.{ltb, leb, ◌==◌, if◌then◌else◌}
use gno_watchtower.Base.Int.{ℤ, pos, negsuc}

abbrev pub two64 : ℕ
two64 = 18446744073709551616

abbrev pub two63 : ℕ
two63 = 9223372036854775808

-- The bit pattern of an integer, as a number below 2^64.
unfoldable pub word : ℤ → ℕ
word (pos a) = a % two64
word (negsuc a) = two64 - 1 - a % two64

-- The integer that a bit pattern stands for.
unfoldable pub int64 : ℕ → ℤ
int64 w = if ltb (w % two64) two63 then pos (w % two64) else negsuc (two64 - 1 - w % two64)

unfoldable pub mul64 : ℤ → ℤ → ℤ
unfolding word int64
mul64 a b = int64 (word a * word b)

unfoldable pub add64 : ℤ → ℤ → ℤ
unfolding word int64
add64 a b = int64 (word a + word b)

abbrev pub Fits : ℤ → Type 0
Fits (pos a) = a < two63
Fits (negsuc a) = a < two63

pub int64-word : (a : ℤ) → Fits a → int64 (word a) ≡ a
unfolding int64 word
int64-word (pos a) h = ground arith
int64-word (negsuc a) h = ground arith

pub int64-Fits : (w : ℕ) → Fits (int64 w)
unfolding int64
int64-Fits w = ground arith

word-int64 : (w : ℕ) → word (int64 w) ≡ w % two64
unfolding int64 word
word-int64 w = ground arith

int64-congr : (v w : ℕ) → v % two64 ≡ w % two64 → int64 v ≡ int64 w
unfolding int64
int64-congr v w e = rw e refl

-- Sums may be wrapped around at each step or at the end.
pub add64-int64 : (w : ℕ) (p : ℤ) → add64 (int64 w) p ≡ int64 (w + word p)
unfolding add64
add64-int64 w p = int64-congr (word (int64 w) + word p) (w + word p) (omega (arith, word-int64 w))

-- A product that fits is the exact one.
pub mul64-pos :
    (a b : ℕ) → a < two63 → b < two63 → a * b < two63 → mul64 (pos a) (pos b) ≡ pos (a * b)
unfolding mul64
mul64-pos a b ha hb h = ground (arith)

pub add64-pos : (a b : ℕ) → a + b < two63 → add64 (pos a) (pos b) ≡ pos (a + b)
unfolding add64
add64-pos a b h = ground (arith)

digits_value : ℕ → String → Option ℕ
digits_value n String.[] = some n
digits_value n (String.◌∷◌ c s) =
    let rest = digits_value (n * 10 + (code c - 48)) s in
    if leb 48 (code c) && leb (code c) 57 then rest else none

-- One digit or more.
digits : String → Option ℕ
unfolding digits_value
digits String.[] = none
digits s = digits_value 0 s

abbrev in_range_pos : Option ℕ → Option ℤ
in_range_pos none = none
in_range_pos (some n) = if ltb n two63 then some (pos n) else none

abbrev in_range_neg : Option ℕ → Option ℤ
in_range_neg none = none
in_range_neg (some n) =
    if n == 0 then some (pos 0) else if leb n two63 then some (negsuc (n - 1)) else none

-- `strconv.ParseInt(s, 10, 64)` and `strconv.Atoi(s)`: a sign or none, then digits, in range.
unfoldable pub parse_int : String → Option ℤ
unfolding digits
parse_int String.[] = none
parse_int (String.◌∷◌ c s) =
    if code c == b'-'
    then in_range_neg (digits s)
    else if code c == b'+'
    then in_range_pos (digits s)
    else in_range_pos (digits (String.◌∷◌ c s))

abbrev in_range_64 : Option ℕ → Option ℕ
in_range_64 none = none
in_range_64 (some n) = if ltb n two64 then some n else none

-- `strconv.ParseUint(s, 10, 64)`: digits only, in range.
unfoldable pub parse_uint : String → Option ℕ
unfolding digits
parse_uint s = in_range_64 (digits s)
