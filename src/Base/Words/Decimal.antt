-- ===== src/Base/Words/Decimal.antt =====
-- Integers in decimal: what is printed is parsed.
use Prim.Native.Nat.{ℕ, zero, suc, ◌+◌, ◌*◌, ◌/◌, ◌%◌, ◌<◌}
use Prim.Native.String.{String}
use mathlib.Core.Path.{◌≡◌, refl, sym, ap, ◌∙◌}
use mathlib.Core.Logic.{inl, inr}
use Prim.Native.Char.{Char, code}
use mathlib.Core.Bool.{Bool, true, ◌&&◌, ◌||◌}
use mathlib.Core.Option.{some}
use native.Mathlib.Omega.{arith}
use gno_watchtower.Base.Tests.{ltb, leb, ◌==◌, if◌then◌else◌, Bool-cases}
use gno_watchtower.Base.Int.{ℤ, pos, negsuc}
use gno_watchtower.Base.Lists.{Below-apply}
use gno_watchtower.Base.Text.{spell_with, append_text}
use gno_watchtower.Base.Words.{
  two63, Fits, digits_value, digits, in_range_pos, in_range_neg, parse_int,
}

-- The decimal digits of a number before a text, on fuel beyond the number.
decimal : ℕ → ℕ → String → String
decimal zero n tail = tail
decimal (suc fuel) n tail =
    let digit = spell_with "0123456789" (n % 10) tail in
    let more = decimal fuel (n / 10) digit in if ltb n 10 then digit else more

-- `strconv.FormatInt(i, 10)`
unfoldable pub format_int : ℤ → String
unfolding decimal
format_int (pos n) = decimal (suc n) n ""
format_int (negsuc n) = append_text "-" (decimal (suc (suc n)) (suc n) "")

digits_value-digit :
    (v i : ℕ) (tail : String)
    → i < 10
    → digits_value v (spell_with "0123456789" i tail) ≡ digits_value (v * 10 + i) tail
unfolding digits_value spell_with
digits_value-digit v i tail h =
    Below-apply 10
      (λ j. digits_value v (spell_with "0123456789" j tail) ≡ digits_value (v * 10 + j) tail) i
      (ground arith) h

digits_value-decimal :
    (fuel n : ℕ) (tail : String)
    → n < fuel
    → digits_value 0 (decimal fuel n tail) ≡ digits_value n tail
unfolding decimal
digits_value-decimal zero n tail h = absurd (omega (arith, h))
digits_value-decimal (suc fuel) n tail h = elim (Bool-cases (ltb n 10)) [
  | inl small ↦
      let whole : 0 * 10 + n % 10 ≡ n = ground (arith, small) in
      rw small
        (digits_value-digit 0 (n % 10) tail (omega arith) ∙ ap (λ v. digits_value v tail) whole)
  | inr large ↦
      let below : n / 10 < fuel = ground (arith, large, h) in
      let whole : n / 10 * 10 + n % 10 ≡ n = omega arith in
      rw large (
        digits_value-decimal fuel (n / 10) (spell_with "0123456789" (n % 10) tail) below
        ∙ digits_value-digit (n / 10) (n % 10) tail (omega arith)
        ∙ ap (λ v. digits_value v tail) whole)
]

parse_int-digit :
    (i : ℕ) (tail : String)
    → i < 10
    → parse_int (spell_with "0123456789" i tail)
      ≡ in_range_pos (digits_value 0 (spell_with "0123456789" i tail))
unfolding parse_int digits spell_with
parse_int-digit i tail h =
    Below-apply 10
      (λ j.
        parse_int (spell_with "0123456789" j tail)
        ≡ in_range_pos (digits_value 0 (spell_with "0123456789" j tail)))
      i (ground arith) h

digits-digit :
    (i : ℕ) (tail : String)
    → i < 10
    → digits (spell_with "0123456789" i tail) ≡ digits_value 0 (spell_with "0123456789" i tail)
unfolding digits spell_with
digits-digit i tail h =
    Below-apply 10
      (λ j.
        digits (spell_with "0123456789" j tail) ≡ digits_value 0 (spell_with "0123456789" j tail))
      i (ground arith) h

-- What is printed begins with a digit.
decimal-head :
    (fuel n : ℕ) (tail : String)
    → n < fuel
    → (i : ℕ) × (rest : String) × (i < 10) × (decimal fuel n tail ≡ spell_with "0123456789" i rest)
unfolding decimal
decimal-head zero n tail h = absurd (omega (arith, h))
decimal-head (suc fuel) n tail h = elim (Bool-cases (ltb n 10)) [
  | inl small ↦ rw small (n % 10, tail, omega arith, refl)
  | inr large ↦ rw large (
      decimal-head fuel (n / 10) (spell_with "0123456789" (n % 10) tail) (ground (arith, large, h)))
]

digits-decimal : (n : ℕ) → digits (decimal (suc n) n "") ≡ some n
unfolding digits_value
digits-decimal n =
    let (i, rest, lt, e) = decimal-head (suc n) n "" (omega arith) in
    ap digits e
    ∙ digits-digit i rest lt
    ∙ ap (digits_value 0) (sym e)
    ∙ digits_value-decimal (suc n) n "" (omega arith)

parse_int-decimal : (n : ℕ) → parse_int (decimal (suc n) n "") ≡ in_range_pos (some n)
unfolding digits_value
parse_int-decimal n =
    let (i, rest, lt, e) = decimal-head (suc n) n "" (omega arith) in
    ap parse_int e
    ∙ parse_int-digit i rest lt
    ∙ ap (λ s. in_range_pos (digits_value 0 s)) (sym e)
    ∙ ap in_range_pos (digits_value-decimal (suc n) n "" (omega arith))

parse_int-minus : (s : String) → parse_int (append_text "-" s) ≡ in_range_neg (digits s)
unfolding parse_int append_text
parse_int-minus s = refl

in_range_neg-some : (n : ℕ) → n < two63 → in_range_neg (some (suc n)) ≡ some (negsuc n)
in_range_neg-some n h = ground (arith, h)

-- Every int64 is printed and parsed back.
pub parse_int-format_int : (a : ℤ) → Fits a → parse_int (format_int a) ≡ some a
unfolding format_int
parse_int-format_int (pos n) h = parse_int-decimal n ∙ ground (arith, h)
parse_int-format_int (negsuc n) h =
    parse_int-minus (decimal (suc (suc n)) (suc n) "")
    ∙ ap in_range_neg (digits-decimal (suc n))
    ∙ in_range_neg-some n h

-- What a printed integer consists of.
abbrev pub is_figure : Char → Bool
is_figure c = code c == b'-' || (leb b'0' (code c) && leb (code c) b'9')

unfoldable pub all_figures : String → Bool
all_figures String.[] = true
all_figures (String.◌∷◌ c s) = let rest = all_figures s in is_figure c && rest

all_figures-digit :
    (i : ℕ) (tail : String)
    → i < 10
    → all_figures (spell_with "0123456789" i tail) ≡ all_figures tail
unfolding all_figures spell_with
all_figures-digit i tail h =
    Below-apply 10 (λ j. all_figures (spell_with "0123456789" j tail) ≡ all_figures tail) i
      (ground arith) h

all_figures-decimal :
    (fuel n : ℕ) (tail : String)
    → all_figures tail ≡ true
    → all_figures (decimal fuel n tail) ≡ true
unfolding decimal
all_figures-decimal zero n tail h = h
all_figures-decimal (suc fuel) n tail h =
    let digit = all_figures-digit (n % 10) tail (omega arith) ∙ h in
    elim (Bool-cases (ltb n 10)) [
      | inl small ↦ rw small digit
      | inr large ↦
          rw large (all_figures-decimal fuel (n / 10) (spell_with "0123456789" (n % 10) tail) digit)
    ]

pub all_figures-format_int : (a : ℤ) → all_figures (format_int a) ≡ true
unfolding format_int all_figures append_text
all_figures-format_int (pos n) = all_figures-decimal (suc n) n "" refl
all_figures-format_int (negsuc n) = all_figures-decimal (suc (suc n)) (suc n) "" refl
