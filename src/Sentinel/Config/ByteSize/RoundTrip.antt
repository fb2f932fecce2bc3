-- ===== src/Sentinel/Config/ByteSize/RoundTrip.antt =====
-- A size that was written is read back.
use Prim.Native.Char.{Char}
use gno_watchtower.Base.{
  ℕ, ◌*◌, ◌/◌, ◌<◌, String, Bool, true, false, not, Option, none, some, ℤ, pos, negsuc, str_eq,
  eq_iff, append_text, append_text-nil, has_no_space, is_space, trim_space, trim_space-same, mul64,
  mul64-pos, Fits, parse_int, format_int, parse_int-format_int, all_figures, is_figure,
  all_figures-format_int, ◌≡◌, refl, ap, sym, ◌∙◌, inl, inr, Bool-cases, arith,
}
use gno_watchtower.Sentinel.Config.ByteSize.{
  kb, mb, gb, put_back, cut_suffix, to_upper, scaled, parse_size, unmarshal_text, whole,
  marshal_text,
}

has_no_space-append_text :
    (s t : String)
    → all_figures s ≡ true
    → has_no_space t ≡ true
    → has_no_space (append_text s t) ≡ true
unfolding has_no_space append_text all_figures is_space
has_no_space-append_text String.[] t h ht = ht
has_no_space-append_text (String.◌∷◌ c s) t h ht =
    ground (arith, h, has_no_space-append_text s t (ground (arith, h)) ht)

to_upper-append_text :
    (s t : String) → all_figures s ≡ true → to_upper (append_text s t) ≡ append_text s (to_upper t)
unfolding to_upper append_text all_figures
to_upper-append_text String.[] t h = refl
to_upper-append_text (String.◌∷◌ c s) t h =
    rw (to_upper-append_text s t (ground (arith, h))) (ground (arith, h))

-- A suffix that begins with a letter.
abbrev lettered : String → Bool
lettered String.[] = false
lettered (String.◌∷◌ c s) = not (is_figure c)

str_eq-lettered :
    (c : Char) (s suffix : String)
    → is_figure c ≡ true
    → lettered suffix ≡ true
    → str_eq (String.◌∷◌ c s) suffix ≡ false
str_eq-lettered c s suffix h l = elim (Bool-cases (str_eq (String.◌∷◌ c s) suffix)) [
  | inl same ↦
      let e = ap lettered ((eq_iff (String.◌∷◌ c s) suffix).0 same) in
      absurd (ground (arith, e, h, l))
  | inr other ↦ other
]

put_back-append_text :
    (c : Char) (s : String) (o : Option String)
    → put_back (String.◌∷◌ c "") (put_back s o) ≡ put_back (String.◌∷◌ c s) o
unfolding append_text
put_back-append_text c s none = refl
put_back-append_text c s (some rest) = refl

put_back-empty : (o : Option String) → put_back "" o ≡ o
unfolding append_text
put_back-empty none = refl
put_back-empty (some rest) = refl

cut_suffix-append_text :
    (suffix s t : String)
    → lettered suffix ≡ true
    → all_figures s ≡ true
    → cut_suffix suffix (append_text s t) ≡ put_back s (cut_suffix suffix t)
unfolding cut_suffix append_text all_figures
cut_suffix-append_text suffix String.[] t l h = sym (put_back-empty (cut_suffix suffix t))
cut_suffix-append_text suffix (String.◌∷◌ c s) t l h =
    rw
      (
        str_eq-lettered c (append_text s t) suffix (ground (arith, h)) l,
        cut_suffix-append_text suffix s t l (ground (arith, h)),
      )
      (put_back-append_text c s (cut_suffix suffix t))

-- Figures before a unit, or before none, stay as they are.
to_upper-trim_space :
    (s t : String)
    → all_figures s ≡ true
    → has_no_space t ≡ true
    → to_upper t ≡ t
    → to_upper (trim_space (append_text s t)) ≡ append_text s t
to_upper-trim_space s t h ht u =
    ap to_upper (trim_space-same (append_text s t) (has_no_space-append_text s t h ht))
    ∙ to_upper-append_text s t h
    ∙ ap (append_text s) u

parse_size-gb :
    (s : String)
    → all_figures s ≡ true
    → unmarshal_text (append_text s "GB") ≡ scaled gb (parse_int s)
unfolding unmarshal_text to_upper has_no_space is_space parse_size cut_suffix
parse_size-gb s h =
    rw
      (
        to_upper-trim_space s "GB" h refl refl,
        cut_suffix-append_text "GB" s "GB" refl h,
        append_text-nil s,
      )
      refl

parse_size-mb :
    (s : String)
    → all_figures s ≡ true
    → unmarshal_text (append_text s "MB") ≡ scaled mb (parse_int s)
unfolding unmarshal_text to_upper has_no_space is_space parse_size cut_suffix
parse_size-mb s h =
    rw
      (
        to_upper-trim_space s "MB" h refl refl,
        cut_suffix-append_text "GB" s "MB" refl h,
        cut_suffix-append_text "MB" s "MB" refl h,
        append_text-nil s,
      )
      refl

parse_size-kb :
    (s : String)
    → all_figures s ≡ true
    → unmarshal_text (append_text s "KB") ≡ scaled kb (parse_int s)
unfolding unmarshal_text to_upper has_no_space is_space parse_size cut_suffix
parse_size-kb s h =
    rw
      (
        to_upper-trim_space s "KB" h refl refl,
        cut_suffix-append_text "GB" s "KB" refl h,
        cut_suffix-append_text "MB" s "KB" refl h,
        cut_suffix-append_text "KB" s "KB" refl h,
        append_text-nil s,
      )
      refl

parse_size-plain : (s : String) → all_figures s ≡ true → unmarshal_text s ≡ parse_int s
unfolding unmarshal_text to_upper has_no_space is_space parse_size cut_suffix
parse_size-plain s h =
    ap unmarshal_text (sym (append_text-nil s))
    ∙ rw
        (
          to_upper-trim_space s "" h refl refl,
          cut_suffix-append_text "GB" s "" refl h,
          cut_suffix-append_text "MB" s "" refl h,
          cut_suffix-append_text "KB" s "" refl h,
          append_text-nil s,
        )
        refl

scaled-quotient :
    (n q unit : ℕ)
    → q < 9223372036854775808
    → unit < 9223372036854775808
    → n < 9223372036854775808
    → q * unit ≡ n
    → scaled unit (parse_int (format_int (pos q))) ≡ some (pos n)
scaled-quotient n q unit hq hu hn e =
    let product : mul64 (pos q) (pos unit) ≡ pos n =
      mul64-pos q unit hq hu (omega (arith, e, hn)) ∙ ap pos e in
    rw (parse_int-format_int (pos q) hq, product) refl

-- Every size that an int64 holds is read back as it was, whichever unit it was written with.
pub unmarshal_text-marshal_text : (v : ℤ) → Fits v → unmarshal_text (marshal_text v) ≡ some v
unfolding marshal_text
unmarshal_text-marshal_text (pos n) h = elim (Bool-cases (whole gb n)) [
  | inl g ↦ rw g (
      parse_size-gb (format_int (pos (n / gb))) (all_figures-format_int (pos (n / gb)))
      ∙ scaled-quotient n (n / gb) gb (omega (arith, h)) (omega arith) h (ground (arith, g)))
  | inr g ↦ elim (Bool-cases (whole mb n)) [
    | inl m ↦
        rw (g, m)
          (parse_size-mb (format_int (pos (n / mb))) (all_figures-format_int (pos (n / mb)))
            ∙ scaled-quotient n (n / mb) mb (omega (arith, h)) (omega arith) h (ground (arith, m)))
    | inr m ↦ elim (Bool-cases (whole kb n)) [
      | inl k ↦
          rw (g, m, k)
            (parse_size-kb (format_int (pos (n / kb))) (all_figures-format_int (pos (n / kb)))
              ∙ scaled-quotient n (n / kb) kb (omega (arith, h)) (omega arith) h
                  (ground (arith, k)))
      | inr k ↦
          rw (g, m, k)
            (parse_size-plain (format_int (pos n)) (all_figures-format_int (pos n))
              ∙ parse_int-format_int (pos n) h)
    ]
  ]
]
unmarshal_text-marshal_text (negsuc n) h =
    parse_size-plain (format_int (negsuc n)) (all_figures-format_int (negsuc n))
    ∙ parse_int-format_int (negsuc n) h
