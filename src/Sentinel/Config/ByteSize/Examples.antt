-- ===== src/Sentinel/Config/ByteSize/Examples.antt =====
-- Sizes as texts.
use gno_watchtower.Base.{
  some, pos, negsuc, ◌≡◌, refl, arith, append_text, spell_with, trim_space, format_int, parse_int,
  mul64,
}
use gno_watchtower.Sentinel.Config.ByteSize.{
  unmarshal_text, marshal_text, parse_size, cut_suffix, to_upper,
}
use gno_watchtower.Sentinel.Config.ByteSize.RoundTrip.{unmarshal_text-marshal_text}

unmarshal_text-marshal_text_example :
    unmarshal_text (marshal_text (pos 3145728)) ≡ some (pos 3145728)
unmarshal_text-marshal_text_example = unmarshal_text-marshal_text (pos 3145728) (omega arith)

written-unit : marshal_text (pos 3145728) ≡ "3MB"
unfolding marshal_text format_int append_text spell_with
written-unit = refl

lower_case-unit : unmarshal_text " 512kb" ≡ some (pos 524288)
unfolding unmarshal_text trim_space to_upper parse_size cut_suffix append_text parse_int mul64
    spell_with
lower_case-unit = refl

-- The product wraps around, and no error is returned.
wrapped-product : unmarshal_text "9223372036854775807GB" ≡ some (negsuc 1073741823)
unfolding unmarshal_text trim_space to_upper parse_size cut_suffix append_text parse_int mul64
wrapped-product = refl
