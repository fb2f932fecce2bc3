-- ===== src/Gpub/Examples.antt =====
-- The vector of the package's own test, and a short run of the regrouping.
use gno_watchtower.Base.{
  spell_with, append_text, String, ◌≡◌, refl, List, [], ◌∷◌, ℕ, zero, suc, ◌+◌, ◌*◌, ◌^◌, ◌<◌,
  length, some, none, true, All, arith,
}
use gno_watchtower.Gpub.{
  bytes, base64_decode, polymod, polymod_from, hrp_expand, create_checksum, groups, regroup,
  convert_bits, spell, bech32_encode, wrap_key, encode_ed25519, encode_ed25519_from_base64,
}
use gno_watchtower.Gpub.Groups.{horner, IsByte, IsGroup, convert_bits-value}
use gno_watchtower.Gpub.Keys.{encode_ed25519-injective}

program : Unit {0}
unfolding bytes base64_decode polymod polymod_from hrp_expand create_checksum groups regroup
    convert_bits spell spell_with append_text bech32_encode wrap_key encode_ed25519
    encode_ed25519_from_base64
program = tt

abbrev key : String
key = "mKsg1XPxANeixURll0tm+FdymdT7qyOMs8h0lliCK6w="

abbrev encoded : String
encoded =
    "gpub1pggj7ard9eg82cjtv4u52epjx56nzwgjyg9zpx9tyr2h8ugq673v23r9ja9kd7zhw2vaf7atywxt8jr5jevgy2avyp9krz"

test_vector : encode_ed25519_from_base64 key ≡ some encoded
unfolding program
test_vector = refl

abbrev short_key : String
short_key = "AAECAwQFBgcICQoLDA0ODw=="

wrong_length : encode_ed25519_from_base64 short_key ≡ none
unfolding program
wrong_length = refl

abbrev two_bytes : List ℕ
two_bytes = 0xff ∷ 0x01 ∷ []

two_bytes-groups : convert_bits two_bytes 8 5 true ≡ 31 ∷ 28 ∷ 0 ∷ 16 ∷ []
unfolding program
two_bytes-groups = refl

two_bytes-IsByte : All IsByte two_bytes
two_bytes-IsByte = omega arith

-- Two bytes are four groups, the last with four zeros of padding.
convert_bits-value_example :
    All IsGroup (convert_bits two_bytes 8 5 true)
    × (k : ℕ) × (k < 5)
    × (5 * length (convert_bits two_bytes 8 5 true) ≡ 16 + k)
    × (horner 32 0 (convert_bits two_bytes 8 5 true) ≡ horner 256 0 two_bytes * 2 ^ k)
convert_bits-value_example = convert_bits-value two_bytes two_bytes-IsByte

abbrev fill : ℕ → List ℕ
fill zero = []
fill (suc n) = (n + 200) ∷ fill n

-- A key and the same one, its first byte computed.
abbrev other_key : List ℕ
other_key = (77 * 3) ∷ fill 31

encode_ed25519-injective_example : fill 32 ≡ other_key
encode_ed25519-injective_example =
    encode_ed25519-injective (fill 32) other_key (omega arith) (omega arith) refl refl refl
