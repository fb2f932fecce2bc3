-- ===== src/Gpub.antt =====
-- pkg/gpub/gpub.go: the bech32 form of a validator's key. A byte is a number below 256; the texts are
-- ASCII. Go's `encoding/base64` stands as what StdEncoding decodes.
pub mod Groups
pub mod Keys
mod Examples
use Prim.Native.Nat.{bit_and, bit_xor}
use Prim.Native.Char.{Char, code}
use gno_watchtower.Base.{
  spell_with, append_text, ℕ, zero, suc, ◌+◌, ◌-◌, ◌*◌, ◌/◌, ◌%◌, ◌^◌, String, Bool, true, false,
  ◌&&◌, ◌||◌, Option, none, some, List, [], ◌∷◌, ◌++◌, map, leb, ltb, ◌==◌, if◌then◌else◌, length,
  two64,
}

abbrev pub two32 : ℕ
two32 = 4294967296

-- `[]byte(s)`
unfoldable pub bytes : String → List ℕ
bytes String.[] = []
bytes (String.◌∷◌ c s) = code c ∷ bytes s

-- The value of a character of base64's standard alphabet.
abbrev sextet : ℕ → Option ℕ
sextet c =
    if leb b'A' c && leb c b'Z'
    then some (c - b'A')
    else if leb b'a' c && leb c b'z'
    then some (c - b'a' + 26)
    else if leb b'0' c && leb c b'9'
    then some (c - b'0' + 52)
    else if c == b'+'
    then some 62
    else if c == b'/'
    then some 63
    else none

abbrev drop_newlines : List ℕ → List ℕ
drop_newlines [] = []
drop_newlines (c ∷ s) = let rest = drop_newlines s in if c == 10 || c == 13 then rest else c ∷ rest

abbrev prepend : List ℕ → Option (List ℕ) → Option (List ℕ)
prepend xs none = none
prepend xs (some ys) = some (xs ++ ys)

-- Four sextets are three bytes.
abbrev whole_quad : Option ℕ → Option ℕ → Option ℕ → Option ℕ → Option (List ℕ) → Option (List ℕ)
whole_quad (some a) (some b) (some c) (some d) rest =
    prepend ((a * 4 + b / 16) ∷ (b % 16 * 16 + c / 4) ∷ (c % 4 * 64 + d) ∷ []) rest
whole_quad _ _ _ _ rest = none

abbrev padded_once : Option ℕ → Option ℕ → Option ℕ → Option (List ℕ)
padded_once (some a) (some b) (some c) = some ((a * 4 + b / 16) ∷ (b % 16 * 16 + c / 4) ∷ [])
padded_once _ _ _ = none

abbrev padded_twice : Option ℕ → Option ℕ → Option (List ℕ)
padded_twice (some a) (some b) = some ((a * 4 + b / 16) ∷ [])
padded_twice _ _ = none

-- The padding stands only at the end.
abbrev last_quad : ℕ → ℕ → ℕ → Option (List ℕ)
last_quad a b c =
    if c == b'='
    then padded_twice (sextet a) (sextet b)
    else padded_once (sextet a) (sextet b) (sextet c)

quads : List ℕ → Option (List ℕ)
quads [] = some []
quads (a ∷ b ∷ c ∷ d ∷ []) =
    if d == b'='
    then last_quad a b c
    else whole_quad (sextet a) (sextet b) (sextet c) (sextet d) (some [])
quads (a ∷ b ∷ c ∷ d ∷ e ∷ s) =
    whole_quad (sextet a) (sextet b) (sextet c) (sextet d) (quads (e ∷ s))
quads _ = none

-- `base64.StdEncoding.DecodeString`
unfoldable pub base64_decode : String → Option (List ℕ)
unfolding bytes quads
base64_decode s = quads (drop_newlines (bytes s))

-- `for bits >= toBits`, on fuel: a round takes `to` of the bits. The groups, and the bits left.
unfoldable pub groups : ℕ → ℕ → ℕ → ℕ → List ℕ × ℕ
groups zero to acc bits = ([], bits)
groups (suc fuel) to acc bits =
    let (rest, left) = groups fuel to acc (bits - to) in
    if leb to bits then (acc / 2 ^ (bits - to) % 2 ^ to ∷ rest, left) else ([], bits)

-- `acc<<from | b`, on 64 bits, for a `b` of `from` bits.
abbrev pub shift_in : ℕ → ℕ → ℕ → ℕ
shift_in from acc b = (acc * 2 ^ from + b) % two64

abbrev pub last_group : ℕ → ℕ → ℕ → Bool → List ℕ
last_group to acc bits pad = if pad && ltb 0 bits then acc * 2 ^ (to - bits) % 2 ^ to ∷ [] else []

-- The loop of `convertBits` from an accumulator on. The fuel of a round is the bits at hand.
unfoldable pub regroup : ℕ → ℕ → Bool → ℕ → ℕ → List ℕ → List ℕ
regroup from to pad acc bits [] = last_group to acc bits pad
regroup from to pad acc bits (b ∷ rest) =
    let (out, left) = groups (bits + from) to (shift_in from acc b) (bits + from) in
    out ++ regroup from to pad (shift_in from acc b) left rest

unfoldable pub convert_bits : List ℕ → ℕ → ℕ → Bool → List ℕ
convert_bits bs from to pad = regroup from to pad 0 0 bs

-- The generator's coefficients, from bit `i` of `top` on.
abbrev pub mix_generator : List ℕ → ℕ → ℕ → ℕ
mix_generator [] top chk = chk
mix_generator (g ∷ gs) top chk =
    mix_generator gs (top / 2) (if top % 2 == 1 then bit_xor chk g else chk)

abbrev pub bech32_gen : List ℕ
bech32_gen = 0x3b6a57b2 ∷ 0x26508e6d ∷ 0x1ea119fa ∷ 0x3d4233dd ∷ 0x2a1462b3 ∷ []

unfoldable pub polymod_from : ℕ → List ℕ → ℕ
polymod_from chk [] = chk
polymod_from chk (v ∷ vs) =
    polymod_from (mix_generator bech32_gen (chk / 2 ^ 25) (bit_xor (chk % 2 ^ 25 * 2 ^ 5) v)) vs

unfoldable pub polymod : List ℕ → ℕ
polymod = polymod_from 1

unfoldable pub hrp_expand : String → List ℕ
unfolding bytes
hrp_expand hrp = map (λ c. c / 2 ^ 5) (bytes hrp) ++ 0 ∷ map (λ c. c % 2 ^ 5) (bytes hrp)

-- Six groups of five bits, the highest first.
abbrev pub six_groups : ℕ → List ℕ
six_groups pm =
    pm / 2 ^ 25 % 2 ^ 5
    ∷ pm / 2 ^ 20 % 2 ^ 5
    ∷ pm / 2 ^ 15 % 2 ^ 5
    ∷ pm / 2 ^ 10 % 2 ^ 5
    ∷ pm / 2 ^ 5 % 2 ^ 5
    ∷ pm % 2 ^ 5
    ∷ []

unfoldable pub create_checksum : String → List ℕ → List ℕ
create_checksum hrp groups =
    six_groups (bit_xor (polymod (hrp_expand hrp ++ groups ++ 0 ∷ 0 ∷ 0 ∷ 0 ∷ 0 ∷ 0 ∷ [])) 1)

abbrev pub charset : String
charset = "qpzry9x8gf2tvdw0s3jn54khce6mua7l"

unfoldable pub spell : List ℕ → String
spell [] = ""
spell (g ∷ gs) = spell_with charset g (spell gs)

unfoldable pub bech32_encode : String → List ℕ → String
unfolding spell append_text
bech32_encode hrp bs =
    let d5 = convert_bits bs 8 5 true in
    append_text hrp (append_text "1" (spell (d5 ++ create_checksum hrp d5)))

-- The protobuf envelope of a key.
unfoldable pub wrap_key : List ℕ → List ℕ
wrap_key pk = 0x0a ∷ 17 ∷ bytes "/tm.PubKeyEd25519" ++ 0x12 ∷ 0x22 ∷ 0x0a ∷ 0x20 ∷ pk

unfoldable pub encode_ed25519 : List ℕ → String
encode_ed25519 pk = bech32_encode "gpub" (wrap_key pk)

abbrev pub check_key : Option (List ℕ) → Option String
check_key none = none
check_key (some raw) = if length raw == 32 then some (encode_ed25519 raw) else none

unfoldable pub encode_ed25519_from_base64 : String → Option String
encode_ed25519_from_base64 b64 = check_key (base64_decode b64)
