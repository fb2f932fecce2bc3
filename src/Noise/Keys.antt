-- ===== src/Noise/Keys.antt =====
-- pkg/noise/keys.go: keys in hexadecimal, and a keypair as two files of a directory. The directory is
-- what its files hold; which of them can be written is a parameter.
pub mod RoundTrip
mod Examples
use Prim.Native.Char.{code}
use gno_watchtower.Base.{
  ℕ, ◌+◌, ◌-◌, ◌*◌, ◌/◌, ◌%◌, String, Bool, true, false, ◌&&◌, Option, none, some, List, [], ◌∷◌,
  Assoc, lookup, insert, leb, ◌==◌, if◌then◌else◌, length, trim_space, append_text, spell_with,
}
use gno_watchtower.Noise.Frame.{Bytes}

pub record Keypair : Type 0 where
  pub private : Bytes
  pub public : Bytes

abbrev pub priv_key_filename : String
priv_key_filename = "privkey"

abbrev pub pub_key_filename : String
pub_key_filename = "pubkey"

abbrev pub hex_digits : String
hex_digits = "0123456789abcdef"

-- `hex.EncodeToString`
unfoldable pub encode_to_string : Bytes → String
encode_to_string [] = ""
encode_to_string (b ∷ bs) =
    spell_with hex_digits (b / 16) (spell_with hex_digits (b % 16) (encode_to_string bs))

abbrev pub nibble : ℕ → Option ℕ
nibble c =
    if leb b'0' c && leb c b'9'
    then some (c - b'0')
    else if leb b'a' c && leb c b'f'
    then some (c - b'a' + 10)
    else if leb b'A' c && leb c b'F'
    then some (c - b'A' + 10)
    else none

abbrev pub join_byte : Option ℕ → Option ℕ → Option Bytes → Option Bytes
join_byte (some hi) (some lo) (some bs) = some ((hi * 16 + lo) ∷ bs)
join_byte _ _ _ = none

-- `hex.DecodeString`
unfoldable pub decode_string : String → Option Bytes
decode_string String.[] = some []
decode_string (String.◌∷◌ c String.[]) = none
decode_string (String.◌∷◌ c (String.◌∷◌ d s)) =
    join_byte (nibble (code c)) (nibble (code d)) (decode_string s)

abbrev pub of_length : ℕ → Option Bytes → Option Bytes
of_length want none = none
of_length want (some bs) = if length bs == want then some bs else none

unfoldable pub decode_public_key : String → Option Bytes
decode_public_key s = of_length 32 (decode_string (trim_space s))

abbrev pub load_hex : ℕ → Option String → Option Bytes
load_hex want none = none
load_hex want (some content) = of_length want (decode_string (trim_space content))

unfoldable pub load_hex_file : Assoc String → String → ℕ → Option Bytes
load_hex_file dir name want = load_hex want (lookup name dir)

abbrev pub pair_up : Option Bytes → Option Bytes → Option Keypair
pair_up (some priv) (some pubk) = some (record { private = priv; public = pubk })
pair_up _ _ = none

unfoldable pub load_keypair : Assoc String → Option Keypair
load_keypair dir =
    pair_up (load_hex_file dir priv_key_filename 32) (load_hex_file dir pub_key_filename 32)

-- The directory after the writes, and whether they all succeeded.
module _ (writable : String → Bool) where
  abbrev pub then_public : Assoc String → Bytes → Assoc String × Bool
  then_public dir pubk =
      if writable pub_key_filename
      then (insert pub_key_filename (append_text (encode_to_string pubk) "\n") dir, true)
      else (dir, false)

  unfoldable pub write_keypair : Assoc String → Keypair → Assoc String × Bool
  write_keypair dir kp =
      if length kp.private == 32 && length kp.public == 32
      then if writable priv_key_filename
        then then_public
            (insert priv_key_filename (append_text (encode_to_string kp.private) "\n") dir)
            kp.public
        else (dir, false)
      else (dir, false)
