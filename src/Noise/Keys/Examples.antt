-- ===== src/Noise/Keys/Examples.antt =====
-- A keypair over files that hold another one.
use gno_watchtower.Base.{
  ℕ, zero, suc, ◌+◌, String, Bool, true, some, [], ◌∷◌, Assoc, ◌≡◌, refl, arith,
}
use gno_watchtower.Noise.Frame.{Bytes}
use gno_watchtower.Noise.Keys.{Keypair, decode_string, load_keypair, write_keypair}
use gno_watchtower.Noise.Keys.RoundTrip.{load_keypair-write_keypair}

abbrev count_from : ℕ → ℕ → Bytes
count_from zero x = []
count_from (suc n) x = x ∷ count_from n (x + 1)

abbrev pair : Keypair
pair = record { private = count_from 32 10; public = count_from 32 224 }

abbrev all_writable : String → Bool
all_writable name = true

abbrev dir : Assoc String
dir = ("privkey", "00") ∷ ("other", "x") ∷ []

pair-written : (write_keypair all_writable dir pair).1 ≡ true
unfolding write_keypair
pair-written = refl

load_keypair-write_keypair_example :
    load_keypair (write_keypair all_writable dir pair).0 ≡ some pair
load_keypair-write_keypair_example =
    load_keypair-write_keypair all_writable dir pair (omega arith) (omega arith) pair-written

abbrev too_short : String
too_short = "0aFF"

short-bytes : decode_string too_short ≡ some (10 ∷ 255 ∷ [])
unfolding decode_string
short-bytes = refl
