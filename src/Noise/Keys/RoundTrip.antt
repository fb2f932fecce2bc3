-- ===== src/Noise/Keys/RoundTrip.antt =====
-- A keypair that was written is read back.
use gno_watchtower.Base.{
  ℕ, ◌*◌, ◌+◌, ◌/◌, ◌%◌, ◌<◌, String, Bool, true, some, [], ◌∷◌, Assoc, lookup, insert,
  lookup-insert, ◌==◌, length, All, Below, Below-apply, append_text, spell_with, has_no_space,
  is_space, trim_space, trim_space-newline, ◌≡◌, refl, ap, ◌∙◌, arith,
}
use gno_watchtower.Noise.Frame.{Bytes}
use gno_watchtower.Noise.Keys.{
  Keypair, priv_key_filename, pub_key_filename, hex_digits, encode_to_string, join_byte,
  decode_string, load_hex, load_hex_file, load_keypair, write_keypair,
}

abbrev pub AreBytes : Bytes → Type 0
AreBytes = All (λ b. b < 256)

decode_string-pair :
    (hi lo : ℕ) (tail : String)
    → hi < 16
    → lo < 16
    → decode_string (spell_with hex_digits hi (spell_with hex_digits lo tail))
      ≡ join_byte (some hi) (some lo) (decode_string tail)
unfolding spell_with decode_string
decode_string-pair hi lo tail h l =
    Below-apply 16
      (λ j.
        decode_string (spell_with hex_digits hi (spell_with hex_digits j tail))
        ≡ join_byte (some hi) (some j) (decode_string tail))
      lo
      (Below-apply 16
        (λ i. Below 16 (λ j.
          decode_string (spell_with hex_digits i (spell_with hex_digits j tail))
          ≡ join_byte (some i) (some j) (decode_string tail)))
        hi (ground arith) h)
      l

decode_string-encode_to_string :
    (bs : Bytes) → AreBytes bs → decode_string (encode_to_string bs) ≡ some bs
unfolding encode_to_string decode_string
decode_string-encode_to_string [] h = refl
decode_string-encode_to_string (b ∷ bs) h =
    let whole : b / 16 * 16 + b % 16 ≡ b = omega arith in
    rw
      (
        decode_string-pair (b / 16) (b % 16) (encode_to_string bs) (omega (arith, h.0))
            (omega arith),
        decode_string-encode_to_string bs h.1,
      )
      (ap (λ x. some (x ∷ bs)) whole)

has_no_space-digit :
    (i : ℕ) (tail : String)
    → i < 16
    → has_no_space (spell_with hex_digits i tail) ≡ has_no_space tail
unfolding spell_with has_no_space is_space
has_no_space-digit i tail h =
    Below-apply 16 (λ j. has_no_space (spell_with hex_digits j tail) ≡ has_no_space tail) i
      (ground arith) h

has_no_space-encode_to_string :
    (bs : Bytes) → AreBytes bs → has_no_space (encode_to_string bs) ≡ true
unfolding encode_to_string has_no_space
has_no_space-encode_to_string [] h = refl
has_no_space-encode_to_string (b ∷ bs) h =
    has_no_space-digit (b / 16) (spell_with hex_digits (b % 16) (encode_to_string bs))
      (omega (arith, h.0))
    ∙ has_no_space-digit (b % 16) (encode_to_string bs) (omega arith)
    ∙ has_no_space-encode_to_string bs h.1

-- A written key is a line, and reads back.
decode_string-line :
    (bs : Bytes)
    → AreBytes bs
    → decode_string (trim_space (append_text (encode_to_string bs) "\n")) ≡ some bs
decode_string-line bs h =
    ap decode_string (trim_space-newline (encode_to_string bs) (has_no_space-encode_to_string bs h))
    ∙ decode_string-encode_to_string bs h

load_hex-line :
    (bs : Bytes)
    → AreBytes bs
    → length bs ≡ 32
    → load_hex 32 (some (append_text (encode_to_string bs) "\n")) ≡ some bs
load_hex-line bs h l =
    let size : (length bs == 32) ≡ true = ground (arith, l) in
    rw (decode_string-line bs h, size) refl

module _ (writable : String → Bool) (dir : Assoc String) where
  -- The files behind both writes.
  written : Keypair → Assoc String
  written kp =
      insert pub_key_filename (append_text (encode_to_string kp.public) "\n")
        (insert priv_key_filename (append_text (encode_to_string kp.private) "\n") dir)

  written-private :
      (kp : Keypair)
      → lookup priv_key_filename (written kp)
        ≡ some (append_text (encode_to_string kp.private) "\n")
  unfolding written
  written-private kp =
      lookup-insert pub_key_filename priv_key_filename _ _
      ∙ lookup-insert priv_key_filename priv_key_filename _ dir

  written-public :
      (kp : Keypair)
      → lookup pub_key_filename (written kp) ≡ some (append_text (encode_to_string kp.public) "\n")
  unfolding written
  written-public kp = lookup-insert pub_key_filename pub_key_filename _ _

  write_keypair-written :
      (kp : Keypair)
      → (write_keypair writable dir kp).1 ≡ true
      → ((write_keypair writable dir kp).0 ≡ written kp)
        × (length kp.private ≡ 32)
        × (length kp.public ≡ 32)
  unfolding write_keypair written
  write_keypair-written kp h = ground (arith, h)

  -- Where both files could be written, a keypair of bytes reads back as it was, whatever the directory held.
  pub load_keypair-write_keypair :
      (kp : Keypair)
      → AreBytes kp.private
      → AreBytes kp.public
      → (write_keypair writable dir kp).1 ≡ true
      → load_keypair (write_keypair writable dir kp).0 ≡ some kp
  unfolding load_keypair load_hex_file
  load_keypair-write_keypair kp hr hu h =
      let (files, lr, lu) = write_keypair-written kp h in
      rw
        (
          files,
          written-private kp,
          written-public kp,
          load_hex-line kp.private hr lr,
          load_hex-line kp.public hu lu,
        )
        refl
