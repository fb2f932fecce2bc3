-- ===== src/Gpub/Keys.antt =====
-- The text of a key determines the key.
use gno_watchtower.Base.{
  Below-apply, spell_with, append_text, ℕ, ◌+◌, ◌*◌, ◌^◌, String, true, List, [], ◌∷◌, ◌++◌, length,
  take, drop, take-append_self, ◌==◌, if◌then◌else◌, All, All-append, ◌≡◌, refl, sym, ap, ◌∙◌,
  arith,
}
use gno_watchtower.Gpub.{
  bytes, convert_bits, create_checksum, six_groups, charset, spell, bech32_encode, wrap_key,
  encode_ed25519,
}
use gno_watchtower.Gpub.Groups.{horner, IsByte, IsGroup, convert_bits-value}
use Prim.Native.Char.{Char, code}

-- The place of a character in the alphabet.
place_in : String → ℕ → Char → ℕ
place_in String.[] i c = i
place_in (String.◌∷◌ d ds) i c = if code c == code d then i else place_in ds (i + 1) c

unspell : String → List ℕ
unfolding place_in
unspell String.[] = []
unspell (String.◌∷◌ c s) = place_in charset 0 c ∷ unspell s

unspell-spell_with :
    (g : ℕ) (tail : String) → IsGroup g → unspell (spell_with charset g tail) ≡ g ∷ unspell tail
unfolding unspell spell_with place_in
unspell-spell_with g tail h =
    Below-apply 32 (λ i. unspell (spell_with charset i tail) ≡ i ∷ unspell tail) g (ground arith) h

unspell-spell : (gs : List ℕ) → All IsGroup gs → unspell (spell gs) ≡ gs
unfolding unspell spell
unspell-spell [] h = refl
unspell-spell (g ∷ gs) h = rw (unspell-spell_with g (spell gs) h.0, unspell-spell gs h.1) refl

six_groups-All : (pm : ℕ) → All IsGroup (six_groups pm)
six_groups-All pm = ground arith

horner-injective :
    (xs ys : List ℕ) (v w : ℕ)
    → length xs ≡ length ys
    → All IsByte xs
    → All IsByte ys
    → horner 256 v xs ≡ horner 256 w ys
    → (v ≡ w) × (xs ≡ ys)
unfolding horner
horner-injective [] [] v w l hx hy e = (e, refl)
horner-injective [] (y ∷ ys) v w l hx hy e = absurd (omega (arith, l))
horner-injective (x ∷ xs) [] v w l hx hy e = absurd (omega (arith, l))
horner-injective (x ∷ xs) (y ∷ ys) v w l hx hy e =
    let (heads, tails) =
      horner-injective xs ys (v * 256 + x) (w * 256 + y) (omega (arith, l)) hx.1 hy.1 e in
    let same : x ≡ y = omega (arith, heads, hx.0, hy.0) in
    (omega (arith, heads, hx.0, hy.0), rw (same, tails) refl)

-- The groups of a text, behind the five characters "gpub1".
abbrev payload : String → List ℕ
payload (String.◌∷◌ _ (String.◌∷◌ _ (String.◌∷◌ _ (String.◌∷◌ _ (String.◌∷◌ _ s))))) = unspell s
payload _ = []

abbrev groups_of : List ℕ → List ℕ
groups_of bs = convert_bits bs 8 5 true

payload-bech32_encode :
    (bs : List ℕ)
    → All IsByte bs
    → payload (bech32_encode "gpub" bs) ≡ groups_of bs ++ create_checksum "gpub" (groups_of bs)
unfolding bech32_encode append_text create_checksum
payload-bech32_encode bs h =
    unspell-spell (groups_of bs ++ create_checksum "gpub" (groups_of bs))
      (All-append IsGroup (groups_of bs) _ (convert_bits-value bs h).0 (six_groups-All _))

-- 55 bytes make 88 groups, without padding.
wrapped :
    (bs : List ℕ)
    → All IsByte bs
    → length bs ≡ 55
    → (length (groups_of bs) ≡ 88) × (horner 32 0 (groups_of bs) ≡ horner 256 0 bs)
wrapped bs h l =
    let (_, k, small, len, val) = convert_bits-value bs h in
    let none_left : k ≡ 0 = omega (arith, small, len, l) in
    let val' : horner 32 0 (groups_of bs) ≡ horner 256 0 bs * 2 ^ 0 =
      val ∙ ap (λ x. horner 256 0 bs * 2 ^ x) none_left in
    (omega (arith, len, none_left, l), omega (arith, val'))

groups_of-injective :
    (bs cs : List ℕ)
    → All IsByte bs
    → All IsByte cs
    → length bs ≡ 55
    → length cs ≡ 55
    → bech32_encode "gpub" bs ≡ bech32_encode "gpub" cs
    → bs ≡ cs
groups_of-injective bs cs hb hc lb lc e =
    let (nb, vb) = wrapped bs hb lb in
    let (nc, vc) = wrapped cs hc lc in
    let both = sym (payload-bech32_encode bs hb) ∙ ap payload e ∙ payload-bech32_encode cs hc in
    let same : groups_of bs ≡ groups_of cs =
      sym (take-append_self (groups_of bs) _)
      ∙ ap (take (length (groups_of bs))) both
      ∙ rw (nb ∙ sym nc) (take-append_self (groups_of cs) _) in
    (horner-injective bs cs 0 0 (lb ∙ sym lc) hb hc (sym vb ∙ ap (horner 32 0) same ∙ vc)).1

-- Two keys of 32 bytes with the same text are the same key.
pub encode_ed25519-injective :
    (k j : List ℕ)
    → All IsByte k
    → All IsByte j
    → length k ≡ 32
    → length j ≡ 32
    → encode_ed25519 k ≡ encode_ed25519 j
    → k ≡ j
unfolding encode_ed25519 wrap_key bytes
encode_ed25519-injective k j hk hj lk lj e = ap (drop 23) (
    groups_of-injective (wrap_key k) (wrap_key j) (ground (arith, hk)) (ground (arith, hj))
      (omega (arith, lk)) (omega (arith, lj)) e)
