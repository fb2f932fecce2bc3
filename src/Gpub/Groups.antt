-- ===== src/Gpub/Groups.antt =====
-- Regrouping bytes by five bits loses nothing: the groups spell the same number, padded with zeros.
use gno_watchtower.Base.{
  ℕ, zero, suc, ◌+◌, ◌-◌, ◌*◌, ◌/◌, ◌%◌, ◌^◌, ◌<◌, true, List, [], ◌∷◌, length, All, All-append,
  ◌≡◌, refl, arith,
}
use gno_watchtower.Gpub.{groups, regroup, convert_bits, shift_in, last_group}

-- The number that digits spell behind the number `v`, in a base.
unfoldable pub horner : ℕ → ℕ → List ℕ → ℕ
horner base v [] = v
horner base v (d ∷ ds) = horner base (v * base + d) ds

abbrev pub IsByte : ℕ → Type 0
IsByte b = b < 256

-- The padding of `out`: less than a group, which makes its bits as many as those at hand.
abbrev Spells : ℕ → ℕ → List ℕ → ℕ → List ℕ → Type 0
Spells written v bs bits out =
    (k : ℕ) × (k < 5)
    × (5 * length out ≡ bits + 8 * length bs + k)
    × (horner 32 written out ≡ horner 256 v bs * 2 ^ k)

regroup-Spells :
    (bs : List ℕ) (written v acc bits : ℕ)
    → All IsByte bs
    → bits < 5
    → written * 2 ^ bits + acc % 2 ^ bits ≡ v
    → Spells written v bs bits (regroup 8 5 true acc bits bs)
unfolding regroup groups horner
regroup-Spells [] written v acc zero h lt e = (0, omega arith, refl, omega (arith, e))
regroup-Spells [] written v acc (suc zero) h lt e = (4, omega arith, refl, omega (arith, e))
regroup-Spells [] written v acc (suc (suc zero)) h lt e = (3, omega arith, refl, omega (arith, e))
regroup-Spells [] written v acc (suc (suc (suc zero))) h lt e =
    (2, omega arith, refl, omega (arith, e))
regroup-Spells [] written v acc (suc (suc (suc (suc zero)))) h lt e =
    (1, omega arith, refl, omega (arith, e))
regroup-Spells (b ∷ bs) written v acc zero h lt e =
    let next = shift_in 8 acc b in
    let (k, small, len, val) =
      regroup-Spells bs (written * 32 + next / 2 ^ 3 % 2 ^ 5) (v * 256 + b) next 3 h.1 (omega arith)
        (omega (arith, e, h.0)) in
    (k, small, omega (arith, len), val)
regroup-Spells (b ∷ bs) written v acc (suc zero) h lt e =
    let next = shift_in 8 acc b in
    let (k, small, len, val) =
      regroup-Spells bs (written * 32 + next / 2 ^ 4 % 2 ^ 5) (v * 256 + b) next 4 h.1 (omega arith)
        (omega (arith, e, h.0)) in
    (k, small, omega (arith, len), val)
regroup-Spells (b ∷ bs) written v acc (suc (suc zero)) h lt e =
    let next = shift_in 8 acc b in
    let (k, small, len, val) =
      regroup-Spells bs ((written * 32 + next / 2 ^ 5 % 2 ^ 5) * 32 + next / 2 ^ 0 % 2 ^ 5)
        (v * 256 + b) next 0 h.1 (omega arith) (omega (arith, e, h.0)) in
    (k, small, omega (arith, len), val)
regroup-Spells (b ∷ bs) written v acc (suc (suc (suc zero))) h lt e =
    let next = shift_in 8 acc b in
    let (k, small, len, val) =
      regroup-Spells bs ((written * 32 + next / 2 ^ 6 % 2 ^ 5) * 32 + next / 2 ^ 1 % 2 ^ 5)
        (v * 256 + b) next 1 h.1 (omega arith) (omega (arith, e, h.0)) in
    (k, small, omega (arith, len), val)
regroup-Spells (b ∷ bs) written v acc (suc (suc (suc (suc zero)))) h lt e =
    let next = shift_in 8 acc b in
    let (k, small, len, val) =
      regroup-Spells bs ((written * 32 + next / 2 ^ 7 % 2 ^ 5) * 32 + next / 2 ^ 2 % 2 ^ 5)
        (v * 256 + b) next 2 h.1 (omega arith) (omega (arith, e, h.0)) in
    (k, small, omega (arith, len), val)
regroup-Spells bs written v acc (suc (suc (suc (suc (suc n))))) h lt e = absurd (omega arith)

abbrev pub IsGroup : ℕ → Type 0
IsGroup g = g < 32

groups-All : (fuel acc bits : ℕ) → All IsGroup (groups fuel 5 acc bits).0
unfolding groups
groups-All zero acc bits = tt
groups-All (suc fuel) acc bits = ground (arith, groups-All fuel acc (bits - 5))

last_group-All : (acc bits : ℕ) → All IsGroup (last_group 5 acc bits true)
last_group-All acc bits = ground arith

regroup-All : (bs : List ℕ) (acc bits : ℕ) → All IsGroup (regroup 8 5 true acc bits bs)
unfolding regroup
regroup-All [] acc bits = last_group-All acc bits
regroup-All (b ∷ bs) acc bits =
    All-append IsGroup (groups (bits + 8) 5 (shift_in 8 acc b) (bits + 8)).0 _
      (groups-All (bits + 8) (shift_in 8 acc b) (bits + 8))
      (regroup-All bs (shift_in 8 acc b) (groups (bits + 8) 5 (shift_in 8 acc b) (bits + 8)).1)

-- The groups of `convertBits` from bytes to five bits, padded, are below 32 each, they have the bits of
-- the bytes and at most four more, and they spell the bytes' number with that many zeros behind it.
pub convert_bits-value :
    (bs : List ℕ)
    → All IsByte bs
    → let out = convert_bits bs 8 5 true in
      All IsGroup out
      × (k : ℕ) × (k < 5)
      × (5 * length out ≡ 8 * length bs + k)
      × (horner 32 0 out ≡ horner 256 0 bs * 2 ^ k)
unfolding convert_bits
convert_bits-value bs h =
    let (k, small, len, val) = regroup-Spells bs 0 0 0 0 h (omega arith) refl in
    (regroup-All bs 0 0, k, small, omega (arith, len), val)
