-- ===== src/Watchtower/Forwarder/Rpc/Totals.antt =====
-- The aggregate of a validator set: all of its entries, or no line at all.
use gno_watchtower.Base.{
  ℕ, ◌+◌, String, Option, none, some, List, [], ◌∷◌, ◌++◌, ◌≡◌, refl, ap, ◌⊎◌, inl, inr, append-nil,
  ℤ, pos, word, int64, add64-int64, parse_int, length, arith, Option-cases,
}
use gno_watchtower.Json.{Json}
use gno_watchtower.Watchtower.Forwarder.Samples.{VmLine, whole, vm_sample}
use gno_watchtower.Watchtower.Forwarder.Rpc.{
  Validator, SetMember, base_labels, collect_members, encoded_key, member_lines, decode_validators,
  append_rpc_validators,
}

-- Some entry's power is no int64.
abbrev pub HasMalformed : List Validator → Type 0
HasMalformed [] = ⊥
HasMalformed (v ∷ vs) = (parse_int v.voting_power ≡ none) ⊎ HasMalformed vs

-- A member for each entry, in order, with its power and its key.
abbrev pub Matches : List Validator → List SetMember → Type 0
Matches [] [] = Unit
Matches (v ∷ vs) (m ∷ ms) =
    (parse_int v.voting_power ≡ some m.power)
    × (m.address ≡ v.address)
    × (m.pub_key_b32 ≡ encoded_key v)
    × Matches vs ms
Matches _ _ = ⊥

-- The powers' sum, each as the word of 64 bits that it is.
unfoldable pub sum_words : List SetMember → ℕ
sum_words [] = 0
sum_words (m ∷ ms) = word m.power + sum_words ms

-- What becomes of the entries, from the word of a total on.
abbrev Collected : ℕ → List Validator → Option (List SetMember × ℤ) → Type 0
Collected w vs o =
    (HasMalformed vs × (o ≡ none))
    ⊎ ((ms : List SetMember) × Matches vs ms × (o ≡ some (ms, int64 (w + sum_words ms))))

collect_members-Collected :
    (w : ℕ) (vs : List Validator) → Collected w vs (collect_members (int64 w) vs)
unfolding collect_members sum_words
collect_members-Collected w [] = inr ([], tt, ap (λ n. some ([], int64 n)) (omega arith))
collect_members-Collected w (v ∷ vs) = elim (Option-cases (parse_int v.voting_power)) [
  | inl bad ↦ rw bad (inl (inl refl, refl))
  | inr (p, good) ↦
      rw (good, add64-int64 w p)
        (elim (collect_members-Collected (w + word p) vs) [
          | inl (bad, e) ↦ rw e (inl (inr bad, refl))
          | inr (ms, all, e) ↦
              let m : SetMember = record {
                address = v.address;
                power = p;
                pub_key_b32 = encoded_key v;
              } in
              rw e (
                inr
                  (m ∷ ms, (good, refl, refl, all), ap (λ n. some (m ∷ ms, int64 n)) (omega arith)))
        ])
]

-- Either some entry's power is no int64 and no line is added, or the lines added are the number of
-- entries, the sum of all their powers wrapped around to an int64, and then the members' own.
pub append_rpc_validators-all_or_nothing :
    (lines : List VmLine) (validator : String) (ts : ℤ) (raw : Json) (vs : List Validator)
    → decode_validators raw ≡ some vs
    → (HasMalformed vs × (append_rpc_validators lines validator ts raw ≡ lines))
      ⊎ ((ms : List SetMember) × Matches vs ms
          × (append_rpc_validators lines validator ts raw
              ≡ lines
                ++ vm_sample "sentinel_rpc_validator_set_size"
                    (base_labels validator)
                    (whole (pos (length vs)))
                    ts
                  ∷ vm_sample "sentinel_rpc_validator_set_total_power"
                      (base_labels validator)
                      (whole (int64 (sum_words ms)))
                      ts
                  ∷ member_lines validator ts ms))
unfolding append_rpc_validators
append_rpc_validators-all_or_nothing lines validator ts raw vs decoded =
    let start : Collected 0 vs (collect_members (pos 0) vs) =
      unfold int64 in collect_members-Collected 0 vs in
    elim start [
      | inl (bad, e) ↦ rw (decoded, e) (inl (bad, append-nil lines))
      | inr (ms, all, e) ↦
          let total : 0 + sum_words ms ≡ sum_words ms = omega arith in
          rw (decoded, e, total) (inr (ms, all, refl))
    ]
