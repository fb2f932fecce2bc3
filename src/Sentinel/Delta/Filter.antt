-- ===== src/Sentinel/Delta/Filter.antt =====
-- The filter passes exactly the values that differ from the last one under their key.
use gno_watchtower.Base.{
  String, Bool, true, false, Option, none, some, List, [], ◌∷◌, Assoc, lookup, ◌≡◌, ◌≢◌, ◌↔◌, refl,
  ap, sym, ◌∙◌, arith, eq_iff, str_eq, if◌then◌else◌, lookup-insert,
}
use gno_watchtower.Sentinel.Delta.{or_zero, changed, after}

-- The last value of a key in a list of calls, behind one that may have come before.
abbrev pub last_value {ℓ} : {D : Type ℓ} → String → Option D → List (String × D) → Option D
last_value k before [] = before
last_value k before ((j, x) ∷ rest) = last_value k (if str_eq j k then some x else before) rest

module _ {D H : Type 0} (hash : D → H) (same : H → H → Bool) (zero : H)
    (same_iff : (g h : H) → (same g h ≡ true) ↔ (g ≡ h)) where
  abbrev stored : Assoc H → String → H
  stored hashes k = or_zero hash same zero (lookup k hashes)

  -- The hash of a value, or zeros where there is none.
  abbrev hash_of : Option D → H
  hash_of none = zero
  hash_of (some x) = hash x

  stored-changed :
      (hashes : Assoc H) (k j : String) (x : D)
      → stored (changed hash same zero hashes j x).0 k
        ≡ (if str_eq j k then hash x else stored hashes k)
  unfolding changed
  stored-changed hashes k j x =
      ground
        (arith, eq_iff j k, lookup-insert j k (hash x) hashes, same_iff (stored hashes j) (hash x))

  hash_of_if :
      (b : Bool) (x : D) (o : Option D)
      → hash_of (if b then some x else o) ≡ (if b then hash x else hash_of o)
  hash_of_if true x o = refl
  hash_of_if false x o = refl

  stored-after :
      (hashes : Assoc H) (k : String) (before : Option D) (calls : List (String × D))
      → stored hashes k ≡ hash_of before
      → stored (after hash same zero hashes calls) k ≡ hash_of (last_value k before calls)
  unfolding after
  stored-after hashes k before [] h = h
  stored-after hashes k before ((j, x) ∷ rest) h =
      stored-after (changed hash same zero hashes j x).0 k (if str_eq j k then some x else before)
        rest (stored-changed hashes k j x ∙ rw h (sym (hash_of_if (str_eq j k) x before)))

  changed-eq_true :
      (hashes : Assoc H) (k : String) (x : D)
      → ((changed hash same zero hashes k x).1 ≡ true) ↔ (stored hashes k ≢ hash x)
  unfolding changed
  changed-eq_true hashes k x = ground (arith, same_iff (stored hashes k) (hash x))

  -- After any calls, a value is passed on exactly if it is not the last one that was given under its
  -- key, for a value whose hash is not that of another value and not all zeros.
  pub changed-last_value :
      (calls : List (String × D)) (k : String) (x : D)
      → ((y : D) → hash y ≡ hash x → y ≡ x)
      → zero ≢ hash x
      → ((changed hash same zero (after hash same zero [] calls) k x).1 ≡ true)
        ↔ (last_value k none calls ≢ some x)
  changed-last_value calls k x apart nonzero =
      let e = stored-after [] k none calls (unfold lookup in refl) in
      let h = changed-eq_true (after hash same zero [] calls) k x in
      (
        λ p q. h.0 p (e ∙ ap hash_of q),
        λ ne. h.1 (λ q. differs (last_value k none calls) ne (sym e ∙ q)),
      )
    where
      differs : (o : Option D) → o ≢ some x → hash_of o ≡ hash x → ⊥
      differs none ne q = nonzero q
      differs (some y) ne q = ne (ap some (apart y q))
