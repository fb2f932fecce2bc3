-- ===== src/Sentinel/Buffer/Order.antt =====
-- The buffer is a window on the latest items, and loses none but those that it reports.
use gno_watchtower.Base.{
  ℕ, zero, suc, ◌+◌, ◌-◌, ◌≤◌, ◌<◌, Bool, true, List, [], ◌∷◌, ◌++◌, ◌≡◌, refl, ap, sym, ◌∙◌, ◌↔◌,
  arith, leb, length, drop, length-append, drop-append_of_le, append_assoc, append-nil, length-drop,
  Bool-cases, inl, inr,
}
use native.Mathlib.Nat.{zero-add, suc-add}
use gno_watchtower.Sentinel.Buffer.{
  Buffer, Op, put, take_all, rest_of, push, drain, pushes, run, count,
}

module _ {ℓ} {A : Type ℓ} where
  pub record IsValid (b : Buffer A) : Type ℓ where
    pub positive : 0 < b.max_size
    pub bounded : length b.items ≤ b.max_size

  -- The last `n` items of a list.
  abbrev pub latest : ℕ → List A → List A
  latest n xs = drop (length xs - n) xs

  -- What a list taken from another keeps: items of it, in its order.
  pub data Within : List A → List A → Type ℓ where
    nil : Within [] []
    keep : {x : A} {xs ys : List A} → Within xs ys → Within (x ∷ xs) (x ∷ ys)
    skip : {y : A} {xs ys : List A} → Within xs ys → Within xs (y ∷ ys)

  length-rest_of : (xs : List A) → length (rest_of xs) ≡ length xs - 1
  unfolding rest_of
  length-rest_of [] = omega arith
  length-rest_of (x ∷ xs) = omega arith

  -- `push`, whichever branch it takes.
  record Pushed (b : Buffer A) (x : A) (p : Buffer A × Bool) : Type ℓ where
    size : p.0.max_size ≡ b.max_size
    items : p.0.items ≡ latest b.max_size (b.items ++ x ∷ [])
    counted : length p.0.items + count p.1 ≡ length b.items + 1
    bounded : length p.0.items ≤ b.max_size
    full : (p.1 ≡ true) ↔ (length b.items ≡ b.max_size)

  drop_one : (xs ys : List A) → 0 < length xs → drop 1 (xs ++ ys) ≡ rest_of xs ++ ys
  unfolding rest_of
  drop_one [] ys h = absurd (omega arith)
  drop_one (x ∷ xs) ys h = refl

  latest_full :
      (n : ℕ) (xs : List A) (x : A)
      → length xs ≡ n
      → 0 < n
      → rest_of xs ++ x ∷ [] ≡ latest n (xs ++ x ∷ [])
  latest_full n xs x e p =
      let k : length (xs ++ x ∷ []) - n ≡ 1 = omega (arith, length-append xs (x ∷ [])) in
      rw k (sym (drop_one xs (x ∷ []) (omega arith)))

  latest_short : (n : ℕ) (xs : List A) → length xs ≤ n → xs ≡ latest n xs
  latest_short n xs h = let k : length xs - n ≡ 0 = omega arith in rw k refl

  push-Pushed : (b : Buffer A) (x : A) → IsValid b → Pushed b x (push b x)
  unfolding push
  push-Pushed b x v = elim (Bool-cases (leb b.max_size (length b.items))) [
    | inl full ↦ rw full (record {
      size = refl;
      items = latest_full b.max_size b.items x (ground arith) v.positive;
      counted = ground (arith, length-append (rest_of b.items) (x ∷ []), length-rest_of b.items);
      bounded = ground (arith, length-append (rest_of b.items) (x ∷ []), length-rest_of b.items);
      full = ground arith;
    })
    | inr room ↦ rw room (record {
      size = refl;
      items =
          latest_short b.max_size (b.items ++ x ∷ [])
            (ground (arith, length-append b.items (x ∷ [])));
      counted = ground (arith, length-append b.items (x ∷ []));
      bounded = ground (arith, length-append b.items (x ∷ []));
      full = ground arith;
    })
  ]

  push-IsValid : (b : Buffer A) (x : A) → IsValid b → IsValid (push b x).0
  push-IsValid b x v =
      let p = push-Pushed b x v in
      record { positive = rw p.size v.positive; bounded = rw p.size p.bounded }

  emptied-IsValid : (b : Buffer A) → IsValid b → IsValid (record b { items = [] })
  emptied-IsValid b v = record { positive = v.positive; bounded = omega arith }

  drop_nil : (j : ℕ) → drop j (let e : List A = [] in e) ≡ []
  drop_nil zero = refl
  drop_nil (suc j) = refl

  drop-drop : (j k : ℕ) (xs : List A) → drop j (drop k xs) ≡ drop (k + j) xs
  drop-drop j zero xs = rw zero-add
  drop-drop j (suc k) [] = drop_nil j ∙ sym (drop_nil (suc k + j))
  drop-drop j (suc k) (x ∷ xs) = drop-drop j k xs ∙ ap (λ n. drop n (x ∷ xs)) (sym (suc-add k j))

  latest-latest : (n : ℕ) (xs ys : List A) → latest n (latest n xs ++ ys) ≡ latest n (xs ++ ys)
  latest-latest n xs ys =
      let k = length xs - n in
      rw (sym (drop-append_of_le k xs ys (omega arith))) (
        drop-drop (length (drop k (xs ++ ys)) - n) k (xs ++ ys)
        ∙ ap (λ i. drop i (xs ++ ys))
            (omega (arith, length-drop k (xs ++ ys), length-append xs ys)))

  -- From a valid buffer, any pushes leave the latest `max_size` of the items that were held and
  -- pushed, in order, and the drops reported are exactly the items that are gone.
  pub pushes-latest :
      (b : Buffer A) (xs : List A)
      → IsValid b
      → ((pushes b xs).0.items ≡ latest b.max_size (b.items ++ xs))
        × (length (pushes b xs).0.items + (pushes b xs).1 ≡ length b.items + length xs)
  unfolding pushes
  pushes-latest b [] v = (rw append-nil (latest_short b.max_size b.items v.bounded), omega arith)
  pushes-latest b (x ∷ xs) v =
      let p = push-Pushed b x v in
      let (order, sum) = pushes-latest (push b x).0 xs (push-IsValid b x v) in
      (
        rw (order, p.size, p.items, latest-latest b.max_size (b.items ++ x ∷ []) xs, append_assoc)
            refl,
        omega (arith, p.counted, sum),
      )

  -- The items that were put in, in order.
  abbrev pub puts : List (Op A) → List A
  puts [] = []
  puts (put x ∷ ops) = x ∷ puts ops
  puts (take_all ∷ ops) = puts ops

  Within-refl : (xs : List A) → Within xs xs
  Within-refl [] = nil
  Within-refl (x ∷ xs) = keep (Within-refl xs)

  Within-trans : {ys zs : List A} → Within ys zs → {xs : List A} → Within xs ys → Within xs zs
  Within-trans nil h = h
  Within-trans (keep k) (keep h) = keep (Within-trans k h)
  Within-trans (keep k) (skip h) = skip (Within-trans k h)
  Within-trans (skip k) h = skip (Within-trans k h)

  Within-append : {xs ys : List A} (zs : List A) → Within xs ys → Within (xs ++ zs) (ys ++ zs)
  Within-append zs nil = Within-refl zs
  Within-append zs (keep h) = keep (Within-append zs h)
  Within-append zs (skip h) = skip (Within-append zs h)

  Within-behind : {xs ys : List A} (zs : List A) → Within xs ys → Within (zs ++ xs) (zs ++ ys)
  Within-behind [] h = h
  Within-behind (z ∷ zs) h = keep (Within-behind zs h)

  Within-drop : (n : ℕ) (xs : List A) → Within (drop n xs) xs
  Within-drop zero xs = Within-refl xs
  Within-drop (suc n) [] = nil
  Within-drop (suc n) (x ∷ xs) = skip (Within-drop n xs)

  -- However pushes and drains follow one another, what the drains took and what is left, in order, is
  -- what was held and pushed with some items left out, and those are as many as the drops reported.
  pub run-Within :
      (b : Buffer A) (ops : List (Op A))
      → IsValid b
      → Within ((run b ops).1 ++ (run b ops).0.items) (b.items ++ puts ops)
        × (length (run b ops).1 + length (run b ops).0.items + (run b ops).2
            ≡ length b.items + length (puts ops))
  unfolding run drain
  run-Within b [] v = (rw append-nil (Within-refl b.items), omega arith)
  run-Within b (put x ∷ ops) v =
      let p = push-Pushed b x v in
      let (order, sum) = run-Within (push b x).0 ops (push-IsValid b x v) in
      let moved : Within (push b x).0.items (b.items ++ x ∷ []) =
        rw p.items (Within-drop _ (b.items ++ x ∷ [])) in
      (
        Within-trans
            (rw (append_assoc b.items (x ∷ []) (puts ops)) at (Within-append (puts ops) moved))
            order,
        omega (arith, p.counted, sum),
      )
  run-Within b (take_all ∷ ops) v =
      let (order, sum) = run-Within (record b { items = [] }) ops (emptied-IsValid b v) in
      (
        rw append_assoc (Within-behind b.items order),
        omega (arith, sum, length-append b.items (run (record b { items = [] }) ops).1),
      )
