-- ===== src/Sentinel/Rpc/Heights.antt =====
-- The blocks that a run of ticks sends.
use gno_watchtower.Base.{
  ℕ, String, Bool, true, false, Option, none, some, List, [], ◌∷◌, ℤ, pos, negsuc, ltz, ◌&&◌,
  if◌then◌else◌, ◌≡◌, refl, sym, arith,
}
use gno_watchtower.Sentinel.Rpc.{Collector, Intervals, Answers, height_of, blocks}
use gno_watchtower.Sentinel.Rpc.Ticks.{is_new, collect-block}

-- Heights above a bound and above all those before.
abbrev pub Rising : ℤ → List (ℤ × String) → Type 0
Rising h [] = Unit
Rising h ((k, raw) ∷ rest) = (ltz h k ≡ true) × Rising k rest

ltz_trans : (a b c : ℤ) → ltz a b ≡ true → ltz b c ≡ true → ltz a c ≡ true
ltz_trans (pos a) (pos b) (pos c) p q = ground arith
ltz_trans (pos a) (pos b) (negsuc c) p q = absurd (cc)
ltz_trans (pos a) (negsuc b) c p q = absurd (cc)
ltz_trans (negsuc a) (pos b) (pos c) p q = refl
ltz_trans (negsuc a) (pos b) (negsuc c) p q = absurd (cc)
ltz_trans (negsuc a) (negsuc b) (pos c) p q = refl
ltz_trans (negsuc a) (negsuc b) (negsuc c) p q = ground arith

Rising-lower : (h k : ℤ) (xs : List (ℤ × String)) → ltz h k ≡ true → Rising k xs → Rising h xs
Rising-lower h k [] lt r = tt
Rising-lower h k ((j, raw) ∷ xs) lt r = (ltz_trans h k j lt r.0, r.1)

module _ {H : Type 0} (hash : String → H) (same : H → H → Bool) (zero_hash : H)
    (height : String → ℤ) (every : Intervals) where
  block-Rising :
      (new above : Bool) (low h : ℤ) (answer sent : Option String) (after : ℤ)
      (rest : List (ℤ × String))
      → new ≡ (ltz low h && above)
      → sent ≡ (if new then answer else none)
      → after ≡ (if new then h else low)
      → Rising after rest
      → Rising low (elim sent [ none ↦ rest | some raw ↦ (h, raw) ∷ rest ])
  block-Rising false above low h answer none after rest e p q r = rw q at r
  block-Rising false above low h answer (some raw) after rest e p q r = absurd (cc)
  block-Rising true above low h answer none after rest e p q r =
      Rising-lower low h rest (ground (arith, sym e)) (rw q at r)
  block-Rising true above low h answer (some raw) after rest e p q r =
      (ground (arith, sym e), rw q at r)

  -- However often the node is polled, the blocks that are sent have ever higher heights, all above
  -- the collector's first one: no block is sent twice.
  pub blocks-Rising :
      (ticks : List (ℕ × Answers)) (c : Collector H)
      → Rising c.last_height (blocks hash same zero_hash height every c ticks)
  unfolding blocks
  blocks-Rising [] c = tt
  blocks-Rising ((now, a) ∷ ticks) c =
      let (sent, after) = collect-block hash same zero_hash height every c now a in
      block-Rising (is_new hash same zero_hash height every c a)
        (ltz (pos 0) (height_of height a.status)) c.last_height (height_of height a.status)
        (a.block (height_of height a.status)) _ _ _ refl sent after (blocks-Rising ticks _)
