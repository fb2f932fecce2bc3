-- ===== src/Sentinel/Buffer.antt =====
-- internal/sentinel/sender/buffer.go: a queue of bounded length that drops its oldest item when it
-- is full. The lock makes each operation atomic.
pub mod Order
mod Examples
use gno_watchtower.Base.{
  ℕ, zero, suc, ◌+◌, Bool, true, false, Option, none, some, List, [], ◌∷◌, ◌++◌, ℤ, pos, negsuc,
  leb, length, if◌then◌else◌,
}

pub record Buffer {ℓ} (A : Type ℓ) : Type ℓ where
  pub items : List A
  pub max_size : ℕ

-- `NewBuffer`; `none` is its panic.
unfoldable pub new {ℓ} : {A : Type ℓ} → ℤ → Option (Buffer A)
new (pos zero) = none
new (pos (suc n)) = some (record { items = []; max_size = suc n })
new (negsuc n) = none

abbrev pub count : Bool → ℕ
count true = 1
count false = 0

module _ {ℓ} {A : Type ℓ} where
  -- `items[1:]`
  unfoldable pub rest_of : List A → List A
  rest_of [] = []
  rest_of (x ∷ xs) = xs

  unfoldable pub push : Buffer A → A → Buffer A × Bool
  push b x =
      if leb b.max_size (length b.items)
      then (record b { items = rest_of b.items ++ x ∷ [] }, true)
      else (record b { items = b.items ++ x ∷ [] }, false)

  unfoldable pub drain : Buffer A → Buffer A × List A
  drain b = (record b { items = [] }, b.items)

  unfoldable pub len : Buffer A → ℕ
  len b = length b.items

  -- The buffer after the pushes of a list, with how many of them dropped an item.
  unfoldable pub pushes : Buffer A → List A → Buffer A × ℕ
  pushes b [] = (b, 0)
  pushes b (x ∷ xs) =
      let (b', dropped) = push b x in
      let (b'', drops) = pushes b' xs in (b'', count dropped + drops)

-- What the goroutines of one collector do to its buffer.
pub data Op {ℓ} (A : Type ℓ) : Type ℓ where
  put : A → Op A
  take_all : Op A

module _ {ℓ} {A : Type ℓ} where
  -- The final buffer, all that the drains took, in order, and the number of drops.
  unfoldable pub run : Buffer A → List (Op A) → Buffer A × List A × ℕ
  run b [] = (b, [], 0)
  run b (put x ∷ ops) =
      let (b', dropped) = push b x in
      let (b'', taken, drops) = run b' ops in (b'', taken, count dropped + drops)
  run b (take_all ∷ ops) =
      let (b', first) = drain b in
      let (b'', taken, drops) = run b' ops in (b'', first ++ taken, drops)
