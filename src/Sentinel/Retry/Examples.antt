-- ===== src/Sentinel/Retry/Examples.antt =====
-- The loop on concrete replies.
use gno_watchtower.Base.{
  ℕ, zero, suc, Bool, false, none, [], ◌∷◌, pos, negsuc, mul64, parse_int, ◌≡◌, refl,
}
use gno_watchtower.Sentinel.Retry.{
  Reply, no_reply, reply, Attempt, limited, call, wait, delivered, post, retry, settle,
}
use gno_watchtower.Sentinel.Retry.Outcomes.{calls, until_sent, retry-until_sent}

-- The first reply is lost, the second asks for a pause of two seconds, the third is fine.
abbrev replies : ℕ → Reply
replies zero = no_reply
replies (suc zero) = reply 429 "2"
replies _ = reply 200 ""

abbrev never : ℕ → Bool
never _ = false

abbrev attempt : ℕ → Attempt
attempt i = post (replies i)

delivers :
    retry attempt never never 5 (pos 1000000000)
    ≡ (call ∷ wait (pos 1000000000) ∷ call ∷ wait (pos 2000000000) ∷ call ∷ [], delivered)
unfolding retry post settle parse_int mul64
delivers = refl

-- The product of the seconds and a second wraps around, and the pause is negative.
overflows : post (reply 429 "9223372037") ≡ limited (negsuc 9223372036709551615)
unfolding post parse_int mul64
overflows = refl

retry-until_sent_example :
    (
      calls (retry attempt never never 5 (pos 1000000000)).0,
      (retry attempt never never 5 (pos 1000000000)).1,
    )
    ≡ until_sent attempt 5 0 none
retry-until_sent_example =
    retry-until_sent attempt never never (λ i. refl) (λ i. refl) 5 (pos 1000000000)
