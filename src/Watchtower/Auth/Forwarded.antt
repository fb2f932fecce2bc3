-- ===== src/Watchtower/Auth/Forwarded.antt =====
-- The address for which failures are counted, behind a proxy that appends to X-Forwarded-For; and
-- how much of a token the log may show.
use mathlib.Core.Path.{subst}
use Prim.Native.Char.{Char, code}
use Prim.Native.String.{◌++◌}
use gno_watchtower.Watchtower.Config.{TokenEntry}
use gno_watchtower.Base.{
  lookup, ℕ, zero, suc, ◌≤◌, String, Bool, true, false, Option, none, some, List, [], ◌∷◌, ◌≡◌, ◌≢◌,
  refl, arith, eq_iff, if◌then◌else◌, occurs, split, last_of, trim_space, ◌==◌, ==_iff, ◌||◌,
  push_head,
}
use text.Mathlib.TextLemmas.{nil-append, cons-append}
use gno_watchtower.Watchtower.Auth.{
  Request, remote_ip, token_prefix, Verdict, rejected, middleware, Authenticator, is_banned,
  check_token, bearer_token, after_ban_check, passed,
}
use gno_watchtower.Watchtower.Auth.Headers.{take_chars}

unfoldable pub chars : String → ℕ
chars String.[] = 0
chars (String.◌∷◌ c s) = suc (chars s)

or-false : (a b : Bool) → a || b ≡ false → (a ≡ false) × (b ≡ false)
or-false a b h = ground arith

-- A text without the separator is its own only part.
split_plain : (sep : ℕ) (s : String) → occurs sep s ≡ false → split sep s ≡ s ∷ []
unfolding split occurs
split_plain sep String.[] h = refl
split_plain sep (String.◌∷◌ c s) h =
    let (other, h') = or-false (code c == sep) (occurs sep s) h in rw (other, split_plain sep s h')

-- At least two parts, of which the last is given.
abbrev Ends : String → List String → Type 0
Ends real [] = ⊥
Ends real (p ∷ []) = ⊥
Ends real (p ∷ q ∷ r) = last_of (q ∷ r) ≡ real

Ends-last_of : (real : String) (ps : List String) → Ends real ps → last_of ps ≡ real
unfolding last_of
Ends-last_of real [] h = absurd h
Ends-last_of real (p ∷ []) h = absurd h
Ends-last_of real (p ∷ q ∷ r) h = h

Ends-step :
    (real : String) (c : Char) (ps : List String) (b : Bool)
    → Ends real ps
    → Ends real (if b then "" ∷ ps else push_head c ps)
unfolding last_of push_head
Ends-step real c [] b h = absurd h
Ends-step real c (p ∷ []) b h = absurd h
Ends-step real c (p ∷ q ∷ r) true h = h
Ends-step real c (p ∷ q ∷ r) false h = h

split-Ends :
    (sep : ℕ) (x : Char) (fake real : String)
    → code x ≡ sep
    → occurs sep real ≡ false
    → Ends real (split sep (fake ++ String.◌∷◌ x real))
unfolding split
split-Ends sep x String.[] real e h =
    rw (nil-append (String.◌∷◌ x real), (==_iff (code x) sep).1 e, split_plain sep real h)
      (unfold last_of in refl)
split-Ends sep x (String.◌∷◌ c fake) real e h = rw (cons-append c fake (String.◌∷◌ x real)) (
    Ends-step real c (split sep (fake ++ String.◌∷◌ x real)) (code c == sep)
      (split-Ends sep x fake real e h))

not-Ends-split_empty : (sep : ℕ) (real : String) → ¬ Ends real (split sep "")
unfolding split
not-Ends-split_empty sep real h = h

appended-Ends :
    (fake real : String) → occurs b',' real ≡ false → Ends real (split b',' (fake ++ ("," ++ real)))
appended-Ends fake real h =
    rw (cons-append comma "" real, nil-append real) (split-Ends b',' comma fake real refl h)
  where
    comma : Char
    comma = ","

-- Whatever a client puts into X-Forwarded-For, the address that the trusted proxy appends behind a
-- comma is the one that failures are counted for: no comma stands in it, and it is not blank.
pub remote_ip-appended :
    (r : Request) (fake real : String)
    → r.x_forwarded_for ≡ fake ++ ("," ++ real)
    → occurs b',' real ≡ false
    → trim_space real ≢ ""
    → remote_ip r ≡ trim_space real
unfolding remote_ip
remote_ip-appended r fake real e h ne =
    let sent = r.x_forwarded_for in
    let ends : Ends real (split b',' sent) = rw e (appended-Ends fake real h) in
    let last = Ends-last_of real (split b',' sent) ends in
    let present : sent ≢ "" =
      λ z. not-Ends-split_empty b',' real (subst (λ s. Ends real (split b',' s)) z ends) in
    rw last (ground (arith, eq_iff sent "", eq_iff (trim_space real) ""))

length-take_chars : (n : ℕ) (s : String) → chars (take_chars n s) ≤ n
unfolding take_chars chars
length-take_chars zero s = omega arith
length-take_chars (suc n) String.[] = omega arith
length-take_chars (suc n) (String.◌∷◌ c s) = omega (arith, length-take_chars n s)

-- The part of the token that a rejection logs, as far as the verdict shows it.
abbrev pub logged : Verdict → String
logged (rejected status l) = l.token_prefix
logged (passed name cfg) = ""

-- No request, however it is answered, gets more than 8 characters of a token into the log.
pub chars-logged-le :
    (a : Authenticator) (now later : ℕ) (r : Request)
    → chars (logged (middleware a now later r).1) ≤ 8
unfolding middleware
chars-logged-le a now later r = go (is_banned a now (remote_ip r))
  where
    checked :
        (b : Authenticator) (o : Option TokenEntry) → chars (logged (check_token b later r o).1) ≤ 8
    checked b none = unfold check_token token_prefix in length-take_chars 8 (bearer_token r)
    checked b (some e) = unfold check_token chars in omega arith

    go : (p : Authenticator × Bool) → chars (logged (after_ban_check later r p).1) ≤ 8
    go (b, true) = unfold token_prefix in length-take_chars 8 (bearer_token r)
    go (b, false) = checked b (lookup (bearer_token r) b.tokens)
