-- ===== src/Noise/Handshake/Peers.antt =====
-- Only peers that the configuration accepts get a session.
use gno_watchtower.Base.{
  ℕ, zero, suc, ◌<◌, Bool, true, false, Option, none, some, List, [], ◌∷◌, ◌++◌, ◌==◌, length, All,
  if◌then◌else◌, Bool-cases, inl, inr, ◌⊎◌, ◌≡◌, refl, ap, arith,
}
use gno_watchtower.Noise.Frame.{Bytes, WireError, read_frame, write_frame}
use gno_watchtower.Noise.Handshake.{
  Config, equal, among, authorize_peer, validate, all_32, HandshakeError, invalid_config, Session,
  Outcome, established, broken, write_turn, finish, proceed, sent, write_step, accepted, read_step,
  turns, run_handshake,
}

equal-eq : (xs ys : Bytes) → equal xs ys ≡ true → xs ≡ ys
unfolding equal
equal-eq [] [] h = refl
equal-eq [] (y ∷ ys) h = absurd (cc)
equal-eq (x ∷ xs) [] h = absurd (cc)
equal-eq (x ∷ xs) (y ∷ ys) h = ground (arith, equal-eq xs ys)

-- The key stands in the list.
abbrev pub Listed : Bytes → List Bytes → Type 0
Listed peer ks = (before after : List Bytes) × (ks ≡ before ++ peer ∷ after)

among-Listed : (ks : List Bytes) (peer : Bytes) → among ks peer ≡ true → Listed peer ks
unfolding among
among-Listed [] peer h = absurd (cc)
among-Listed (k ∷ ks) peer h = elim (Bool-cases (equal k peer)) [
  | inl e ↦ ([], ks, ap (λ x. x ∷ ks) (equal-eq k peer e))
  | inr e ↦
      let (before, after, q) = among-Listed ks peer (ground arith) in
      (k ∷ before, after, ap (◌∷◌ k) q)
]

-- Every key of a configuration has 32 bytes.
abbrev pub Keys32 : Config → Type 0
Keys32 c =
    (length c.private_key ≡ 32)
    × (length c.public_key ≡ 32)
    × All (λ k. length k ≡ 32) c.authorized_keys

all_32-All : (ks : List Bytes) → all_32 ks ≡ true → All (λ k. length k ≡ 32) ks
unfolding all_32
all_32-All [] h = tt
all_32-All (k ∷ ks) h = (ground arith, all_32-All ks (ground arith))

validate-Keys32 : (c : Config) → validate c ≡ true → Keys32 c
unfolding validate
validate-Keys32 c h = (ground arith, ground arith, all_32-All c.authorized_keys (ground arith))

-- What a session's peer is to the configuration.
abbrev pub Authorized : Config → Bytes → Type 0
Authorized c peer =
    (0 < length peer) × ((length c.authorized_keys ≡ 0) ⊎ Listed peer c.authorized_keys)

authorize_peer-Authorized :
    (c : Config) (peer : Bytes)
    → authorize_peer c peer ≡ true
    → (length c.authorized_keys ≡ 0) ⊎ Listed peer c.authorized_keys
unfolding authorize_peer
authorize_peer-Authorized c peer h = elim (Bool-cases (length c.authorized_keys == 0)) [
  | inl e ↦ inl (ground arith)
  | inr e ↦ inr (among-Listed c.authorized_keys peer (ground arith))
]

-- An outcome that has no session with another peer.
Good : {K : Type 0} → Config → Outcome K → Type 0
Good c (established s) = Authorized c s.peer_static
Good c (broken e) = Unit

if-Good :
    {K : Type 0} (c : Config) (a b : Bool) (e f : HandshakeError) (s : Session K)
    → (a ≡ false → b ≡ true → Authorized c s.peer_static)
    → Good c (if a then broken e else if b then established s else broken f)
unfolding Good
if-Good c true b e f s h = tt
if-Good c false true e f s h = h refl refl
if-Good c false false e f s h = tt

finish-Good :
    {K : Type 0} (c : Config) (initiator : Bool) (peer : Bytes) (split : K × K)
    → Good c (finish c initiator peer split)
unfolding finish
finish-Good c initiator peer (cs1, cs2) =
    if-Good c (length peer == 0) (authorize_peer c peer) _ _ _
      (λ e f. (ground arith, authorize_peer-Authorized c peer f))

module _ {S K W : Type 0} (write : W → Bytes → W × Bool)
    (write_message : S → Option (S × Bytes × Option (K × K)))
    (read_message : S → Bytes → Option (S × Option (K × K))) (peer_static : S → Bytes) where
  proceed-Good :
      (c : Config) (initiator : Bool) (s : S) (split : Option (K × K)) (w : W) (incoming : Bytes)
      (next : S → W → Bytes → Outcome K × W × Bytes)
      → ((s : S) (w : W) (incoming : Bytes) → Good c (next s w incoming).0)
      → Good c
          (proceed write write_message read_message peer_static c initiator s split w incoming
            next).0
  proceed-Good c initiator s none w incoming next h = h s w incoming
  proceed-Good c initiator s (some split) w incoming next h =
      finish-Good c initiator (peer_static s) split

  sent-Good :
      (c : Config) (initiator : Bool) (s : S) (split : Option (K × K)) (out : W × Option WireError)
      (incoming : Bytes) (next : S → W → Bytes → Outcome K × W × Bytes)
      → ((s : S) (w : W) (incoming : Bytes) → Good c (next s w incoming).0)
      → Good c
          (sent write write_message read_message peer_static c initiator s split out incoming
            next).0
  unfolding Good
  sent-Good c initiator s split (w, some e) incoming next h = tt
  sent-Good c initiator s split (w, none) incoming next h =
      proceed-Good c initiator s split w incoming next h

  write_step-Good :
      (c : Config) (initiator : Bool) (message : Option (S × Bytes × Option (K × K))) (w : W)
      (incoming : Bytes) (next : S → W → Bytes → Outcome K × W × Bytes)
      → ((s : S) (w : W) (incoming : Bytes) → Good c (next s w incoming).0)
      → Good c
          (write_step write write_message read_message peer_static c initiator message w incoming
            next).0
  unfolding Good
  write_step-Good c initiator none w incoming next h = tt
  write_step-Good c initiator (some (s, buf, split)) w incoming next h =
      sent-Good c initiator s split (write_frame write w buf) incoming next h

  accepted-Good :
      (c : Config) (initiator : Bool) (message : Option (S × Option (K × K))) (w : W)
      (incoming : Bytes) (next : S → W → Bytes → Outcome K × W × Bytes)
      → ((s : S) (w : W) (incoming : Bytes) → Good c (next s w incoming).0)
      → Good c
          (accepted write write_message read_message peer_static c initiator message w incoming
            next).0
  unfolding Good
  accepted-Good c initiator none w incoming next h = tt
  accepted-Good c initiator (some (s, split)) w incoming next h =
      proceed-Good c initiator s split w incoming next h

  read_step-Good :
      (c : Config) (initiator : Bool) (s : S) (frame : Bytes × (WireError ⊎ Bytes)) (w : W)
      (next : S → W → Bytes → Outcome K × W × Bytes)
      → ((s : S) (w : W) (incoming : Bytes) → Good c (next s w incoming).0)
      → Good c (read_step write write_message read_message peer_static c initiator s frame w next).0
  unfolding Good
  read_step-Good c initiator s (incoming, inl e) w next h = tt
  read_step-Good c initiator s (incoming, inr frame) w next h =
      accepted-Good c initiator (read_message s frame) w incoming next h

  if-both :
      (c : Config) (b : Bool) (x y : Outcome K × W × Bytes)
      → Good c x.0
      → Good c y.0
      → Good c (if b then x else y).0
  if-both c true x y hx hy = hx
  if-both c false x y hx hy = hy

  turns-Good :
      (fuel : ℕ) (c : Config) (initiator : Bool) (i : ℕ) (s : S) (w : W) (incoming : Bytes)
      → Good c
          (turns write write_message read_message peer_static fuel c initiator i s w incoming).0
  unfolding turns Good
  turns-Good zero c initiator i s w incoming = tt
  turns-Good (suc fuel) c initiator i s w incoming =
      let next = turns write write_message read_message peer_static fuel c initiator (suc i) in
      let later = turns-Good fuel c initiator (suc i) in
      if-both c (write_turn initiator i) _ _
        (write_step-Good c initiator (write_message s) w incoming next later)
        (read_step-Good c initiator s (read_frame incoming) w next later)

  established-Authorized :
      (c : Config) (valid : Bool) (o : Outcome K × W × Bytes) (w : W) (incoming : Bytes)
      (session : Session K)
      → Good c o.0
      → (if valid then o else (broken invalid_config, w, incoming)).0 ≡ established session
      → (valid ≡ true) × Authorized c session.peer_static
  established-Authorized c true o w incoming session h q = (refl, unfold Good in rw q at h)
  established-Authorized c false o w incoming session h q = absurd (cc)

  -- Whatever the other side sends, a handshake that yields a session had a private key, a public key
  -- and authorized keys of 32 bytes each, and its peer showed a static key, which is one of the authorized
  -- keys if there are any.
  pub run_handshake-Authorized :
      (fuel : ℕ) (c : Config) (initiator : Bool) (s : S) (w : W) (incoming : Bytes)
      (session : Session K)
      → (run_handshake write write_message read_message peer_static fuel c initiator s w incoming).0
        ≡ established session
      → Keys32 c × Authorized c session.peer_static
  unfolding run_handshake
  run_handshake-Authorized fuel c initiator s w incoming session q =
      let (valid, peer) =
        established-Authorized c (validate c) _ w incoming session
          (turns-Good fuel c initiator 0 s w incoming) q in
      (validate-Keys32 c valid, peer)
