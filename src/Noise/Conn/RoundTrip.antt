-- ===== src/Noise/Conn/RoundTrip.antt =====
-- What is written at one end is read at the other.
use gno_watchtower.Base.{
  ℕ, zero, suc, ◌+◌, Bool, true, Option, none, some, List, [], ◌∷◌, ◌++◌, ◌≡◌, ◌<◌, ◌≤◌, refl, ap,
  sym, ◌∙◌, append-nil, append_assoc, arith, ltb, length, take, drop, length-append, Bool-cases,
  inl, inr, length-take, length-drop, take-append-drop, drop_of_length-le, All,
}
use gno_watchtower.Noise.Frame.{
  Bytes, WireError, framed, write_frame, write_frame-calls, write_frame-fine, put_uint16,
}
use gno_watchtower.Noise.Conn.{
  Conn, max_noise_plaintext, reads, write_loop, write_all, chunk_of, after_frame, after_encrypt,
  Written,
}
use gno_watchtower.Noise.Conn.Receiving.{joined, Carries, reads-joined}

-- What a chunk is of the bytes that are left.
Piece : Bytes → Bytes → Type 0
Piece p chunk = (chunk ++ drop (length chunk) p ≡ p) × (0 < length chunk) × (length chunk ≤ 65503)

prefix_take : (n : ℕ) (xs : Bytes) → n ≤ length xs → take n xs ++ drop (length (take n xs)) xs ≡ xs
prefix_take n xs h =
    let all : length (take n xs) ≡ n = omega (arith, length-take n xs) in
    rw all (take-append-drop n xs)

append_assoc4 : (a b c d : Bytes) → ((a ++ b) ++ c) ++ d ≡ a ++ ((b ++ c) ++ d)
append_assoc4 a b c d = ap (λ xs. xs ++ d) (append_assoc a b c) ∙ append_assoc a (b ++ c) d

Piece-chunk_of : (p : Bytes) → 0 < length p → Piece p (chunk_of p)
unfolding Piece chunk_of
Piece-chunk_of p h = elim (Bool-cases (ltb max_noise_plaintext (length p))) [
  | inl e ↦ rw e (
    prefix_take max_noise_plaintext p (ground arith),
    ground (arith, length-take max_noise_plaintext p),
    ground (arith, length-take max_noise_plaintext p),
  )
  | inr e ↦ rw e (
    ap (λ xs. p ++ xs) (drop_of_length-le (length p) p (omega arith)) ∙ append-nil p,
    h,
    ground arith,
  )
]

module _ {K W : Type 0} (encrypt decrypt : K → Bytes → Option Bytes × K)
    (write : W → Bytes → W × Bool) (stream : W → Bytes) (Paired : K → K → Type 0) where
  -- The AEAD: what one of two paired states seals, 16 bytes longer, the other opens, and the next
  -- states are paired again.
  abbrev pub Opens : Type 0
  Opens =
      (s r : K) (p ct : Bytes) (s' : K)
      → Paired s r
      → encrypt s p ≡ (some ct, s')
      → (length ct ≡ length p + 16) × (r' : K) × (decrypt r ct ≡ (some p, r')) × Paired s' r'

  -- `net.Conn`: a call that succeeds appends its argument to the stream.
  abbrev pub Appends : Type 0
  Appends = (w : W) (b : Bytes) (w' : W) → write w b ≡ (w', true) → stream w' ≡ stream w ++ b

  -- What the loop leaves when it succeeds: frames on the wire behind what stood there, which carry `p`.
  abbrev Sent : K → W → Bytes → ℕ → Written K W → Type 0
  Sent r w p total result =
      (wire : Bytes) × (ps : List Bytes) × (r' : K) × (stream result.1 ≡ stream w ++ wire)
      × Carries decrypt r wire ps r'
      × (joined ps ≡ p)
      × (result.2 ≡ total + length p)

  chunk-Sent :
      Appends
      → (r : K) (w : W) (p chunk : Bytes) (total : ℕ) (s' : K) (ct : Bytes) (r' : K)
        (next : K → W → Written K W)
      → Piece p chunk
      → length ct ≡ length chunk + 16
      → decrypt r ct ≡ (some chunk, r')
      → (framed' : W × Option WireError) → write_frame write w ct ≡ framed'
      → ((w' : W)
          → (next s' w').3 ≡ none
          → Sent r' w' (drop (length chunk) p) (total + length chunk) (next s' w'))
      → (after_frame encrypt write total s' framed' next).3 ≡ none
      → Sent r w p total (after_frame encrypt write total s' framed' next)
  unfolding Piece
  chunk-Sent appends r w p chunk total s' ct r' next piece overhead opens (w', some e) q ih ok =
      absurd (cc)
  chunk-Sent appends r w p chunk total s' ct r' next piece overhead opens (w', none) q ih ok =
      let (small, v, first, second) = write_frame-calls write w ct q in
      let (wire, ps, end, sent, carried, all, count) = ih w' ok in
      (
        framed ct ++ wire,
        chunk ∷ ps,
        end,
        sent
            ∙ ap (λ xs. xs ++ wire)
                (appends v ct w' second
                  ∙ ap (λ xs. xs ++ ct) (appends w (put_uint16 (length ct)) v first))
            ∙ append_assoc4 (stream w) (put_uint16 (length ct)) ct wire,
        (ct, wire, r', refl, omega arith, small, piece.1, opens, carried),
        ap (λ xs. chunk ++ xs) all ∙ piece.0,
        omega (arith, length-append chunk (drop (length chunk) p), ap length piece.0),
      )

  encrypted-Sent :
      Opens
      → Appends
      → (s r : K) (w : W) (p chunk : Bytes) (total : ℕ) (next : K → W → Written K W) → Paired s r
      → Piece p chunk
      → (sealed : Option Bytes × K) → encrypt s chunk ≡ sealed
      → ((k r' : K) (w' : W)
          → Paired k r'
          → (next k w').3 ≡ none
          → Sent r' w' (drop (length chunk) p) (total + length chunk) (next k w'))
      → (after_encrypt encrypt write total w sealed next).3 ≡ none
      → Sent r w p total (after_encrypt encrypt write total w sealed next)
  encrypted-Sent open_law appends s r w p chunk total next paired piece (none, k) q ih ok =
      absurd (cc)
  encrypted-Sent open_law appends s r w p chunk total next paired piece (some ct, k) q ih ok =
      let (overhead, r', opens, paired') = open_law s r chunk ct k paired q in
      chunk-Sent appends r w p chunk total k ct r' next piece overhead opens
        (write_frame write w ct) refl (λ w'. ih k r' w' paired') ok

  write_loop-Sent :
      Opens
      → Appends
      → (fuel : ℕ) (s r : K) (w : W) (p : Bytes) (total : ℕ) → length p ≤ fuel
      → Paired s r
      → (write_loop encrypt write fuel s w p total).3 ≡ none
      → Sent r w p total (write_loop encrypt write fuel s w p total)
  unfolding write_loop Piece
  write_loop-Sent open_law appends zero s r w [] total enough paired ok =
      ([], [], r, sym (append-nil (stream w)), (refl, refl), refl, omega arith)
  write_loop-Sent open_law appends zero s r w (x ∷ xs) total enough paired ok = absurd (omega arith)
  write_loop-Sent open_law appends (suc fuel) s r w [] total enough paired ok =
      ([], [], r, sym (append-nil (stream w)), (refl, refl), refl, omega arith)
  write_loop-Sent open_law appends (suc fuel) s r w (x ∷ xs) total enough paired ok =
      let p : Bytes = x ∷ xs in
      let piece = Piece-chunk_of p (omega arith) in
      encrypted-Sent open_law appends s r w p (chunk_of p) total _ paired piece
        (encrypt s (chunk_of p)) refl
        (λ k r' w' paired' ok'.
          write_loop-Sent open_law appends fuel k r' w' (drop (length (chunk_of p)) p)
            (total + length (chunk_of p))
            (omega (arith, length-drop (length (chunk_of p)) p, piece.1)) paired' ok')
        ok

  -- If the cipher of the reader opens what the writer's seals, and the transport appends what it
  -- takes, then a `Write` that reports no error reports all of its bytes, and reads of any sizes but
  -- zero, as many of them as there are bytes, return exactly those bytes in order.
  pub reads-write_all :
      Opens
      → Appends
      → (a b : Conn K) (w : W) (p : Bytes) (sizes : List ℕ) → Paired a.send_cs b.recv_cs
      → b.read_buf ≡ []
      → stream w ≡ []
      → (write_all encrypt write a w p).3 ≡ none
      → All (λ n. 0 < n) sizes
      → length p ≤ length sizes
      → ((write_all encrypt write a w p).2 ≡ length p)
        × (reads decrypt sizes b (stream (write_all encrypt write a w p).1) ≡ p)
  unfolding write_all
  reads-write_all open_law appends a b w p sizes paired drained empty ok nonzero enough =
      let (wire, ps, end, sent, carried, all, count) =
        write_loop-Sent open_law appends (length p) a.send_cs b.recv_cs w p 0 (omega arith) paired
          ok in
      (
        omega arith,
        rw (sent, empty)
            (reads-joined decrypt sizes b wire ps end carried nonzero (rw (drained, all) enough)
              ∙ rw (drained, all) refl),
      )

module _ {K W : Type 0} (encrypt : K → Bytes → Option Bytes × K)
    (write : W → Bytes → W × Bool) where
  -- A cipher that seals every plaintext, 16 bytes longer.
  abbrev pub Seals : Type 0
  Seals =
      (s : K) (p : Bytes)
      → (ct : Bytes) × (s' : K) × (encrypt s p ≡ (some ct, s')) × (length ct ≡ length p + 16)

  after_frame-fine :
      (total : ℕ) (k : K) (sent : W × Option WireError) (next : K → W → Written K W)
      → sent.1 ≡ none
      → ((w : W) → (next k w).3 ≡ none)
      → (after_frame encrypt write total k sent next).3 ≡ none
  after_frame-fine total k (w, none) next h ih = ih w
  after_frame-fine total k (w, some e) next h ih = absurd (cc)

  write_loop-fine :
      Seals
      → ((w : W) (b : Bytes) → (write w b).1 ≡ true)
      → (fuel : ℕ) (s : K) (w : W) (p : Bytes) (total : ℕ) → length p ≤ fuel
      → (write_loop encrypt write fuel s w p total).3 ≡ none
  unfolding write_loop Piece
  write_loop-fine seals accepts zero s w [] total enough = refl
  write_loop-fine seals accepts zero s w (x ∷ xs) total enough = absurd (omega (arith, enough))
  write_loop-fine seals accepts (suc fuel) s w [] total enough = refl
  write_loop-fine seals accepts (suc fuel) s w (x ∷ xs) total enough =
      let piece = Piece-chunk_of (x ∷ xs) (omega arith) in
      let (ct, s', sealed, overhead) = seals s (chunk_of (x ∷ xs)) in
      rw sealed (
        after_frame-fine total s' (write_frame write w ct) _
          (write_frame-fine write accepts w ct (omega (arith, piece.2)))
          (λ w'.
            write_loop-fine seals accepts fuel s' w' _ _
              (omega (arith, length-drop (length (chunk_of (x ∷ xs))) (x ∷ xs), piece.1, enough))))

  -- A `Write` ends and reports no error, for any argument, while the cipher and the transport do not: its
  -- loop is never left with bytes to send after as many rounds as there were bytes.
  pub write_all-fine :
      Seals
      → ((w : W) (b : Bytes) → (write w b).1 ≡ true)
      → (c : Conn K) (w : W) (p : Bytes) → (write_all encrypt write c w p).3 ≡ none
  unfolding write_all
  write_all-fine seals accepts c w p =
      write_loop-fine seals accepts (length p) c.send_cs w p 0 (omega arith)
