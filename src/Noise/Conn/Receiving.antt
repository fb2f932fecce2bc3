-- ===== src/Noise/Conn/Receiving.antt =====
-- What `Read` returns on a wire of frames.
use gno_watchtower.Base.{
  ℕ, suc, ◌⊎◌, inl, inr, Option, some, List, [], ◌∷◌, ◌++◌, ◌≡◌, ◌<◌, ◌≤◌, refl, ap, sym, ◌∙◌,
  append_assoc, arith, length, take, drop, length-append, length-take, take-append-drop, All,
}
use gno_watchtower.Noise.Frame.{
  Bytes, WireError, end_of_stream, framed, read_frame-framed, read_frame_nil,
}
use gno_watchtower.Noise.Conn.{Conn, deliver, read, reads, or_stop}

-- The plaintexts of a list, one behind the other.
abbrev pub joined : List Bytes → Bytes
joined [] = []
joined (p ∷ ps) = p ++ joined ps

taken-dropped : (n : ℕ) (xs ys : Bytes) → take n xs ++ (drop n xs ++ ys) ≡ xs ++ ys
taken-dropped n xs ys =
    sym (append_assoc (take n xs) (drop n xs) ys) ∙ ap (λ zs. zs ++ ys) (take-append-drop n xs)

module _ {K : Type 0} (decrypt : K → Bytes → Option Bytes × K) where
  -- The bytes on the wire are frames that the cipher state opens, one after the other, to the
  -- plaintexts of the list, none of them empty; it is then in the last state.
  abbrev pub Carries : K → Bytes → List Bytes → K → Type 0
  Carries k wire [] end = (wire ≡ []) × (k ≡ end)
  Carries k wire (p ∷ ps) end =
      (ct rest : Bytes) × (k' : K) × (wire ≡ framed ct ++ rest)
      × (0 < length ct)
      × (length ct ≤ 65535)
      × (0 < length p)
      × (decrypt k ct ≡ (some p, k'))
      × Carries k' rest ps end

  -- What one call of `Read` does on such a wire: it fails only where nothing is left to read, and
  -- else moves a piece of what is left to the caller.
  abbrev Step : ℕ → Conn K → Bytes → List Bytes → K → Conn K × Bytes × (WireError ⊎ Bytes) → Type 0
  Step size c stream ps end result =
      ((c.read_buf ++ joined ps ≡ []) × (e : WireError) × (result.2 ≡ inl e))
      ⊎ ((got : Bytes) × (ps' : List Bytes) × (result.2 ≡ inr got)
          × (got ++ (result.0.read_buf ++ joined ps') ≡ c.read_buf ++ joined ps)
          × (0 < size → 0 < length got)
          × Carries result.0.recv_cs result.1 ps' end)

  abbrev conn : K → K → Bytes → Conn K
  conn s k buf = record { send_cs = s; recv_cs = k; read_buf = buf }

  deliver-Step :
      (size : ℕ) (s k k' : K) (stream rest : Bytes) (p : Bytes) (ps : List Bytes) (end : K)
      → 0 < length p
      → Carries k' rest ps end
      → Step size (conn s k []) stream (p ∷ ps) end (
        (deliver decrypt size (conn s k' []) p).0,
        rest,
        (deliver decrypt size (conn s k' []) p).1,
      )
  deliver-Step size s k k' stream rest [] ps end h0 h = absurd (omega arith)
  deliver-Step size s k k' stream rest (x ∷ xs) ps end h0 h = inr (
    take size (x ∷ xs),
    ps,
    refl,
    taken-dropped size (x ∷ xs) (joined ps),
    λ n. ground (arith, length-take size (x ∷ xs)),
    h,
  )

  read-Step :
      (size : ℕ) (s k : K) (stream : Bytes) (buf : Bytes) (ps : List Bytes) (end : K)
      → Carries k stream ps end
      → Step size (conn s k buf) stream ps end (read decrypt size (conn s k buf) stream)
  unfolding read
  read-Step size s k stream [] [] end h = inl (refl, end_of_stream, rw (h.0, read_frame_nil) refl)
  read-Step size s k stream [] (p ∷ ps) end (ct, rest, k', e, n0, n1, m, d, t) =
      rw (e, read_frame-framed ct rest n0 n1, d) (deliver-Step size s k k' stream rest p ps end m t)
  read-Step size s k stream (x ∷ xs) ps end h = inr (
    take size (x ∷ xs),
    ps,
    refl,
    taken-dropped size (x ∷ xs) (joined ps),
    λ n. ground (arith, length-take size (x ∷ xs)),
    h,
  )

  -- Reads of sizes that are not zero, and at least as many as there are bytes to come, get them all.
  or_stop-all :
      (size : ℕ) (sizes : List ℕ) (s k : K) (stream buf : Bytes) (ps : List Bytes) (end : K)
      → 0 < size
      → (result : Conn K × Bytes × (WireError ⊎ Bytes))
      → Step size (conn s k buf) stream ps end result
      → length (buf ++ joined ps) ≤ suc (length sizes)
      → ((qs : List Bytes)
          → Carries result.0.recv_cs result.1 qs end
          → length (result.0.read_buf ++ joined qs) ≤ length sizes
          → reads decrypt sizes result.0 result.1 ≡ result.0.read_buf ++ joined qs)
      → or_stop decrypt (reads decrypt sizes) result ≡ buf ++ joined ps
  or_stop-all size sizes s k stream buf ps end h0 (c, rest, inl e) (inl (q, f, w)) enough ih = sym q
  or_stop-all size sizes s k stream buf ps end h0 (c, rest, inr got) (inl (q, f, w)) enough ih =
      absurd (cc)
  or_stop-all size sizes s k stream buf ps end h0 (c, rest, inl e) (inr (got, qs, w, sum, more, h))
        enough ih =
      absurd (cc)
  or_stop-all size sizes s k stream buf ps end h0 (c, rest, inr got)
        (inr (got', qs, w, sum, more, h)) enough ih =
      let total = length-append got' (c.read_buf ++ joined qs) in
      let same = ap length sum in let some_read = more h0 in let later = ih qs h (omega arith) in cc

  nil_of_length : (xs : Bytes) → length xs ≤ 0 → [] ≡ xs
  nil_of_length [] h = refl
  nil_of_length (x ∷ xs) h = absurd (omega arith)

  pub reads-joined :
      (sizes : List ℕ) (c : Conn K) (stream : Bytes) (ps : List Bytes) (end : K)
      → Carries c.recv_cs stream ps end
      → All (λ n. 0 < n) sizes
      → length (c.read_buf ++ joined ps) ≤ length sizes
      → reads decrypt sizes c stream ≡ c.read_buf ++ joined ps
  unfolding reads
  reads-joined [] c stream ps end h nonzero enough = nil_of_length (c.read_buf ++ joined ps) enough
  reads-joined (size ∷ sizes) c stream ps end h nonzero enough =
      or_stop-all size sizes c.send_cs c.recv_cs stream c.read_buf ps end nonzero.0
        (read decrypt size c stream) (read-Step size c.send_cs c.recv_cs stream c.read_buf ps end h)
        enough (λ qs h' enough'. reads-joined sizes _ _ qs end h' nonzero.1 enough')
