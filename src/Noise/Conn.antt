-- ===== src/Noise/Conn.antt =====
-- pkg/noise/conn.go: `Conn`, whose `Write` splits its argument into encrypted frames and whose
-- `Read` takes them apart. The cipher states come from a library: `encrypt` and `decrypt` are
-- parameters, which return the next state too. The raw connection is the writer `write` at one end
-- and a stream of bytes at the other.
pub mod Receiving
pub mod RoundTrip
mod Examples
use gno_watchtower.Base.{
  ℕ, zero, suc, ◌+◌, ◌-◌, ◌⊎◌, inl, inr, Bool, true, false, Option, none, some, List, [], ◌∷◌, ◌++◌,
  ltb, ◌==◌, length, take, drop, if◌then◌else◌,
}
use gno_watchtower.Noise.Frame.{
  Bytes, WireError, endless, encrypt_failed, decrypt_failed, zero_length_plaintext, read_frame,
  write_frame,
}

-- The fields that change.
pub record Conn (K : Type 0) : Type 0 where
  pub send_cs : K
  pub recv_cs : K
  pub read_buf : Bytes

abbrev pub max_noise_plaintext : ℕ
max_noise_plaintext = 65535 - 16 - 16

module _ {K : Type 0} (decrypt : K → Bytes → Option Bytes × K) where
  -- `copy(p, plaintext)` into a buffer of `size` bytes, and the tail that is kept.
  abbrev pub deliver : ℕ → Conn K → Bytes → Conn K × (WireError ⊎ Bytes)
  deliver size c [] = (c, inl zero_length_plaintext)
  deliver size c plaintext =
      (record c { read_buf = drop size plaintext }, inr (take size plaintext))

  abbrev pub opened : ℕ → Conn K → Option Bytes × K → Conn K × (WireError ⊎ Bytes)
  opened size c (none, k) = (record c { recv_cs = k }, inl decrypt_failed)
  opened size c (some plaintext, k) = deliver size (record c { recv_cs = k }) plaintext

  abbrev pub open_frame :
      ℕ → Conn K → Bytes × (WireError ⊎ Bytes) → Conn K × Bytes × (WireError ⊎ Bytes)
  open_frame size c (stream, inl e) = (c, stream, inl e)
  open_frame size c (stream, inr frame) =
      let (c', result) = opened size c (decrypt c.recv_cs frame) in (c', stream, result)

  -- `Read` into a buffer of `size` bytes: the connection, what is left of the stream, and the result.
  unfoldable pub read : ℕ → Conn K → Bytes → Conn K × Bytes × (WireError ⊎ Bytes)
  read size c stream = elim c.read_buf [
    | [] ↦ open_frame size c (read_frame stream)
    | _ ↦ (record c { read_buf = drop size c.read_buf }, stream, inr (take size c.read_buf))
  ]

  abbrev pub or_stop : (Conn K → Bytes → Bytes) → Conn K × Bytes × (WireError ⊎ Bytes) → Bytes
  or_stop again (c, stream, inl e) = []
  or_stop again (c, stream, inr got) = got ++ again c stream

  -- A reader that calls `Read` with buffers of these sizes and stops at an error: all it was given.
  unfoldable pub reads : List ℕ → Conn K → Bytes → Bytes
  reads [] c stream = []
  reads (size ∷ sizes) c stream = or_stop (reads sizes) (read size c stream)

unfoldable pub chunk_of : Bytes → Bytes
chunk_of p = if ltb max_noise_plaintext (length p) then take max_noise_plaintext p else p

-- What the loop of `Write` leaves: the cipher state, the writer, `total`, and the error.
abbrev pub Written : Type 0 → Type 0 → Type 0
Written K W = K × W × ℕ × Option WireError

module _ {K W : Type 0} (encrypt : K → Bytes → Option Bytes × K)
    (write : W → Bytes → W × Bool) where
  abbrev pub after_frame : ℕ → K → W × Option WireError → (K → W → Written K W) → Written K W
  after_frame total k (w, some e) next = (k, w, total, some e)
  after_frame total k (w, none) next = next k w

  abbrev pub after_encrypt : ℕ → W → Option Bytes × K → (K → W → Written K W) → Written K W
  after_encrypt total w (none, k) next = (k, w, total, some encrypt_failed)
  after_encrypt total w (some ct, k) next = after_frame total k (write_frame write w ct) next

  -- The loop of `Write`. A round sends one byte
  -- or more, so that as many rounds as there are bytes are enough; `endless` if they were not.
  unfoldable pub write_loop : ℕ → K → W → Bytes → ℕ → Written K W
  write_loop zero k w [] total = (k, w, total, none)
  write_loop zero k w (x ∷ xs) total = (k, w, total, some endless)
  write_loop (suc fuel) k w [] total = (k, w, total, none)
  write_loop (suc fuel) k w p total =
      after_encrypt total w (encrypt k (chunk_of p)) (λ k' w'.
        write_loop fuel k' w' (drop (length (chunk_of p)) p) (total + length (chunk_of p)))

  -- `Write`
  unfoldable pub write_all : Conn K → W → Bytes → Conn K × W × ℕ × Option WireError
  write_all c w p =
      let (k, w', total, error) = write_loop (length p) c.send_cs w p 0 in
      (record c { send_cs = k }, w', total, error)
