-- ===== src/Noise/Frame.antt =====
-- pkg/noise/conn.go, readFrame and writeFrame: frames of a two-byte big-endian length and a payload.
-- The `io.Writer` is a parameter: `write` returns its new state, with whether the call succeeded.
use gno_watchtower.Base.{
  ℕ, ◌+◌, ◌*◌, ◌/◌, ◌%◌, ◌<◌, ◌≤◌, Bool, true, false, Option, none, some, List, [], ◌∷◌, ◌++◌, ltb,
  leb, ◌==◌, length, take, drop, take-append_self, drop-append_self, length-append, if◌then◌else◌,
  ◌≡◌, ◌⊎◌, inl, inr, refl, arith,
}

abbrev pub Bytes : Type 0
Bytes = List ℕ

-- What `io.ReadFull`, a frame or the cipher can fail with.
pub data WireError : Type 0 where
  end_of_stream zero_length_frame too_large write_failed : WireError
  encrypt_failed decrypt_failed zero_length_plaintext : WireError
  endless : WireError  -- no error of the code: a loop that would go on

-- `io.ReadFull` on a stream that ends: what is left of it, and the bytes that were asked for.
unfoldable pub read_full : ℕ → Bytes → Bytes × Option Bytes
read_full n stream =
    if leb n (length stream) then (drop n stream, some (take n stream)) else ([], none)

abbrev pub uint16 : Bytes → ℕ
uint16 (hi ∷ lo ∷ []) = hi * 256 + lo
uint16 _ = 0

-- `PutUint16`
abbrev pub put_uint16 : ℕ → Bytes
put_uint16 n = n / 256 % 256 ∷ n % 256 ∷ []

abbrev read_payload : Bytes × Option Bytes → Bytes × (WireError ⊎ Bytes)
read_payload (rest, none) = (rest, inl end_of_stream)
read_payload (rest, some payload) = (rest, inr payload)

abbrev after_header : Bytes × Option Bytes → Bytes × (WireError ⊎ Bytes)
after_header (rest, none) = (rest, inl end_of_stream)
after_header (rest, some hdr) =
    if uint16 hdr == 0
    then (rest, inl zero_length_frame)
    else read_payload (read_full (uint16 hdr) rest)

unfoldable pub read_frame : Bytes → Bytes × (WireError ⊎ Bytes)
read_frame stream = after_header (read_full 2 stream)

module _ {W : Type 0} (write : W → Bytes → W × Bool) where
  abbrev write_result : W × Bool → W × Option WireError
  write_result (w, true) = (w, none)
  write_result (w, false) = (w, some write_failed)

  abbrev write_payload : Bytes → W × Bool → W × Option WireError
  write_payload payload (w, false) = (w, some write_failed)
  write_payload payload (w, true) = write_result (write w payload)

  unfoldable pub write_frame : W → Bytes → W × Option WireError
  write_frame w payload =
      if ltb 65535 (length payload)
      then (w, some too_large)
      else write_payload payload (write w (put_uint16 (length payload)))

-- A frame as it stands on the wire.
abbrev pub framed : Bytes → Bytes
framed payload = put_uint16 (length payload) ++ payload

pub read_full-append :
    (payload rest : Bytes) → read_full (length payload) (payload ++ rest) ≡ (rest, some payload)
unfolding read_full
read_full-append payload rest = ground (
  arith,
  take-append_self payload rest,
  drop-append_self payload rest,
  length-append payload rest,
)

pub read_frame-framed :
    (payload rest : Bytes)
    → 0 < length payload
    → length payload ≤ 65535
    → read_frame (framed payload ++ rest) ≡ (rest, inr payload)
unfolding read_frame read_full
read_frame-framed payload rest h0 h1 = ground (
  arith,
  take-append_self payload rest,
  drop-append_self payload rest,
  length-append payload rest,
)

pub read_frame_nil : read_frame [] ≡ ([], inl end_of_stream)
unfolding read_frame read_full
read_frame_nil = refl

module _ {W : Type 0} (write : W → Bytes → W × Bool) where
  second_call : (sent : W × Bool) {w : W} → write_result write sent ≡ (w, none) → sent ≡ (w, true)
  second_call (v, true) h = cc
  second_call (v, false) h = absurd (cc)

  payload_sent :
      (payload : Bytes) (sent : W × Bool) {w : W}
      → write_payload write payload sent ≡ (w, none)
      → (v : W) × (sent ≡ (v, true)) × (write v payload ≡ (w, true))
  payload_sent payload (v, false) h = absurd (cc)
  payload_sent payload (v, true) h = (v, refl, second_call (write v payload) h)

  not_too_large :
      (b : Bool) (w v : W) (result : W × Option WireError)
      → (if b then (w, some too_large) else result) ≡ (v, none)
      → (b ≡ false) × (result ≡ (v, none))
  not_too_large true w v result h = absurd (cc)
  not_too_large false w v result h = (refl, h)

  -- A frame that was written is two successful calls.
  pub write_frame-calls :
      (w : W) (payload : Bytes) {w' : W}
      → write_frame write w payload ≡ (w', none)
      → (length payload ≤ 65535)
        × (v : W) × (write w (put_uint16 (length payload)) ≡ (v, true))
        × (write v payload ≡ (w', true))
  unfolding write_frame
  write_frame-calls w payload {w'} h =
      let (small, sent) = not_too_large (ltb 65535 (length payload)) w w' _ h in
      let (v, first, second) = payload_sent payload (write w (put_uint16 (length payload))) sent in
      (ground arith, v, first, second)

  write_result-fine : (sent : W × Bool) → sent.1 ≡ true → (write_result write sent).1 ≡ none
  write_result-fine (v, true) h = refl
  write_result-fine (v, false) h = absurd (cc)

  write_payload-fine :
      ((w : W) (b : Bytes) → (write w b).1 ≡ true)
      → (payload : Bytes) (sent : W × Bool) → sent.1 ≡ true
      → (write_payload write payload sent).1 ≡ none
  write_payload-fine accepts payload (v, true) h =
      write_result-fine (write v payload) (accepts v payload)
  write_payload-fine accepts payload (v, false) h = absurd (cc)

  -- A writer that never fails takes every payload that fits.
  pub write_frame-fine :
      ((w : W) (b : Bytes) → (write w b).1 ≡ true)
      → (w : W) (payload : Bytes) → length payload ≤ 65535
      → (write_frame write w payload).1 ≡ none
  unfolding write_frame
  write_frame-fine accepts w payload h =
      let small : ltb 65535 (length payload) ≡ false = ground arith in
      rw small (
        write_payload-fine accepts payload (write w (put_uint16 (length payload)))
          (accepts w (put_uint16 (length payload))))
