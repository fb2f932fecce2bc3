-- ===== src/Noise/Handshake.antt =====
-- pkg/noise/config.go and pkg/noise/handshake.go: which configurations and peers are accepted, and the
-- loop of the handshake. The handshake state of the library is a parameter: `write_message` and
-- `read_message` return the next state, or `none` for an error, with the two cipher states once the
-- handshake is complete.
pub mod Peers
mod Examples
use gno_watchtower.Base.{
  ℕ, zero, suc, ◌+◌, ◌%◌, Bool, true, false, Option, none, some, List, [], ◌∷◌, ◌==◌, ◌&&◌, ◌||◌,
  not, ◌⊎◌, inl, inr, length, if◌then◌else◌,
}
use gno_watchtower.Noise.Frame.{Bytes, WireError, read_frame, write_frame}
use gno_watchtower.Noise.Conn.{Conn}

pub record Config : Type 0 where
  pub private_key : Bytes
  pub public_key : Bytes
  pub authorized_keys : List Bytes

-- `bytes.Equal`
unfoldable pub equal : Bytes → Bytes → Bool
equal [] [] = true
equal [] (y ∷ ys) = false
equal (x ∷ xs) [] = false
equal (x ∷ xs) (y ∷ ys) = let rest = equal xs ys in x == y && rest

unfoldable pub among : List Bytes → Bytes → Bool
among [] peer = false
among (k ∷ ks) peer = equal k peer || among ks peer

-- `authorizePeer`: whether it returns nil.
unfoldable pub authorize_peer : Config → Bytes → Bool
authorize_peer c peer = (length c.authorized_keys == 0) || among c.authorized_keys peer

unfoldable pub all_32 : List Bytes → Bool
all_32 [] = true
all_32 (k ∷ ks) = let rest = all_32 ks in length k == 32 && rest

-- `validate`: whether it returns nil.
unfoldable pub validate : Config → Bool
unfolding all_32
validate c = length c.private_key == 32 && (length c.public_key == 32 && all_32 c.authorized_keys)

pub data HandshakeError : Type 0 where
  invalid_config write_error read_error no_peer_key unauthorized out_of_fuel : HandshakeError
  wire : WireError → HandshakeError

-- A connection with its peer's key.
pub record Session (K : Type 0) : Type 0 where
  pub conn : Conn K
  pub peer_static : Bytes

pub data Outcome (K : Type 0) : Type 0 where
  established : Session K → Outcome K
  broken : HandshakeError → Outcome K

-- Which side writes message `i + 1`: `initiator == (i%2 == 0)`.
unfoldable pub write_turn : Bool → ℕ → Bool
write_turn true i = i % 2 == 0
write_turn false i = not (i % 2 == 0)

-- `finish`
unfoldable pub finish : {K : Type 0} → Config → Bool → Bytes → K × K → Outcome K
finish c initiator peer (cs1, cs2) =
    if length peer == 0
    then broken no_peer_key
    else if authorize_peer c peer
    then established (record {
      conn = record {
        send_cs = if initiator then cs1 else cs2;
        recv_cs = if initiator then cs2 else cs1;
        read_buf = [];
      };
      peer_static = peer;
    })
    else broken unauthorized

module _ {S K W : Type 0} (write : W → Bytes → W × Bool)
    (write_message : S → Option (S × Bytes × Option (K × K)))
    (read_message : S → Bytes → Option (S × Option (K × K))) (peer_static : S → Bytes) where
  -- The outcome, with the writer and what is left of the incoming stream.
  abbrev pub Result : Type 0
  Result = Outcome K × W × Bytes

  -- After a message: the end, or the next turn.
  abbrev pub proceed :
      Config → Bool → S → Option (K × K) → W → Bytes → (S → W → Bytes → Result) → Result
  proceed c initiator s none w incoming next = next s w incoming
  proceed c initiator s (some split) w incoming next =
      (finish c initiator (peer_static s) split, w, incoming)

  abbrev pub sent :
      Config
      → Bool
      → S
      → Option (K × K)
      → W × Option WireError
      → Bytes
      → (S → W → Bytes → Result)
      → Result
  sent c initiator s split (w, some e) incoming next = (broken (wire e), w, incoming)
  sent c initiator s split (w, none) incoming next = proceed c initiator s split w incoming next

  abbrev pub write_step :
      Config
      → Bool
      → Option (S × Bytes × Option (K × K))
      → W
      → Bytes
      → (S → W → Bytes → Result)
      → Result
  write_step c initiator none w incoming next = (broken write_error, w, incoming)
  write_step c initiator (some (s, buf, split)) w incoming next =
      sent c initiator s split (write_frame write w buf) incoming next

  abbrev pub accepted :
      Config → Bool → Option (S × Option (K × K)) → W → Bytes → (S → W → Bytes → Result) → Result
  accepted c initiator none w incoming next = (broken read_error, w, incoming)
  accepted c initiator (some (s, split)) w incoming next =
      proceed c initiator s split w incoming next

  abbrev pub read_step :
      Config → Bool → S → Bytes × (WireError ⊎ Bytes) → W → (S → W → Bytes → Result) → Result
  read_step c initiator s (incoming, inl e) w next = (broken (wire e), w, incoming)
  read_step c initiator s (incoming, inr frame) w next =
      accepted c initiator (read_message s frame) w incoming next

  -- The loop, whose fuel bounds the number of messages; a handshake of the library has three.
  unfoldable pub turns : ℕ → Config → Bool → ℕ → S → W → Bytes → Result
  turns zero c initiator i s w incoming = (broken out_of_fuel, w, incoming)
  turns (suc fuel) c initiator i s w incoming =
      let next = turns fuel c initiator (suc i) in
      if write_turn initiator i
      then write_step c initiator (write_message s) w incoming next
      else read_step c initiator s (read_frame incoming) w next

  -- `runHandshake`, from the library's initial state on.
  unfoldable pub run_handshake : ℕ → Config → Bool → S → W → Bytes → Result
  run_handshake fuel c initiator s w incoming =
      if validate c
      then turns fuel c initiator 0 s w incoming
      else (broken invalid_config, w, incoming)
