-- ===== src/Noise/Handshake/Examples.antt =====
-- A responder and a toy handshake that is complete with its third message.
use gno_watchtower.Base.{
  ℕ, ◌+◌, ◌==◌, Bool, true, false, Option, none, some, [], ◌∷◌, ◌++◌, if◌then◌else◌, ◌≡◌, refl,
}
use gno_watchtower.Noise.Frame.{Bytes, read_full, read_frame, write_frame}
use gno_watchtower.Noise.Handshake.{
  Config, Session, established, equal, among, authorize_peer, all_32, validate, write_turn, finish,
  turns, run_handshake,
}
use gno_watchtower.Noise.Handshake.Peers.{Keys32, Authorized, run_handshake-Authorized}

abbrev key : Bytes
key =
    0 ∷ 0 ∷ 0 ∷ 0 ∷ 0 ∷ 0 ∷ 0 ∷ 0 ∷ 0 ∷ 0 ∷ 0 ∷ 0 ∷ 0 ∷ 0 ∷ 0 ∷ 0 ∷ 0 ∷ 0 ∷ 0 ∷ 0 ∷ 0 ∷ 0 ∷ 0 ∷ 0
    ∷ 0 ∷ 0 ∷ 0 ∷ 0 ∷ 0 ∷ 0 ∷ 0 ∷ 0 ∷ []

abbrev config : Config
config = record { private_key = key; public_key = key; authorized_keys = key ∷ [] }

abbrev split : ℕ → Option (ℕ × ℕ)
split stage = if stage == 2 then some (10, 20) else none

abbrev write_message : ℕ → Option (ℕ × Bytes × Option (ℕ × ℕ))
write_message stage = some (stage + 1, 1 ∷ [], split stage)

abbrev read_message : ℕ → Bytes → Option (ℕ × Option (ℕ × ℕ))
read_message stage frame = some (stage + 1, split stage)

abbrev shown : ℕ → Bytes
shown stage = key

abbrev pipe : Bytes → Bytes → Bytes × Bool
pipe w b = (w ++ b, true)

abbrev incoming : Bytes
incoming = 0 ∷ 1 ∷ 1 ∷ 0 ∷ 1 ∷ 1 ∷ []

abbrev session : Session ℕ
session = record { conn = record { send_cs = 20; recv_cs = 10; read_buf = [] }; peer_static = key }

program : Unit {0}
unfolding run_handshake turns finish write_turn validate all_32 authorize_peer among equal
    read_frame read_full write_frame
program = tt

responds :
    run_handshake pipe write_message read_message shown 3 config false 0 [] incoming
    ≡ (established session, 0 ∷ 1 ∷ 1 ∷ [], [])
unfolding program
responds = refl

run_handshake-Authorized_example : Keys32 config × Authorized config key
run_handshake-Authorized_example =
    run_handshake-Authorized pipe write_message read_message shown 3 config false 0 [] incoming
      session (unfold program in refl)
