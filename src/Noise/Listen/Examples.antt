-- ===== src/Noise/Listen/Examples.antt =====
-- Two peers, one of them unauthorized; and a connection that Close leaves in the channel.
use gno_watchtower.Base.{ℕ, ◌≤◌, ◌==◌, Bool, true, [], ◌∷◌, All, ◌≡◌, refl, ◌⊎◌, arith}
use gno_watchtower.Noise.Listen.{
  accept_result_buffer, conn, Listen, returned, surfacing, give_up, init, arrive, stop, complete,
  reject, publish, close, Reach, start, later,
}
use gno_watchtower.Noise.Listen.Places.{places, arrived, IsGranted, IsRefused, Reach-safe}
use gno_watchtower.Noise.Listen.Draining.{stay, go, work, Moves, Settled, closed-Settled}

abbrev only_first : ℕ → Bool
only_first c = c == 0

abbrev one_ready : Listen
one_ready = record init { next = 2; ready = 0 ∷ []; rejected = 1 ∷ [] }

one_ready-Reach : Reach only_first one_ready
one_ready-Reach =
    later (later (later (later start (arrive refl)) (arrive refl)) (reject [] (0 ∷ []) 1 refl refl))
      (complete [] [] 0 refl refl)

-- Closed, with every goroutine gone, and a connection that nobody has or closes.
abbrev left_behind : Listen
left_behind = record init {
  loop = returned;
  closed = true;
  next = 2;
  results = conn 0 ∷ [];
  rejected = 1 ∷ [];
}

left_behind-Reach : Reach only_first left_behind
left_behind-Reach =
    later (later (later one_ready-Reach (publish [] [] 0 refl (omega arith))) close)
      (stop refl refl)

Reach-safe_example :
    ((x : ℕ) → places x left_behind ≡ arrived x left_behind)
    × All (IsGranted only_first) []
    × All (IsRefused only_first) (1 ∷ [])
    × (1 ≤ accept_result_buffer)
    × ((left_behind.dropped ≡ []) ⊎ (true ≡ true))
Reach-safe_example = Reach-safe only_first left_behind left_behind-Reach

-- Closed while the accept loop waits to send its error, with two handshakes and a result that is not sent.
abbrev closing : Listen
closing = record init {
  loop = surfacing;
  closed = true;
  next = 3;
  handshaking = 1 ∷ 0 ∷ [];
  ready = 2 ∷ [];
}

abbrev still_closing : Listen
still_closing = record closing { loop = returned; handshaking = 0 ∷ []; rejected = 1 ∷ [] }

closed-Settled_example :
    (2 ≤ work closing)
    × (still_closing.accepted ≡ closing.accepted)
    × (Settled still_closing ⊎ Moves only_first still_closing)
closed-Settled_example =
    closed-Settled only_first 2 closing still_closing refl
      (go (give_up refl refl) refl (go (reject [] (0 ∷ []) 1 refl refl) refl (stay still_closing)))
