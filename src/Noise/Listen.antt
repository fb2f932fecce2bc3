-- ===== src/Noise/Listen.antt =====
-- pkg/noise/listen.go: the listener, as a state that the accept loop, the goroutine of each handshake,
-- the callers of Accept and of Close all move, in any order. A raw connection is a number that names it
-- once; whether a handshake succeeds is a parameter, and the errors of the raw listener are left
-- to the environment. A channel operation is one step, and where a `select` has several ready cases
-- each of them is a step of its own.
pub mod Counts
pub mod Places
pub mod Draining
mod Examples
use gno_watchtower.Base.{ℕ, ◌+◌, ◌<◌, Bool, true, false, List, [], ◌∷◌, ◌++◌, length, ◌≡◌, ◌≢◌}

-- `acceptResultBuffer`
abbrev pub accept_result_buffer : ℕ
accept_result_buffer = 16

pub data AcceptResult : Type 0 where
  conn : ℕ → AcceptResult
  accept_error : AcceptResult

-- Where the accept loop stands: in `raw.Accept`, before the send of its error, or returned.
pub data Loop : Type 0 where
  accepting surfacing returned : Loop

-- The connections are those in a handshake, before the send of their result, in `results`, returned by
-- Accept, rejected (and closed), and dropped by the listener (and closed).
pub record Listen : Type 0 where
  pub loop : Loop
  pub closed : Bool
  pub next : ℕ
  pub handshaking : List ℕ
  pub ready : List ℕ
  pub results : List AcceptResult
  pub accepted : List ℕ
  pub rejected : List ℕ
  pub dropped : List ℕ

-- `NewListener`, with its loop running.
abbrev pub init : Listen
init = record {
  loop = accepting;
  closed = false;
  next = 0;
  handshaking = [];
  ready = [];
  results = [];
  accepted = [];
  rejected = [];
  dropped = [];
}

-- `runHandshake`, for a connection.
module _ (authorized : ℕ → Bool) where
  pub data Step (l : Listen) : Listen → Type 0 where
    -- `loop`: a raw connection starts its handshake.
    arrive :
        l.loop ≡ accepting
        → Step l (record l { next = l.next + 1; handshaking = l.next ∷ l.handshaking })
    -- `loop`: an error of the raw listener, behind Close and before it.
    stop : l.loop ≡ accepting → l.closed ≡ true → Step l (record l { loop = returned })
    fail : l.loop ≡ accepting → l.closed ≡ false → Step l (record l { loop = surfacing })
    surface :
        l.loop ≡ surfacing
        → length l.results < accept_result_buffer
        → Step l (record l { loop = returned; results = l.results ++ accept_error ∷ [] })
    give_up : l.loop ≡ surfacing → l.closed ≡ true → Step l (record l { loop = returned })
    -- `handshake`, for any of the connections in one.
    reject :
        (before after : List ℕ) (c : ℕ)
        → l.handshaking ≡ before ++ c ∷ after
        → authorized c ≡ false
        → Step l (record l { handshaking = before ++ after; rejected = c ∷ l.rejected })
    complete :
        (before after : List ℕ) (c : ℕ)
        → l.handshaking ≡ before ++ c ∷ after
        → authorized c ≡ true
        → Step l (record l { handshaking = before ++ after; ready = c ∷ l.ready })
    -- Its `select`: the result is sent if the channel has room, or the listener is closed.
    publish :
        (before after : List ℕ) (c : ℕ)
        → l.ready ≡ before ++ c ∷ after
        → length l.results < accept_result_buffer
        → Step l (record l { ready = before ++ after; results = l.results ++ conn c ∷ [] })
    drop :
        (before after : List ℕ) (c : ℕ)
        → l.ready ≡ before ++ c ∷ after
        → l.closed ≡ true
        → Step l (record l { ready = before ++ after; dropped = c ∷ l.dropped })
    -- `Accept`, with a connection or with the loop's error; with `net.ErrClosed` it changes nothing.
    accept :
        (c : ℕ) (rest : List AcceptResult)
        → l.results ≡ conn c ∷ rest
        → Step l (record l { results = rest; accepted = c ∷ l.accepted })
    accept_failure :
        (rest : List AcceptResult)
        → l.results ≡ accept_error ∷ rest
        → Step l (record l { results = rest })
    -- `Close`; a second one changes nothing.
    close : Step l (record l { closed = true })

  pub data Reach : Listen → Type 0 where
    start : Reach init
    later : {l m : Listen} → Reach l → Step l m → Reach m
