-- ===== src/Watchtower/Forwarder/Pushes.antt =====
-- What Loki is sent: every line once, in order of time, inside its window, without promoted fields.
use mathlib.Core.List.{Perm}
use mathlib.Core.List.Perm
use gno_watchtower.Base.{
  ℕ, map, ◌+◌, ◌-◌, ◌≤◌, ◌⊎◌, String, Option, none, some, List, [], ◌∷◌, lookup, All, ◌≢◌, ◌≡◌,
  eq_iff, arith,
}
use gno_watchtower.Sentinel.Logs.{level_rank}
use gno_watchtower.Watchtower.Forwarder.{
  Line, object, not_object, Payload, Entry, Stream, future_skew, past_skew, entry_of, to_loki_push,
  forward_logs, pushed,
}

-- No entry is earlier than one before it.
abbrev pub Ordered : List Entry → Type 0
Ordered [] = Unit
Ordered (e ∷ es) = All (λ f. e.nano ≤ f.nano) es × Ordered es

-- A line without a member of that name.
abbrev pub Lacks : String → Line → Type 0
Lacks k (object members) = lookup k members ≡ none
Lacks k (not_object raw) = Unit

-- An entry that Loki accepts at an instant, without the promoted fields.
abbrev pub Acceptable : ℕ → Entry → Type 0
Acceptable now e =
    (now - past_skew ≤ e.nano)
    × (e.nano ≤ now + future_skew)
    × Lacks "ts" e.raw
    × Lacks "level" e.raw

module _ (parse_time : String → Option ℕ) where
  -- What every stream of a push satisfies.
  abbrev pub Pushed : String → Payload → ℕ → Stream → Type 0
  Pushed validator payload now s =
      (s.validator ≡ validator)
      × (s.level ≡ payload.level)
      × Perm s.values (map (entry_of parse_time now) payload.lines)
      × Ordered s.values
      × All (Acceptable now) s.values

  -- No stream for a payload without lines, and one for any other.
  abbrev pub OneStream : String → Payload → ℕ → List Stream → Type 0
  OneStream validator payload now result =
      ((payload.lines ≡ []) × (result ≡ []))
      ⊎ ((payload.lines ≢ []) × (s : Stream) × (result ≡ s ∷ []) × Pushed validator payload now s)

  -- A payload is pushed only if no minimum level is set or its level ranks at least as high.
  pub forward_logs-level :
      (validator min_level : String) (now : ℕ) (payload : Payload) (s : List Stream)
      → forward_logs parse_time validator min_level now (some payload) ≡ pushed s
      → ((min_level ≡ "") ⊎ (level_rank min_level ≤ level_rank payload.level))
        × (s ≡ to_loki_push parse_time validator payload now)
  unfolding forward_logs
  forward_logs-level validator min_level now payload s h = ground (arith, eq_iff min_level "")
