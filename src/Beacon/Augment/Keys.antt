-- ===== src/Beacon/Augment/Keys.antt =====
-- What an augmented payload holds: the sentinel's data, and the sentry's under three keys of its own.
use gno_watchtower.Base.{
  ℕ, String, true, Option, some, Assoc, lookup, str_eq, if◌then◌else◌, ◌≡◌, ◌⊎◌,
}
use gno_watchtower.Json.{Json, as_map}
use gno_watchtower.Beacon.Augment.{
  Augmenter, Sentry, Fetched, failed, empty, got, Result, failure, nothing, payload_with,
  nil_map_panic, is_present, is_stale, config_raw, parsed,
}

-- What stands at a key behind a fetch for it.
abbrev pub seen : Fetched → Option Json → Option Json
seen failed old = old
seen empty old = old
seen (got raw) old = some raw

abbrev pub expected : Sentry → Fetched → String → Option Json → Option Json
expected sentry config at old =
    if str_eq "sentry_status" at
    then seen sentry.status old
    else if str_eq "sentry_net_info" at
    then seen sentry.net_info old
    else if str_eq "sentry_config" at
    then seen config old
    else old

-- The sentinel's data with the sentry's: what was fetched stands at its key, and all else as it was.
abbrev pub IsMerged : Sentry → Fetched → Assoc Json → Assoc Json → Type 0
IsMerged sentry config original merged =
    (at : String) → lookup at merged ≡ expected sentry config at (lookup at original)

-- What holds of a payload that was augmented.
abbrev pub IsAugmented : Augmenter → Sentry → ℕ → Option Json → Assoc Json → Assoc Json → Type 0
IsAugmented a sentry now body payload merged =
    (raw : Json) × (original : Assoc Json) × (parsed body ≡ some payload)
    × (lookup "data" payload ≡ some raw)
    × (as_map some raw ≡ some original)
    × ((is_present (lookup "net_info" original) ≡ true) ⊎ (is_stale a now ≡ true))
    × IsMerged sentry (config_raw a sentry) original merged

-- The outcomes of a call, by the state and the result that it gives.
abbrev pub Outcome : Augmenter → Sentry → ℕ → Option Json → Augmenter → Result → Type 0
Outcome a sentry now body after failure = after ≡ a
Outcome a sentry now body after nothing = after ≡ a
Outcome a sentry now body after nil_map_panic = after ≡ a
Outcome a sentry now body after (payload_with payload merged) =
    (after ≡ record a { last_augment_at = now }) × IsAugmented a sentry now body payload merged
