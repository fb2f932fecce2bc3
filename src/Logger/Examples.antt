-- ===== src/Logger/Examples.antt =====
-- The key "latency-ms" in the group "rpc".
use gno_watchtower.Base.{[], ◌∷◌, ◌≡◌, refl}
use gno_watchtower.Logger.{Runes, sanitized, write_sanitized, joined_groups, journal_key}

abbrev rpc : Runes
rpc = b'r' ∷ b'p' ∷ b'c' ∷ []

abbrev ms : Runes
ms = b'-' ∷ b'm' ∷ b's' ∷ []

rewrites : journal_key (rpc ∷ []) ms ≡ b'R' ∷ b'P' ∷ b'C' ∷ b'_' ∷ b'_' ∷ b'M' ∷ b'S' ∷ []
unfolding journal_key joined_groups write_sanitized sanitized
rewrites = refl
