-- ===== src/Logger.antt =====
-- pkg/logger/logger.go: keys that the systemd journal accepts, and the names of levels. A text is a list
-- of code points.
pub mod Journal
mod Examples
use gno_watchtower.Base.{
  ℕ, ◌+◌, ◌-◌, String, Bool, true, false, Option, none, some, List, [], ◌∷◌, ◌++◌, leb, ◌==◌, ◌&&◌,
  ◌||◌, str_eq, ℤ, pos, negsuc, if◌then◌else◌,
}

abbrev pub Runes : Type 0
Runes = List ℕ

abbrev pub is_upper : ℕ → Bool
is_upper c = leb 65 c && leb c 90

abbrev pub is_lower : ℕ → Bool
is_lower c = leb 97 c && leb c 122

abbrev pub is_digit : ℕ → Bool
is_digit c = leb 48 c && leb c 57

abbrev pub underscore : ℕ
underscore = 95

unfoldable pub sanitized : ℕ → ℕ
sanitized c =
    if is_upper c || is_digit c || c == underscore
    then c
    else if is_lower c
    then (c - 97) + 65
    else underscore

-- `writeSanitized`: what it appends.
unfoldable pub write_sanitized : Runes → Runes
unfolding sanitized
write_sanitized [] = []
write_sanitized (c ∷ s) = sanitized c ∷ write_sanitized s

-- The loop over the groups, and the key behind them.
unfoldable pub joined_groups : List Runes → Runes → Runes
unfolding write_sanitized
joined_groups [] key = write_sanitized key
joined_groups (g ∷ gs) key = write_sanitized g ++ underscore ∷ joined_groups gs key

abbrev pub prefix_start : Runes → Runes
prefix_start [] = []
prefix_start (c ∷ s) =
    if c == underscore then 88 ∷ c ∷ s else if is_digit c then 88 ∷ underscore ∷ c ∷ s else c ∷ s

unfoldable pub journal_key : List Runes → Runes → Runes
journal_key groups key = prefix_start (joined_groups groups key)

-- `ParseLevel`, with the number of a `slog.Level`; `none` is its error.
unfoldable pub parse_level : String → Option ℤ
parse_level s =
    if str_eq s "debug"
    then some (negsuc 3)
    else if str_eq s "info"
    then some (pos 0)
    else if str_eq s "warn"
    then some (pos 4)
    else if str_eq s "error"
    then some (pos 8)
    else none
