-- ===== src/Sentinel/Doctor.antt =====
-- internal/sentinel/doctor: what `sentinel doctor` checks, and its exit code. The doctor's probes of the
-- host and the network are parameters: what they return, with the texts of their errors.
pub mod Remote
pub mod Probes
pub mod Checks
pub mod Granted
mod Examples
use gno_watchtower.Base.{String, Bool, true, false, ◌||◌, List, [], ◌∷◌}

pub data Status : Type 0 where
  green red orange grey : Status

pub record CheckResult : Type 0 where
  pub name : String
  pub status : Status
  pub detail : String

pub record AuthResponse : Type 0 where
  pub validator : String
  pub permissions : List String
  pub logs_min_level : String

abbrev pub result : String → Status → String → CheckResult
result name status detail = record { name = name; status = status; detail = detail }

abbrev pub is_red : Status → Bool
is_red red = true
is_red green = false
is_red orange = false
is_red grey = false

-- `hasRed`, behind the results that were printed.
unfoldable pub has_red : List CheckResult → Bool
has_red [] = false
has_red (r ∷ rs) = is_red r.status || has_red rs
