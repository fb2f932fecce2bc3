-- ===== src/Sentinel/Resources.antt =====
-- internal/sentinel/resources: collector.go and docker.go, the figures of the host and of the node's
-- container, sent when they change. gopsutil, Docker and SHA-256 are parameters.
pub mod Received
mod Examples
use gno_watchtower.Base.{
  String, Bool, true, false, ◌||◌, Option, none, some, List, [], ◌∷◌, ◌++◌, Assoc, insert, str_eq,
  if◌then◌else◌,
}
use gno_watchtower.Sentinel.Config.{ResourcesConfig}
use gno_watchtower.Sentinel.Delta.{changed}

-- The JSON of what one tick reads: `none` where the library or the encoder fails. For Docker, whether a
-- client can be made, and the body of the one answer, if it is read to its end.
pub record Readings (D : Type 0) : Type 0 where
  pub cpu : Option D
  pub memory : Option D
  pub disk : Option D
  pub network : Option D
  pub docker_client : Bool
  pub container : Option D

module _ {D : Type 0} (valid : D → Bool) where
  abbrev pub if_valid : Option D → Option D
  if_valid none = none
  if_valid (some b) = if valid b then some b else none

  -- `containerStatsFromClient`, whose `none` is an error.
  unfoldable pub container_stats : Readings D → Option D
  container_stats r = if r.docker_client then if_valid r.container else none

  abbrev pub host_calls : Readings D → List (String × Option D)
  host_calls r =
      ("cpu", r.cpu) ∷ ("memory", r.memory) ∷ ("disk", r.disk) ∷ ("network", r.network) ∷ []

  abbrev pub docker_calls : Readings D → List (String × Option D)
  docker_calls r = ("container", container_stats r) ∷ []

  -- What a tick asks the filter about, in order.
  unfoldable pub calls : ResourcesConfig → Readings D → List (String × Option D)
  calls cfg r =
      (if str_eq cfg.source "host" || str_eq cfg.source "both" then host_calls r else [])
      ++ (if str_eq cfg.source "docker" || str_eq cfg.source "both" then docker_calls r else [])

module _ {D H : Type 0} (hash : D → H) (same : H → H → Bool) (zero : H) where
  abbrev pub put_if : Bool → String → D → Assoc D → Assoc D
  put_if true key b payload = insert key b payload
  put_if false key b payload = payload

  -- One value: an error leaves it out, and so does the filter if it has not changed.
  abbrev pub report : String → Option D → Assoc H × Assoc D → Assoc H × Assoc D
  report key none s = s
  report key (some b) (hashes, payload) =
      let (hashes', fresh) = changed hash same zero hashes key b in
      (hashes', put_if fresh key b payload)

  unfoldable pub report_all : List (String × Option D) → Assoc H × Assoc D → Assoc H × Assoc D
  report_all [] s = s
  report_all ((key, o) ∷ rest) s = report_all rest (report key o s)

  -- The hashes, and the data of the payload, which is sent unless it is empty.
  unfoldable pub collect : (D → Bool) → ResourcesConfig → Readings D → Assoc H → Assoc H × Assoc D
  collect valid cfg r hashes = report_all (calls valid cfg r) (hashes, [])
