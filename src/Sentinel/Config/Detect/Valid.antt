-- ===== src/Sentinel/Config/Detect/Valid.antt =====
-- Whatever is detected, the generated configuration passes the checks that Load makes.
use gno_watchtower.Base.{
  String, true, List, [], ◌∷◌, ap, sym, ◌∙◌, Option, none, some, str_eq, ◌==◌, has_prefix,
  cut_prefix, ◌≡◌, refl, inl, inr, Bool-cases, arith,
}
use gno_watchtower.Sentinel.Config.{validate, is_noise_scheme, contains}
use gno_watchtower.Sentinel.Config.Defaults.{default_config}
use gno_watchtower.Sentinel.Config.Detect.{
  DockerResult, JournaldResult, BinaryResult, apply_results, Port, Container, has_part, or_whole,
  rpc_port_of, probe_names, probe_containers, probe_docker, probe_journald, probe_binary, Files,
  detect, apply_detection,
}

apply_results-validate :
    (d : Option DockerResult) (j : Option JournaldResult) (b : Option BinaryResult)
    → validate (apply_results d j b default_config) ≡ none
unfolding validate is_noise_scheme contains has_prefix cut_prefix
apply_results-validate (some d) j b = elim (Bool-cases (d.rpc_port == 0)) [
  | inl e ↦ rw e refl
  | inr e ↦ rw e refl
]
apply_results-validate none none none = refl
apply_results-validate none (some j) none = refl
apply_results-validate none none (some b) = elim (Bool-cases (str_eq b.config_path "")) [
  | inl e ↦ rw e refl
  | inr e ↦ rw e (rw e refl)
]
apply_results-validate none (some j) (some b) = elim (Bool-cases (str_eq b.config_path "")) [
  | inl e ↦ rw e refl
  | inr e ↦ rw e (rw e refl)
]

probe_names-gnoland :
    (ports : List Port) (names : List String) (next : Option DockerResult) (d : DockerResult)
    → ((e : DockerResult) → next ≡ some e → has_part e.container_name "gnoland" ≡ true)
    → probe_names ports names next ≡ some d
    → has_part d.container_name "gnoland" ≡ true
unfolding probe_names
probe_names-gnoland ports [] next d h e = h d e
probe_names-gnoland ports (name ∷ names) next d h e =
    elim (Bool-cases (has_part (or_whole name (cut_prefix name "/")) "gnoland")) [
      | inl found ↦
          let same : record {
            container_name = or_whole name (cut_prefix name "/");
            rpc_port = rpc_port_of ports;
          }
              ≡ d =
            ground (arith, e, found) in
          ap (λ x. has_part x.container_name "gnoland") (sym same) ∙ found
      | inr other ↦ probe_names-gnoland ports names next d h (ground (arith, e, other))
    ]

probe_containers-gnoland :
    (cs : List Container) (d : DockerResult)
    → probe_containers cs ≡ some d
    → has_part d.container_name "gnoland" ≡ true
unfolding probe_containers
probe_containers-gnoland [] d e = absurd (cc)
probe_containers-gnoland (c ∷ cs) d e =
    probe_names-gnoland c.ports c.names (probe_containers cs) d
      (λ x hx. probe_containers-gnoland cs x hx) e

probe_docker-gnoland :
    (containers : Option (List Container)) (d : DockerResult)
    → probe_docker containers ≡ some d
    → has_part d.container_name "gnoland" ≡ true
unfolding probe_docker
probe_docker-gnoland none d e = absurd (cc)
probe_docker-gnoland (some cs) d e = probe_containers-gnoland cs d e

-- The container that an environment names, if any, has gnoland in its name.
abbrev pub IsOfGnoland : Option DockerResult → Type 0
IsOfGnoland none = Unit
IsOfGnoland (some d) = has_part d.container_name "gnoland" ≡ true

IsOfGnoland-docker :
    (o : Option DockerResult)
    → ((d : DockerResult) → o ≡ some d → has_part d.container_name "gnoland" ≡ true)
    → IsOfGnoland o
IsOfGnoland-docker none h = tt
IsOfGnoland-docker (some d) h = h d refl

-- Whatever Docker, systemctl and the file system answer, the defaults with what was detected pass the
-- checks that Load makes, and a container is taken only if its name contains gnoland.
pub apply_detection-validate :
    (containers : Option (List Container)) (units : Option String) (fs : Files)
    → (validate (apply_detection default_config (detect containers units fs)) ≡ none)
      × IsOfGnoland (detect containers units fs).docker
unfolding apply_detection detect
apply_detection-validate containers units fs = (
  apply_results-validate (probe_docker containers) (probe_journald units) (probe_binary fs),
  IsOfGnoland-docker (probe_docker containers) (probe_docker-gnoland containers),
)
