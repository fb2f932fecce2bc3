-- ===== src/Sentinel/Config/Detect/Examples.antt =====
-- A host with a container of gnoland and a binary.
use gno_watchtower.Base.{
  true, none, some, List, [], ◌∷◌, ◌≡◌, refl, has_prefix, cut_prefix, append_text, is_space, split,
  format_int, spell_with,
}
use gno_watchtower.Sentinel.Config.{validate}
use gno_watchtower.Sentinel.Config.Defaults.{default_config}
use gno_watchtower.Sentinel.Config.Detect.{
  Container, Files, detect, probe_docker, probe_containers, probe_names, probe_journald,
  probe_lines, first_field, take_word, rpc_port_of, has_part, apply_detection,
}
use gno_watchtower.Sentinel.Config.Detect.Valid.{IsOfGnoland, apply_detection-validate}

abbrev containers : List Container
containers =
    record { names = "/db" ∷ []; ports = [] }
    ∷ record {
      names = "/val-gnoland-1" ∷ [];
      ports = record { private_port = 26657; public_port = 36657 } ∷ [];
    }
    ∷ []

abbrev files : Files
files = record {
  look_path = some "/bin/gnoland";
  eval_symlinks = λ path. none;
  config_beside = λ path. "/bin/gnoland-data/config/config.toml";
  is_there = λ path. true;
}

apply_detection-validate_example :
    (validate (apply_detection default_config (detect (some containers) none files)) ≡ none)
    × IsOfGnoland (detect (some containers) none files).docker
apply_detection-validate_example = apply_detection-validate (some containers) none files

detected-port :
    (apply_detection default_config (detect (some containers) none files)).rpc.rpc_url
    ≡ "http://localhost:36657"
unfolding apply_detection detect probe_docker probe_containers probe_names rpc_port_of has_part
    has_prefix cut_prefix append_text format_int spell_with
detected-port = refl

detected-unit :
    probe_journald (some "a.service loaded\n gnoland.service loaded active\n")
    ≡ some (record { unit_name = "gnoland.service" })
unfolding probe_journald probe_lines first_field take_word is_space split has_part has_prefix
    cut_prefix
detected-unit = refl
