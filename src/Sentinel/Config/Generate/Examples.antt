-- ===== src/Sentinel/Config/Generate/Examples.antt =====
-- A file of two sections, annotated.
use gno_watchtower.Base.{
  String, false, none, some, List, [], ◌∷◌, ◌≡◌, refl, has_prefix, cut_prefix, trim_space,
  append_text,
}
use gno_watchtower.Sentinel.Config.Defaults.{default_config}
use gno_watchtower.Sentinel.Config.Detect.{Container, Files, Environment, detect, apply_detection}
use gno_watchtower.Sentinel.Config.Generate.{
  Alternative, build_alternatives, inject_lines, lines_after,
}
use gno_watchtower.Sentinel.Config.Generate.Settings.{settings, settings-inject_lines}

abbrev containers : List Container
containers =
    record { names = "/db" ∷ []; ports = [] }
    ∷ record {
      names = "/val-gnoland-1" ∷ [];
      ports = record { private_port = 26657; public_port = 36657 } ∷ [];
    }
    ∷ []

abbrev no_files : Files
no_files = record {
  look_path = none;
  eval_symlinks = λ path. none;
  config_beside = λ path. path;
  is_there = λ path. false;
}

abbrev host : Environment
host = detect (some containers) none no_files

abbrev lines : List String
lines = "# [logs]" ∷ "[logs]" ∷ "container_name = 'c'" ∷ "[other]" ∷ "container_name = 'd'" ∷ []

abbrev alternatives : List Alternative
alternatives = build_alternatives (apply_detection default_config host) host

settings-inject_lines_example : settings (inject_lines alternatives "" lines) ≡ settings lines
settings-inject_lines_example = settings-inject_lines alternatives "" lines

abbrev two : List Alternative
two = build_alternatives default_config (record { docker = none; journald = none; binary = none })

in_section-only : inject_lines two "" lines ≡ (
    "# [logs]" ∷ "[logs]" ∷ "container_name = 'c'" ∷ "# Alternative: use journald as log source"
    ∷ "# journald_unit = '<gnoland-systemd-unit>'" ∷ "[other]" ∷ "container_name = 'd'" ∷ [])
unfolding inject_lines lines_after build_alternatives has_prefix cut_prefix trim_space append_text
in_section-only = refl
