-- ===== src/Sentinel/Config/Examples.antt =====
-- A sentinel behind a beacon.
use gno_watchtower.Base.{true, false, none, pos, cut_prefix, has_prefix, ◌↔◌, ◌≡◌, refl}
use gno_watchtower.Sentinel.Config.{Config, contains, is_noise_scheme, validate}
use gno_watchtower.Sentinel.Config.Checks.{Sound, validate-none_iff}

abbrev config : Config
config = record {
  server = record { url = "noise://b:1"; token = "t" };
  beacon = record { keys_dir = "keys"; public_key = "" };
  rpc = record {
    enabled = true;
    poll_interval = pos 3;
    rpc_url = "u";
    dump_consensus_state_interval = pos 30;
    genesis_refresh_interval = pos 12;
    validators_refresh_interval = pos 12;
  };
  logs = record {
    enabled = true;
    source = "docker";
    container_name = "c";
    journald_unit = "";
    batch_size = pos 1024;
    batch_timeout = pos 5;
    min_level = "info";
    resume_lookback = pos 60;
  };
  otlp = record { enabled = false; listen_addr = "" };
  resources = record { enabled = false; poll_interval = pos 0; source = ""; container_name = "" };
  metadata = record {
    enabled = false;
    check_interval = pos 0;
    force_interval = pos 0;
    config_path = "";
    config_get_cmd = "";
  };
  self = record { enabled = false; report_interval = pos 0 };
  health = record { enabled = false; listen_addr = "" };
}

validates : validate config ≡ none
unfolding validate is_noise_scheme contains has_prefix cut_prefix
validates = refl

validate-none_iff_example : (validate config ≡ none) ↔ Sound config
validate-none_iff_example = validate-none_iff config
