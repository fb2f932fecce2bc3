-- ===== src/Sentinel/Config/Defaults.antt =====
-- internal/sentinel/config/config.go: the default configuration.
use gno_watchtower.Base.{ℕ, ◌*◌, true, ℤ, pos, none, ◌≡◌, refl, has_prefix, cut_prefix}
use gno_watchtower.Sentinel.Config.{Config, validate, is_noise_scheme, contains}

-- Nanoseconds of a number of seconds.
abbrev seconds : ℕ → ℤ
seconds n = pos (n * 1000000000)

-- `DefaultConfig`
abbrev pub default_config : Config
default_config = record {
  server = record { url = "<watchtower-server-url>"; token = "<watchtower-auth-token>" };
  beacon = record { keys_dir = ""; public_key = "" };
  rpc = record {
    enabled = true;
    poll_interval = seconds 3;
    rpc_url = "http://localhost:26657";
    dump_consensus_state_interval = seconds 30;
    genesis_refresh_interval = seconds 43200;
    validators_refresh_interval = seconds 43200;
  };
  logs = record {
    enabled = true;
    source = "docker";
    container_name = "<gnoland-container-name>";
    journald_unit = "";
    batch_size = pos 1048576;
    batch_timeout = seconds 5;
    min_level = "info";
    resume_lookback = seconds 60;
  };
  otlp = record { enabled = true; listen_addr = "localhost:4318" };
  resources = record {
    enabled = true;
    poll_interval = seconds 10;
    source = "host";
    container_name = "<gnoland-container-name>";
  };
  metadata = record {
    enabled = true;
    check_interval = seconds 600;
    force_interval = seconds 43200;
    config_path = "<path-to-gnoland-config>";
    config_get_cmd = "";
  };
  self = record { enabled = true; report_interval = seconds 30 };
  health = record { enabled = true; listen_addr = "127.0.0.1:8081" };
}

-- It passes the checks: its placeholders are texts.
validates : validate default_config ≡ none
unfolding validate is_noise_scheme contains has_prefix cut_prefix
validates = refl
