-- ===== src/Watchtower/Config/Defaults.antt =====
-- internal/watchtower/config/config.go: the default configuration.
use gno_watchtower.Base.{Bool, false, [], ◌∷◌, pos, lookup, insert, ◌≡◌, refl}
use gno_watchtower.Watchtower.Config.{
  Config, ok, validate, check_validators, check_security, check_token, check_permissions,
}

-- `DefaultConfig`, given the float 100.
abbrev pub default_config : {F : Type 0} → F → Config F
default_config hundred = record {
  listen_addr = "0.0.0.0:8080";
  security = record {
    rate_limit_rps = hundred;
    rate_limit_burst = pos 200;
    ban_threshold = pos 5;
    ban_duration = pos 900000000000;
  };
  victoria_metrics_url = "<victoria-metrics-url>";
  loki_url = "<loki-url>";
  validators =
      (
        "my-validator",
        record {
          token = "<secret-token>";
          permissions = "rpc" ∷ "metrics" ∷ "logs" ∷ "otlp" ∷ [];
          logs_min_level = "info";
        },
      )
      ∷ [];
}

-- It passes the checks where 100 is not at most 0.
validates : validate (λ (b : Bool). b) (default_config false) ≡ ok tt
unfolding validate check_security check_validators check_token check_permissions lookup insert
validates = refl
