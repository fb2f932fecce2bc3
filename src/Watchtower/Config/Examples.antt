-- ===== src/Watchtower/Config/Examples.antt =====
-- A configuration that passes its checks, and some that do not.
use gno_watchtower.Base.{Bool, [], ◌∷◌, ℤ, pos, lez, Assoc, lookup, insert, ◌≡◌, refl}
use gno_watchtower.Watchtower.Config.{
  ValidatorConfig, Config, ok, err, load, token_shared, rate_limit_burst_too_small,
}

abbrev two : Assoc ValidatorConfig
two =
    (
      "alice",
      record { token = "tok-1"; permissions = "rpc" ∷ "logs" ∷ []; logs_min_level = "warn" },
    )
    ∷ ("bob", record { token = "tok-2"; permissions = "otlp" ∷ []; logs_min_level = "" })
    ∷ []

abbrev config_of : Assoc ValidatorConfig → ℤ → Config ℤ
config_of validators burst = record {
  listen_addr = "0.0.0.0:8080";
  security = record {
    rate_limit_rps = pos 100;
    rate_limit_burst = burst;
    ban_threshold = pos 5;
    ban_duration = pos 900000000000;
  };
  victoria_metrics_url = "http://vm:8428";
  loki_url = "http://loki:3100";
  validators = validators;
}

abbrev at_most_zero : ℤ → Bool
at_most_zero n = lez n (pos 0)

accepts : load at_most_zero (config_of two (pos 0)) ≡ ok (config_of two (pos 200))
unfolding load lookup insert
accepts = refl

refuses_burst : load at_most_zero (config_of two (pos 3)) ≡ err rate_limit_burst_too_small
unfolding load lookup insert
refuses_burst = refl

abbrev twins : Assoc ValidatorConfig
twins =
    ("alice", record { token = "tok"; permissions = []; logs_min_level = "" })
    ∷ ("bob", record { token = "tok"; permissions = []; logs_min_level = "" })
    ∷ []

refuses_twins : load at_most_zero (config_of twins (pos 4)) ≡ err (token_shared "alice" "bob")
unfolding load lookup insert
refuses_twins = refl
