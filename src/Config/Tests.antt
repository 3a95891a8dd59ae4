-- ===== src/Config/Tests.antt =====
-- The configuration of internal/config/config.go from concrete environments.
use bonnie.Prelude.{◌≡◌, refl, String, some, if◌then◌else◌, str_eq}
use bonnie.Prelude.Int.{pos}
use bonnie.Prelude.Results.{ok, err}
use bonnie.Config.{Config, Provider, ConfigError, load}
use bonnie.Config.Valid.{IsValid, load-IsValid}

-- An environment with a token, an interval and the last of the three names of the other token.
abbrev environment : String → Provider
environment interval = record {
  get = λ name. if str_eq name "BONNIE_AUTH_TOKEN" then ok "s3" else err "not set";
  get_or_default = λ name default.
      if str_eq name "BONNIE_POLL_INTERVAL"
      then interval
      else if str_eq name "HF_TOKEN"
      then "hf"
      else default;
}

abbrev config : Config
config = record {
  component = "bonnie";
  log_level = "info";
  log_format = "text";
  listen_addr = ":7777";
  auth_token = "s3";
  poll_interval = pos 30;
  docker_host = "unix:///var/run/docker.sock";
  model_storage_dir = "/var/lib/bonnie/models";
  hf_token = "hf";
}

load_thirty : load (some (environment "30")) ≡ ok config
unfolding load
load_thirty = refl

load_negative : load (some (environment "-5")) ≡ err ConfigError.interval_not_positive
unfolding load
load_negative = refl

load-IsValid_example : IsValid (environment "30") config
load-IsValid_example = load-IsValid (environment "30") config load_thirty
