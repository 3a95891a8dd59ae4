-- ===== src/Config.antt =====
-- internal/config/config.go: `Load`. The secrets provider is an argument; values are ASCII.
pub mod Valid
mod Tests
use bonnie.Prelude.{String, Bool, not, Option, none, some, if◌then◌else◌, str_eq}
use bonnie.Prelude.Bytes.{codes}
use bonnie.Prelude.Int.{ℤ, is_positive}
use bonnie.Prelude.Results.{Result, ok, err, ◌>>=◌, ◌>>◌, fail_if}
use bonnie.Gpu.Text.{atoi}

pub record Config : Type 0 where
  pub component : String
  pub log_level : String
  pub log_format : String
  pub listen_addr : String
  pub auth_token : String
  pub poll_interval : ℤ
  pub docker_host : String
  pub model_storage_dir : String
  pub hf_token : String

-- `secrets.Provider`: `Get`, with an error's text, and `GetOrDefault`.
pub record Provider : Type 0 where
  pub get : String → Result String String
  pub get_or_default : String → String → String

pub data ConfigError : Type 0 where
  provider_required : ConfigError
  token_required : String → ConfigError
  interval_not_integer interval_not_positive : ConfigError

abbrev pub token_of : Result String String → Result ConfigError String
token_of (ok token) = ok token
token_of (err e) = err (token_required e)

abbrev pub interval_of : Option ℤ → Result ConfigError ℤ
interval_of none = err interval_not_integer
interval_of (some n) = ok n

-- The first name whose value is not empty.
abbrev pub hf_token_of : Provider → String
hf_token_of p =
    let first = p.get_or_default "bonnie/hf_token" "" in
    let second = if str_eq first "" then p.get_or_default "BONNIE_HF_TOKEN" "" else first in
    if str_eq second "" then p.get_or_default "HF_TOKEN" "" else second

-- `Load` with a provider.
unfoldable pub load_from : Provider → Result ConfigError Config
unfolding atoi
load_from p = do
  token ← token_of (p.get "BONNIE_AUTH_TOKEN")
  interval ← interval_of (atoi (codes (p.get_or_default "BONNIE_POLL_INTERVAL" "10")))
  fail_if (not (is_positive interval)) interval_not_positive
  ok (record {
    component = "bonnie";
    log_level = p.get_or_default "LOG_LEVEL" "info";
    log_format = p.get_or_default "LOG_FORMAT" "text";
    listen_addr = p.get_or_default "BONNIE_LISTEN_ADDR" ":7777";
    auth_token = token;
    poll_interval = interval;
    docker_host = p.get_or_default "BONNIE_DOCKER_HOST" "unix:///var/run/docker.sock";
    model_storage_dir = p.get_or_default "BONNIE_MODEL_STORAGE_DIR" "/var/lib/bonnie/models";
    hf_token = hf_token_of p;
  })

-- `Load`; `none` is a nil provider.
unfoldable pub load : Option Provider → Result ConfigError Config
unfolding load_from
load none = err provider_required
load (some p) = load_from p
