-- ===== src/Command/Tests.antt =====
-- A small machine for cmd/bonnie/main.go: lives of the program on it, and the theorems at them.
mod Power
use bonnie.Prelude.{
  ℕ, String, ◌≡◌, ◌↔◌, refl, true, false, inr, Option, none, some, List, [], ◌∷◌, arith, str_eq,
  if◌then◌else◌,
}
use bonnie.Prelude.Bytes.{codes}
use bonnie.Prelude.Maps.{lookup, insert, erase}
use bonnie.Prelude.Int.{pos}
use bonnie.Prelude.Results.{ok, err}
use bonnie.Config.{Config, Provider, load}
use bonnie.Storage.Env.{missing}
use bonnie.Storage.Index.{empty_store, new_store, entry_id, save_index}
use bonnie.Storage.Store.{fetch, sort_strings}
use bonnie.Storage.Tests.Lives.{Known, laws}
use bonnie.Storage.Tests.{request, staged_disk}
use bonnie.Storage.Tests.Files.{Data, Disk, data_len, reading, rename_file, env, index}
use bonnie.Api.Http.{write_error_text}
use bonnie.Gpu.Types.{unknown}
use bonnie.Gpu.Detector.{detect}
use bonnie.Gpu.Poller.{start}
use bonnie.Api.Auth.{auth, refused}
use bonnie.Api.Auth.Bearer.{IsBearer, auth_iff}
use bonnie.Api.Router.Guard.{MuxLaws}
use bonnie.Command.Access.{boot-happen}
use bonnie.Command.Cases.{first_poller}
use bonnie.Command.Ends.{AllReleased, run-AllReleased, run-exit_status}
use bonnie.Api.Handlers.Models.{fetch_model}
use bonnie.Api.Router.{Request, App, Deps, routes, serve}
use bonnie.Api.Tests.Mux.{find_exact, find_exact-Mem, find_exact-pattern}
use bonnie.Api.Tests.Served.{docker}
use bonnie.Command.{
  Machine, ProviderType, openbao, environment, bootstrap, requested, Session, no_listener, serving,
  boot, run, exit_status, deps_of, ready, starting, detected, client_opened, happen,
}

-- There is no OpenBao; the environment names the token and the directory.
abbrev variables : Provider
variables = record {
  get = λ name. if str_eq name "BONNIE_AUTH_TOKEN" then ok "s3" else err "not set";
  get_or_default = λ name default.
      if str_eq name "BONNIE_MODEL_STORAGE_DIR"
      then "/models"
      else if str_eq name "HF_TOKEN"
      then "hf"
      else default;
}

abbrev provider_of : ProviderType → Option Provider
provider_of openbao = none
provider_of environment = some variables

abbrev pub config : Config
config = record {
  component = "bonnie";
  log_level = "info";
  log_format = "text";
  listen_addr = ":7777";
  auth_token = "s3";
  poll_interval = pos 10;
  docker_host = "unix:///var/run/docker.sock";
  model_storage_dir = "/models";
  hf_token = "hf";
}

abbrev pub machine : Machine Disk Data (List String) ℕ String
machine = record {
  new_provider = provider_of;
  json = record { object = λ b. err "bad"; device = λ b. err "bad"; float_int = λ b. none };
  host = record {
    hostname = "h";
    goos = "linux";
    goarch = "amd64";
    num_cpu = 8;
    read_file = λ path. none;
    run = λ command. err "not found";
  };
  now = 7;
  new_client = λ host. some docker;
  storage = λ token. env;
  paired_run = λ client vendor spec d. (d, []);
  run_all = λ checks. (true, "fine");
  parse_float = λ b. 0;
  quote = λ b. b;
  error_text = λ x. "failed";
  find = find_exact;
  mounts = λ pattern method path. true;
  missing = write_error_text 404 (codes "404 page not found");
  changes = λ command disk daemon. (disk, "ran" ∷ daemon);
}

pub configured : load (bootstrap machine.new_provider) ≡ ok config
unfolding load
configured = refl

-- A request for a model, by the one who has the token.
abbrev pub wanted : Request
wanted = record {
  method = "POST";
  path = "/api/v1/models/fetch";
  authorization = codes "Bearer s3";
  flushes = true;
  create_body = none;
  fetch_body = some request;
  exec_body = none;
  spec_body = none;
}

abbrev busy : Session
busy = record {
  server = serving;
  happenings = requested 7 wanted ∷ [];
  signal_first = true;
  shutdown = none;
}

-- Another program has the port.
abbrev deaf : Session
deaf = record {
  server = no_listener "address already in use";
  happenings = requested 7 wanted ∷ [];
  signal_first = false;
  shutdown = none;
}

-- A program that cannot listen serves nothing and still ends with status 0.
deaf_status : exit_status (run machine deaf [] []).result ≡ 0
unfolding run load new_store reading lookup
deaf_status = refl

-- What a life has staged is on the disk, and the next life starts with it.
busy_disk : (run machine busy [] []).disk ≡ staged_disk
unfolding run load new_store reading lookup serve routes find_exact auth fetch_model fetch
    save_index insert erase data_len rename_file entry_id sort_strings
busy_disk = refl

abbrev started_deps : Deps Disk Data (List String) ℕ String
started_deps = deps_of machine config docker unknown

abbrev pub started_app : App Disk (List String)
started_app = record {
  models = record { store = empty_store "/models"; disk = [] };
  daemon = [];
  poller = first_poller machine [] [];
}

pub booted :
    boot machine [] []
    ≡ ready config started_deps started_app
        (starting ":7777" ∷ detected unknown ∷ client_opened "unix:///var/run/docker.sock" ∷ [])
unfolding boot load new_store reading lookup detect start
booted = refl

-- A request with a wrong token.
abbrev stranger : Request
stranger = record wanted { authorization = codes "Bearer s4" }

boot-happen_example : happen machine started_deps (requested 9 stranger) started_app ≡ started_app
boot-happen_example =
    boot-happen machine variables "s3" [] [] config started_deps started_app _ refl refl booted mux
      9 stranger started_app refl unknown_bearer
  where
    mux : MuxLaws Disk Data (List String) ℕ String started_deps
    mux =
        unfold deps_of in
        record {
          registered = find_exact-Mem;
          literal =
              λ rs method path reg id found plain. find_exact-pattern rs method path reg id found;
        }

    unauthorized :
        auth (codes "s3") [] (codes "/") (codes "Bearer s4") ≡ refused (codes "unauthorized")
    unauthorized = unfold auth in refl

    unknown_bearer : ¬ IsBearer (codes "s3") (codes "Bearer s4")
    unknown_bearer h = absurd (
        ground (
          arith,
          (auth_iff (codes "s3") [] (codes "/") (codes "Bearer s4")).1 (inr h),
          unauthorized,
        ))

run-AllReleased_example : AllReleased (run machine deaf [] []).effects
run-AllReleased_example = run-AllReleased machine deaf [] [] (ok tt) deaf_result
  where
    deaf_result : (run machine deaf [] []).result ≡ some (ok tt)
    deaf_result = unfold run load new_store reading lookup in refl

run-exit_status_example : (exit_status (run machine deaf [] []).result ≡ 0) ↔ (
    ((app : App Disk (List String)) × ((run machine deaf [] []).app ≡ some app))
    × (deaf.shutdown ≡ none))
run-exit_status_example = run-exit_status machine deaf [] []
