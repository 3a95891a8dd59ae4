-- ===== src/Command.antt =====
-- cmd/bonnie/main.go: how the program starts, serves, and ends. The secrets' providers, the Docker
-- client and the health registry are arguments; what happens while the program serves is a list.
mod Surroundings
pub mod Cases
pub use Surroundings.*
pub mod Serving
pub mod Lives
pub mod Outlived
pub mod Access
pub mod Ends
mod Tests
use bonnie.Prelude.{
  ℕ, ◌*◌, String, Bool, true, not, Option, none, some, List, [], ◌∷◌, ◌++◌, if◌then◌else◌, str_eq,
}
use bonnie.Prelude.Bytes.{Bytes, codes}
use bonnie.Prelude.Int.{ℤ, pos_part, is_positive, to_int64}
use bonnie.Prelude.Results.{Result, ok, err}
use bonnie.Config.{Config, Provider, ConfigError, load}
use bonnie.Storage.Env.{Env}
use bonnie.Storage.Index.{Error, new_store}
use bonnie.Storage.Store.{World}
use bonnie.Container.Manager.{Docker}
use bonnie.Container.Spec.{PairedRunSpec}
use bonnie.Gpu.Types.{Vendor, Snapshot}
use bonnie.Gpu.Amd.{Decoder}
use bonnie.Gpu.Detector.{detect}
use bonnie.Gpu.Poller.{start, set_latest, publish}
use bonnie.System.{Host}
use bonnie.Api.Http.{Writer, fresh}
use bonnie.Api.Handlers.Stream.{Signal}
use bonnie.Api.Router.{Registration, Request, App, Deps, serve}

-- The bootstrap of the secrets: OpenBao, or else the environment.
abbrev pub bootstrap : (ProviderType → Option Provider) → Option Provider
bootstrap new_provider = elim (new_provider openbao) [
  | some p ↦ some p
  | none ↦ new_provider environment
]

-- `time.Duration(cfg.PollInterval) * time.Second`.
unfoldable pub poll_interval_of : Config → ℤ
poll_interval_of cfg = to_int64 (pos_part cfg.poll_interval * 1000000000)

module _ {Disk Data Daemon Float Opaque : Type 0}
    (machine : Machine Disk Data Daemon Float Opaque) where
  open machine use {host, storage}

  -- `dockerChecker`: its name, and the error of a ping.
  abbrev pub docker_checker : Docker Daemon Opaque → Daemon → String × Option String
  docker_checker docker d = ("docker", docker.ping d)

  -- What `NewRouter` is given.
  unfoldable pub deps_of :
      Config → Docker Daemon Opaque → Vendor → Deps Disk Data Daemon Float Opaque
  deps_of cfg docker vendor = record {
    env = storage cfg.hf_token;
    docker = docker;
    vendor = vendor;
    host = host;
    parse_float = machine.parse_float;
    quote = machine.quote;
    error_text = machine.error_text;
    report = λ d. machine.run_all (docker_checker docker d ∷ []);
    now = machine.now;
    auth_token = codes cfg.auth_token;
    has_models = true;
    has_runner = true;
    paired_run = machine.paired_run docker vendor;
    find = machine.find;
    mounts = machine.mounts;
    missing = machine.missing;
    changes = machine.changes;
  }

  -- How a start ends: with an error and what has to be let go of, with the panic of the poller's
  -- ticker, or ready to serve.
  pub data Boot : Type 0 where
    failed : RunError → Disk → List Effect → Boot
    panicked : Disk → List Effect → Boot
    ready : Config → Deps Disk Data Daemon Float Opaque → App Disk Daemon → List Effect → Boot

  -- `run` up to the server, with the deferred calls of a start that fails. The ticker panics in
  -- the poller's goroutine, soon after `Start`; here it does so at once.
  unfoldable pub boot : Disk → Daemon → Boot
  unfolding deps_of poll_interval_of
  boot disk daemon = elim (load (bootstrap machine.new_provider)) [
    | err e ↦ failed (config_failed e) disk (signals_released ∷ [])
    | ok cfg ↦
        let poller = start (detect machine.json host.run machine.now) [] in
        let vendor = poller.latest.vendor in
        let begun = starting cfg.listen_addr ∷ detected vendor ∷ [] in
        let env = storage cfg.hf_token in
        let (disk', made) = new_store env cfg.model_storage_dir disk in
        let opened =
          begun
          ++ client_opened cfg.docker_host
            ∷ (if str_eq cfg.hf_token "" then token_missing ∷ [] else []) in
        if not (is_positive (poll_interval_of cfg))
        then panicked disk begun
        else elim (machine.new_client cfg.docker_host) [
          | none ↦ failed client_failed disk (begun ++ signals_released ∷ [])
          | some docker ↦ elim made [
            | err x ↦
                failed (store_failed x) disk' (opened ++ client_closed ∷ signals_released ∷ [])
            | ok store ↦
                let models : World Disk = record { store = store; disk = disk' } in
                ready cfg (deps_of cfg docker vendor)
                  (record { models = models; daemon = daemon; poller = poller }) opened
          ]
        ]
  ]

  -- One thing that happens, to the state that the endpoints share.
  unfoldable pub happen :
      Deps Disk Data Daemon Float Opaque → Happening → App Disk Daemon → App Disk Daemon
  happen deps (requested now req) app = (serve (record deps { now = now }) req app fresh).0
  happen deps (detects snap) app = record app { poller = set_latest snap app.poller }
  happen deps (publishes snap) app = record app { poller = publish snap app.poller }

  unfoldable pub happen_all :
      Deps Disk Data Daemon Float Opaque → List Happening → App Disk Daemon → App Disk Daemon
  unfolding happen
  happen_all deps [] app = app
  happen_all deps (x ∷ xs) app = happen_all deps xs (happen deps x app)

  -- What is served: nothing without a listener.
  abbrev pub served : Session → List Happening
  served session = elim session.server [ no_listener e ↦ [] | _ ↦ session.happenings ]

  abbrev pub log_server : String → Server → List Effect
  log_server addr (no_listener e) = []
  log_server addr (serve_failed e) = listening addr ∷ []
  log_server addr serving = listening addr ∷ []

  -- The `select`: what `errCh` gives, or the signal.
  abbrev pub log_wake : Session → List Effect
  log_wake session =
      let signal : List Effect = signal_received ∷ [] in
      elim session.server [
        | no_listener e ↦ if session.signal_first then signal else server_error e ∷ []
        | serve_failed e ↦ if session.signal_first then signal else server_error e ∷ []
        | serving ↦ signal
      ]

  -- The end of `run`: `Shutdown`, and the deferred calls.
  unfoldable pub finish : Option String → List Effect × Result RunError (Unit {0})
  finish none = (stopped ∷ client_closed ∷ signals_released ∷ [], ok tt)
  finish (some e) = (client_closed ∷ signals_released ∷ [], err (shutdown_failed e))

-- What a life of the program leaves: the state of its endpoints, if there was one, the disk, what it
-- logged and let go of, and the result of `run`, if no panic came before it.
pub record Ended (Disk Daemon : Type 0) : Type 0 where
  pub app : Option (App Disk Daemon)
  pub disk : Disk
  pub effects : List Effect
  pub result : Option (Result RunError (Unit {0}))

-- `main`: the exit status of the process; a panic has status 2.
abbrev pub exit_status : Option (Result RunError (Unit {0})) → ℕ
exit_status none = 2
exit_status (some (ok tt)) = 0
exit_status (some (err e)) = 1

module _ {Disk Data Daemon Float Opaque : Type 0}
    (machine : Machine Disk Data Daemon Float Opaque) where
  -- `run`, from how its start ended.
  unfoldable pub run_from : Session → Boot machine → Ended Disk Daemon
  unfolding happen_all finish
  run_from session (panicked d effects) = record {
    app = none;
    disk = d;
    effects = effects;
    result = none;
  }
  run_from session (failed e d effects) = record {
    app = none;
    disk = d;
    effects = effects;
    result = some (err e);
  }
  run_from session (ready cfg deps app effects) =
      let app' = happen_all machine deps (served machine session) app in
      let ending = finish machine session.shutdown in
      record {
        app = some app';
        disk = app'.models.disk;
        effects =
            effects
            ++ (log_server machine cfg.listen_addr session.server
                ++ (log_wake machine session ++ ending.0));
        result = some ending.1;
      }

  unfoldable pub run : Session → Disk → Daemon → Ended Disk Daemon
  unfolding boot run_from
  run session disk daemon = run_from session (boot machine disk daemon)
