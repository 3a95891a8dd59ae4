-- ===== src/Command/Surroundings.antt =====
-- What cmd/bonnie/main.go finds around it, what happens to it, and what it does outside its memory.
use bonnie.Prelude.{ℕ, String, Bool, Option, List}
use bonnie.Prelude.Bytes.{Bytes}
use bonnie.Config.{Provider, ConfigError}
use bonnie.Storage.Env.{Env}
use bonnie.Storage.Index.{Error}
use bonnie.Container.Manager.{Docker}
use bonnie.Container.Spec.{PairedRunSpec}
use bonnie.Gpu.Types.{Vendor, Snapshot}
use bonnie.Gpu.Amd.{Decoder}
use bonnie.System.{Host}
use bonnie.Api.Http.{Writer}
use bonnie.Api.Handlers.Stream.{Signal}
use bonnie.Api.Router.{Registration, Request}

-- `secrets.ProviderType`.
pub data ProviderType : Type 0 where
  openbao environment : ProviderType

pub data RunError : Type 0 where
  config_failed : ConfigError → RunError
  client_failed : RunError
  store_failed : Error → RunError
  shutdown_failed : String → RunError

-- What the program finds around it.
pub record Machine (Disk Data Daemon Float Opaque : Type 0) : Type 0 where
  pub new_provider : ProviderType → Option Provider
  pub json : Decoder
  pub host : Host
  pub now : ℕ
  pub new_client : String → Option (Docker Daemon Opaque)
  pub storage : String → Env Disk Data
  pub paired_run :
      Docker Daemon Opaque → Vendor → Option PairedRunSpec → Daemon → Daemon × List Signal
  pub run_all : List (String × Option String) → Bool × Opaque
  pub parse_float : Bytes → Float
  pub quote : Bytes → Bytes
  pub error_text : Error → String
  pub find : List Registration → String → String → Option (Registration × String)
  pub mounts : String → String → String → Bool
  pub missing : Writer Float Opaque → Writer Float Opaque
  pub changes : List String → Disk → Daemon → Disk × Daemon

-- What the goroutine of the server meets: it cannot listen, `Serve` fails, or `Serve` goes on until
-- it is told to end.
pub data Server : Type 0 where
  no_listener serve_failed : String → Server
  serving : Server

-- What happens while the program serves, one after the other: a request at its time, and the two
-- locked pieces of a tick of the poller, of which the first puts what it detects in place and the
-- second passes it on.
pub data Happening : Type 0 where
  requested : ℕ → Request → Happening
  detects publishes : Snapshot → Happening

-- A life of the program after its start. The server's error ends it, or the signal; the happenings
-- are those up to then. Where both are there, the `select` takes one: `signal_first` says which. The
-- last is the error of `Shutdown`.
pub record Session : Type 0 where
  pub server : Server
  pub happenings : List Happening
  pub signal_first : Bool
  pub shutdown : Option String

-- The lines of the log, and the calls for what is let go of at the end.
pub data Effect : Type 0 where
  starting : String → Effect
  detected : Vendor → Effect
  client_opened : String → Effect
  token_missing : Effect
  listening : String → Effect
  signal_received : Effect
  server_error : String → Effect
  stopped : Effect
  client_closed : Effect
  signals_released : Effect
