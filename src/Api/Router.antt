-- ===== src/Api/Router.antt =====
-- internal/api/router.go: the table of the routes, and what becomes of a request. chi, which finds the
-- route of a path, is a parameter.
pub mod Guard
pub mod Answers
pub mod Cases
pub mod Chain
pub mod Kept
use bonnie.Prelude.{
  ℕ, String, ◌≡◌, Bool, true, false, not, Option, none, some, List, [], ◌∷◌, ◌++◌, if◌then◌else◌,
}
use bonnie.Prelude.Bytes.{Bytes, codes}
use bonnie.Storage.Env.{Env, FetchRequest}
use bonnie.Storage.Index.{Error}
use bonnie.Storage.Store.{World}
use bonnie.Container.Manager.{CreateRequest, Docker}
use bonnie.Container.Spec.{PairedRunSpec}
use bonnie.Gpu.Types.{Vendor}
use bonnie.Gpu.Poller.{Poller}
use bonnie.System.{Host}
use bonnie.Api.Auth.{Decision, passed, refused, auth}
use bonnie.Api.Benchmark.{reject}
use bonnie.Api.Http.{Writer, pair, write_header, set_type, write}
use bonnie.Api.Handlers.Models.{fetch_model, list_models, delete_model}
use bonnie.Api.Handlers.Containers.{
  list_all, create_one, inspect_one, start_one, stop_one, restart_one, remove_one, logs_of,
}
use bonnie.Api.Handlers.Host.{ExecRequest, gpu_status, command_of, exec, system_info, health, ready}
use bonnie.Api.Handlers.Metrics.{gpu_metrics}
use bonnie.Api.Handlers.Stream.{Signal, run_benchmark}

-- The endpoints.
pub data Route : Type 0 where
  get_health get_ready get_metrics : Route
  get_system_info get_gpu_status get_gpu_metrics : Route
  get_containers post_container get_container start_container stop_container : Route
  restart_container delete_container get_container_logs : Route
  post_exec : Route
  get_models post_fetch delete_model_at : Route
  post_benchmark : Route

pub record Registration : Type 0 where
  pub method : String
  pub pattern : String
  pub guarded : Bool
  pub route : Route

abbrev opened : String → Route → Registration
opened pattern route = record { method = "GET"; pattern = pattern; guarded = false; route = route }

abbrev behind_auth : String → String → Route → Registration
behind_auth method pattern route = record {
  method = method;
  pattern = pattern;
  guarded = true;
  route = route;
}

-- The first is the root of a mounted router: chi hands it `/api/v1/models` as well.
abbrev pub model_routes : List Registration
model_routes =
    behind_auth "GET" "/api/v1/models/" get_models
    ∷ behind_auth "POST" "/api/v1/models/fetch" post_fetch
    ∷ behind_auth "DELETE" "/api/v1/models/{id}" delete_model_at
    ∷ []

abbrev pub benchmark_routes : List Registration
benchmark_routes = behind_auth "POST" "/api/v1/benchmark" post_benchmark ∷ []

abbrev pub guarded_routes : List Registration
guarded_routes =
    behind_auth "GET" "/api/v1/system/info" get_system_info
    ∷ behind_auth "GET" "/api/v1/gpu/status" get_gpu_status
    ∷ behind_auth "GET" "/api/v1/gpu/metrics" get_gpu_metrics
    ∷ behind_auth "GET" "/api/v1/containers" get_containers
    ∷ behind_auth "POST" "/api/v1/containers" post_container
    ∷ behind_auth "GET" "/api/v1/containers/{id}" get_container
    ∷ behind_auth "POST" "/api/v1/containers/{id}/start" start_container
    ∷ behind_auth "POST" "/api/v1/containers/{id}/stop" stop_container
    ∷ behind_auth "POST" "/api/v1/containers/{id}/restart" restart_container
    ∷ behind_auth "DELETE" "/api/v1/containers/{id}" delete_container
    ∷ behind_auth "GET" "/api/v1/containers/{id}/logs" get_container_logs
    ∷ behind_auth "POST" "/api/v1/exec" post_exec
    ∷ []

abbrev pub open_routes : List Registration
open_routes =
    opened "/health" get_health ∷ opened "/ready" get_ready ∷ opened "/metrics" get_metrics ∷ []

-- `NewRouter`: models and benchmarks have routes where their component is there.
unfoldable pub routes : Bool → Bool → List Registration
routes has_models has_runner =
    open_routes
    ++ guarded_routes
    ++ (if has_models then model_routes else [])
    ++ (if has_runner then benchmark_routes else [])

abbrev pub open_paths : List Bytes
open_paths = codes "/health" ∷ codes "/ready" ∷ codes "/metrics" ∷ []

-- A request, with the decoders' answers to its body. A missing header is empty.
pub record Request : Type 0 where
  pub method : String
  pub path : String
  pub authorization : Bytes
  pub flushes : Bool
  pub create_body : Option CreateRequest
  pub fetch_body : Option FetchRequest
  pub exec_body : Option ExecRequest
  pub spec_body : Option PairedRunSpec

-- The state that the endpoints share.
pub record App (Disk Daemon : Type 0) : Type 0 where
  pub models : World Disk
  pub daemon : Daemon
  pub poller : Poller

-- What the router is built of, and what it calls: the mux gives the route of a method and a path with
-- the ID in the path, hands a path to the router that is mounted at a pattern, and answers what it
-- does not know; a command on the host may change the disk and what Docker's daemon has.
pub record Deps (Disk Data Daemon Float Opaque : Type 0) : Type 0 where
  pub env : Env Disk Data
  pub docker : Docker Daemon Opaque
  pub vendor : Vendor
  pub host : Host
  pub parse_float : Bytes → Float
  pub quote : Bytes → Bytes
  pub error_text : Error → String
  pub report : Daemon → Bool × Opaque
  pub now : ℕ
  pub auth_token : Bytes
  pub has_models : Bool
  pub has_runner : Bool
  pub paired_run : Option PairedRunSpec → Daemon → Daemon × List Signal
  pub find : List Registration → String → String → Option (Registration × String)
  pub mounts : String → String → String → Bool
  pub missing : Writer Float Opaque → Writer Float Opaque
  pub changes : List String → Disk → Daemon → Disk × Daemon

module _ {Disk Data Daemon Float Opaque : Type 0} (deps : Deps Disk Data Daemon Float Opaque) where
  open deps use {env, docker, host}

  -- A handler of containers, on the whole state.
  abbrev on_daemon :
      App Disk Daemon → Daemon × Writer Float Opaque → App Disk Daemon × Writer Float Opaque
  on_daemon app (d, w) = (record app { daemon = d }, w)

  abbrev on_models :
      App Disk Daemon → World Disk × Writer Float Opaque → App Disk Daemon × Writer Float Opaque
  on_models app (s, w) = (record app { models = s }, w)

  -- What the state is after a request to run a command.
  unfoldable pub after_exec : Request → App Disk Daemon → App Disk Daemon
  after_exec req app = elim (command_of req.flushes req.exec_body) [
    | none ↦ app
    | some command ↦
        let (disk, daemon) = deps.changes command app.models.disk app.daemon in
        record app { models = record app.models { disk = disk }; daemon = daemon }
  ]

  -- The handler of a route.
  unfoldable pub handle :
      Route
      → String
      → Request
      → App Disk Daemon
      → Writer Float Opaque
      → App Disk Daemon × Writer Float Opaque
  unfolding after_exec
  handle get_health id req app w = (app, health (deps.report app.daemon) w)
  handle get_ready id req app w = (app, ready (docker.ping app.daemon) w)
  handle get_metrics id req app w = (app, gpu_metrics deps.quote app.poller w)
  handle get_system_info id req app w = (app, system_info deps.parse_float host w)
  handle get_gpu_status id req app w = (app, gpu_status app.poller w)
  handle get_gpu_metrics id req app w = (app, gpu_metrics deps.quote app.poller w)
  handle get_containers id req app w = (app, list_all docker app.daemon w)
  handle post_container id req app w =
      on_daemon app (create_one docker deps.vendor req.create_body app.daemon w)
  handle get_container id req app w = (app, inspect_one docker id app.daemon w)
  handle start_container id req app w = on_daemon app (start_one docker id app.daemon w)
  handle stop_container id req app w = on_daemon app (stop_one docker id app.daemon w)
  handle restart_container id req app w = on_daemon app (restart_one docker id app.daemon w)
  handle delete_container id req app w = on_daemon app (remove_one docker id app.daemon w)
  handle get_container_logs id req app w = (app, logs_of docker req.flushes id app.daemon w)
  handle post_exec id req app w =
      (after_exec req app, exec deps.quote host.run req.flushes req.exec_body w)
  handle get_models id req app w = (app, list_models app.models w)
  handle post_fetch id req app w =
      on_models app (fetch_model env deps.error_text req.fetch_body deps.now app.models w)
  handle delete_model_at id req app w =
      on_models app (delete_model env deps.error_text id app.models w)
  handle post_benchmark id req app w =
      let (d, signals) = deps.paired_run req.spec_body app.daemon in
      elim (reject req.flushes req.spec_body) [
        | some x ↦ (app, run_benchmark deps.quote req.flushes req.spec_body [] w)
        | none ↦ (
          record app { daemon = d },
          run_benchmark deps.quote req.flushes req.spec_body signals w,
        )
      ]

  -- `writeAuthError`.
  unfoldable pub write_auth_error : Bytes → Writer Float Opaque → Writer Float Opaque
  unfolding write write_header
  write_auth_error msg w =
      write (pair "error" msg) (write_header 401 (set_type "application/json" w))

  -- A request on its way: the route, the guard of its group, and the handler. The guard stands before
  -- the mounted router, and so before its answer to a path that it does not know.
  unfoldable pub serve :
      Request → App Disk Daemon → Writer Float Opaque → App Disk Daemon × Writer Float Opaque
  unfolding handle write_auth_error
  serve req app w = elim (deps.find (routes deps.has_models deps.has_runner) req.method req.path) [
    | none ↦
        if not (deps.mounts "/api/v1" req.method req.path)
        then (app, deps.missing w)
        else elim (auth deps.auth_token open_paths (codes req.path) req.authorization) [
          | refused msg ↦ (app, write_auth_error msg w)
          | passed ↦ (app, deps.missing w)
        ]
    | some (reg, id) ↦
        if not reg.guarded
        then handle reg.route id req app w
        else elim (auth deps.auth_token open_paths (codes req.path) req.authorization) [
          | refused msg ↦ (app, write_auth_error msg w)
          | passed ↦ handle reg.route id req app w
        ]
  ]
