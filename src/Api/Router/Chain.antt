-- ===== src/Api/Router/Chain.antt =====
-- internal/api/router.go: a request through the whole chain of the middleware.
use bonnie.Prelude.{String, ◌≡◌, refl, inl, inr, false, some, [], ◌∷◌, Option-cases}
use bonnie.Prelude.Bytes.{Bytes}
use bonnie.Api.Benchmark.{reject}
use bonnie.Api.Http.{Writer, Sent, fresh, pair, set_type, write_header}
use bonnie.Api.Http.Answered.{
  IsAnswered, IsUnsent, write_header-IsUnsent, write-IsAnswered, write_json-IsAnswered,
}
use bonnie.Api.Middleware.{logged}
use bonnie.Api.Router.Cases.{serve_cases}
use bonnie.Api.Router.Answers.{
  report-IsAnswered, ready-IsAnswered, health-IsAnswered, metrics-IsAnswered, list_all-IsAnswered,
  inspect_one-IsAnswered, create_one-IsAnswered, remove_one-IsAnswered, logs_of-IsAnswered,
  exec-IsAnswered, fetch_model-IsAnswered, delete_model-IsAnswered, run_benchmark-IsAnswered,
}
use bonnie.Api.Handlers.Containers.{start_one, stop_one, restart_one}
use bonnie.Api.Handlers.Host.{gpu_status, system_info}
use bonnie.Api.Handlers.Models.{list_models}
use bonnie.Api.Router.{
  Route, get_health, get_ready, get_metrics, get_system_info, get_gpu_status, get_gpu_metrics,
  get_containers, post_container, get_container, start_container, stop_container, restart_container,
  delete_container, get_container_logs, post_exec, get_models, post_fetch, delete_model_at,
  post_benchmark, Request, App, Deps, handle, write_auth_error, serve,
}

module _ {Disk Data Daemon Float Opaque : Type 0} (deps : Deps Disk Data Daemon Float Opaque) where
  handle-IsAnswered :
      (route : Route) (id : String) (req : Request) (app : App Disk Daemon)
      (w : Writer Float Opaque)
      → IsUnsent w
      → IsAnswered (handle deps route id req app w).1
  unfolding handle start_one stop_one restart_one gpu_status system_info list_models
  handle-IsAnswered get_health id req app w u = health-IsAnswered deps w u (deps.report app.daemon)
  handle-IsAnswered get_ready id req app w u =
      ready-IsAnswered deps w u (deps.docker.ping app.daemon)
  handle-IsAnswered get_metrics id req app w u = metrics-IsAnswered deps w u app.poller
  handle-IsAnswered get_gpu_metrics id req app w u = metrics-IsAnswered deps w u app.poller
  handle-IsAnswered get_system_info id req app w u = write_json-IsAnswered _ w u
  handle-IsAnswered get_gpu_status id req app w u = write_json-IsAnswered _ w u
  handle-IsAnswered get_models id req app w u = write_json-IsAnswered _ w u
  handle-IsAnswered get_containers id req app w u = list_all-IsAnswered deps w u app.daemon
  handle-IsAnswered post_container id req app w u =
      create_one-IsAnswered deps w u req.create_body app.daemon
  handle-IsAnswered get_container id req app w u = inspect_one-IsAnswered deps w u id app.daemon
  handle-IsAnswered start_container id req app w u =
      report-IsAnswered deps w u "started" "failed to start container" _
  handle-IsAnswered stop_container id req app w u =
      report-IsAnswered deps w u "stopped" "failed to stop container" _
  handle-IsAnswered restart_container id req app w u =
      report-IsAnswered deps w u "restarted" "failed to restart container" _
  handle-IsAnswered delete_container id req app w u = remove_one-IsAnswered deps w u id app.daemon
  handle-IsAnswered get_container_logs id req app w u =
      logs_of-IsAnswered deps w u req.flushes id app.daemon
  handle-IsAnswered post_exec id req app w u = exec-IsAnswered deps w u req.flushes req.exec_body
  handle-IsAnswered post_fetch id req app w u =
      fetch_model-IsAnswered deps w u req.fetch_body app.models
  handle-IsAnswered delete_model_at id req app w u = delete_model-IsAnswered deps w u id app.models
  handle-IsAnswered post_benchmark id req app w u =
      elim (Option-cases (reject req.flushes req.spec_body)) [
        | inl fine ↦
            rw (fine, handle) (run_benchmark-IsAnswered deps w u req.flushes req.spec_body _)
        | inr (x, h) ↦
            rw (h, handle) (run_benchmark-IsAnswered deps w u req.flushes req.spec_body [])
      ]

  serve-IsAnswered :
      (req : Request) (app : App Disk Daemon) (w : Writer Float Opaque)
      → IsUnsent w
      → IsAnswered (deps.missing w)
      → IsAnswered (serve deps req app w).1
  serve-IsAnswered req app w u lost =
      serve_cases deps (λ out. IsAnswered out.1) req app w lost refusal-IsAnswered
        (λ route id. handle-IsAnswered route id req app w u)
    where
      refusal-IsAnswered : (msg : Bytes) → IsAnswered (write_auth_error deps msg w)
      refusal-IsAnswered msg =
          unfold write_auth_error in
          write-IsAnswered (pair "error" msg) (write_header 401 (set_type "application/json" w))
            (write_header-IsUnsent 401 (set_type "application/json" w) u.0)

  -- If the mux answers what it does not know with a status of its own: every request, on every route
  -- and every branch of its handler, is answered with a status, and the line that `Logging`
  -- writes for it shows that status.
  pub serve-logged :
      (req : Request) (app : App Disk Daemon)
      → IsAnswered (deps.missing fresh)
      → let out = serve deps req app fresh in
        (s : Sent) × (out.1.sent ≡ some s)
        × (logged req.method req.path (record { state = out.0; writer = out.1; panicked = false })
            ≡ record { method = req.method; path = req.path; status = s.status } ∷ [])
  unfolding logged
  serve-logged req app lost =
      let h = serve-IsAnswered req app fresh (refl, refl) lost in
      (record { status = h.status; content_type = h.content_type }, h.out, rw h.seen refl)
