-- ===== src/Api/Router/Kept.antt =====
-- The requests of internal/api/router.go and the models of internal/storage: what every route
-- leaves of them.
use bonnie.Prelude.{
  ℕ, String, ◌≡◌, Option, none, some, List, subst, inl, inr, Bool-cases, Option-cases, str_eq,
}
use bonnie.Storage.Env.{Env, FetchRequest}
use bonnie.Storage.Store.{World}
use bonnie.Storage.Restart.{SameIndex, IsSound, Laws}
use bonnie.Storage.Restart.Operations.{same-IsSound, fetch-IsSound, delete-IsSound}
use bonnie.Api.Benchmark.{reject}
use bonnie.Api.Http.{Writer}
use bonnie.Api.Handlers.Host.{command_of}
use bonnie.Api.Handlers.Models.{fetch_model, delete_model}
use bonnie.Api.Router.{
  Route, get_health, get_ready, get_metrics, get_system_info, get_gpu_status, get_gpu_metrics,
  get_containers, post_container, get_container, start_container, stop_container, restart_container,
  delete_container, get_container_logs, post_exec, get_models, post_fetch, delete_model_at,
  post_benchmark, Request, App, Deps, after_exec, handle, serve,
}
use bonnie.Api.Router.Cases.{serve_cases}

-- A fetch that is asked for is of a known model, into the store's own directory.
abbrev pub IsManaged : (String → String → Type 0) → Option FetchRequest → Type 0
IsManaged Known none = Unit {0}
IsManaged Known (some req) = (req.dest ≡ "") × Known req.source req.model_id

-- A command that is asked for leaves the index as it is.
abbrev pub LeavesIndex :
    {Disk Data Daemon : Type 0}
    → Env Disk Data
    → String
    → (List String → Disk → Daemon → Disk × Daemon)
    → Option (List String)
    → Type 0
LeavesIndex env dir changes none = Unit {0}
LeavesIndex {Disk} {Data} {Daemon} env dir changes (some command) =
    (d : Disk) (m : Daemon) → SameIndex env dir d (changes command d m).0

module _ {Disk Data Daemon Float Opaque : Type 0} (deps : Deps Disk Data Daemon Float Opaque) where
  module _ (dir : String) (Known : String → String → Type 0) (laws : Laws deps.env dir Known) where
    fetch_model-IsSound :
        (body : Option FetchRequest) (now : ℕ) (s : World Disk) (w : Writer Float Opaque)
        → IsManaged Known body
        → IsSound deps.env dir Known s
        → IsSound deps.env dir Known (fetch_model deps.env deps.error_text body now s w).0
    unfolding fetch_model
    fetch_model-IsSound none now s w managed sound = sound
    fetch_model-IsSound (some req) now s w managed sound =
        elim (Bool-cases (str_eq req.source "")) [
          | inl e ↦ rw (e, fetch_model) sound
          | inr e ↦ elim (Bool-cases (str_eq req.model_id "")) [
            | inl f ↦ rw (e, fetch_model) (rw (f, fetch_model) sound)
            | inr f ↦
                rw (e, fetch_model)
                  (rw (f, fetch_model)
                    (fetch-IsSound deps.env dir Known laws s sound req now managed.0 managed.1))
          ]
        ]

    delete_model-IsSound :
        (id : String) (s : World Disk) (w : Writer Float Opaque)
        → IsSound deps.env dir Known s
        → IsSound deps.env dir Known (delete_model deps.env deps.error_text id s w).0
    unfolding delete_model
    delete_model-IsSound id s w sound = elim (Bool-cases (str_eq id "")) [
      | inl e ↦ rw (e, delete_model) sound
      | inr e ↦ rw (e, delete_model) (delete-IsSound deps.env dir Known laws s sound id)
    ]

    after_exec-IsSound :
        (req : Request) (app : App Disk Daemon)
        → LeavesIndex deps.env dir deps.changes (command_of req.flushes req.exec_body)
        → IsSound deps.env dir Known app.models
        → IsSound deps.env dir Known (after_exec deps req app).models
    unfolding after_exec
    after_exec-IsSound req app leaves sound =
        elim (Option-cases (command_of req.flushes req.exec_body)) [
          | inl h ↦ rw (h, after_exec) sound
          | inr (command, h) ↦
              let leaves' : LeavesIndex deps.env dir deps.changes (some command) =
                subst (LeavesIndex deps.env dir deps.changes) h leaves in
              rw (h, after_exec)
                (same-IsSound deps.env dir Known laws app.models sound _
                  (leaves' app.models.disk app.daemon))
        ]

    handle-IsSound :
        (route : Route) (id : String) (req : Request) (app : App Disk Daemon)
        (w : Writer Float Opaque)
        → IsManaged Known req.fetch_body
        → LeavesIndex deps.env dir deps.changes (command_of req.flushes req.exec_body)
        → IsSound deps.env dir Known app.models
        → IsSound deps.env dir Known (handle deps route id req app w).0.models
    unfolding handle
    handle-IsSound get_health id req app w managed leaves sound = sound
    handle-IsSound get_ready id req app w managed leaves sound = sound
    handle-IsSound get_metrics id req app w managed leaves sound = sound
    handle-IsSound get_gpu_metrics id req app w managed leaves sound = sound
    handle-IsSound get_system_info id req app w managed leaves sound = sound
    handle-IsSound get_gpu_status id req app w managed leaves sound = sound
    handle-IsSound get_models id req app w managed leaves sound = sound
    handle-IsSound get_containers id req app w managed leaves sound = sound
    handle-IsSound post_container id req app w managed leaves sound = sound
    handle-IsSound get_container id req app w managed leaves sound = sound
    handle-IsSound start_container id req app w managed leaves sound = sound
    handle-IsSound stop_container id req app w managed leaves sound = sound
    handle-IsSound restart_container id req app w managed leaves sound = sound
    handle-IsSound delete_container id req app w managed leaves sound = sound
    handle-IsSound get_container_logs id req app w managed leaves sound = sound
    handle-IsSound post_exec id req app w managed leaves sound =
        after_exec-IsSound req app leaves sound
    handle-IsSound post_fetch id req app w managed leaves sound =
        fetch_model-IsSound req.fetch_body deps.now app.models w managed sound
    handle-IsSound delete_model_at id req app w managed leaves sound =
        delete_model-IsSound id app.models w sound
    handle-IsSound post_benchmark id req app w managed leaves sound =
        elim (Option-cases (reject req.flushes req.spec_body)) [
          | inl fine ↦ rw (fine, handle) sound
          | inr (x, h) ↦ rw (h, handle) sound
        ]

    pub serve-IsSound :
        (req : Request) (app : App Disk Daemon) (w : Writer Float Opaque)
        → IsManaged Known req.fetch_body
        → LeavesIndex deps.env dir deps.changes (command_of req.flushes req.exec_body)
        → IsSound deps.env dir Known app.models
        → IsSound deps.env dir Known (serve deps req app w).0.models
    serve-IsSound req app w managed leaves sound =
        serve_cases deps (λ out. IsSound deps.env dir Known out.0.models) req app w sound
          (λ msg. sound) (λ route id. handle-IsSound route id req app w managed leaves sound)
