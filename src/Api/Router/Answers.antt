-- ===== src/Api/Router/Answers.antt =====
-- internal/api/router.go and the handlers: what the client of a request gets.
use bonnie.Prelude.{
  String, inl, inr, Bool, true, false, Option, none, some, List, [], ◌∷◌, ◌++◌, drop, Bool-cases,
  Option-cases, str_eq,
}
use bonnie.Prelude.Bytes.{codes}
use bonnie.Prelude.Results.{Result, ok, err, Result-cases}
use bonnie.Container.Manager.{
  CreateRequest, create, remove, inspect, list_containers, log_stream, ManagerError,
}
use bonnie.Storage.Store.{World, fetch, delete}
use bonnie.Api.Benchmark.{reject}
use bonnie.Api.Http.{Writer, flag, opaque, raw, pair, set_type, write, write_header, flush}
use bonnie.Api.Http.Answered.{
  IsAnswered, IsUnsent, write-IsUnsent, flush-IsUnsent, write_header-IsUnsent, write-IsAnswered,
  flush-IsAnswered, write_events-IsAnswered, write_lines-IsAnswered, forward-IsAnswered,
  write_error-IsAnswered, write_json-IsAnswered,
}
use bonnie.Api.Handlers.Models.{is_not_found, fetch_model, delete_model}
use bonnie.Api.Handlers.Containers.{report, logs_of, list_all, create_one, inspect_one, remove_one}
use bonnie.Api.Handlers.Metrics.{gpu_metrics, metric_lines}
use bonnie.Api.Handlers.Stream.{Signal, run_benchmark}
use bonnie.Container.Spec.{PairedRunSpec}
use bonnie.Api.Handlers.Host.{exec, health, ready, ExecRequest}
use bonnie.Gpu.Poller.{Poller}
use bonnie.Storage.Env.{FetchRequest}
use bonnie.Api.Router.{Deps}

module _ {Disk Data Daemon Float Opaque : Type 0} (deps : Deps Disk Data Daemon Float Opaque)
    (w : Writer Float Opaque) (unsent : IsUnsent w) where
  open deps use {env, docker, host}

  -- The writer with the type of its content.
  typed : (type : String) → IsUnsent (set_type type w)
  typed type = unsent

  pub report-IsAnswered :
      (done failure : String) (r : Result ManagerError (Unit {0}))
      → IsAnswered (report done failure r w)
  report-IsAnswered done failure (ok x) = write_json-IsAnswered _ w unsent
  report-IsAnswered done failure (err x) = write_error-IsAnswered 500 (codes failure) w unsent

  pub ready-IsAnswered : (answer : Option String) → IsAnswered (ready answer w)
  unfolding ready
  ready-IsAnswered none = write-IsUnsent (flag "ready" true) (set_type "application/json" w) unsent
  ready-IsAnswered (some e) =
      write-IsAnswered (flag "ready" false) (write_header 503 (set_type "application/json" w))
        (write_header-IsUnsent 503 (set_type "application/json" w) unsent.0)

  pub health-IsAnswered : (report : Bool × Opaque) → IsAnswered (health report w)
  unfolding health
  health-IsAnswered (true, r) = write-IsUnsent (opaque r) (set_type "application/json" w) unsent
  health-IsAnswered (false, r) =
      write-IsAnswered (opaque r) (write_header 503 (set_type "application/json" w))
        (write_header-IsUnsent 503 (set_type "application/json" w) unsent.0)

  pub metrics-IsAnswered : (p : Poller) → IsAnswered (gpu_metrics deps.quote p w)
  unfolding gpu_metrics metric_lines
  metrics-IsAnswered p =
      let w' = set_type "text/plain; version=0.0.4; charset=utf-8" w in
      let title =
        raw (codes "# HELP bonnie_gpu_memory_total_mib Total GPU memory in MiB." ++ b'\n' ∷ []) in
      write_lines-IsAnswered (drop 1 (metric_lines deps.quote p.latest)) (write title w')
        (write-IsUnsent title w' unsent)

  pub list_all-IsAnswered : (d : Daemon) → IsAnswered (list_all docker d w)
  unfolding list_all
  list_all-IsAnswered d = elim (Result-cases (list_containers docker d)) [
    | inl (cs, h) ↦ rw (h, list_all) (write_json-IsAnswered _ w unsent)
    | inr (x, h) ↦ rw (h, list_all) (write_error-IsAnswered 500 _ w unsent)
  ]

  pub inspect_one-IsAnswered : (id : String) (d : Daemon) → IsAnswered (inspect_one docker id d w)
  unfolding inspect_one
  inspect_one-IsAnswered id d = elim (Result-cases (inspect docker id d)) [
    | inl (x, h) ↦ rw (h, inspect_one) (write_json-IsAnswered _ w unsent)
    | inr (x, h) ↦ rw (h, inspect_one) (write_error-IsAnswered 404 _ w unsent)
  ]

  pub create_one-IsAnswered :
      (body : Option CreateRequest) (d : Daemon)
      → IsAnswered (create_one docker deps.vendor body d w).1
  unfolding create_one
  create_one-IsAnswered none d = write_error-IsAnswered 400 _ w unsent
  create_one-IsAnswered (some req) d = elim (Bool-cases (str_eq req.image "")) [
    | inl e ↦ rw (e, create_one) (write_error-IsAnswered 400 _ w unsent)
    | inr e ↦ elim (Result-cases (create docker deps.vendor req d).1) [
      | inl (id, h) ↦
          rw (e, create_one)
            (rw (h, create_one)
              (write-IsAnswered (pair "id" (codes id))
                (write_header 201 (set_type "application/json" w))
                (write_header-IsUnsent 201 (set_type "application/json" w) unsent.0)))
      | inr (x, h) ↦ rw (e, create_one) (rw (h, create_one) (write_error-IsAnswered 500 _ w unsent))
    ]
  ]

  pub remove_one-IsAnswered : (id : String) (d : Daemon) → IsAnswered (remove_one docker id d w).1
  unfolding remove_one
  remove_one-IsAnswered id d = elim (Result-cases (remove docker true id d).1) [
    | inl (x, h) ↦ rw (h, remove_one) (write_header-IsUnsent 204 w unsent.0)
    | inr (x, h) ↦ rw (h, remove_one) (write_error-IsAnswered 500 _ w unsent)
  ]

  pub logs_of-IsAnswered :
      (flushes : Bool) (id : String) (d : Daemon) → IsAnswered (logs_of docker flushes id d w)
  unfolding logs_of
  logs_of-IsAnswered false id d = write_error-IsAnswered 500 _ w unsent
  logs_of-IsAnswered true id d =
      let w' = flush (set_type "text/event-stream" w) in
      let begun = flush-IsUnsent (set_type "text/event-stream" w) unsent in
      elim (Result-cases (log_stream docker id true d)) [
        | inl (pieces, h) ↦ rw (h, logs_of) (write_events-IsAnswered pieces w' begun)
        | inr (x, h) ↦ rw (h, logs_of) begun
      ]

  pub exec-IsAnswered :
      (flushes : Bool) (body : Option ExecRequest)
      → IsAnswered (exec deps.quote host.run flushes body w)
  unfolding exec
  exec-IsAnswered flushes none = write_error-IsAnswered 400 _ w unsent
  exec-IsAnswered flushes (some req) = elim (Bool-cases (str_eq req.command "")) [
    | inl e ↦ rw (e, exec) (write_error-IsAnswered 400 _ w unsent)
    | inr e ↦ elim (Bool-cases flushes) [
      | inr no_flush ↦ rw (e, exec) (rw (no_flush, exec) (write_error-IsAnswered 500 _ w unsent))
      | inl can ↦
          let w' = flush (set_type "text/event-stream" w) in
          let begun = flush-IsUnsent (set_type "text/event-stream" w) unsent in
          elim (Result-cases (host.run (req.command ∷ req.args))) [
            | inr (x, h) ↦
                let line =
                  raw (codes "data: {\"error\": " ++ deps.quote (codes x) ++ codes "}\n\n") in
                rw (e, exec)
                  (rw (can, exec)
                    (rw (h, exec)
                      (flush-IsAnswered (write line w') (write-IsAnswered line w' begun))))
            | inl (out, h) ↦
                let line = raw (codes "data: " ++ out ++ codes "\n\n") in
                let end = raw (codes "event: done\ndata: {\"exit_code\": 0}\n\n") in
                let w₁ = flush (write line w') in
                rw (e, exec)
                  (rw (can, exec)
                    (rw (h, exec)
                      (flush-IsAnswered (write end w₁) (
                        write-IsAnswered end w₁
                          (flush-IsAnswered (write line w') (write-IsAnswered line w' begun))))))
          ]
    ]
  ]

  pub fetch_model-IsAnswered :
      (body : Option FetchRequest) (s : World Disk)
      → IsAnswered (fetch_model env deps.error_text body deps.now s w).1
  unfolding fetch_model
  fetch_model-IsAnswered none s = write_error-IsAnswered 400 _ w unsent
  fetch_model-IsAnswered (some req) s = elim (Bool-cases (str_eq req.source "")) [
    | inl e ↦ rw (e, fetch_model) (write_error-IsAnswered 400 _ w unsent)
    | inr e ↦ elim (Bool-cases (str_eq req.model_id "")) [
      | inl f ↦ rw (e, fetch_model) (rw (f, fetch_model) (write_error-IsAnswered 400 _ w unsent))
      | inr f ↦ elim (Result-cases (fetch env req deps.now s).1) [
        | inl (a, h) ↦
            rw (e, fetch_model)
              (rw (f, fetch_model) (rw (h, fetch_model) (write_json-IsAnswered _ w unsent)))
        | inr (x, h) ↦
            rw (e, fetch_model)
              (rw (f, fetch_model) (rw (h, fetch_model) (write_error-IsAnswered 500 _ w unsent)))
      ]
    ]
  ]

  pub delete_model-IsAnswered :
      (id : String) (s : World Disk) → IsAnswered (delete_model env deps.error_text id s w).1
  unfolding delete_model
  delete_model-IsAnswered id s = elim (Bool-cases (str_eq id "")) [
    | inl e ↦ rw (e, delete_model) (write_error-IsAnswered 400 _ w unsent)
    | inr e ↦ elim (Result-cases (delete env id s).1) [
      | inl (a, h) ↦
          rw (e, delete_model) (rw (h, delete_model) (write_header-IsUnsent 204 w unsent.0))
      | inr (x, h) ↦ elim (Bool-cases (is_not_found x)) [
        | inl lost ↦
            rw (e, delete_model)
              (rw (h, delete_model)
                (rw (lost, delete_model) (write_error-IsAnswered 404 _ w unsent)))
        | inr other ↦
            rw (e, delete_model)
              (rw (h, delete_model)
                (rw (other, delete_model) (write_error-IsAnswered 500 _ w unsent)))
      ]
    ]
  ]

  pub run_benchmark-IsAnswered :
      (flushes : Bool) (spec : Option PairedRunSpec) (signals : List Signal)
      → IsAnswered (run_benchmark deps.quote flushes spec signals w)
  unfolding run_benchmark
  run_benchmark-IsAnswered flushes spec signals = elim (Option-cases (reject flushes spec)) [
    | inl fine ↦
        rw (fine, run_benchmark)
          (forward-IsAnswered signals (flush (set_type "text/event-stream" w))
            (flush-IsUnsent (set_type "text/event-stream" w) unsent))
    | inr (x, h) ↦ rw (h, run_benchmark) (write_error-IsAnswered _ _ w unsent)
  ]
