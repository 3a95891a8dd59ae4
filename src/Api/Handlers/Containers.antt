-- ===== src/Api/Handlers/Containers.antt =====
-- internal/api/handlers/container.go: the container endpoints over `Manager`.
use bonnie.Prelude.{
  String, Bool, true, Option, none, some, [], ◌∷◌, ◌++◌, if◌then◌else◌, str_eq, not,
}
use bonnie.Prelude.Bytes.{Bytes, codes}
use bonnie.Prelude.Results.{Result, ok, err}
use bonnie.Gpu.Types.{Vendor}
use bonnie.Container.Manager.{
  CreateRequest, Docker, ManagerError, LogPieces, create, start, stop, restart, remove, inspect,
  list_containers, log_stream,
}
use bonnie.Api.Http.{
  Writer, pair, containers, opaque, raw, set_type, write_header, flush, write, write_json,
  write_error, write_error_text,
}

module _ {Float Opaque : Type 0} where
  -- What `Start`, `Stop` and `Restart` write after their call.
  abbrev pub report :
      String → String → Result ManagerError (Unit {0}) → Writer Float Opaque → Writer Float Opaque
  report done failure (ok x) w = write_json (pair "status" (codes done)) w
  report done failure (err x) w = write_error 500 failure w

  -- `sseWriter.Write`.
  abbrev pub write_event : Bytes → Writer Float Opaque → Writer Float Opaque
  write_event piece w = flush (write (raw (codes "data: " ++ piece ++ b'\n' ∷ b'\n' ∷ [])) w)

  abbrev pub write_events : LogPieces → Writer Float Opaque → Writer Float Opaque
  write_events [] w = w
  write_events (piece ∷ pieces) w = write_events pieces (write_event piece w)

module _ {Daemon Float Opaque : Type 0} (docker : Docker Daemon Opaque) where
  -- `List`.
  unfoldable pub list_all : Daemon → Writer Float Opaque → Writer Float Opaque
  unfolding write_json write_error_text
  list_all d w = elim (list_containers docker d) [
    | err x ↦ write_error 500 "failed to list containers" w
    | ok cs ↦ write_json (containers cs) w
  ]

  -- `Create`.
  unfoldable pub create_one :
      Vendor → Option CreateRequest → Daemon → Writer Float Opaque → Daemon × Writer Float Opaque
  unfolding write_error_text write_header write_json
  create_one vendor none d w = (d, write_error 400 "invalid request body" w)
  create_one vendor (some req) d w =
      if str_eq req.image ""
      then (d, write_error 400 "image is required" w)
      else let (d', r) = create docker vendor req d in
        (
          d',
          elim r [
            | err x ↦ write_error 500 "failed to create container" w
            | ok id ↦
                write (pair "id" (codes id)) (write_header 201 (set_type "application/json" w))
          ],
        )

  -- `Inspect`; every error is answered as an unknown container.
  unfoldable pub inspect_one : String → Daemon → Writer Float Opaque → Writer Float Opaque
  unfolding write_json write_error_text
  inspect_one id d w = elim (inspect docker id d) [
    | err x ↦ write_error 404 "container not found" w
    | ok x ↦ write_json (opaque x) w
  ]

  -- `Start`, `Stop`, `Restart` and `Remove`.
  unfoldable pub start_one : String → Daemon → Writer Float Opaque → Daemon × Writer Float Opaque
  start_one id d w =
      let (d', r) = start docker id d in (d', report "started" "failed to start container" r w)

  unfoldable pub stop_one : String → Daemon → Writer Float Opaque → Daemon × Writer Float Opaque
  stop_one id d w =
      let (d', r) = stop docker id d in (d', report "stopped" "failed to stop container" r w)

  unfoldable pub restart_one : String → Daemon → Writer Float Opaque → Daemon × Writer Float Opaque
  restart_one id d w =
      let (d', r) = restart docker id d in
      (d', report "restarted" "failed to restart container" r w)

  unfoldable pub remove_one : String → Daemon → Writer Float Opaque → Daemon × Writer Float Opaque
  unfolding write_header write_error_text
  remove_one id d w =
      let (d', r) = remove docker true id d in
      (
        d',
        elim r [
          | ok _ ↦ write_header 204 w
          | err x ↦ write_error 500 "failed to remove container" w
        ],
      )

  -- `Logs`; `flushes` says whether the writer is a `Flusher`. An error ends the stream.
  unfoldable pub logs_of : Bool → String → Daemon → Writer Float Opaque → Writer Float Opaque
  unfolding write_error_text write
  logs_of flushes id d w =
      if not flushes
      then write_error 500 "streaming not supported" w
      else let w' = flush (set_type "text/event-stream" w) in
        elim (log_stream docker id true d) [ err e ↦ w' | ok pieces ↦ write_events pieces w' ]
