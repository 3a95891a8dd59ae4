-- ===== src/Api/Http.antt =====
-- What the handlers of internal/api use of net/http: the response writer. The first `WriteHeader`
-- sends the status with the headers as they are then; a write or a flush before it sends 200. The
-- JSON encoder is left out: a body keeps the value that it is given.
pub mod Answered
use bonnie.Prelude.{ℕ, String, Bool, true, false, Option, none, some, List, [], ◌∷◌, ◌++◌}
use bonnie.Prelude.Bytes.{Bytes, codes}
use bonnie.Storage.Env.{Entry}
use bonnie.Container.Manager.{ContainerInfo}
use bonnie.Container.Spec.{PairedRunEvent}
use bonnie.Gpu.Types.{Snapshot}
use bonnie.System.{SystemInfo, DiskUsage}

-- What is written: an object of one text, one of a text and a truth value, the value of
-- a component, one that is only passed on, or text as it is.
pub data Body (Float Opaque : Type 0) : Type 0 where
  pair : String → Bytes → Body Float Opaque
  flag : String → Bool → Body Float Opaque
  entry : Entry → Body Float Opaque
  entries : List Entry → Body Float Opaque
  containers : List ContainerInfo → Body Float Opaque
  snapshot : Snapshot → Body Float Opaque
  host : SystemInfo → Option (DiskUsage Float) → Body Float Opaque
  run_event : PairedRunEvent → Body Float Opaque
  opaque : Opaque → Body Float Opaque
  raw : Bytes → Body Float Opaque

-- The status and the content type that went out.
pub record Sent : Type 0 where
  pub status : ℕ
  pub content_type : String

-- The writer that a handler gets: the one of the connection inside that of the logging middleware,
-- `responseWriter`, which keeps the last status of a `WriteHeader`.
pub record Writer (Float Opaque : Type 0) : Type 0 where
  pub status_code : ℕ
  pub content_type : String
  pub sent : Option Sent
  pub bodies : List (Body Float Opaque)

abbrev pub first_sent : ℕ → String → Option Sent → Option Sent
first_sent code type none = some (record { status = code; content_type = type })
first_sent code type (some s) = some s

module _ {Float Opaque : Type 0} where
  abbrev pub fresh : Writer Float Opaque
  fresh = record { status_code = 200; content_type = ""; sent = none; bodies = [] }

  abbrev pub set_type : String → Writer Float Opaque → Writer Float Opaque
  set_type value w = record w { content_type = value }

  -- The status line goes out, once.
  abbrev pub send : ℕ → Writer Float Opaque → Writer Float Opaque
  send code w = record w { sent = first_sent code w.content_type w.sent }

  -- `responseWriter.WriteHeader` and `Flush`.
  unfoldable pub write_header : ℕ → Writer Float Opaque → Writer Float Opaque
  write_header code w = send code (record w { status_code = code })

  abbrev pub flush : Writer Float Opaque → Writer Float Opaque
  flush w = send 200 w

  unfoldable pub write : Body Float Opaque → Writer Float Opaque → Writer Float Opaque
  write body w = let w' = flush w in record w' { bodies = w'.bodies ++ body ∷ [] }

  -- internal/api/handlers/container.go: a JSON answer, and `writeError`.
  unfoldable pub write_json : Body Float Opaque → Writer Float Opaque → Writer Float Opaque
  unfolding write
  write_json body w = write body (set_type "application/json" w)

  unfoldable pub write_error_text : ℕ → Bytes → Writer Float Opaque → Writer Float Opaque
  unfolding write write_header
  write_error_text code msg w =
      write (pair "error" msg) (write_header code (set_type "application/json" w))

  abbrev pub write_error : ℕ → String → Writer Float Opaque → Writer Float Opaque
  write_error code msg w = write_error_text code (codes msg) w
