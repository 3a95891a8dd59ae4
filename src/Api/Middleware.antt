-- ===== src/Api/Middleware.antt =====
-- internal/api/middleware: logging.go and recovery.go around any handler. A handler that panics leaves
-- the writer as it was when it did.
use bonnie.Prelude.{ℕ, String, Bool, List, [], ◌∷◌, if◌then◌else◌}
use bonnie.Prelude.Bytes.{codes}
use bonnie.Api.Http.{Writer, pair, send, set_type, write}

-- What a handler leaves: the state, the writer, and whether it panicked.
pub record Outcome (State Float Opaque : Type 0) : Type 0 where
  pub state : State
  pub writer : Writer Float Opaque
  pub panicked : Bool

-- A line of the log: the method, the path and the status.
pub record LogLine : Type 0 where
  pub method : String
  pub path : String
  pub status : ℕ

module _ {State Float Opaque : Type 0} where
  -- `Logging`: after the handler, a line with the status that the wrapper has seen. A panic passes
  -- this point by.
  unfoldable pub logged : String → String → Outcome State Float Opaque → List LogLine
  logged method path out =
      if out.panicked
      then []
      else record { method = method; path = path; status = out.writer.status_code } ∷ []

  -- `Recovery`, around `Logging`: it writes to the connection's own writer.
  unfoldable pub recovered : Outcome State Float Opaque → Writer Float Opaque
  unfolding write
  recovered out =
      if out.panicked
      then write (pair "error" (codes "internal server error"))
          (send 500 (set_type "application/json" out.writer))
      else out.writer
