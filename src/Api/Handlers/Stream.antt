-- ===== src/Api/Handlers/Stream.antt =====
-- internal/api/handlers/benchmark.go: the loop of `Run` that passes the events of a paired run on to
-- the client.
pub mod Frames
use bonnie.Prelude.{ℕ, Bool, true, false, Option, none, some, List, [], ◌∷◌, ◌++◌}
use bonnie.Prelude.Bytes.{Bytes, codes}
use bonnie.Container.Spec.{PairedRunSpec, PairedRunEvent}
use bonnie.Api.Benchmark.{
  Rejection, invalid_body, run_id_missing, run_id_malformed, engine_image_missing,
  benchmark_image_missing, streaming_unsupported, reject,
}
use bonnie.Api.Http.{Writer, run_event, raw, set_type, flush, write, write_error_text}

-- What the loop finds: the client is gone, the channel is closed, or an event, with whether its
-- frame could be written; what a failed frame leaves on the broken connection is not kept.
pub data Signal : Type 0 where
  disconnected closed : Signal
  event : PairedRunEvent → Bool → Signal

abbrev pub code_of : Rejection → ℕ
code_of streaming_unsupported = 500
code_of x = 400

-- `quote` is the verb `%q`.
abbrev pub message_of : (Bytes → Bytes) → Option PairedRunSpec → Rejection → Bytes
message_of quote spec invalid_body = codes "invalid request body"
message_of quote spec run_id_missing = codes "run_id is required"
message_of quote none run_id_malformed = []
message_of quote (some spec) run_id_malformed =
    codes "run_id " ++ quote (codes spec.run_id) ++ codes " is invalid: must match [a-zA-Z0-9_-]+"
message_of quote spec engine_image_missing = codes "engine.image is required"
message_of quote spec benchmark_image_missing = codes "benchmark.image is required"
message_of quote spec streaming_unsupported = codes "streaming not supported"

module _ {Float Opaque : Type 0} where
  -- The frame of an event: the encoder ends its line, and a blank line follows.
  abbrev pub write_frame : PairedRunEvent → Writer Float Opaque → Writer Float Opaque
  write_frame ev w =
      flush (write (raw (codes "\n")) (write (run_event ev) (write (raw (codes "data: ")) w)))

  abbrev pub forward : List Signal → Writer Float Opaque → Writer Float Opaque
  forward [] w = w
  forward (disconnected ∷ signals) w = w
  forward (closed ∷ signals) w = w
  forward (event ev true ∷ signals) w = forward signals (write_frame ev w)
  forward (event ev false ∷ signals) w = w

  -- `Run`, with what the run that it starts sends.
  unfoldable pub run_benchmark :
      (Bytes → Bytes)
      → Bool
      → Option PairedRunSpec
      → List Signal
      → Writer Float Opaque
      → Writer Float Opaque
  unfolding write write_error_text
  run_benchmark quote flushes spec signals w = elim (reject flushes spec) [
    | some x ↦ write_error_text (code_of x) (message_of quote spec x) w
    | none ↦ forward signals (flush (set_type "text/event-stream" w))
  ]
