-- ===== src/Api/Tests/Streamed.antt =====
-- A run whose events are passed on to a client of internal/api: a frame that cannot be written ends
-- the stream.
use bonnie.Prelude.{◌≡◌, refl, String, true, false, none, some, List, [], ◌∷◌, ◌++◌}
use bonnie.Prelude.Bytes.{codes}
use bonnie.Container.Spec.{PairedRunEvent, validate_run_id}
use bonnie.Container.PairedRun.Tests.{request}
use bonnie.Api.Benchmark.{reject}
use bonnie.Api.Http.{fresh, raw, run_event}
use bonnie.Api.Handlers.Stream.{disconnected, event, run_benchmark}
use bonnie.Api.Handlers.Stream.Frames.{IsStop, arrivals, frames, run_benchmark-frames}

abbrev event_of : String → PairedRunEvent
event_of type = record {
  type = type;
  phase = "benchmark";
  source = "";
  line = "";
  timestamp = 7;
  results = [];
  duration_ms = 0;
  error = "";
}

abbrev events : List PairedRunEvent
events = event_of "status" ∷ event_of "log" ∷ []

request_taken : reject true (some request) ≡ none
unfolding reject validate_run_id
request_taken = refl

torn_IsStop : IsStop (event (event_of "result") false)
unfolding IsStop
torn_IsStop = tt

two_frames :
    frames {Float = Unit {0}} {Opaque = Unit {0}} events
    ≡ raw (codes "data: ")
      ∷ run_event (event_of "status")
      ∷ raw (codes "\n")
      ∷ raw (codes "data: ")
      ∷ run_event (event_of "log")
      ∷ raw (codes "\n")
      ∷ []
unfolding frames
two_frames = refl

run_benchmark-frames_example :
    let w =
      run_benchmark
        (λ x. x)
        true
        (some request)
        (arrivals events ++ event (event_of "result") false ∷ disconnected ∷ [])
        (fresh {Float = Unit {0}} {Opaque = Unit {0}}) in
    (w.sent ≡ some (record { status = 200; content_type = "text/event-stream" }))
    × (w.bodies ≡ frames events)
run_benchmark-frames_example =
    run_benchmark-frames (λ x. x) request request_taken events (event (event_of "result") false)
      torn_IsStop (disconnected ∷ [])
