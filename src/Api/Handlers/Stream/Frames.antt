-- ===== src/Api/Handlers/Stream/Frames.antt =====
-- internal/api/handlers/benchmark.go: what the client of `Run` receives.
use bonnie.Prelude.{◌≡◌, refl, sym, ◌∙◌, true, false, none, some, List, [], ◌∷◌, ◌++◌}
use mathlib.Core.List.{append-nil, append_assoc}
use bonnie.Prelude.Bytes.{Bytes, codes}
use bonnie.Container.Spec.{PairedRunSpec, PairedRunEvent}
use bonnie.Api.Benchmark.{reject}
use bonnie.Api.Http.{Body, Writer, Sent, raw, run_event, fresh, write}
use bonnie.Api.Handlers.Stream.{
  Signal, disconnected, closed, event, forward, write_frame, run_benchmark,
}

-- What ends the loop: a client that is gone, a closed channel, a frame that cannot be written.
unfoldable pub IsStop : Signal → Type 0
IsStop (event ev true) = ⊥
IsStop x = Unit

-- The events of a run as the loop finds them, each with a frame that can be written.
unfoldable pub arrivals : List PairedRunEvent → List Signal
arrivals [] = []
arrivals (ev ∷ evs) = event ev true ∷ arrivals evs

module _ {Float Opaque : Type 0} where
  unfoldable pub frames : List PairedRunEvent → List (Body Float Opaque)
  frames [] = []
  frames (ev ∷ evs) = raw (codes "data: ") ∷ run_event ev ∷ raw (codes "\n") ∷ frames evs

  write_frame-sent :
      (ev : PairedRunEvent) (w : Writer Float Opaque) (s : Sent)
      → w.sent ≡ some s
      → (write_frame ev w).sent ≡ some s
  unfolding write
  write_frame-sent ev w s out = rw out refl

  write_frame-frames :
      (ev : PairedRunEvent) (evs : List PairedRunEvent) (w : Writer Float Opaque)
      → (write_frame ev w).bodies ++ frames evs ≡ w.bodies ++ frames (ev ∷ evs)
  unfolding write frames
  write_frame-frames ev evs w = simp (append_assoc)

  forward-frames :
      (evs : List PairedRunEvent) (stop : Signal)
      → IsStop stop
      → (rest : List Signal) (w : Writer Float Opaque) (s : Sent) → w.sent ≡ some s
      → ((forward (arrivals evs ++ stop ∷ rest) w).sent ≡ some s)
        × ((forward (arrivals evs ++ stop ∷ rest) w).bodies ≡ w.bodies ++ frames evs)
  unfolding arrivals frames IsStop
  forward-frames [] disconnected h rest w s out = (out, sym (append-nil w.bodies))
  forward-frames [] closed h rest w s out = (out, sym (append-nil w.bodies))
  forward-frames [] (event ev false) h rest w s out = (out, sym (append-nil w.bodies))
  forward-frames [] (event ev true) h rest w s out = absurd h
  forward-frames (ev ∷ evs) stop h rest w s out =
      let later =
        forward-frames evs stop h rest (write_frame ev w) s (write_frame-sent ev w s out) in
      (later.0, later.1 ∙ write_frame-frames ev evs w)

  -- When the checks pass, each event up to the first stop is one frame of the answer, in the order
  -- of the events, and nothing after the stop is: the client is gone, the channel is closed or
  -- a frame cannot be written. The status is 200 and the content type that of an event stream.
  pub run_benchmark-frames :
      (quote : Bytes → Bytes) (spec : PairedRunSpec)
      → reject true (some spec) ≡ none
      → (evs : List PairedRunEvent) (stop : Signal) → IsStop stop
      → (rest : List Signal)
      → let w =
          run_benchmark quote true
            (some spec)
            (arrivals evs ++ stop ∷ rest)
            (fresh {Float = Float} {Opaque = Opaque}) in
        (w.sent ≡ some (record { status = 200; content_type = "text/event-stream" }))
        × (w.bodies ≡ frames evs)
  unfolding run_benchmark
  run_benchmark-frames quote spec fine evs stop h rest =
      rw (fine, run_benchmark) (forward-frames evs stop h rest _ _ refl)
