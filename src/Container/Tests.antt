-- ===== src/Container/Tests.antt =====
-- The models of internal/container at concrete requests, and the theorems on them.
use bonnie.Prelude.{
  ◌-◌, ◌≤◌, ◌≡◌, ◌↔◌, refl, true, Option, none, some, List, [], ◌∷◌, ◌++◌, if◌then◌else◌, str_eq,
  arith, is_some, length,
}
use bonnie.Prelude.Bytes.{Bytes, codes}
use bonnie.Prelude.Int.{pos}
use bonnie.Prelude.Maps.{lookup}
use bonnie.Prelude.Results.{ok}
use bonnie.Container.Docker.{Step, Trace, slept, irregular, regular}
use bonnie.Container.Containers.{benchmark_env, benchmark_env-lookup, engine_url}
use bonnie.Container.Health.{wait_loop, fuel_for}
use bonnie.Container.Health.Deadline.{ClockLaws, wait_loop-Ends}
use bonnie.Container.Artifacts.{max_results_size, read_archive}
use bonnie.Container.Artifacts.Archive.{IsFirst, read_archive_iff}
use bonnie.Container.Logs.{LogEvent, Stop, eof, stream_logs}
use bonnie.Container.Logs.Lines.{events_of, output, ending, stream_logs_lem}
use bonnie.Container.PairedRun.Tests.{clock, docker, engine, request}

benchmark_env-lookup_example : lookup "ENGINE_URL" (benchmark_env request "10.0.0.2") ≡ (
    if str_eq "ENGINE_URL" "ENGINE_URL"
    then some (engine_url "10.0.0.2" (pos 8000))
    else lookup "ENGINE_URL" (("ENGINE_URL", "http://elsewhere") ∷ []))
benchmark_env-lookup_example = benchmark_env-lookup request "10.0.0.2" "ENGINE_URL"

steady : (step : Step) (t : Trace) → clock t ≤ clock (step ∷ t)
steady slept t = omega arith
steady _ t = omega arith

docker_clock : ClockLaws docker
docker_clock = record { steady = steady; sleeps = λ t. omega arith }

wait_loop-Ends_example :
    is_some
      (wait_loop docker "bonnie-engine-r1" "bonnie-run-r1" engine
        (fuel_for (10000000005 - 5))
        10000000005
        (record { trace = []; engine_id = ""; bench_id = "" })).1
    ≡ true
wait_loop-Ends_example =
    wait_loop-Ends docker docker_clock "bonnie-engine-r1" "bonnie-run-r1" engine
      (record { trace = []; engine_id = ""; bench_id = "" }) 10000000005

read_archive_iff_example :
    (read_archive (λ body. true) (irregular ∷ regular (ok (codes "{}")) ∷ []) ≡ ok (codes "{}")) ↔ (
      IsFirst (codes "{}") (irregular ∷ regular (ok (codes "{}")) ∷ [])
      × (length (codes "{}") ≤ max_results_size)
      × (true ≡ true))
read_archive_iff_example =
    read_archive_iff (λ body. true) (irregular ∷ regular (ok (codes "{}")) ∷ []) (codes "{}")

abbrev chunks : List (Bytes × Option Stop)
chunks = (codes "load", none) ∷ (codes "ing\r\nrea", none) ∷ (codes "dy\n\nlast", some eof) ∷ []

two_lines :
    stream_logs none chunks
    ≡ LogEvent.progress (codes "loading") ∷ LogEvent.progress (codes "ready") ∷ []
unfolding stream_logs
two_lines = refl

stream_logs_lem_example : stream_logs none chunks ≡ events_of [] (output chunks) ++ ending chunks
stream_logs_lem_example = stream_logs_lem chunks
