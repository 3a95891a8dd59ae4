-- ===== src/Container/PairedRun.antt =====
-- internal/container/paired_run.go: `PairedRun`. The log streams that run beside it only emit
-- events, and are left out of this sequence.
pub mod View
pub mod Keeps
pub mod Stages
pub mod Tidy
pub mod Channel
pub mod Tests
use Prim.Native.String
use bonnie.Prelude.{
  ℕ, ◌-◌, ◌/◌, String, ◌≡◌, refl, Bool, true, false, not, ◌&&◌, Option, none, some, List, [], ◌∷◌,
  if◌then◌else◌, str_eq,
}
use bonnie.Prelude.Bytes.{Bytes}
use bonnie.Prelude.Int.{ℤ, is_zero, show_int}
use bonnie.Prelude.Results.{Result, ok, err}
use bonnie.Container.Spec.{PairedRunSpec, PairedRunEvent, validate_run_id}
use bonnie.Container.Docker.{
  Client, ContainerConfig, Step, Trace, network_requested, volume_requested, container_started,
  events_closed,
}
use bonnie.Gpu.Types.{Vendor}
use bonnie.Container.Monad.{
  Failure, run_id_required, run_id_invalid, engine_image_required, benchmark_image_required,
  benchmark_kind_invalid, create_network, create_volume, create_engine, start_engine, engine_health,
  create_benchmark, copy_config, start_benchmark, wait_benchmark, read_results, benchmark_failed,
  RunState, M, ◌>>=◌, ◌>>◌, pure, fail, record_step, emit, blank_event, status, emit_error,
  or_give_up,
}
use bonnie.Container.Containers.{
  engine_config, benchmark_config, create_container, copy_benchmark_config, cleanup_run,
}
use bonnie.Container.Health.{wait_engine_healthy}
use bonnie.Container.Artifacts.{wait_for_exit}
use bonnie.Container.Artifacts

-- The checks at the head of `PairedRun`, before anything is made.
unfoldable pub refusal : PairedRunSpec → Option Failure
refusal spec =
    if str_eq spec.run_id ""
    then some run_id_required
    else if not (validate_run_id spec.run_id)
    then some run_id_invalid
    else if str_eq spec.engine.image ""
    then some engine_image_required
    else if str_eq spec.benchmark.image ""
    then some benchmark_image_required
    else if not (str_eq spec.benchmark.kind "")
        && not (str_eq spec.benchmark.kind "yaml")
        && not (str_eq spec.benchmark.kind "container")
    then some benchmark_kind_invalid
    else none

abbrev pub network_name : PairedRunSpec → String
network_name spec = String.◌++◌ "bonnie-run-" spec.run_id

abbrev pub volume_name : PairedRunSpec → String
volume_name spec = String.◌++◌ "bonnie-results-" spec.run_id

abbrev pub engine_name : PairedRunSpec → String
engine_name spec = String.◌++◌ "bonnie-engine-" spec.run_id

abbrev pub bench_name : PairedRunSpec → String
bench_name spec = String.◌++◌ "bonnie-bench-" spec.run_id

-- A call of the client that answers with an error or none, and what it does to the trace.
abbrev pub call : Step → (Trace → Option String) → RunState → RunState × Option String
call step answer s = (record_step step s, answer s.trace)

-- The error branches: an answer that is an error ends the run with an event of its phase.
pub checked_call :
    Client → String → (String → Failure) → (RunState → RunState × Option String) → M (Unit {0})
unfolding or_give_up
checked_call client phase x act s = let (s', e) = act s in or_give_up client phase x e s'

pub or_fail_with : {A : Type 0} → Client → String → (String → Failure) → Result String A → M A
unfolding emit_error
or_fail_with client phase x (ok a) s = (s, ok a)
or_fail_with client phase x (err e) s = ((emit_error client phase e s).0, err (x e))

pub checked_value :
    {A : Type 0}
    → Client
    → String
    → (String → Failure)
    → (RunState → RunState × Result String A)
    → M A
unfolding or_fail_with
checked_value client phase x act s = let (s', r) = act s in or_fail_with client phase x r s'

pub set_engine : String → M (Unit {0})
set_engine id s = (record s { engine_id = id }, ok tt)

pub set_bench : String → M (Unit {0})
set_bench id s = (record s { bench_id = id }, ok tt)

module _ (client : Client) (vendor : Vendor) (spec : PairedRunSpec) where
  -- Steps 1 and 2.
  make_resources : M (Unit {0})
  make_resources = do
    emit client (status "creating-network")
    checked_call client "creating-network" create_network (
        call (network_requested (network_name spec))
          (λ t. client.network_create t (network_name spec)))
    emit client (status "creating-volume")
    checked_call client "creating-volume" create_volume (
        call (volume_requested (volume_name spec)) (λ t. client.volume_create t (volume_name spec)))

  -- Steps 3 to 5; the result is the engine's address.
  start_engine_container : M String
  start_engine_container = do
    emit client (status "starting-engine")
    id ←
        checked_value client "starting-engine" create_engine (
          create_container client (engine_config vendor spec (network_name spec))
            (engine_name spec))
    set_engine id
    checked_call client "starting-engine" start_engine
        (call (container_started id) (λ t. client.container_start t id))
    emit client (status "engine-starting")
    ip ←
        checked_value client "engine-starting" engine_health
          (wait_engine_healthy client id (network_name spec) spec.engine)
    emit client (record (status "engine-healthy") {
      line =
          String.◌++◌ "engine reachable at "
            (String.◌++◌ ip (String.◌++◌ ":" (show_int spec.engine.health_check.port)));
    })
    pure ip

  -- Step 6; the result is the benchmark's ID.
  start_benchmark_container : String → M String
  start_benchmark_container ip = do
    emit client (status "starting-benchmark")
    id ← checked_value client "starting-benchmark" create_benchmark (
        create_container client (benchmark_config spec (network_name spec) (volume_name spec) ip)
          (bench_name spec))
    set_bench id
    checked_call client "starting-benchmark" copy_config
        (copy_benchmark_config client id spec.benchmark)
    checked_call client "starting-benchmark" start_benchmark
        (call (container_started id) (λ t. client.container_start t id))
    pure id

  abbrev exit_event : ℤ → PairedRunEvent
  exit_event code = record blank_event {
    type = "error";
    phase = "benchmark-exit";
    source = "benchmark";
    error = String.◌++◌ "benchmark exited with code " (show_int code);
  }

  report_exit : ℤ → M (Unit {0})
  unfolding emit
  report_exit code s = if is_zero code then pure tt s else emit client (exit_event code) s

  -- The last event.
  announce : ℕ → Bytes → M (Unit {0})
  announce start results s =
      emit client
        (record blank_event {
          type = "result";
          phase = "done";
          source = "orchestrator";
          results = results;
          duration_ms = (client.now s.trace - start) / 1000000;
        })
        s

  -- Steps 7 and 8. A benchmark that failed may still have results.
  collect : ℕ → String → M (Unit {0})
  collect start id = do
    emit client (status "benchmark-running")
    code ← checked_value client "benchmark-running" wait_benchmark (wait_for_exit client id)
    report_exit code
    emit client (status "collecting-results")
    results ←
        checked_value client "collecting-results"
          (if is_zero code then read_results else benchmark_failed)
          (Artifacts.read_results client id)
    announce start results

  pub orchestrate : ℕ → M (Unit {0})
  unfolding make_resources start_engine_container start_benchmark_container collect
  orchestrate start = do
    make_resources
    ip ← start_engine_container
    id ← start_benchmark_container ip
    collect start id

  abbrev pub fresh_state : Trace → RunState
  fresh_state t = record { trace = t; engine_id = ""; bench_id = "" }

  -- `PairedRun`: the deferred calls run in every case, the clean-up only after the checks.
  pub paired_run : Trace → Trace × Result Failure (Unit {0})
  unfolding refusal orchestrate cleanup_run
  paired_run t = elim (refusal spec) [
    | some x ↦ (events_closed ∷ t, err x)
    | none ↦
        let (s, r) = orchestrate (client.now t) (fresh_state t) in
        let s' = cleanup_run (network_name spec) (volume_name spec) s in
        (events_closed ∷ s'.trace, r)
  ]
