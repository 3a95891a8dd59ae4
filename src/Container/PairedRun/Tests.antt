-- ===== src/Container/PairedRun/Tests.antt =====
-- Runs of `PairedRun` of internal/container/paired_run.go at a concrete request, with a Docker that
-- grants everything and one that starts nothing, and the theorems at them.
use bonnie.Prelude.{ℕ, ◌+◌, ◌≡◌, refl, true, none, some, [], ◌∷◌, if◌then◌else◌, str_eq}
use bonnie.Prelude.Bytes.{codes}
use bonnie.Prelude.Int.{pos}
use bonnie.Prelude.Results.{ok}
use bonnie.Gpu.Types.{Vendor}
use bonnie.Container.Spec.{HealthCheck, EngineSpec, BenchmarkSpec, PairedRunSpec, validate_run_id}
use bonnie.Container.Docker.{Client, Trace, slept, irregular, regular, exited}
use bonnie.Container.Monad.{◌>>=◌}
use bonnie.Container.Containers.{create_container, copy_benchmark_config}
use bonnie.Container.Health.{wait_engine_healthy}
use bonnie.Container.Artifacts
use bonnie.Container.Artifacts.{wait_for_exit, max_results_size, read_archive}
use bonnie.Container.PairedRun.{
  refusal, checked_call, checked_value, set_engine, set_bench, report_exit, announce, paired_run,
}
use bonnie.Container.PairedRun.View.{last_type}
use bonnie.Container.PairedRun.Tidy.{IsTidy, outcome_type, paired_run-IsTidy, paired_run_last}

-- A clock that counts the pauses.
abbrev pub clock : Trace → ℕ
clock [] = 5
clock (slept ∷ t) = clock t + 2000000000
clock (_ ∷ t) = clock t

-- Docker grants everything; an ID is the container's name. The engine has an address after a pause.
abbrev pub docker : Client
docker = record {
  network_create = λ t name. none;
  volume_create = λ t name. none;
  container_create = λ t config name. ok name;
  container_start = λ t id. none;
  container_inspect = λ t id. ok (some (("bonnie-run-r1", some "10.0.0.2") ∷ []));
  container_wait = λ t id. exited (pos 0) none;
  copy_to = λ t id name body. none;
  copy_from = λ t id path. ok (irregular ∷ regular (ok (codes "{}")) ∷ []);
  http_ok = λ t ip port path. some (if str_eq path "/health" then 200 else 404);
  json_valid = λ body. true;
  cancelled = λ t. none;
  now = clock;
}

abbrev pub check : HealthCheck
check = record { path = "/health"; port = pos 8000; timeout_seconds = pos 10 }

abbrev pub engine : EngineSpec
engine = record {
  image = "vllm";
  args = [];
  env = [];
  ports = [];
  model_path = "/models/m";
  health_check = check;
}

abbrev pub benchmark : BenchmarkSpec
benchmark = record {
  kind = "yaml";
  image = "bench";
  args = [];
  env = ("ENGINE_URL", "http://elsewhere") ∷ [];
  config = [];
  yaml_spec = codes "a: 1";
}

abbrev pub request : PairedRunSpec
request = record { run_id = "r1"; timeout_seconds = pos 60; engine = engine; benchmark = benchmark }

-- A Docker that does not start containers.
abbrev pub broken_docker : Client
broken_docker = record docker { container_start = λ t id. some "no such device" }

run_succeeds : (paired_run docker Vendor.nvidia request []).1 ≡ ok tt
unfolding paired_run report_exit announce ◌>>=◌ validate_run_id checked_call checked_value
    create_container set_engine wait_engine_healthy set_bench copy_benchmark_config wait_for_exit
    Artifacts.read_results
run_succeeds = refl

run_fails : outcome_type (paired_run broken_docker Vendor.amd request []).1 ≡ "error"
unfolding paired_run report_exit announce ◌>>=◌ validate_run_id checked_call checked_value
    create_container set_engine
run_fails = refl

accepted : refusal request ≡ none
unfolding refusal validate_run_id
accepted = refl

paired_run-IsTidy_example : IsTidy (paired_run broken_docker Vendor.amd request []).0
paired_run-IsTidy_example = paired_run-IsTidy broken_docker Vendor.amd request

paired_run_last_example :
    last_type (paired_run docker Vendor.nvidia request []).0
    ≡ outcome_type (paired_run docker Vendor.nvidia request []).1
paired_run_last_example = paired_run_last docker Vendor.nvidia request accepted
