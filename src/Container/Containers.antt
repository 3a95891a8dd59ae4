-- ===== src/Container/Containers.antt =====
-- internal/container/paired_run.go: `createEngineContainer`, `createBenchmarkContainer`,
-- `copyBenchmarkConfig`, `envSlice` and `cleanupRun`.
use Prim.Native.String
use bonnie.Prelude.{
  String, ◌≡◌, not, ◌&&◌, Option, none, some, List, [], ◌∷◌, map, if◌then◌else◌, str_eq, is_empty,
}
use bonnie.Prelude.Int.{ℤ, show_int}
use bonnie.Prelude.Maps.{Map, lookup, insert, lookup-insert}
use bonnie.Prelude.Results.{Result, ok, err}
use bonnie.Container.Spec.{BenchmarkSpec, PairedRunSpec}
use bonnie.Container.Docker.{
  HostConfig, ContainerConfig, Client, container_created, container_refused, copied_to,
  container_stopped, container_removed, network_removed, volume_removed,
}
use bonnie.Gpu.Types.{Vendor}
use bonnie.Container.Runtime.{inject_gpu}
use bonnie.Container.Monad.{RunState, record_step}

-- `envSlice`, for one order of the `range` over the map.
unfoldable pub env_slice : Map String → List String
env_slice env = map (λ p. String.◌++◌ p.0 (String.◌++◌ "=" p.1)) env

abbrev pub empty_host : HostConfig
empty_host = record {
  binds = [];
  mounts = [];
  device_requests = [];
  devices = [];
  security_opt = [];
  group_add = [];
}

unfoldable pub engine_config : Vendor → PairedRunSpec → String → ContainerConfig
unfolding env_slice inject_gpu
engine_config vendor spec network = record {
  image = spec.engine.image;
  cmd = spec.engine.args;
  env = env_slice spec.engine.env;
  host =
      inject_gpu
        (record empty_host {
          binds = String.◌++◌ spec.engine.model_path (String.◌++◌ ":" "/model:ro") ∷ [];
        })
        vendor;
  networks = network ∷ [];
}

unfoldable pub engine_url : String → ℤ → String
engine_url ip port = String.◌++◌ "http://" (String.◌++◌ ip (String.◌++◌ ":" (show_int port)))

unfoldable pub benchmark_env : PairedRunSpec → String → Map String
unfolding engine_url insert
benchmark_env spec ip =
    insert "ENGINE_URL" (engine_url ip spec.engine.health_check.port) spec.benchmark.env

unfoldable pub benchmark_config : PairedRunSpec → String → String → String → ContainerConfig
unfolding env_slice benchmark_env
benchmark_config spec network volume ip = record {
  image = spec.benchmark.image;
  cmd = spec.benchmark.args;
  env = env_slice (benchmark_env spec ip);
  host = record empty_host { mounts = record { source = volume; target = "/results" } ∷ [] };
  networks = network ∷ [];
}

-- `ContainerCreate`, as both functions call it; the error is left to the caller.
unfoldable pub create_container :
    Client → ContainerConfig → String → RunState → RunState × Result String String
create_container client config name s = elim (client.container_create s.trace config name) [
  | ok id ↦ (record_step (container_created config name id) s, ok id)
  | err e ↦ (record_step (container_refused config name) s, err e)
]

-- `copyBenchmarkConfig` and `tarWithSingleFile`: the archive holds one file, under its path
-- without the leading slash. An archive in memory does not fail.
unfoldable pub copy_benchmark_config :
    Client → String → BenchmarkSpec → RunState → RunState × Option String
copy_benchmark_config client id spec s =
    let yaml = copied_to id "config.yaml" spec.yaml_spec in
    let json = copied_to id "config.json" spec.config in
    if str_eq spec.kind "yaml" && not (is_empty spec.yaml_spec)
    then (record_step yaml s, client.copy_to s.trace id "config.yaml" spec.yaml_spec)
    else if str_eq spec.kind "container" && not (is_empty spec.config)
    then (record_step json s, client.copy_to s.trace id "config.json" spec.config)
    else (s, none)

-- One round of the loop of `cleanupRun`.
unfoldable pub drop_container : String → RunState → RunState
drop_container id s =
    if str_eq id ""
    then s
    else record_step (container_removed id) (record_step (container_stopped id) s)

-- `cleanupRun`: what the calls answer is ignored.
unfoldable pub cleanup_run : String → String → RunState → RunState
unfolding drop_container
cleanup_run network volume s =
    let s₁ = drop_container s.engine_id (drop_container s.bench_id s) in
    let s₂ = if str_eq network "" then s₁ else record_step (network_removed network) s₁ in
    if str_eq volume "" then s₂ else record_step (volume_removed volume) s₂

-- Whatever the request's environment says, the benchmark gets the engine's address as `ENGINE_URL`,
-- and every other variable as the request has it.
pub benchmark_env-lookup :
    (spec : PairedRunSpec) (ip k : String)
    → lookup k (benchmark_env spec ip) ≡ (
        if str_eq "ENGINE_URL" k
        then some (engine_url ip spec.engine.health_check.port)
        else lookup k spec.benchmark.env)
unfolding benchmark_env
benchmark_env-lookup spec ip k = lookup-insert "ENGINE_URL" k _ spec.benchmark.env
