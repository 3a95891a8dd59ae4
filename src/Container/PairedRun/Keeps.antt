-- ===== src/Container/PairedRun/Keeps.antt =====
-- The calls of `PairedRun` in internal/container/paired_run.go that make and remove nothing: health,
-- exit, results and the benchmark's configuration.
use bonnie.Prelude.{
  ℕ, zero, suc, ◌-◌, String, ◌≡◌, refl, ◌∙◌, inl, inr, arith, Bool-cases, Option-cases, ltb,
}
use bonnie.Prelude.Results.{Result-cases}
use bonnie.Container.Docker.{inspected, slept, Client}
use bonnie.Container.Spec.{EngineSpec, BenchmarkSpec, PairedRunEvent}
use bonnie.Container.Monad.{RunState, emit, record_step}
use bonnie.Container.Containers.{copy_benchmark_config}
use bonnie.Container.Health.{
  round, wait_loop, wait_engine_healthy, probe_engine, endpoint_ip, waiting, fuel_for, timeout_of,
  deadline_of,
}
use bonnie.Container.Artifacts.{wait_for_exit}
use bonnie.Container.Artifacts
use bonnie.Container.PairedRun.View.{view}

-- A call that answers with a value and makes or removes nothing.
abbrev pub Keeps : {A : Type 0} → (RunState → RunState × A) → Type 0
Keeps act = (s : RunState) → view (act s).0 ≡ view s

module _ (client : Client) where
  view-emit : (ev : PairedRunEvent) (s : RunState) → view (emit client ev s).0 ≡ view s
  unfolding emit
  view-emit ev s = refl

  probe_engine-Keeps : (spec : EngineSpec) (ip : String) → Keeps (probe_engine client spec ip)
  unfolding probe_engine
  probe_engine-Keeps spec ip s = ground arith

  round-Keeps : (id network : String) (spec : EngineSpec) → Keeps (round client id network spec)
  unfolding round
  round-Keeps id network spec s = elim (Result-cases (client.container_inspect s.trace id)) [
    | inr (x, e) ↦ rw (e, round) refl
    | inl (info, e) ↦
        rw (e, round)
          (probe_engine-Keeps spec (endpoint_ip info network) (record_step (inspected id) s))
  ]

  pub copy_benchmark_config-Keeps :
      (id : String) (spec : BenchmarkSpec) → Keeps (copy_benchmark_config client id spec)
  unfolding copy_benchmark_config
  copy_benchmark_config-Keeps id spec s = ground arith

  pub wait_for_exit-Keeps : (id : String) → Keeps (wait_for_exit client id)
  unfolding wait_for_exit
  wait_for_exit-Keeps id s = refl

  pub read_results-Keeps : (id : String) → Keeps (Artifacts.read_results client id)
  unfolding Artifacts.read_results
  read_results-Keeps id s = ground arith

module _ (client : Client) (id network : String) (spec : EngineSpec) where
  wait_loop-Keeps : (fuel deadline : ℕ) → Keeps (wait_loop client id network spec fuel deadline)
  unfolding wait_loop
  wait_loop-Keeps zero deadline s = refl
  wait_loop-Keeps (suc fuel) deadline s = elim (Bool-cases (ltb (client.now s.trace) deadline)) [
    | inr late ↦ rw (late, wait_loop) refl
    | inl early ↦ elim (Option-cases (client.cancelled s.trace)) [
      | inr (x, e) ↦ rw (early, wait_loop) (rw (e, wait_loop) refl)
      | inl e ↦
          let s₁ = (round client id network spec s).0 in
          let same : view s₁ ≡ view s = round-Keeps client id network spec s in
          elim (Option-cases (round client id network spec s).1) [
            | inr (ip, f) ↦ rw (early, wait_loop) (rw (e, wait_loop) (rw (f, wait_loop) same))
            | inl f ↦
                let s₂ = (emit client waiting s₁).0 in
                let same₂ : view s₂ ≡ view s = view-emit client waiting s₁ ∙ same in
                elim (Option-cases (client.cancelled s₂.trace)) [
                  | inr (x, g) ↦
                      rw (early, wait_loop)
                        (rw (e, wait_loop) (rw (f, wait_loop) (rw (g, wait_loop) same₂)))
                  | inl g ↦
                      rw (early, wait_loop)
                        (rw (e, wait_loop)
                          (rw (f, wait_loop)
                            (rw (g, wait_loop)
                              (wait_loop-Keeps fuel deadline (record_step slept s₂) ∙ same₂))))
                ]
          ]
    ]
  ]

  pub wait_engine_healthy-Keeps : Keeps (wait_engine_healthy client id network spec)
  unfolding wait_engine_healthy
  wait_engine_healthy-Keeps s =
      let start = client.now s.trace in
      let deadline = deadline_of start (timeout_of spec) in
      wait_loop-Keeps (fuel_for (deadline - start)) deadline s
