-- ===== src/Container/PairedRun/Stages.antt =====
-- The stages of `PairedRun` in internal/container/paired_run.go, each with the view that it leaves.
use bonnie.Prelude.{ℕ, String, ◌≡◌, refl, sym, ◌∙◌, subst, ap, List, [], ◌∷◌, inl, inr, Bool-cases}
use bonnie.Prelude.Results.{Result, ok, err, Result-cases}
use bonnie.Prelude.Int.{ℤ, is_zero}
use bonnie.Prelude.Bytes.{Bytes}
use bonnie.Container.Docker.{Client, ContainerConfig}
use bonnie.Container.Spec.{PairedRunSpec}
use bonnie.Gpu.Types.{Vendor}
use bonnie.Container.Monad.{RunState, emit}
use bonnie.Container.Containers.{create_container}
use bonnie.Container.Health.{wait_engine_healthy}
use bonnie.Container.Artifacts.{wait_for_exit}
use bonnie.Container.Artifacts
use bonnie.Container.PairedRun.View.{
  View, At, view, last_type, IsCovered, done, Takes, Yields, emit-Takes, checked_call-Takes,
  checked_value-Takes, >>=-Takes,
}
use bonnie.Container.PairedRun.Keeps.{
  Keeps, copy_benchmark_config-Keeps, wait_for_exit-Keeps, read_results-Keeps,
  wait_engine_healthy-Keeps,
}
use bonnie.Container.PairedRun.{
  network_name, volume_name, make_resources, start_engine_container, start_benchmark_container,
  collect, report_exit, announce, orchestrate, set_engine, set_bench, exit_event,
}

abbrev seen : String → String → List String → List String → List String → View
seen engine bench held nets vols = record {
  engine = engine;
  bench = bench;
  held = held;
  nets = nets;
  vols = vols;
}

module _ (client : Client) (vendor : Vendor) (spec : PairedRunSpec) where
  abbrev N : String
  N = network_name spec

  abbrev V : String
  V = volume_name spec

  -- The network and the volume, with the engine and the benchmark.
  abbrev both_made : String → String → List String → View
  both_made engine bench held = seen engine bench held (N ∷ []) (V ∷ [])

  make_resources-Takes :
      Takes N V
        (At (seen "" "" [] [] []))
        (make_resources client vendor spec)
        (λ _. At (both_made "" "" []))
  unfolding make_resources
  make_resources-Takes = >>=-Takes N V (emit-Takes client N V _ _) λ _.
      >>=-Takes N V
        (checked_call-Takes client N V _ _ _ _ (seen "" "" [] (N ∷ []) []) (tt, (refl, tt), tt)
          (λ s h. ap {A = View} (λ v. record v { nets = N ∷ v.nets }) h))
        λ _. >>=-Takes N V (emit-Takes client N V _ _) λ _.
          checked_call-Takes client N V _ _ _ _ (both_made "" "" []) (tt, (refl, tt), (refl, tt))
            (λ s h. ap {A = View} (λ v. record v { vols = V ∷ v.vols }) h)

  create-Yields :
      (config : ContainerConfig) (name : String) (v : View) (s : RunState)
      → IsCovered N V v
      → At v s
      → Yields N V (λ id. record v { held = id ∷ v.held }) (create_container client config name s)
  unfolding create_container
  create-Yields config name v s c h =
      elim (Result-cases (client.container_create s.trace config name)) [
        | inl (id, e) ↦
            rw (e, create_container) (ap {A = View} (λ u. record u { held = id ∷ u.held }) h)
        | inr (x, e) ↦ rw (e, create_container) (subst (IsCovered N V) (sym h) c)
      ]

  Keeps-Yields :
      {A : Type 0} (act : RunState → RunState × Result String A) (v : View) (s : RunState)
      → Keeps act
      → IsCovered N V v
      → At v s
      → Yields N V (λ _. v) (act s)
  Keeps-Yields {A} act v s k c h = go (act s) (k s ∙ h)
    where
      go : (r : RunState × Result String A) → view r.0 ≡ v → Yields N V (λ _. v) r
      go (t, ok a) e = e
      go (t, err x) e = subst (IsCovered N V) (sym e) c

  set_engine-Takes :
      (id : String)
      → Takes N V
          (At (both_made "" "" (id ∷ [])))
          (set_engine id)
          (λ _. At (both_made id "" (id ∷ [])))
  unfolding set_engine
  set_engine-Takes id s h = done (ap {A = View} (λ u. record u { engine = id }) h)

  start_engine_container-Takes :
      Takes N V
        (At (both_made "" "" []))
        (start_engine_container client vendor spec)
        (λ _ s. (id : String) × At (both_made id "" (id ∷ [])) s)
  unfolding start_engine_container
  start_engine_container-Takes = >>=-Takes N V (emit-Takes client N V _ _) λ _.
      >>=-Takes N V
        (checked_value-Takes client N V _ _ _ _ (λ id. both_made "" "" (id ∷ []))
          (λ s h. create-Yields _ _ _ s (tt, (refl, tt), (refl, tt)) h))
        λ id. >>=-Takes N V (set_engine-Takes id) λ _.
          >>=-Takes N V
            (checked_call-Takes client N V _ _ _ _ (both_made id "" (id ∷ []))
              ((inl refl, tt), (refl, tt), (refl, tt)) (λ s h. h))
            λ _. >>=-Takes N V (emit-Takes client N V _ _) λ _.
              >>=-Takes N V
                (checked_value-Takes client N V _ _ _ _ (λ _. both_made id "" (id ∷ []))
                  (λ s h.
                    Keeps-Yields (wait_engine_healthy client id N spec.engine) _ s
                      (wait_engine_healthy-Keeps client id N spec.engine)
                      ((inl refl, tt), (refl, tt), (refl, tt)) h))
                λ ip. >>=-Takes N V (emit-Takes client N V _ _) λ _ s h. done (id, h)

  set_bench-Takes :
      (engine id : String)
      → Takes N V
          (At (both_made engine "" (id ∷ engine ∷ [])))
          (set_bench id)
          (λ _. At (both_made engine id (id ∷ engine ∷ [])))
  unfolding set_bench
  set_bench-Takes engine id s h = done (ap {A = View} (λ u. record u { bench = id }) h)

  start_benchmark_container-Takes :
      (engine ip : String)
      → Takes N V
          (At (both_made engine "" (engine ∷ [])))
          (start_benchmark_container client vendor spec ip)
          (λ _ s. (id : String) × At (both_made engine id (id ∷ engine ∷ [])) s)
  unfolding start_benchmark_container
  start_benchmark_container-Takes engine ip = >>=-Takes N V (emit-Takes client N V _ _) λ _.
      >>=-Takes N V
        (checked_value-Takes client N V _ _ _ _ (λ id. both_made engine "" (id ∷ engine ∷ []))
          (λ s h. create-Yields _ _ _ s ((inl refl, tt), (refl, tt), (refl, tt)) h))
        λ id. >>=-Takes N V (set_bench-Takes engine id) λ _.
          >>=-Takes N V
            (checked_call-Takes client N V _ _ _ _ (both_made engine id (id ∷ engine ∷ []))
              ((inr refl, (inl refl, tt)), (refl, tt), (refl, tt))
              (λ s h. copy_benchmark_config-Keeps client id spec.benchmark s ∙ h))
            λ _.
              >>=-Takes N V
                (checked_call-Takes client N V _ _ _ _ (both_made engine id (id ∷ engine ∷ []))
                  ((inr refl, (inl refl, tt)), (refl, tt), (refl, tt)) (λ s h. h))
                λ _ s h. done (id, h)

  report_exit-Takes :
      (code : ℤ) (v : View) → Takes N V (At v) (report_exit client vendor spec code) (λ _. At v)
  unfolding report_exit
  report_exit-Takes code v s h = elim (Bool-cases (is_zero code)) [
    | inl zero_code ↦ rw (zero_code, report_exit) (done h)
    | inr other ↦
        rw (other, report_exit) (emit-Takes client N V (exit_event client vendor spec code) v s h)
  ]

  -- How a run that succeeds leaves its state.
  abbrev pub HasSucceeded : RunState → Type 0
  HasSucceeded s = IsCovered N V (view s) × (last_type s.trace ≡ "result")

  announce-Takes :
      (start : ℕ) (results : Bytes) (v : View)
      → IsCovered N V v
      → Takes N V (At v) (announce client vendor spec start results) (λ _. HasSucceeded)
  unfolding announce emit
  announce-Takes start results v c s h = done (subst (IsCovered N V) (sym h) c, refl)

  collect-Takes :
      (start : ℕ) (id : String) (v : View)
      → IsCovered N V v
      → Takes N V (At v) (collect client vendor spec start id) (λ _. HasSucceeded)
  unfolding collect
  collect-Takes start id v c = >>=-Takes N V (emit-Takes client N V _ _) λ _.
      >>=-Takes N V
        (checked_value-Takes client N V _ _ _ _ (λ _. v)
          (λ s h. Keeps-Yields (wait_for_exit client id) v s (wait_for_exit-Keeps client id) c h))
        λ code. >>=-Takes N V (report_exit-Takes code v) λ _.
          >>=-Takes N V (emit-Takes client N V _ _) λ _.
            >>=-Takes N V
              (checked_value-Takes client N V _ _ _ _ (λ _. v)
                (λ s h.
                  Keeps-Yields (Artifacts.read_results client id) v s (read_results-Keeps client id)
                    c h))
              λ results. announce-Takes start results v c

  -- From a fresh state, a run ends with its resources covered and its outcome as the newest event.
  pub orchestrate-Takes :
      (start : ℕ)
      → Takes N V
          (At (seen "" "" [] [] []))
          (orchestrate client vendor spec start)
          (λ _. HasSucceeded)
  unfolding orchestrate
  orchestrate-Takes start = >>=-Takes N V make_resources-Takes λ _.
      >>=-Takes N V start_engine_container-Takes λ ip s (engine, h).
        >>=-Takes N V (start_benchmark_container-Takes engine ip)
          (λ id t (bench, k).
            collect-Takes start id _ ((inr refl, (inl refl, tt)), (refl, tt), (refl, tt)) t k)
          s h
