-- ===== src/Container/Health/Deadline.antt =====
-- The clock and the fuel of the loop of `waitEngineHealthy` in internal/container/paired_run.go.
use bonnie.Prelude.{
  ℕ, zero, suc, ◌+◌, ◌-◌, ◌*◌, ◌/◌, ◌≤◌, ◌≡◌, refl, true, false, ◌∷◌, String, inl, inr, arith,
  Bool-cases, Option-cases, is_some, ltb,
}
use bonnie.Prelude.Results.{Result-cases}
use bonnie.Container.Spec.{EngineSpec}
use bonnie.Container.Docker.{Step, Trace, inspected, probed, slept, Client}
use bonnie.Container.Monad.{RunState, record_step, emit}
use bonnie.Container.Health.{rooted, endpoint_ip, waiting, probe_engine, round, wait_loop, fuel_for}

-- The clock does not go back, and the pause of a round takes two seconds.
pub record ClockLaws (client : Client) : Type 0 where
  pub steady : (step : Step) (t : Trace) → client.now t ≤ client.now (step ∷ t)
  pub sleeps : (t : Trace) → client.now t + 2000000000 ≤ client.now (slept ∷ t)

module _ (client : Client) (laws : ClockLaws client) where
  -- An action that takes no negative time.
  abbrev Later : RunState → RunState → Type 0
  Later s s' = client.now s.trace ≤ client.now s'.trace

  probe_engine-Later :
      (spec : EngineSpec) (ip : String) (s : RunState) → Later s (probe_engine client spec ip s).0
  unfolding probe_engine
  probe_engine-Later spec ip s =
      let step =
        laws.steady (probed ip spec.health_check.port (rooted spec.health_check.path)) s.trace in
      ground (arith, step)

  round-Later :
      (id network : String) (spec : EngineSpec) (s : RunState)
      → Later s (round client id network spec s).0
  unfolding round
  round-Later id network spec s =
      let first = laws.steady (inspected id) s.trace in
      elim (Result-cases (client.container_inspect s.trace id)) [
        | inr (x, e) ↦ rw (e, round) first
        | inl (info, e) ↦
            let s₁ = record_step (inspected id) s in
            let ip = endpoint_ip info network in
            let probe = probe_engine-Later spec ip s₁ in rw (e, round) (omega (arith, first, probe))
      ]

  emit-Later : (s : RunState) → Later s (emit client waiting s).0
  unfolding emit
  emit-Later s = laws.steady _ s.trace

  later :
      {a b c d e : ℕ} (f : ℕ)
      → c + 2000000000 ≤ d
      → b ≤ c
      → a ≤ b
      → e ≤ a + (suc f) * 2000000000
      → e ≤ d + f * 2000000000
  later f p q r h = omega arith

  budget :
      (start deadline : ℕ) → deadline ≤ start + (suc ((deadline - start) / 2000000000)) * 2000000000
  budget start deadline = omega arith

  module _ (id network : String) (spec : EngineSpec) where
    wait_loop-is_some :
        (fuel deadline : ℕ) (s : RunState)
        → deadline ≤ client.now s.trace + fuel * 2000000000
        → is_some (wait_loop client id network spec (suc fuel) deadline s).1 ≡ true
    unfolding wait_loop
    wait_loop-is_some zero deadline s h =
        let late : ltb (client.now s.trace) deadline ≡ false = ground arith in
        rw (late, wait_loop) refl
    wait_loop-is_some (suc fuel) deadline s h =
        elim (Bool-cases (ltb (client.now s.trace) deadline)) [
          | inr late ↦ rw (late, wait_loop) refl
          | inl early ↦ elim (Option-cases (client.cancelled s.trace)) [
            | inr (x, e) ↦ rw (early, wait_loop) (rw (e, wait_loop) refl)
            | inl e ↦
                let s₁ = (round client id network spec s).0 in
                elim (Option-cases (round client id network spec s).1) [
                  | inr (ip, f) ↦ rw (early, wait_loop) (rw (e, wait_loop) (rw (f, wait_loop) refl))
                  | inl f ↦
                      let s₂ = (emit client waiting s₁).0 in
                      elim (Option-cases (client.cancelled s₂.trace)) [
                        | inr (x, g) ↦
                            rw (early, wait_loop)
                              (rw (e, wait_loop) (rw (f, wait_loop) (rw (g, wait_loop) refl)))
                        | inl g ↦
                            rw (early, wait_loop)
                              (rw (e, wait_loop)
                                (rw (f, wait_loop)
                                  (rw (g, wait_loop)
                                    (wait_loop-is_some fuel deadline (record_step slept s₂) (
                                      later fuel (laws.sleeps s₂.trace) (emit-Later s₁)
                                        (round-Later id network spec s) h)))))
                      ]
                ]
          ]
        ]

    -- Where the clock does not go back and a pause lasts two seconds, the loop comes to an answer
    -- within the fuel that its budget gives, an address or an error: it does not poll for ever.
    pub wait_loop-Ends :
        (s : RunState) (deadline : ℕ)
        → is_some
            (wait_loop client id network spec
              (fuel_for (deadline - client.now s.trace))
              deadline
              s).1
          ≡ true
    wait_loop-Ends s deadline =
        wait_loop-is_some (suc ((deadline - client.now s.trace) / 2000000000)) deadline s
          (budget (client.now s.trace) deadline)
