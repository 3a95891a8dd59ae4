-- ===== src/Container/PairedRun/Tidy.antt =====
-- The clean-up and the outcome event of `PairedRun` in internal/container/paired_run.go, on every
-- path.
use text.Mathlib.TextLemmas.{cons-append, cons-ne-nil}
use bonnie.Prelude.{
  String, ◌≡◌, ◌≢◌, refl, sym, ◌∙◌, subst, false, none, List, [], ◌∷◌, ◌⊎◌, inl, inr, All, All-map,
  arith, str_eq, eq_iff, eq_refl, Bool-cases, Option-cases, ◌+s◌,
}
use bonnie.Prelude.Results.{Result, ok, err}
use bonnie.Container.Docker.{Trace, Client, events_closed}
use bonnie.Container.Spec.{PairedRunSpec}
use bonnie.Gpu.Types.{Vendor}
use bonnie.Container.Monad.{Failure, RunState}
use bonnie.Container.Containers.{drop_container, cleanup_run}
use bonnie.Container.PairedRun.View.{
  view, containers, networks, volumes, last_type, without, IsCovered, Ends, done, failed,
}
use bonnie.Container.PairedRun.Stages.{HasSucceeded, orchestrate-Takes}
use bonnie.Container.PairedRun.{
  network_name, volume_name, refusal, orchestrate, fresh_state, paired_run,
}

-- Nothing but what has no name is left.
abbrev pub IsTidy : Trace → Type 0
IsTidy t = All (λ id. id ≡ "") (containers t) × (networks t ≡ []) × (volumes t ≡ [])

without-nil : (x : String) (ys : List String) → All (λ y. y ≡ x) ys → without x ys ≡ []
without-nil x [] h = refl
without-nil x (y ∷ ys) h = ground (arith, without-nil x ys h.1, eq_iff x y)

module _ (P : String → Type 0) (a : String) where
  without-All : (ys : List String) → All (λ y. (y ≡ a) ⊎ P y) ys → All P (without a ys)
  without-All [] h = tt
  without-All (y ∷ ys) (inl e, h) = rw (e, eq_refl a) (without-All ys h)
  without-All (y ∷ ys) (inr p, h) = elim (Bool-cases (str_eq a y)) [
    | inl same ↦ rw same (without-All ys h)
    | inr other ↦ rw other (p, without-All ys h)
  ]

  drop_container-All :
      (s : RunState)
      → P ""
      → All (λ y. (y ≡ a) ⊎ P y) (containers s.trace)
      → All P (containers (drop_container a s).trace)
  unfolding drop_container
  drop_container-All s none_named h = elim (Bool-cases (str_eq a "")) [
    | inl blank ↦ rw blank (
        All-map (λ y. (y ≡ a) ⊎ P y) P
          (λ y. elim [ inl e ↦ subst P (sym (e ∙ (eq_iff a "").0 blank)) none_named | inr p ↦ p ])
          (containers s.trace) h)
    | inr named ↦ rw named (without-All (containers s.trace) h)
  ]

drop_container-networks :
    (id : String) (s : RunState) → networks (drop_container id s).trace ≡ networks s.trace
unfolding drop_container
drop_container-networks id s = ground arith

drop_container-volumes :
    (id : String) (s : RunState) → volumes (drop_container id s).trace ≡ volumes s.trace
unfolding drop_container
drop_container-volumes id s = ground arith

drop_container-engine : (id : String) (s : RunState) → (drop_container id s).engine_id ≡ s.engine_id
unfolding drop_container
drop_container-engine id s = ground arith

abbrev dropped : RunState → RunState
dropped s = drop_container s.engine_id (drop_container s.bench_id s)

dropped-All :
    (s : RunState)
    → All (λ id. (id ≡ s.engine_id) ⊎ (id ≡ s.bench_id)) (containers s.trace)
    → All (λ id. id ≡ "") (containers (dropped s).trace)
dropped-All s h =
    let first =
      drop_container-All (λ y. (y ≡ s.engine_id) ⊎ (y ≡ "")) s.bench_id s (inr refl)
        (All-map _ _ (λ y. elim [ inl e ↦ inr (inl e) | inr b ↦ inl b ]) (containers s.trace) h) in
    drop_container-All (λ y. y ≡ "") s.engine_id (drop_container s.bench_id s) refl first

dropped-networks : (s : RunState) → networks (dropped s).trace ≡ networks s.trace
dropped-networks s =
    drop_container-networks s.engine_id (drop_container s.bench_id s)
    ∙ drop_container-networks s.bench_id s

dropped-volumes : (s : RunState) → volumes (dropped s).trace ≡ volumes s.trace
dropped-volumes s =
    drop_container-volumes s.engine_id (drop_container s.bench_id s)
    ∙ drop_container-volumes s.bench_id s

drop_container_last :
    (id : String) (s : RunState) → last_type (drop_container id s).trace ≡ last_type s.trace
unfolding drop_container
drop_container_last id s = ground arith

cleanup_run_last :
    (network volume : String) (s : RunState)
    → last_type (cleanup_run network volume s).trace ≡ last_type s.trace
unfolding cleanup_run
cleanup_run_last network volume s =
    let first =
      drop_container_last s.engine_id (drop_container s.bench_id s)
      ∙ drop_container_last s.bench_id s in
    elim (Bool-cases (str_eq network "")) [
      | inl e ↦ elim (Bool-cases (str_eq volume "")) [
        | inl f ↦ rw (e, f) first
        | inr f ↦ rw (e, f) first
      ]
      | inr e ↦ elim (Bool-cases (str_eq volume "")) [
        | inl f ↦ rw (e, f) first
        | inr f ↦ rw (e, f) first
      ]
    ]

not_empty : (s : String) → s ≢ "" → str_eq s "" ≡ false
not_empty s h = elim (Bool-cases (str_eq s "")) [
  | inl e ↦ absurd (h ((eq_iff s "").0 e))
  | inr e ↦ e
]

abbrev pub outcome_type : Result Failure (Unit {0}) → String
outcome_type (ok _) = "result"
outcome_type (err _) = "error"

module _ (client : Client) (vendor : Vendor) (spec : PairedRunSpec) where
  abbrev network : String
  network = network_name spec

  abbrev volume : String
  volume = volume_name spec

  network_named : str_eq network "" ≡ false
  network_named = not_empty network (λ e.
      cons-ne-nil "b" ("onnie-run-" +s spec.run_id)
        (sym (cons-append "b" "onnie-run-" spec.run_id) ∙ e))

  volume_named : str_eq volume "" ≡ false
  volume_named = not_empty volume (λ e.
      cons-ne-nil "b" ("onnie-results-" +s spec.run_id)
        (sym (cons-append "b" "onnie-results-" spec.run_id) ∙ e))

  cleanup_run-IsTidy :
      (s : RunState)
      → IsCovered network volume (view s)
      → IsTidy (cleanup_run network volume s).trace
  unfolding cleanup_run
  cleanup_run-IsTidy s (held, nets, vols) =
      rw (network_named, volume_named)
        (
          dropped-All s held,
          without-nil network (networks (dropped s).trace)
              (subst (All (λ n. n ≡ network)) (sym (dropped-networks s)) nets),
          without-nil volume (volumes (dropped s).trace)
              (subst (All (λ n. n ≡ volume)) (sym (dropped-volumes s)) vols),
        )

  settled : RunState × Result Failure (Unit {0}) → Trace × Result Failure (Unit {0})
  settled (s, r) = (events_closed ∷ (cleanup_run network volume s).trace, r)

  settled-IsTidy :
      (p : RunState × Result Failure (Unit {0}))
      → Ends network volume (λ _. HasSucceeded client vendor spec) p
      → IsTidy (settled p).0
  unfolding settled
  settled-IsTidy p (done {s} h) = cleanup_run-IsTidy s h.0
  settled-IsTidy p (failed {s} h) = cleanup_run-IsTidy s h.0

  settled_last :
      (p : RunState × Result Failure (Unit {0}))
      → Ends network volume (λ _. HasSucceeded client vendor spec) p
      → last_type (settled p).0 ≡ outcome_type (settled p).1
  unfolding settled
  settled_last p (done {s} h) = cleanup_run_last network volume s ∙ h.1
  settled_last p (failed {s} h) = cleanup_run_last network volume s ∙ h.1

  ended :
      Ends network volume
        (λ _. HasSucceeded client vendor spec)
        (orchestrate client vendor spec (client.now []) (fresh_state client vendor spec []))
  ended =
      orchestrate-Takes client vendor spec (client.now []) (fresh_state client vendor spec []) refl

  -- Whatever Docker answers, and whether the run is refused, fails or succeeds: when `PairedRun`
  -- returns, it has asked Docker to remove every container that was created for it under an ID that
  -- is not empty, and every network and volume that it asked for, each after it was made.
  pub paired_run-IsTidy : IsTidy (paired_run client vendor spec []).0
  unfolding paired_run settled
  paired_run-IsTidy = elim (Option-cases (refusal spec)) [
    | inl e ↦ rw (e, paired_run) (settled-IsTidy _ ended)
    | inr (x, e) ↦ rw (e, paired_run) (tt, refl, refl)
  ]

  -- The newest event that a run offers says how it ended, if its request passes the checks at the
  -- head: `result` where `PairedRun` returns no error, and `error` where it returns one. The events
  -- of the log streams are not counted.
  pub paired_run_last :
      refusal spec ≡ none
      → last_type (paired_run client vendor spec []).0
        ≡ outcome_type (paired_run client vendor spec []).1
  unfolding paired_run settled
  paired_run_last e = rw (e, paired_run) (settled_last _ ended)
