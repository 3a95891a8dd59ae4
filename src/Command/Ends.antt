-- ===== src/Command/Ends.antt =====
-- The end of `run` in cmd/bonnie/main.go, and what it lets go of.
use bonnie.Prelude.{
  ℕ, String, ◌∙◌, subst, ◌+◌, ◌-◌, ◌≡◌, ◌↔◌, refl, Bool, true, false, Option, none, some, List, [],
  ◌∷◌, ◌++◌, str_eq, arith, Bool-cases, Option-cases, inl, inr,
}
use mathlib.Core.List.{append_assoc}
use bonnie.Api.Router.{App}
use bonnie.Prelude.Int.{is_positive}
use bonnie.Prelude.Results.{Result, Result-cases}
use bonnie.Config.{load}
use bonnie.Command.Cases.{opened_store}
use bonnie.Command.{
  Machine, bootstrap, poll_interval_of, Session, Server, no_listener, serve_failed, serving,
  RunError, Effect, starting, detected, client_opened, token_missing, listening, signal_received,
  server_error, stopped, client_closed, signals_released, Boot, failed, panicked, ready, boot,
  finish, log_server, log_wake, exit_status, run_from, run,
}

-- How many Docker clients are open after some effects that follow `n` open ones; a close
-- without an open one counts for nothing.
abbrev pub open_after : ℕ → List Effect → ℕ
open_after n [] = n
open_after n (client_opened addr ∷ fx) = open_after (n + 1) fx
open_after n (client_closed ∷ fx) = open_after (n - 1) fx
open_after n (_ ∷ fx) = open_after n fx

abbrev pub last_effect : List Effect → Option Effect
last_effect [] = none
last_effect (x ∷ []) = some x
last_effect (x ∷ y ∷ fx) = last_effect (y ∷ fx)

open_after-append :
    (n : ℕ) (fx gx : List Effect) → open_after n (fx ++ gx) ≡ open_after (open_after n fx) gx
open_after-append n [] gx = refl
open_after-append n (client_opened addr ∷ fx) gx = open_after-append (n + 1) fx gx
open_after-append n (client_closed ∷ fx) gx = open_after-append (n - 1) fx gx
open_after-append n (starting addr ∷ fx) gx = open_after-append n fx gx
open_after-append n (detected vendor ∷ fx) gx = open_after-append n fx gx
open_after-append n (token_missing ∷ fx) gx = open_after-append n fx gx
open_after-append n (listening addr ∷ fx) gx = open_after-append n fx gx
open_after-append n (signal_received ∷ fx) gx = open_after-append n fx gx
open_after-append n (server_error e ∷ fx) gx = open_after-append n fx gx
open_after-append n (stopped ∷ fx) gx = open_after-append n fx gx
open_after-append n (signals_released ∷ fx) gx = open_after-append n fx gx

last_effect-append :
    (fx : List Effect) (x : Effect) (gx : List Effect)
    → last_effect (fx ++ x ∷ gx) ≡ last_effect (x ∷ gx)
last_effect-append [] x gx = refl
last_effect-append (y ∷ []) x gx = refl
last_effect-append (y ∷ z ∷ fx) x gx = last_effect-append (z ∷ fx) x gx

-- Every Docker client that was opened is closed, and the signals are let go of last.
abbrev pub AllReleased : List Effect → Type 0
AllReleased fx = (open_after 0 fx ≡ 0) × (last_effect fx ≡ some signals_released)

module _ {Disk Data Daemon Float Opaque : Type 0}
    (machine : Machine Disk Data Daemon Float Opaque) where
  abbrev Opens : Boot machine → Type 0
  Opens (failed e d fx) = AllReleased fx
  Opens (panicked d fx) = Unit
  Opens (ready cfg deps app fx) = open_after 0 fx ≡ 1

  boot-Opens : (disk : Disk) (daemon : Daemon) → Opens (boot machine disk daemon)
  unfolding boot
  boot-Opens disk daemon = elim (Result-cases (load (bootstrap machine.new_provider))) [
    | inr (e, h) ↦ rw (h, boot) (refl, refl)
    | inl (cfg, h) ↦ elim (Bool-cases (is_positive (poll_interval_of cfg))) [
      | inr f ↦ rw (h, boot) (rw (f, boot) tt)
      | inl f ↦ elim (Option-cases (machine.new_client cfg.docker_host)) [
        | inl g ↦ rw (h, boot) (rw (f, boot) (rw (g, boot) (refl, refl)))
        | inr (docker, g) ↦ elim (Bool-cases (str_eq cfg.hf_token "")) [
          | inl t ↦ elim (Result-cases (opened_store machine disk daemon cfg).1) [
            | inr (x, k) ↦
                rw (h, boot) (rw (f, boot) (rw (g, boot) (rw (k, boot) (rw t (refl, refl)))))
            | inl (store, k) ↦ rw (h, boot) (rw (f, boot) (rw (g, boot) (rw (k, boot) (rw t refl))))
          ]
          | inr t ↦ elim (Result-cases (opened_store machine disk daemon cfg).1) [
            | inr (x, k) ↦
                rw (h, boot) (rw (f, boot) (rw (g, boot) (rw (k, boot) (rw t (refl, refl)))))
            | inl (store, k) ↦ rw (h, boot) (rw (f, boot) (rw (g, boot) (rw (k, boot) (rw t refl))))
          ]
        ]
      ]
    ]
  ]

  log_server_quiet :
      (addr : String) (server : Server) (n : ℕ) → open_after n (log_server machine addr server) ≡ n
  log_server_quiet addr (no_listener e) n = refl
  log_server_quiet addr (serve_failed e) n = refl
  log_server_quiet addr serving n = refl

  log_wake_quiet :
      (session : Session) (server : Server) (first : Bool) (n : ℕ)
      → open_after n (log_wake machine (record session { server = server; signal_first = first }))
        ≡ n
  log_wake_quiet session (no_listener e) true n = refl
  log_wake_quiet session (no_listener e) false n = refl
  log_wake_quiet session (serve_failed e) true n = refl
  log_wake_quiet session (serve_failed e) false n = refl
  log_wake_quiet session serving first n = refl

  finish-AllReleased :
      (fx : List Effect) (error : Option String)
      → open_after 0 fx ≡ 1
      → AllReleased (fx ++ (finish machine error).0)
  unfolding finish
  finish-AllReleased fx none one = (
    open_after-append 0 fx (stopped ∷ client_closed ∷ signals_released ∷ []) ∙ rw one refl,
    last_effect-append fx stopped (client_closed ∷ signals_released ∷ []),
  )
  finish-AllReleased fx (some e) one = (
    open_after-append 0 fx (client_closed ∷ signals_released ∷ []) ∙ rw one refl,
    last_effect-append fx client_closed (signals_released ∷ []),
  )

  run_from-AllReleased :
      (session : Session) (b : Boot machine) (r : Result RunError (Unit {0}))
      → Opens b
      → (run_from machine session b).result ≡ some r
      → AllReleased (run_from machine session b).effects
  unfolding run_from
  run_from-AllReleased session (failed e d fx) r h result = h
  run_from-AllReleased session (panicked d fx) r h result = absurd (ground arith)
  run_from-AllReleased session (ready cfg deps app fx) r one result =
      let served = log_server machine cfg.listen_addr session.server in
      let woken = log_wake machine session in
      let so_far : open_after 0 ((fx ++ served) ++ woken) ≡ 1 =
        open_after-append 0 (fx ++ served) woken
        ∙ log_wake_quiet session session.server session.signal_first (open_after 0 (fx ++ served))
        ∙ open_after-append 0 fx served
        ∙ log_server_quiet cfg.listen_addr session.server (open_after 0 fx)
        ∙ one in
      subst AllReleased
        (append_assoc (fx ++ served) woken (finish machine session.shutdown).0
          ∙ append_assoc fx served (woken ++ (finish machine session.shutdown).0))
        (finish-AllReleased ((fx ++ served) ++ woken) session.shutdown so_far)

  -- Whenever `run` returns, with an error at whatever step or without one, each Docker client that
  -- it opened is closed, and the signals are let go of after all else.
  pub run-AllReleased :
      (session : Session) (disk : Disk) (daemon : Daemon) (r : Result RunError (Unit {0}))
      → (run machine session disk daemon).result ≡ some r
      → AllReleased (run machine session disk daemon).effects
  unfolding run
  run-AllReleased session disk daemon r result =
      run_from-AllReleased session (boot machine disk daemon) r (boot-Opens disk daemon) result

  -- The program ends with status 0 exactly when it has started and `Shutdown` gives no error, also
  -- where the server could not listen or failed.
  pub run-exit_status :
      (session : Session) (disk : Disk) (daemon : Daemon)
      → (exit_status (run machine session disk daemon).result ≡ 0) ↔ (
          ((app : App Disk Daemon) × ((run machine session disk daemon).app ≡ some app))
          × (session.shutdown ≡ none))
  unfolding run
  run-exit_status session disk daemon = status_of (boot machine disk daemon)
    where
      status_of :
          (b : Boot machine)
          → (exit_status (run_from machine session b).result ≡ 0) ↔ (
              ((app : App Disk Daemon) × ((run_from machine session b).app ≡ some app))
              × (session.shutdown ≡ none))
      status_of (failed e d fx) =
          unfold run_from in (λ h. absurd (omega arith), λ h. absurd (ground (arith, h.0.1)))
      status_of (panicked d fx) =
          unfold run_from in (λ h. absurd (omega arith), λ h. absurd (ground (arith, h.0.1)))
      status_of (ready cfg deps app fx) =
          unfold run_from finish in
          (elim (Option-cases session.shutdown) [
            | inl fine ↦ (λ h. ((_, refl), fine), λ h. rw fine refl)
            | inr (e, bad) ↦ (λ h. absurd (ground arith), λ h. absurd (ground (arith, h.1)))
          ])
