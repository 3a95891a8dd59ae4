-- ===== src/Command/Serving.antt =====
-- What a life of the program in cmd/bonnie/main.go leaves of the models while it serves.
use bonnie.Prelude.{refl, String, ◌≡◌, List, [], ◌∷◌}
use bonnie.Config.{Config}
use bonnie.Storage.Env.{Env}
use bonnie.Storage.Restart.{IsSound, Laws}
use bonnie.Container.Manager.{Docker}
use bonnie.Gpu.Types.{Vendor}
use bonnie.Api.Handlers.Host.{command_of}
use bonnie.Api.Http.{fresh}
use bonnie.Api.Router.{App, Deps}
use bonnie.Api.Router.Kept.{IsManaged, LeavesIndex, serve-IsSound}
use bonnie.Command.{
  Machine, deps_of, happen, Happening, requested, detects, publishes, Session, Server, no_listener,
  serve_failed, serving, happen_all, served,
}

-- The fetches that a life is asked for are of known models, into the store's own directories, and the
-- commands leave the index as it is.
abbrev pub AllManaged :
    {Disk Data Daemon Float Opaque : Type 0}
    → Machine Disk Data Daemon Float Opaque
    → Config
    → (String → String → Type 0)
    → List Happening
    → Type 0
AllManaged machine cfg Known [] = Unit
AllManaged machine cfg Known (requested now req ∷ xs) =
    IsManaged Known req.fetch_body
    × LeavesIndex (machine.storage cfg.hf_token) cfg.model_storage_dir machine.changes
        (command_of req.flushes req.exec_body)
    × AllManaged machine cfg Known xs
AllManaged machine cfg Known (detects snap ∷ xs) = AllManaged machine cfg Known xs
AllManaged machine cfg Known (publishes snap ∷ xs) = AllManaged machine cfg Known xs

module _ {Disk Data Daemon Float Opaque : Type 0} (machine : Machine Disk Data Daemon Float Opaque)
    (cfg : Config) (Known : String → String → Type 0)
    (laws : Laws (machine.storage cfg.hf_token) cfg.model_storage_dir Known)
    (docker : Docker Daemon Opaque) (vendor : Vendor) where
  abbrev env : Env Disk Data
  env = machine.storage cfg.hf_token

  abbrev dir : String
  dir = cfg.model_storage_dir

  abbrev deps : Deps Disk Data Daemon Float Opaque
  deps = deps_of machine cfg docker vendor

  pub happen_all-IsSound :
      (xs : List Happening) (app : App Disk Daemon)
      → AllManaged machine cfg Known xs
      → IsSound env dir Known app.models
      → IsSound env dir Known (happen_all machine deps xs app).models
  unfolding happen_all deps_of
  happen_all-IsSound [] app managed sound = sound
  happen_all-IsSound (detects snap ∷ xs) app managed sound =
      happen_all-IsSound xs (happen machine deps (detects snap) app) managed sound
  happen_all-IsSound (publishes snap ∷ xs) app managed sound =
      happen_all-IsSound xs (happen machine deps (publishes snap) app) managed sound
  happen_all-IsSound (requested now req ∷ xs) app managed sound =
      happen_all-IsSound xs (happen machine deps (requested now req) app) managed.2 (
        serve-IsSound (record deps { now = now }) dir Known laws req app fresh managed.0 managed.1
          sound)

  pub served-IsSound :
      (session : Session) (app : App Disk Daemon)
      → AllManaged machine cfg Known session.happenings
      → IsSound env dir Known app.models
      → IsSound env dir Known (happen_all machine deps (served machine session) app).models
  served-IsSound session app managed sound = by_server session.server refl
    where
      by_server :
          (server : Server)
          → session.server ≡ server
          → IsSound env dir Known (happen_all machine deps (served machine session) app).models
      by_server (no_listener e) h = rw h (happen_all-IsSound [] app tt sound)
      by_server (serve_failed e) h = rw h (happen_all-IsSound session.happenings app managed sound)
      by_server serving h = rw h (happen_all-IsSound session.happenings app managed sound)
