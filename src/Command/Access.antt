-- ===== src/Command/Access.antt =====
-- Who is served by a program that cmd/bonnie/main.go has started.
use bonnie.Prelude.{List, String, ◌≡◌, refl, sym, ap, subst, ℕ, false, some, arith}
use bonnie.Prelude.Bytes.{codes}
use bonnie.Prelude.Results.{ok}
use bonnie.Config.{Config, Provider, load}
use bonnie.Config.Valid.{load-IsValid}
use bonnie.Container.Manager.{Docker}
use bonnie.Gpu.Types.{Vendor}
use bonnie.Api.Auth.{is_skipped}
use bonnie.Api.Auth.Bearer.{IsBearer}
use bonnie.Api.Http.{fresh}
use bonnie.Api.Router.{Request, App, Deps, open_paths}
use bonnie.Api.Router.Guard.{MuxLaws, serve-IsTurnedAway}
use bonnie.Command.Cases.{boot_cases}
use bonnie.Command.{
  Machine, bootstrap, deps_of, requested, Effect, Boot, failed, panicked, ready, boot, happen,
}

module _ {Disk Data Daemon Float Opaque : Type 0}
    (machine : Machine Disk Data Daemon Float Opaque) where
  -- A program that has started was built from a configuration that was loaded.
  abbrev IsBuilt : Boot machine → Type 0
  IsBuilt (ready cfg deps app effects) =
      (load (bootstrap machine.new_provider) ≡ ok cfg)
      × ((docker : Docker Daemon Opaque) × (vendor : Vendor) × (deps
            ≡ deps_of machine cfg docker vendor))
  IsBuilt (failed e disk effects) = Unit
  IsBuilt (panicked disk effects) = Unit

  boot-IsBuilt : (disk : Disk) (daemon : Daemon) → IsBuilt (boot machine disk daemon)
  boot-IsBuilt disk daemon =
      boot_cases machine disk daemon IsBuilt (λ e fx h. tt) (λ fx. tt) (λ fx. tt) (λ c x fx h k. tt)
        (λ c docker store fx h f k. (h, (docker, _, refl)))

  token_of_deps :
      (p : Provider) (token : String) (cfg : Config) (docker : Docker Daemon Opaque)
      (vendor : Vendor) (deps : Deps Disk Data Daemon Float Opaque)
      → load (some p) ≡ ok cfg
      → p.get "BONNIE_AUTH_TOKEN" ≡ ok token
      → deps ≡ deps_of machine cfg docker vendor
      → deps.auth_token ≡ codes token
  unfolding deps_of
  token_of_deps p token cfg docker vendor deps loaded got built =
      let (held, large, small) = load-IsValid p cfg loaded in
      let same : cfg.auth_token ≡ token = ground (arith, held, got) in rw built (ap codes same)

  -- If the provider of the secrets gives the token, and the mux finds registered routes only, by
  -- patterns that stand for themselves only where they have no parameter and no slash at their end: a
  -- program that has started changes nothing of the models, the disk, the containers and the poller,
  -- by a command neither, on a request for any path but `/health`, `/ready` and `/metrics` whose
  -- header is not the bearer of that token.
  pub boot-happen :
      (p : Provider) (token : String) (disk : Disk) (daemon : Daemon) (cfg : Config)
      (deps : Deps Disk Data Daemon Float Opaque) (app : App Disk Daemon) (effects : List Effect)
      → bootstrap machine.new_provider ≡ some p
      → p.get "BONNIE_AUTH_TOKEN" ≡ ok token
      → boot machine disk daemon ≡ ready cfg deps app effects
      → MuxLaws Disk Data Daemon Float Opaque deps
      → (now : ℕ) (req : Request) (app' : App Disk Daemon)
      → is_skipped open_paths (codes req.path) ≡ false
      → ¬ IsBearer (codes token) req.authorization
      → happen machine deps (requested now req) app' ≡ app'
  unfolding happen
  boot-happen p token disk daemon cfg deps app effects from got started mux now req app' closed
        no_bearer =
      let built_of : IsBuilt (ready cfg deps app effects) =
        subst IsBuilt started (boot-IsBuilt disk daemon) in
      let (loaded, (docker, vendor, built)) = built_of in
      let loaded' : load (some p) ≡ ok cfg = subst (λ o. load o ≡ ok cfg) from loaded in
      let same = token_of_deps p token cfg docker vendor deps loaded' got built in
      (serve-IsTurnedAway (record deps { now = now })
        (record { registered = mux.registered; literal = mux.literal }) req app' fresh closed
        (subst (λ t. ¬ IsBearer t req.authorization) (sym same) no_bearer)).0
