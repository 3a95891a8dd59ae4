-- ===== src/Command/Lives.antt =====
-- A start of the program in cmd/bonnie/main.go on what a life before it has left: the models that it
-- finds, and what its own life leaves.
use bonnie.Prelude.{refl, arith, String, ◌≡◌, ◌⊎◌, subst, sym, some, none, Option, []}
use bonnie.Prelude.Maps.{lookup}
use bonnie.Prelude.Results.{ok, err}
use bonnie.Config.{Config, load}
use bonnie.Storage.Env.{Env, missing}
use bonnie.Storage.Index.{Store, dir_required, make_dir, empty_store}
use bonnie.Storage.Restart.{AllNamed, IsSound, Laws, Restarts, SameIndex, kept-Restarts, index_at}
use bonnie.Storage.Restart.Models.{Alike}
use bonnie.Storage.Restart.Start.{Started, new_store-Started, Restarts-empty}
use bonnie.Container.Manager.{Docker}
use bonnie.Gpu.Types.{Vendor}
use bonnie.Api.Router.{App}
use bonnie.Command.Serving.{AllManaged, served-IsSound}
use bonnie.Command.Cases.{first_poller, opened_store, boot_cases}
use bonnie.Command.{
  Machine, bootstrap, deps_of, Session, store_failed, config_failed, client_failed, shutdown_failed,
  Boot, failed, panicked, ready, boot, happen_all, served, run_from,
}

-- What is there when the program has ended: its last store, and what outlives it.
pub record Left (Disk Daemon : Type 0) : Type 0 where
  pub store : Store
  pub disk : Disk
  pub daemon : Daemon

abbrev pub last_store : {Disk Daemon : Type 0} → Store → Option (App Disk Daemon) → Store
last_store s none = s
last_store s (some app) = app.models.store

abbrev pub last_daemon : {Disk Daemon : Type 0} → Daemon → Option (App Disk Daemon) → Daemon
last_daemon d none = d
last_daemon d (some app) = app.daemon

module _ {Disk Data Daemon Float Opaque : Type 0}
    (machine : Machine Disk Data Daemon Float Opaque) where
  -- What a life leaves, from how its start ended.
  abbrev pub left_by : Session → Left Disk Daemon → Boot machine → Left Disk Daemon
  left_by session left b =
      let e = run_from machine session b in
      record {
        store = last_store left.store e.app;
        disk = e.disk;
        daemon = last_daemon left.daemon e.app;
      }

  module _ (cfg : Config) (configured : load (bootstrap machine.new_provider) ≡ ok cfg)
      (Known : String → String → Type 0)
      (laws : Laws (machine.storage cfg.hf_token) cfg.model_storage_dir Known) where
    abbrev env : Env Disk Data
    env = machine.storage cfg.hf_token

    abbrev dir : String
    dir = cfg.model_storage_dir

    -- A new start would find the last store's models, which are known ones.
    abbrev pub Holds : Left Disk Daemon → Type 0
    Holds left = AllNamed env dir Known left.store.entries × Restarts env dir left.store left.disk

    -- What a start finds in the directory: the last store's models, or, with the index as it was,
    -- nothing, for a reason that is not the index.
    abbrev pub IsBack : Left Disk Daemon → Boot machine → Type 0
    IsBack left (ready c deps app effects) =
        IsSound env dir Known app.models
        × Alike app.models.store left.store
        × ((docker : Docker Daemon Opaque) × (vendor : Vendor) × (deps
              ≡ deps_of machine cfg docker vendor))
    IsBack left (failed (store_failed x) d effects) =
        SameIndex env dir left.disk d × ((x ≡ dir_required) ⊎ (x ≡ make_dir))
    IsBack left (failed (config_failed e) d effects) = SameIndex env dir left.disk d
    IsBack left (failed client_failed d effects) = SameIndex env dir left.disk d
    IsBack left (failed (shutdown_failed e) d effects) = SameIndex env dir left.disk d
    IsBack left (panicked d effects) = SameIndex env dir left.disk d

    same_config : (c : Config) → load (bootstrap machine.new_provider) ≡ ok c → cfg ≡ c
    same_config c h = ground (arith, configured)

    pub boot-IsBack :
        (left : Left Disk Daemon) → Holds left → IsBack left (boot machine left.disk left.daemon)
    boot-IsBack left holds =
        let started = new_store-Started env dir Known left.store left.disk laws holds.0 holds.1 in
        let P = λ (c : Config). opened_store machine left.disk left.daemon c in
        boot_cases machine left.disk left.daemon (IsBack left) (λ e fx h. refl) (λ fx. refl)
          (λ fx. refl)
          (λ c x fx loaded.
            subst (λ k. (P k).1 ≡ err x → IsBack left (failed (store_failed x) (P k).0 fx))
              (same_config c loaded)
              (λ h.
                subst (λ r. Started env dir Known left.store left.disk ((P cfg).0, r)) h started))
          (λ c docker store fx loaded f.
            let poller = first_poller machine left.disk left.daemon in
            subst
              (λ k.
                (P k).1 ≡ ok store
                → IsBack left (
                    ready k (deps_of machine k docker poller.latest.vendor)
                      (record {
                        models = record { store = store; disk = (P k).0 };
                        daemon = left.daemon;
                        poller = poller;
                      })
                      fx))
              (same_config c loaded)
              (λ h.
                let (sound, alike) =
                  subst (λ r. Started env dir Known left.store left.disk ((P cfg).0, r)) h
                    started in
                (sound, alike, (docker, poller.latest.vendor, refl))))

    pub Holds-kept :
        (left : Left Disk Daemon) (d : Disk)
        → Holds left
        → SameIndex env dir left.disk d
        → Holds (record left { disk = d })
    Holds-kept left d (named, before) same = (
      named,
      kept-Restarts env dir left.store left.store left.disk d same (λ id. refl, λ k. refl) before,
    )

    pub left_by-Holds :
        (session : Session) (left : Left Disk Daemon) (b : Boot machine)
        → AllManaged machine cfg Known session.happenings
        → Holds left
        → IsBack left b
        → Holds (left_by session left b)
    unfolding run_from
    left_by-Holds session left (panicked d fx) managed holds same = Holds-kept left d holds same
    left_by-Holds session left (failed (config_failed e) d fx) managed holds same =
        Holds-kept left d holds same
    left_by-Holds session left (failed client_failed d fx) managed holds same =
        Holds-kept left d holds same
    left_by-Holds session left (failed (shutdown_failed e) d fx) managed holds same =
        Holds-kept left d holds same
    left_by-Holds session left (failed (store_failed x) d fx) managed holds (same, why) =
        Holds-kept left d holds same
    left_by-Holds session left (ready c built_of app fx) managed holds (sound, alike, built) =
        let (docker, vendor, same) = built in
        let after =
          subst
            (λ k. IsSound env dir Known (happen_all machine k (served machine session) app).models)
            (sym same)
            (served-IsSound machine cfg Known laws docker vendor session app managed sound) in
        (after.named, after.restarts)

    pub empty_store-Holds :
        (disk : Disk) (daemon : Daemon)
        → env.os.read_file (index_at env dir) disk ≡ missing
        → Holds (record { store = empty_store dir; disk = disk; daemon = daemon })
    empty_store-Holds disk daemon none_there =
        (nothing_named, Restarts-empty env dir Known disk none_there)
      where
        nothing_named : AllNamed env dir Known []
        nothing_named = unfold lookup in λ id e h. absurd (ground arith)
