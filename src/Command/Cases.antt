-- ===== src/Command/Cases.antt =====
-- How a start of the program in cmd/bonnie/main.go ends.
use bonnie.Prelude.{◌≡◌, true, List, [], Bool-cases, Option-cases, inl, inr}
use bonnie.Prelude.Int.{is_positive}
use bonnie.Prelude.Results.{Result, ok, err, Result-cases}
use bonnie.Config.{Config, ConfigError, load}
use bonnie.Storage.Index.{Store, Error, new_store}
use bonnie.Container.Manager.{Docker}
use bonnie.Gpu.Detector.{detect}
use bonnie.Gpu.Poller.{Poller, start}
use bonnie.Command.{
  Machine, bootstrap, poll_interval_of, config_failed, client_failed, store_failed, Effect, Boot,
  failed, panicked, ready, deps_of, boot,
}

module _ {Disk Data Daemon Float Opaque : Type 0} (machine : Machine Disk Data Daemon Float Opaque)
    (disk : Disk) (daemon : Daemon) where
  -- The poller after its first detection.
  abbrev pub first_poller : Poller
  first_poller = start (detect machine.json machine.host.run machine.now) []

  -- The store that a configuration leads to.
  abbrev pub opened_store : Config → Disk × Result Error Store
  opened_store cfg = new_store (machine.storage cfg.hf_token) cfg.model_storage_dir disk

  pub boot_cases :
      (P : Boot machine → Type 0)
      → ((e : ConfigError) (effects : List Effect)
          → load (bootstrap machine.new_provider) ≡ err e
          → P (failed (config_failed e) disk effects))
      → ((effects : List Effect) → P (panicked disk effects))
      → ((effects : List Effect) → P (failed client_failed disk effects))
      → ((cfg : Config) (x : Error) (effects : List Effect)
          → load (bootstrap machine.new_provider) ≡ ok cfg
          → (opened_store cfg).1 ≡ err x
          → P (failed (store_failed x) (opened_store cfg).0 effects))
      → ((cfg : Config) (docker : Docker Daemon Opaque) (store : Store) (effects : List Effect)
          → load (bootstrap machine.new_provider) ≡ ok cfg
          → is_positive (poll_interval_of cfg) ≡ true
          → (opened_store cfg).1 ≡ ok store
          → P (
              ready cfg
                (deps_of machine cfg docker first_poller.latest.vendor)
                (record {
                  models = record { store = store; disk = (opened_store cfg).0 };
                  daemon = daemon;
                  poller = first_poller;
                })
                effects))
      → P (boot machine disk daemon)
  unfolding boot
  boot_cases P no_config panics no_client no_store up =
      elim (Result-cases (load (bootstrap machine.new_provider))) [
        | inr (e, h) ↦ rw (h, boot) (no_config e _ h)
        | inl (cfg, h) ↦ elim (Bool-cases (is_positive (poll_interval_of cfg))) [
          | inr f ↦ rw (h, boot) (rw (f, boot) (panics _))
          | inl f ↦ elim (Option-cases (machine.new_client cfg.docker_host)) [
            | inl g ↦ rw (h, boot) (rw (f, boot) (rw (g, boot) (no_client _)))
            | inr (docker, g) ↦ elim (Result-cases (opened_store cfg).1) [
              | inr (x, k) ↦
                  rw (h, boot) (rw (f, boot) (rw (g, boot) (rw (k, boot) (no_store cfg x _ h k))))
              | inl (store, k) ↦
                  rw (h, boot)
                    (rw (f, boot) (rw (g, boot) (rw (k, boot) (up cfg docker store _ h f k))))
            ]
          ]
        ]
      ]
