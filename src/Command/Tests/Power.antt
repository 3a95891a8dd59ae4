-- ===== src/Command/Tests/Power.antt =====
-- A machine for cmd/bonnie/main.go whose power fails.
use bonnie.Prelude.{String, none, true, ◌≡◌, refl, some, List, [], ◌∷◌}
use mathlib.Core.List.{Memᴰ}
use bonnie.Prelude.Maps.{lookup, insert, erase}
use bonnie.Storage.Env.{missing}
use bonnie.Storage.Index.{Store, sort_by_id, entry_id}
use bonnie.Storage.Store.{checked, lookup_by_key, sort_strings, fetch}
use bonnie.Storage.Restart.Killed.{fetch_passes}
use bonnie.Storage.Tests.{request, staged}
use bonnie.Storage.Tests.Lives.{Known, laws}
use bonnie.Storage.Tests.Files.{Disk, env, index, tmp, reading, data_len, rename_file}
use bonnie.Gpu.Types.{unknown}
use bonnie.Api.Tests.Served.{docker}
use bonnie.Command.{boot, happen_all, Session, serving, requested, Ended, run}
use bonnie.Command.Lives.{last_daemon, IsBack}
use bonnie.Api.Handlers.Host.{command_of}
use bonnie.Command.Serving.{AllManaged}
use bonnie.Command.Outlived.{
  last_stores, ended, Outlived, Running, models_of, installed, killed_in_fetch, Outlived-IsBack,
}
use bonnie.Command.Tests.{wanted, config, machine, configured, started_app, booted}

-- The program waits for its first request.
abbrev waiting : Running machine config Known [] []
waiting = record {
  docker = docker;
  vendor = unknown;
  app = started_app;
  effects = _;
  happenings = [];
  started = booted;
  managed = tt;
}

-- The temporary file is written and not renamed yet.
abbrev torn : Disk
torn = (tmp, some (staged ∷ [])) ∷ []

abbrev candidates : List Store
candidates =
    (models_of machine config Known waiting).store
    ∷ (fetch env request 7 (models_of machine config Known waiting)).0.store
    ∷ []

torn_passed : Memᴰ torn (fetch_passes env request 7 (models_of machine config Known waiting))
unfolding fetch_passes happen_all lookup insert erase data_len rename_file entry_id sort_strings
    checked lookup_by_key sort_by_id
torn_passed = Memᴰ.tail (Memᴰ.tail (Memᴰ.tail (Memᴰ.tail (Memᴰ.tail (Memᴰ.head refl)))))

torn_outlived : Outlived machine config Known candidates torn []
torn_outlived =
    killed_in_fetch waiting request 7 torn [] refl (refl, refl) torn_passed
      (installed [] [] none_there)
  where
    none_there : env.os.read_file index [] ≡ missing
    none_there = unfold reading lookup in refl

-- The next life fetches the model again, and runs a command on the host.
abbrev restored : Session
restored = record {
  server = serving;
  happenings =
      requested 8 wanted
      ∷ requested 9 (record wanted {
        path = "/api/v1/exec";
        fetch_body = none;
        exec_body = some (record { command = "uptime"; args = [] });
      })
      ∷ [];
  signal_first = true;
  shutdown = none;
}

abbrev next : Ended Disk (List String)
next = run machine restored torn []

restored_managed : AllManaged machine config Known restored.happenings
unfolding command_of
restored_managed = ((refl, (refl, refl)), tt, (tt, λ d m. refl, tt))

Outlived-IsBack_example :
    (s : Store) × Memᴰ s (last_stores candidates next.app)
    × IsBack machine config configured Known laws
        (record { store = s; disk = next.disk; daemon = last_daemon [] next.app })
        (boot machine next.disk (last_daemon [] next.app))
Outlived-IsBack_example =
    Outlived-IsBack machine config Known configured laws (last_stores candidates next.app) next.disk
      (last_daemon [] next.app) (ended restored restored_managed torn_outlived)
