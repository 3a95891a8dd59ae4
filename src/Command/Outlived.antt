-- ===== src/Command/Outlived.antt =====
-- Lives of the program in cmd/bonnie/main.go that end with `run`, or with a kill at any call that
-- internal/storage/store.go makes.
use bonnie.Prelude.{
  ℕ, String, ◌≡◌, refl, subst, inl, inr, Option, none, some, List, [], ◌∷◌, All-Mem,
}
use mathlib.Core.List.{Memᴰ}
use bonnie.Prelude.Results.{ok}
use bonnie.Config.{Config, load}
use bonnie.Storage.Env.{Env, FetchRequest, missing}
use bonnie.Storage.Index.{Store, empty_store}
use bonnie.Storage.Store.{World, fetch, delete}
use bonnie.Storage.Restart.{IsSound, Laws, index_at}
use bonnie.Storage.Restart.Operations.{fetch-IsSound, delete-IsSound}
use bonnie.Storage.Restart.Killed.{AllRestart, fetch_passes, delete_passes, delete_passes_to}
use bonnie.Storage.Restart.Killed.Calls.{killed-IsPassed}
use bonnie.Container.Manager.{Docker}
use bonnie.Gpu.Types.{Vendor}
use bonnie.Api.Router.{App}
use bonnie.Command.Serving.{AllManaged, happen_all-IsSound}
use bonnie.Command.Lives.{
  Left, last_store, last_daemon, Holds, IsBack, empty_store-Holds, boot-IsBack, Holds-kept,
  left_by-Holds,
}
use bonnie.Command.{
  Machine, bootstrap, deps_of, Session, Happening, Effect, ready, boot, happen_all, run, run_from,
}

-- The stores that may have been the last.
abbrev pub last_stores : {Disk Daemon : Type 0} → List Store → Option (App Disk Daemon) → List Store
last_stores stores none = stores
last_stores stores (some app) = app.models.store ∷ []

last_store-Mem :
    {Disk Daemon : Type 0} (s : Store) (stores : List Store) (app : Option (App Disk Daemon))
    → Memᴰ s stores
    → Memᴰ (last_store s app) (last_stores stores app)
last_store-Mem s stores none h = h
last_store-Mem s stores (some app) h = Memᴰ.head refl

module _ {Disk Data Daemon Float Opaque : Type 0} (machine : Machine Disk Data Daemon Float Opaque)
    (cfg : Config) (Known : String → String → Type 0) where
  abbrev env : Env Disk Data
  env = machine.storage cfg.hf_token

  abbrev dir : String
  dir = cfg.model_storage_dir

  -- The program while it serves: how it has started, and what has happened since.
  pub record Running (disk : Disk) (daemon : Daemon) : Type 0 where
    pub docker : Docker Daemon Opaque
    pub vendor : Vendor
    pub app : App Disk Daemon
    pub effects : List Effect
    pub happenings : List Happening
    pub started :
        boot machine disk daemon ≡ ready cfg (deps_of machine cfg docker vendor) app effects
    pub managed : AllManaged machine cfg Known happenings

  abbrev pub models_of : {disk : Disk} {daemon : Daemon} → Running disk daemon → World Disk
  models_of r =
      (happen_all machine (deps_of machine cfg r.docker r.vendor) r.happenings r.app).models

  -- What outlives the program, and the stores that may have been its last. A life ends with `run`;
  -- with a kill after the start has made the directory; or with a kill between two calls of a
  -- `Fetch` or of a `Delete`, and then the operation may have been done or not. A kill leaves the
  -- Docker daemon in any state.
  pub data Outlived : List Store → Disk → Daemon → Type 0 where
    installed :
        (disk : Disk) (daemon : Daemon)
        → env.os.read_file (index_at env dir) disk ≡ missing
        → Outlived (empty_store dir ∷ []) disk daemon
    ended :
        {stores : List Store} {disk : Disk} {daemon : Daemon} (session : Session)
        → AllManaged machine cfg Known session.happenings
        → Outlived stores disk daemon
        → Outlived
            (last_stores stores (run machine session disk daemon).app)
            (run machine session disk daemon).disk
            (last_daemon daemon (run machine session disk daemon).app)
    killed_in_start :
        {stores : List Store} {disk : Disk} {daemon : Daemon} (daemon' : Daemon)
        → Outlived stores disk daemon
        → Outlived stores (env.os.mkdir_all dir disk).0 daemon'
    killed_in_fetch :
        {stores : List Store} {disk : Disk} {daemon : Daemon} (r : Running disk daemon)
        (req : FetchRequest) (now : ℕ) (d : Disk) (daemon' : Daemon)
        → req.dest ≡ ""
        → Known req.source req.model_id
        → Memᴰ d (fetch_passes env req now (models_of r))
        → Outlived stores disk daemon
        → Outlived ((models_of r).store ∷ (fetch env req now (models_of r)).0.store ∷ []) d daemon'
    killed_in_delete :
        {stores : List Store} {disk : Disk} {daemon : Daemon} (r : Running disk daemon)
        (id : String) (d : Disk) (daemon' : Daemon)
        → Memᴰ d (delete_passes env id (models_of r))
        → Outlived stores disk daemon
        → Outlived ((models_of r).store ∷ (delete env id (models_of r)).0.store ∷ []) d daemon'

  module _ (configured : load (bootstrap machine.new_provider) ≡ ok cfg)
      (laws : Laws env dir Known) where
    -- One of the stores has only known models, and a new start would find them.
    abbrev OneHolds : List Store → Disk → Daemon → Type 0
    OneHolds stores disk daemon =
        (s : Store) × Memᴰ s stores
        × Holds machine cfg configured Known laws
            (record { store = s; disk = disk; daemon = daemon })

    -- From a store that holds, the running program is sound.
    running-IsSound :
        (stores : List Store) (disk : Disk) (daemon : Daemon) (r : Running disk daemon)
        → OneHolds stores disk daemon
        → IsSound env dir Known (models_of r)
    running-IsSound stores disk daemon r (s, there, holds) =
        let left : Left Disk Daemon = record { store = s; disk = disk; daemon = daemon } in
        let back =
          subst (IsBack machine cfg configured Known laws left) r.started
            (boot-IsBack machine cfg configured Known laws left holds) in
        happen_all-IsSound machine cfg Known laws r.docker r.vendor r.happenings r.app r.managed
          back.0

    -- A disk that an operation passes through, between two sound stores.
    passed-OneHolds :
        (w after : World Disk) (d : Disk) (ds : List Disk) (daemon : Daemon)
        → (sound : IsSound env dir Known w) → IsSound env dir Known after
        → AllRestart env dir w.store after.store ds
        → Memᴰ d ds
        → OneHolds (w.store ∷ after.store ∷ []) d daemon
    passed-OneHolds w after d ds daemon sound sound' all there = elim (All-Mem _ d ds there all) [
      | inl old ↦ (w.store, Memᴰ.head refl, (sound.named, old))
      | inr new ↦ (after.store, Memᴰ.tail (Memᴰ.head refl), (sound'.named, new))
    ]

    Outlived-OneHolds :
        {stores : List Store} {disk : Disk} {daemon : Daemon}
        → Outlived stores disk daemon
        → OneHolds stores disk daemon
    unfolding run run_from
    Outlived-OneHolds (installed disk daemon none_there) = (
      empty_store dir,
      Memᴰ.head refl,
      empty_store-Holds machine cfg configured Known laws disk daemon none_there,
    )
    Outlived-OneHolds (ended {stores} {disk} {daemon} session managed before) =
        let (s, there, holds) = Outlived-OneHolds before in
        let left : Left Disk Daemon = record { store = s; disk = disk; daemon = daemon } in
        (
          last_store s (run machine session disk daemon).app,
          last_store-Mem s stores (run machine session disk daemon).app there,
          left_by-Holds machine cfg configured Known laws session left (boot machine disk daemon)
              managed holds (boot-IsBack machine cfg configured Known laws left holds),
        )
    Outlived-OneHolds (killed_in_start {stores} {disk} {daemon} daemon' before) =
        let (s, there, holds) = Outlived-OneHolds before in
        let left : Left Disk Daemon = record { store = s; disk = disk; daemon = daemon } in
        (
          s,
          there,
          Holds-kept machine cfg configured Known laws left (env.os.mkdir_all dir disk).0 holds
              (laws.start-index disk),
        )
    Outlived-OneHolds
          (killed_in_fetch {stores} {disk} {daemon} r req now d daemon' managed known there
            before) =
        let sound = running-IsSound stores disk daemon r (Outlived-OneHolds before) in
        let w = models_of r in
        passed-OneHolds w (fetch env req now w).0 d (fetch_passes env req now w) daemon' sound
          (fetch-IsSound env dir Known laws w sound req now managed known)
          (killed-IsPassed env dir Known laws w sound req now "" managed known).0.0 there
    Outlived-OneHolds (killed_in_delete {stores} {disk} {daemon} r id d daemon' there before) =
        let sound = running-IsSound stores disk daemon r (Outlived-OneHolds before) in
        let w = models_of r in
        passed-OneHolds w (delete env id w).0 d (delete_passes env id w) daemon' sound
          (delete-IsSound env dir Known laws w sound id)
          (delete_passes_to env dir Known laws w sound id (delete env id w).0.store refl) there

    -- If the configuration loads, under the laws of the file operations, the codec and the short
    -- digests, if each fetch that is asked for is of a known model and names no directory of its own,
    -- and if each command that `POST /exec` runs leaves the index as it is, as containers do here:
    -- take a directory without an index, and any number of lives on it, each of which ends with `run`
    -- or is killed, at its start or between two calls of a `Fetch` or of a `Delete` and after such
    -- requests. Then the next start, if it comes so far, has coherent maps with the models of the last
    -- running store, but for times of last use; after a kill these are the models of before the
    -- operation or those of after it. If it does not come so far, it leaves the index as it was, and
    -- the store is never the reason but for want of a directory.
    pub Outlived-IsBack :
        (stores : List Store) (disk : Disk) (daemon : Daemon)
        → Outlived stores disk daemon
        → (s : Store) × Memᴰ s stores
          × IsBack machine cfg configured Known laws
              (record { store = s; disk = disk; daemon = daemon })
              (boot machine disk daemon)
    Outlived-IsBack stores disk daemon outlived =
        let (s, there, holds) = Outlived-OneHolds outlived in
        (
          s,
          there,
          boot-IsBack machine cfg configured Known laws
              (record { store = s; disk = disk; daemon = daemon }) holds,
        )
