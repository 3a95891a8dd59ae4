-- ===== src/Storage/Restart.antt =====
-- The store of internal/storage/store.go over the lives of the process: what a new start finds in
-- the directory, whichever saves have failed before it.
pub mod Models
pub mod Operations
pub mod Start
pub mod Passes
pub mod Killed
use mathlib.Core.Option
use bonnie.Prelude.{
  ℕ, String, ◌≡◌, refl, sym, ◌∙◌, ap, subst, some, none, List, [], ◌∷◌, ◌==◌, Bool-cases, inl, inr,
  arith, Option-cases, false, true,
}
use bonnie.Prelude.Maps.{Map, lookup, insert}
use bonnie.Prelude.Results.{Result, ok, err}
use bonnie.Storage.Env.{
  Entry, FetchRequest, Fetcher, Env, OsLaws, CodecLaws, Reading, missing, unreadable, contents,
}
use bonnie.Storage.Index.{
  values, sort_by_id, Store, Error, key_for, key_of, entry_id, load_entries, load_index, save_index,
  empty_store,
}
use bonnie.Storage.Index.Coherent.{Coherent, Coherent-SameMaps, UniqueKeys, SameMaps}
use bonnie.Storage.Index.Atomic.{IsSaved, save_index_atomic}
use bonnie.Storage.Index.RoundTrip.{load_entries-SameMaps, load_index_of_marshalled}
use bonnie.Storage.Store.{World, checked}
use bonnie.Storage.Store.Maps.{UniqueKeys-insert}
use bonnie.Storage.Restart.Models.{Alike, SameMaps-Alike, Alike-trans}

load_entries-dir : (es : List Entry) (s : Store) → (load_entries es s).dir ≡ s.dir
unfolding load_entries
load_entries-dir [] s = refl
load_entries-dir (e ∷ es) s =
    load_entries-dir es
      (record s { entries = insert e.id e s.entries; by_key = insert (key_of e) e.id s.by_key })

load_entries-UniqueKeys :
    (es : List Entry) (s : Store) → UniqueKeys s.entries → UniqueKeys (load_entries es s).entries
unfolding load_entries
load_entries-UniqueKeys [] s u = u
load_entries-UniqueKeys (e ∷ es) s u =
    load_entries-UniqueKeys es
      (record s { entries = insert e.id e s.entries; by_key = insert (key_of e) e.id s.by_key })
      (UniqueKeys-insert e.id e s.entries u)

Reading-cases {ℓ} :
    {Data : Type 0} (P : Reading Data → Type ℓ) (r : Reading Data)
    → (r ≡ missing → P r)
    → (r ≡ unreadable → P r)
    → ((b : Data) → r ≡ contents b → P r)
    → P r
Reading-cases P missing m u c = m refl
Reading-cases P unreadable m u c = u refl
Reading-cases P (contents b) m u c = c b refl

-- A store that was loaded holds each ID once, and knows its directory.
abbrev pub IsLoaded : String → Result Error Store → Type 0
IsLoaded dir (ok s) = UniqueKeys s.entries × (s.dir ≡ dir)
IsLoaded dir (err x) = Unit {0}

module _ {Disk Data : Type 0} (env : Env Disk Data) (dir : String) where
  open env use {os, filepath, codec}

  abbrev pub index_at : String
  index_at = filepath.join dir "index.json"

  -- The index on two disks has the same contents.
  abbrev pub SameIndex : Disk → Disk → Type 0
  SameIndex d d' = os.read_file index_at d' ≡ os.read_file index_at d

  pub load_index-SameIndex :
      (d d' : Disk)
      → SameIndex d d'
      → load_index env (empty_store dir) d' ≡ load_index env (empty_store dir) d
  unfolding load_index
  load_index-SameIndex d d' same = rw (same, load_index)

  pub load_index-IsLoaded : (d : Disk) → IsLoaded dir (load_index env (empty_store dir) d)
  unfolding load_index
  load_index-IsLoaded d =
      Reading-cases (λ (r : Reading Data). IsLoaded dir (load_index env (empty_store dir) d))
        (os.read_file index_at d) (λ h. rw (h, load_index) (tt, refl)) (λ h. rw (h, load_index) tt)
        λ b h. elim (Bool-cases (os.len b == 0)) [
          | inl blank ↦ rw (h, load_index) (rw (blank, load_index) (tt, refl))
          | inr filled ↦ elim (Option-cases (codec.unmarshal b)) [
            | inl bad ↦ rw (h, load_index) (rw (filled, load_index) (rw (bad, load_index) tt))
            | inr (es, good) ↦
                rw (h, load_index)
                  (rw (filled, load_index)
                    (rw (good, load_index)
                      (
                        load_entries-UniqueKeys es (empty_store dir) tt,
                        load_entries-dir es (empty_store dir),
                      )))
          ]
        ]

  -- A new start on the disk would find these models.
  abbrev pub Restarts : Store → Disk → Type 0
  Restarts s d = (t : Store) × (load_index env (empty_store dir) d ≡ ok t) × Coherent t × Alike t s

  -- The step of an operation that does not save.
  pub kept-Restarts :
      (s s' : Store) (d d' : Disk) → SameIndex d d' → Alike s s' → Restarts s d → Restarts s' d'
  kept-Restarts s s' d d' same alike (t, loads, c, found) =
      (t, load_index-SameIndex d d' same ∙ loads, c, Alike-trans t s s' found alike)

  -- An index that holds the marshalled entries of a store.
  pub whole-Restarts :
      CodecLaws os.len codec
      → (s : Store) (d : Disk) (b : Data) → s.dir ≡ dir
      → Coherent s
      → codec.marshal (sort_by_id (values s.entries)) ≡ some b
      → os.read_file index_at d ≡ contents b
      → Restarts s d
  whole-Restarts codec_laws s d b at c m read =
      let es = sort_by_id (values s.entries) in
      let loads : load_index env (empty_store dir) d ≡ ok (load_entries es (empty_store s.dir)) =
        subst (λ x. load_index env (empty_store dir) d ≡ ok (load_entries es (empty_store x)))
          (sym at) (load_index_of_marshalled env (empty_store dir) d es b codec_laws m read) in
      let t = load_entries es (empty_store s.dir) in
      let loaded : IsLoaded dir (ok t) = subst (IsLoaded dir) loads (load_index-IsLoaded d) in
      let same = load_entries-SameMaps s c in
      (t, loads, Coherent-SameMaps s t loaded.0 same c, SameMaps-Alike t s same)

  -- The step of an operation that saves: the new index holds the store's entries.
  pub saved-Restarts :
      OsLaws os index_at
      → CodecLaws os.len codec
      → (s : Store) (d d' : Disk) → s.dir ≡ dir
      → Coherent s
      → save_index env s d ≡ (d', ok tt)
      → Restarts s d'
  saved-Restarts os_laws codec_laws s d d' at c saved =
      let laws = subst (λ x. OsLaws os (filepath.join x "index.json")) (sym at) os_laws in
      let whole : IsSaved env s d (d', ok tt) =
        subst (IsSaved env s d) saved (save_index_atomic env s d laws) in
      let (b, m, read) = whole in
      whole-Restarts codec_laws s d' b at c m
        (subst (λ x. os.read_file (filepath.join x "index.json") d' ≡ contents b) at read)

  -- A save that fails keeps the index.
  pub unsaved-SameIndex :
      OsLaws os index_at
      → (s : Store) (d d' : Disk) (x : Error) → s.dir ≡ dir
      → save_index env s d ≡ (d', err x)
      → SameIndex d d'
  unsaved-SameIndex os_laws s d d' x at failed =
      let laws = subst (λ y. OsLaws os (filepath.join y "index.json")) (sym at) os_laws in
      let kept : IsSaved env s d (d', err x) =
        subst (IsSaved env s d) failed (save_index_atomic env s d laws) in
      subst
        (λ y.
          os.read_file (filepath.join y "index.json") d'
          ≡ os.read_file (filepath.join y "index.json") d)
        at kept

-- The models that are asked for are `Known`.
module _ {Disk Data : Type 0} (env : Env Disk Data) (dir : String)
    (Known : String → String → Type 0) where
  open env use {os, filepath, codec}

  abbrev home_of : String → String → String
  home_of source model_id = filepath.join dir (entry_id env source model_id)

  -- A known model, with its short digest as ID and its files in the directory of that name.
  abbrev pub IsNamed : Entry → Type 0
  IsNamed e =
      Known e.source e.model_id
      × (e.id ≡ entry_id env e.source e.model_id)
      × (e.path ≡ filepath.join dir e.id)

  abbrev pub AllNamed : Map Entry → Type 0
  AllNamed m = (id : String) (e : Entry) → lookup id m ≡ some e → IsNamed e

  -- The running store is in order, and a new start would find its models.
  pub record IsSound (w : World Disk) : Type 0 where
    pub at : w.store.dir ≡ dir
    pub coherent : Coherent w.store
    pub named : AllNamed w.store.entries
    pub restarts : Restarts env dir w.store w.disk

  -- What is relied on: the file operations and the codec; short digests that tell the known models
  -- apart; and calls for the directory of a model, or for `dir` itself, that leave the index alone.
  pub record Laws : Type 0 where
    pub os_laws : OsLaws os (index_at env dir)
    pub codec_laws : CodecLaws os.len codec
    pub distinct :
        (a m b n : String)
        → Known a m
        → Known b n
        → entry_id env a m ≡ entry_id env b n
        → key_for a m ≡ key_for b n
    pub start-index : (d : Disk) → SameIndex env dir d (os.mkdir_all dir d).0
    pub mkdir_all-index :
        (source model_id : String) (d : Disk)
        → Known source model_id
        → SameIndex env dir d (os.mkdir_all (home_of source model_id) d).0
    pub remove_all-index :
        (source model_id : String) (d : Disk)
        → Known source model_id
        → SameIndex env dir d (os.remove_all (home_of source model_id) d).0
    pub fetch-index :
        (req : FetchRequest) (run : Fetcher Disk) (d : Disk)
        → Known req.source req.model_id
        → checked env req ≡ ok run
        → SameIndex env dir d (run req (home_of req.source req.model_id) d).0
