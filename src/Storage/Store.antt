-- ===== src/Storage/Store.antt =====
-- internal/storage/store.go: the operations of `Store`. A method takes the world, that is the
-- store and the disk, and gives the world that it leaves with its result. The mutex and the
-- single flight make each piece between two unlocked points a step of its own; here one caller
-- runs alone. Each run reads the clock once, at `now`.
pub mod Maps
pub mod Cases
pub mod Coherence
pub mod Durable
pub mod Behaviour
use bonnie.Prelude.{
  ℕ, ◌+◌, String, ◌≡◌, Bool, true, false, not, ◌&&◌, Option, none, some, List, [], ◌∷◌, ◌++◌,
  if◌then◌else◌, str_eq, is_empty,
}
use bonnie.Prelude.Bytes.{codes, bytes_leb}
use bonnie.Prelude.Maps.{Map, lookup, insert, erase}
use bonnie.Prelude.Results.{Result, ok, err, ◌>>=◌, ◌>>◌, fail_if}
use bonnie.Storage.Env.{Entry, FetchRequest, Visit, broken, folder, file, Fetcher, Env}
use bonnie.Storage.Paths.{under_root}
use bonnie.Storage.Index.{
  Error, source_required, model_id_required, unknown_source, mount_source_required, create_dest,
  fetcher_failed, measure_failed, not_found, remove_path, Store, key_for, key_of, values,
  sort_by_id, entry_id, save_index,
}

pub record World (Disk : Type 0) : Type 0 where
  pub store : Store
  pub disk : Disk

-- `sort.Strings`.
insert_string : String → List String → List String
insert_string s [] = s ∷ []
insert_string s (x ∷ xs) =
    if bytes_leb (codes s) (codes x) then s ∷ x ∷ xs else x ∷ insert_string s xs

unfoldable pub sort_strings : List String → List String
unfolding insert_string
sort_strings [] = []
sort_strings (s ∷ ss) = insert_string s (sort_strings ss)

-- The walk of `measureTree`; the first error ends it.
unfoldable pub measure_from : ℕ → List String → List Visit → Option (ℕ × List String)
measure_from size files [] = some (size, sort_strings files)
measure_from size files (broken ∷ vs) = none
measure_from size files (folder ∷ vs) = measure_from size files vs
measure_from size files (file none rel ∷ vs) = none
measure_from size files (file (some n) none ∷ vs) = none
measure_from size files (file (some n) (some rel) ∷ vs) =
    measure_from (size + n) (files ++ rel ∷ []) vs

unfoldable pub measure_tree : List Visit → Option (ℕ × List String)
unfolding measure_from
measure_tree = measure_from 0 []

-- `lookupByKey`.
unfoldable pub lookup_by_key : String → Store → Option Entry
lookup_by_key key s = elim (lookup key s.by_key) [ none ↦ none | some id ↦ lookup id s.entries ]

-- What `s.entries[id]` gives for a missing ID.
abbrev pub zero_entry : Entry
zero_entry = record {
  id = "";
  source = "";
  model_id = "";
  path = "";
  size_bytes = 0;
  files = [];
  fetched_at = 0;
  last_used_at = 0;
}

abbrev pub entry_or_zero : Option Entry → Entry
entry_or_zero none = zero_entry
entry_or_zero (some e) = e

-- The changes to the two maps.
abbrev pub touched : String → Entry → ℕ → Store → Store
touched id e now s = record s { entries = insert id (record e { last_used_at = now }) s.entries }

abbrev pub added : Entry → Store → Store
added e s = record s { entries = insert e.id e s.entries; by_key = insert (key_of e) e.id s.by_key }

abbrev pub removed : String → Entry → Store → Store
removed id e s = record s { entries = erase id s.entries; by_key = erase (key_of e) s.by_key }

abbrev pub restored : String → Entry → Store → Store
restored id e s = record s {
  entries = insert id e s.entries;
  by_key = insert (key_of e) id s.by_key;
}

-- `Get`.
pub get : String → Store → Result Error Entry
get id s = elim (lookup id s.entries) [ none ↦ err not_found | some e ↦ ok e ]

-- `List`.
pub list : Store → List Entry
list s = sort_by_id (values s.entries)

module _ {Disk Data : Type 0} (env : Env Disk Data) where
  open env use {os, filepath, fetchers}

  abbrev pub After : Type 0 → Type 0
  After A = World Disk × Result Error A

  -- `markUsed`, which is also `MarkUsed`.
  unfoldable pub mark_used : String → ℕ → World Disk → After (Unit {0})
  mark_used id now w = elim (lookup id w.store.entries) [
    | none ↦ (w, err not_found)
    | some e ↦
        let s' = touched id e now w.store in
        let (d', r) = save_index env s' w.disk in (record { store = s'; disk = d' }, r)
  ]

  -- The two places of `Fetch` that find an entry: mark it and read it again.
  unfoldable pub reuse : Entry → ℕ → World Disk → After Entry
  unfolding mark_used
  reuse existing now w =
      let (w', r) = mark_used existing.id now w in
      (w', (do r; ok (entry_or_zero (lookup existing.id w'.store.entries))))

  abbrev pub dest_of : FetchRequest → Store → String
  dest_of req s =
      if str_eq req.dest ""
      then filepath.join s.dir (entry_id env req.source req.model_id)
      else req.dest

  -- The entry that `doFetch` builds.
  abbrev pub new_entry : FetchRequest → Store → ℕ → ℕ → List String → List String → Entry
  new_entry req s now size files discovered = record {
    id = entry_id env req.source req.model_id;
    source = req.source;
    model_id = req.model_id;
    path = dest_of req s;
    size_bytes = size;
    files = sort_strings (if is_empty files then discovered else files);
    fetched_at = now;
    last_used_at = now;
  }

  -- The locked end of `doFetch`, with its roll-back.
  unfoldable pub commit : Entry → World Disk → After Entry
  commit e w =
      let s' = added e w.store in
      let (d', r) = save_index env s' w.disk in
      elim r [
        | ok _ ↦ (record { store = s'; disk = d' }, ok e)
        | err x ↦ (record { store = removed e.id e s'; disk = d' }, err x)
      ]

  unfoldable pub do_fetch : FetchRequest → Fetcher Disk → ℕ → World Disk → After Entry
  unfolding commit measure_tree
  do_fetch req fetch now w =
      let dest = dest_of req w.store in
      let (d₁, made) = os.mkdir_all dest w.disk in
      let (d₂, fetched) = fetch req dest d₁ in
      let d₃ = if str_eq req.dest "" then (os.remove_all dest d₂).0 else d₂ in
      if not made then (record w { disk = d₁ }, err create_dest) else elim fetched [
        | none ↦ (record w { disk = d₃ }, err fetcher_failed)
        | some files ↦ elim (measure_tree (os.walk_dir dest d₂)) [
          | none ↦ (record w { disk = d₂ }, err measure_failed)
          | some (size, discovered) ↦
              commit (new_entry req w.store now size files discovered) (record w { disk = d₂ })
        ]
      ]

  -- The function that the single flight runs for a key.
  unfoldable pub flight : FetchRequest → Fetcher Disk → ℕ → World Disk → After Entry
  unfolding lookup_by_key reuse do_fetch
  flight req fetch now w = elim (lookup_by_key (key_for req.source req.model_id) w.store) [
    | some existing ↦ reuse existing now w
    | none ↦ do_fetch req fetch now w
  ]

  -- The checks at the head of `Fetch`.
  unfoldable pub checked : FetchRequest → Result Error (Fetcher Disk)
  checked req = do
    fail_if (str_eq req.source "") source_required
    fail_if (str_eq req.model_id "") model_id_required
    elim (lookup req.source fetchers) [
      | none ↦ err unknown_source
      | some fetch ↦ do
        fail_if (str_eq req.source "nfs" && str_eq req.mount_source "") mount_source_required
        ok fetch
    ]

  unfoldable pub fetch : FetchRequest → ℕ → World Disk → After Entry
  unfolding checked flight lookup_by_key reuse
  fetch req now w = elim (checked req) [
    | err x ↦ (w, err x)
    | ok fetcher ↦ elim (lookup_by_key (key_for req.source req.model_id) w.store) [
      | some existing ↦ reuse existing now w
      | none ↦ flight req fetcher now w
    ]
  ]

  -- The locked end of `Delete`.
  unfoldable pub drop_entry : String → Entry → World Disk → After (Unit {0})
  drop_entry id e w =
      let s' = removed id e w.store in
      let (d', r) = save_index env s' w.disk in
      elim r [
        | ok _ ↦ (record { store = s'; disk = d' }, ok tt)
        | err x ↦ (record { store = restored id e s'; disk = d' }, err x)
      ]

  unfoldable pub delete : String → World Disk → After (Unit {0})
  unfolding drop_entry
  delete id w = elim (lookup id w.store.entries) [
    | none ↦ (w, err not_found)
    | some e ↦
        let (d', gone) = os.remove_all e.path w.disk in
        if not (under_root filepath w.store.dir e.path)
        then drop_entry id e w
        else if not gone
        then (record w { disk = d' }, err remove_path)
        else drop_entry id e (record w { disk = d' })
  ]
