-- ===== src/Storage/Index.antt =====
-- internal/storage/store.go: the store's state, its key, and the JSON index at <dir>/index.json:
-- `NewStoreWithFetchers`, `indexPath`, `loadIndex`, `saveIndexLocked`, `keyFor`, `entryID`.
-- Nothing else runs between the steps of one of these functions: the caller holds the mutex.

pub mod Sorting
pub mod Coherent
pub mod Atomic
pub mod RoundTrip
use Prim.Native.String
use bonnie.Prelude.{
  ℕ, zero, suc, not, String, ◌≡◌, Bool, true, false, Option, none, some, List, [], ◌∷◌, map,
  if◌then◌else◌, ◌==◌, str_eq,
}
use bonnie.Prelude.Bytes.{codes, bytes_leb}
use bonnie.Prelude.Maps.{Map, insert}
use bonnie.Prelude.Results.{Result, ok, err}
use bonnie.Storage.Env.{Entry, Reading, missing, unreadable, contents, Env}

pub data Error : Type 0 where
  dir_required make_dir read_index parse_index : Error
  marshal_index temp_file write_index close_index rename_index : Error
  source_required model_id_required unknown_source mount_source_required : Error
  create_dest fetcher_failed measure_failed not_found remove_path : Error

pub record Store : Type 0 where
  pub dir : String
  pub entries : Map Entry
  pub by_key : Map String

-- `keyFor`.
abbrev pub key_for : String → String → String
key_for source model_id = String.◌++◌ source (String.◌++◌ ":" model_id)

abbrev pub key_of : Entry → String
key_of e = key_for e.source e.model_id

-- The first characters of a text; those of a hexadecimal digest are its bytes.
unfoldable pub first_chars : ℕ → String → String
first_chars zero s = ""
first_chars (suc n) String.[] = ""
first_chars (suc n) (String.◌∷◌ c s) = String.◌∷◌ c (first_chars n s)

-- The entries of the map, in the order in which a `range` happens to give them.
abbrev pub values : Map Entry → List Entry
values = map (λ p. p.1)

-- `sort.Slice` by ID, as an insertion sort.
unfoldable pub insert_by_id : Entry → List Entry → List Entry
insert_by_id e [] = e ∷ []
insert_by_id e (x ∷ xs) =
    if bytes_leb (codes e.id) (codes x.id) then e ∷ x ∷ xs else x ∷ insert_by_id e xs

unfoldable pub sort_by_id : List Entry → List Entry
unfolding insert_by_id
sort_by_id [] = []
sort_by_id (e ∷ es) = insert_by_id e (sort_by_id es)

-- The loop of `loadIndex`.
unfoldable pub load_entries : List Entry → Store → Store
load_entries [] s = s
load_entries (e ∷ es) s =
    load_entries es
      (record s { entries = insert e.id e s.entries; by_key = insert (key_of e) e.id s.by_key })

abbrev pub empty_store : String → Store
empty_store dir = record { dir = dir; entries = []; by_key = [] }

module _ {Disk Data : Type 0} (env : Env Disk Data) where
  open env use {os, filepath, codec, hex_digest}

  -- `entryID`.
  unfoldable pub entry_id : String → String → String
  unfolding first_chars
  entry_id source model_id = first_chars 16 (hex_digest (key_for source model_id))

  -- `indexPath`.
  abbrev pub index_path : Store → String
  index_path s = filepath.join s.dir "index.json"

  unfoldable pub load_index : Store → Disk → Result Error Store
  load_index s d = elim (os.read_file (index_path s) d) [
    | missing ↦ ok s
    | unreadable ↦ err read_index
    | contents b ↦ if os.len b == 0 then ok s else elim (codec.unmarshal b) [
      | none ↦ err parse_index
      | some entries ↦ ok (load_entries entries s)
    ]
  ]

  -- `NewStoreWithFetchers`; `NewStore` is this with the fetchers of the package.
  unfoldable pub new_store : String → Disk → Disk × Result Error Store
  unfolding load_index
  new_store dir d =
      if str_eq dir ""
      then (d, err dir_required)
      else let (d', made) = os.mkdir_all dir d in
        (d', if made then load_index (empty_store dir) d' else err make_dir)

  -- The end of `saveIndexLocked`, from the temporary file's name on.
  unfoldable pub replace_index : Store → Data → String → Disk → Disk × Result Error (Unit {0})
  replace_index s bytes tmp d =
      let (d₁, written) = os.write tmp bytes d in
      let (d₂, closed) = os.close tmp d₁ in
      let (d₃, renamed) = os.rename tmp (index_path s) d₂ in
      if not written
      then ((os.remove tmp d₂).0, err write_index)
      else if not closed
      then ((os.remove tmp d₂).0, err close_index)
      else if not renamed
      then ((os.remove tmp d₃).0, err rename_index)
      else (d₃, ok tt)

  -- `saveIndexLocked`.
  unfoldable pub save_index : Store → Disk → Disk × Result Error (Unit {0})
  unfolding sort_by_id replace_index
  save_index s d = elim (codec.marshal (sort_by_id (values s.entries))) [
    | none ↦ (d, err marshal_index)
    | some bytes ↦
        let (d₁, made) = os.create_temp s.dir d in
        elim made [ none ↦ (d₁, err temp_file) | some tmp ↦ replace_index s bytes tmp d₁ ]
  ]
