-- ===== src/Storage/Tests.antt =====
-- The operations of internal/storage on a disk of named files: tests, and the theorems at concrete
-- inputs.
pub mod Files
pub mod Lives
mod Callers
use Prim.Native.String
use bonnie.Prelude.{
  ℕ, String, ◌≡◌, refl, ◌≢◌, ◌↔◌, Bool, true, false, Option, none, some, List, [], ◌∷◌, arith,
  str_eq, eq_iff, if◌then◌else◌, sym, ◌∙◌, subst, ap, inl, inr, Option-cases, length,
}
use bonnie.Prelude.Maps.{
  Map, lookup, insert, erase, lookup-insert_self, lookup-insert_ne, lookup-erase_ne,
}
use bonnie.Prelude.Bytes.{codes}
use bonnie.Prelude.Results.{ok, err}
use bonnie.Storage.Env.{
  Entry, FetchRequest, Reading, missing, contents, folder, file, Os, Filepath, Codec, Env, OsLaws,
  CodecLaws, IsBlank,
}
use bonnie.Storage.Paths.{under_root, first_component, Relative, under_root_iff}
use bonnie.Storage.Index.Atomic.{IsSaved, save_index_atomic}
use bonnie.Storage.Index.Coherent.{Coherent, SameMaps, id_of}
use bonnie.Storage.Index.Sorting.{find_by, IsSorted}
use bonnie.Storage.Index.RoundTrip.{load-save}
use bonnie.Storage.Store.Coherence.{
  HasClearId, RolledBack, mark_used-Coherent, fetch-Coherent, delete-Coherent, delete_rolls_back,
  fetch_rolls_back,
}
use bonnie.Storage.Store.Durable.{IsDurable, fetch-IsDurable, delete-IsDurable}
use bonnie.Storage.Store.Behaviour.{
  IsStaged, IsDeleted, list_lem, fetch-IsStaged, fetch_again, delete-IsDeleted,
}
use bonnie.Storage.Index.{
  Store, empty_store, entry_id, save_index, load_index, unknown_source, fetcher_failed,
  rename_index,
}
use bonnie.Storage.Store.{World, sort_strings, touched, fetch, delete, mark_used, list}
use bonnie.Storage.Tests.Files.{
  Data, Disk, data_len, reading, rename_file, os, filepath, codec, env, index, tmp, os_laws,
  codec_laws,
}

-- Storage: every function of the component runs under this line.
storage : Unit {0}
unfolding fetch delete mark_used save_index load_index lookup insert erase data_len reading
    rename_file entry_id sort_strings under_root first_component
storage = tt

abbrev pub start : World Disk
start = record { store = empty_store "/models"; disk = [] }

abbrev pub request : FetchRequest
request = record {
  source = "nfs";
  model_id = "llama";
  dest = "";
  patterns = [];
  mount_source = "/mnt";
  subpath = "";
}

abbrev pub staged : Entry
staged = record {
  id = "nfs:llama";
  source = "nfs";
  model_id = "llama";
  path = "/models/nfs:llama";
  size_bytes = 8;
  files = "a.txt" ∷ "b.bin" ∷ [];
  fetched_at = 7;
  last_used_at = 7;
}

abbrev staged_store : Store
staged_store = record {
  dir = "/models";
  entries = ("nfs:llama", staged) ∷ [];
  by_key = ("nfs:llama", "nfs:llama") ∷ [];
}

abbrev pub staged_disk : Disk
staged_disk = (index, some (staged ∷ [])) ∷ []

fetch_first :
    fetch env request 7 start ≡ (record { store = staged_store; disk = staged_disk }, ok staged)
unfolding storage
fetch_first = refl

-- Neither an unknown source nor a fetcher that fails leaves anything behind.
fetch_refused : fetch env (record request { source = "s3" }) 7 start ≡ (start, err unknown_source)
unfolding storage
fetch_refused = refl

fetch_failed :
    fetch env (record request { source = "huggingface" }) 7 start ≡ (start, err fetcher_failed)
unfolding storage
fetch_failed = refl

-- A model that was staged in the storage root takes the whole root with it.
whole_root : under_root filepath "/models" "/models" ≡ true
unfolding storage
whole_root = refl

abbrev used : Store
used = touched "nfs:llama" staged 9 staged_store

fetch_second :
    save_index env used staged_disk
    ≡ ((index, some (record staged { last_used_at = 9 } ∷ [])) ∷ [], ok tt)
unfolding storage
fetch_second = refl

pub start-Coherent : Coherent start.store
unfolding lookup
start-Coherent = record {
  distinct = tt;
  indexed = λ id e h. absurd (ground arith);
  backed = λ k id h. absurd (ground arith);
}

start-HasClearId : HasClearId env request start.store
unfolding lookup
start-HasClearId e h = absurd (ground arith)

staged-Coherent : Coherent staged_store
staged-Coherent =
    subst (λ r. Coherent r.0.store) fetch_first
      (fetch-Coherent env request 7 start start-Coherent start-HasClearId)

under_root_iff_example : (under_root filepath "/models" "/etc" ≡ true) ↔ (
    (rel : String) × Relative filepath "/models" "/etc" rel
    × (first_component (codes rel) ≢ codes ".."))
under_root_iff_example = under_root_iff filepath "/models" "/etc"

save_index_atomic_example : IsSaved env staged_store [] (save_index env staged_store [])
save_index_atomic_example = save_index_atomic env staged_store [] os_laws

load-save_example :
    (t : Store) × (load_index env (empty_store "/models") staged_disk ≡ ok t)
    × SameMaps t staged_store
load-save_example =
    load-save env staged_store [] staged_disk os_laws codec_laws staged-Coherent saved
  where
    saved : save_index env staged_store [] ≡ (staged_disk, ok tt)
    saved = unfold storage in refl

-- A disk on which no file can be renamed, so that no index is saved.
abbrev stuck : Env Disk Data
stuck = record env { os = record os { rename = λ from to d. (d, false) } }

-- The files are gone, and the entry is back in both maps.
delete_rolls_back_example :
    SameMaps
      (delete stuck "nfs:llama" (record { store = staged_store; disk = staged_disk })).0.store
      staged_store
unfolding storage
delete_rolls_back_example =
    delete_rolls_back stuck "nfs:llama" (record { store = staged_store; disk = staged_disk })
      staged-Coherent

unsaved_deletion :
    (delete stuck "nfs:llama" (record { store = staged_store; disk = staged_disk })).1
    ≡ err rename_index
unfolding storage
unsaved_deletion = refl

-- The model is fetched, and its entry is taken out of both maps again.
fetch_rolls_back_example : SameMaps (fetch stuck request 7 start).0.store start.store
unfolding storage
fetch_rolls_back_example =
    fetch_rolls_back stuck request 7 start start-Coherent start-HasClearId refl

unsaved_model : (fetch stuck request 7 start).1 ≡ err rename_index
unfolding storage
unsaved_model = refl

fetch-IsDurable_example : IsDurable env (fetch env request 7 start)
fetch-IsDurable_example =
    fetch-IsDurable env start os_laws codec_laws start-Coherent request 7 start-HasClearId

fetch-IsStaged_example : IsStaged env request (fetch env request 7 start)
fetch-IsStaged_example = fetch-IsStaged env request 7 start start-Coherent

fetch_again_example : fetch env request 9 (record { store = staged_store; disk = staged_disk }) ≡ (
  record { store = used; disk = (index, some (record staged { last_used_at = 9 } ∷ [])) ∷ [] },
  ok (record staged { last_used_at = 9 }),
)
fetch_again_example =
    fetch_again env request 7 9 start (record { store = staged_store; disk = staged_disk }) staged
      ((index, some (record staged { last_used_at = 9 } ∷ [])) ∷ []) start-Coherent fetch_first
      fetch_second

delete-IsDeleted_example :
    IsDeleted env "nfs:llama" staged_store
      (delete env "nfs:llama" (record { store = staged_store; disk = staged_disk }))
delete-IsDeleted_example =
    delete-IsDeleted env "nfs:llama" (record { store = staged_store; disk = staged_disk })

list_lem_example :
    IsSorted (list staged_store)
    × (length (list staged_store) ≡ 1)
    × ((id : String) → find_by id_of id (list staged_store) ≡ lookup id staged_store.entries)
list_lem_example = list_lem staged_store staged-Coherent
