-- ===== src/Storage/Index/RoundTrip.antt =====
-- `saveIndexLocked` followed by `loadIndex` of internal/storage/store.go, on a store whose two
-- maps agree.
use mathlib.Core.Option
use bonnie.Prelude.{
  ℕ, String, ◌≡◌, refl, ◌∙◌, ap, false, Option, none, some, List, [], ◌∷◌, eq_iff, arith,
  Option-cases, inl, inr, subst, ◌<◌, ◌==◌,
}
use bonnie.Prelude.Maps.{lookup, insert, lookup-insert}
use bonnie.Prelude.Results.{ok}
use bonnie.Storage.Env.{Entry, contents, Env, CodecLaws, OsLaws}
use bonnie.Storage.Index.Sorting.{find_by, UniqueBy, find_by-sort, UniqueBy-sort}
use bonnie.Storage.Index.Coherent.{
  id_of, Coherent, SameMaps, find_by-id, UniqueBy-id, lookup_of_find_by, find_by-ne-none,
  UniqueBy-key, Telling-Coherent,
}
use bonnie.Storage.Index.Atomic.{IsSaved, save_index_atomic}
use bonnie.Storage.Index.{
  Store, key_of, values, sort_by_id, load_entries, load_index, index_path, save_index, empty_store,
}

abbrev or_else {ℓ} : {A : Type ℓ} → Option A → Option A → Option A
or_else none b = b
or_else (some a) b = some a

or_else-none {ℓ} : {A : Type ℓ} (o : Option A) → or_else o none ≡ o
or_else-none none = refl
or_else-none (some a) = refl

load_entries-entries :
    (j : String) (es : List Entry) (s : Store)
    → UniqueBy id_of es
    → lookup j (load_entries es s).entries ≡ or_else (find_by id_of j es) (lookup j s.entries)
unfolding load_entries
load_entries-entries j [] s u = refl
load_entries-entries j (e ∷ es) s u = ground (
  arith,
  load_entries-entries j es
      (record s { entries = insert e.id e s.entries; by_key = insert (key_of e) e.id s.by_key }),
  lookup-insert e.id j e s.entries,
  eq_iff e.id j,
)

load_entries-by_key :
    (j : String) (es : List Entry) (s : Store)
    → UniqueBy key_of es
    → lookup j (load_entries es s).by_key
      ≡ or_else (Option.map id_of (find_by key_of j es)) (lookup j s.by_key)
unfolding load_entries
load_entries-by_key j [] s u = refl
load_entries-by_key j (e ∷ es) s u = ground (
  arith,
  load_entries-by_key j es
      (record s { entries = insert e.id e s.entries; by_key = insert (key_of e) e.id s.by_key }),
  lookup-insert (key_of e) j e.id s.by_key,
  eq_iff (key_of e) j,
)

by_key_of_Coherent :
    (k : String) (s : Store)
    → Coherent s
    → Option.map id_of (find_by key_of k (values s.entries)) ≡ lookup k s.by_key
by_key_of_Coherent k s c = elim (Option-cases (find_by key_of k (values s.entries))) [
  | inl nothing ↦ elim (Option-cases (lookup k s.by_key)) [
    | inl empty ↦ rw (nothing, empty)
    | inr (id, held) ↦
        let (e, there, same) = c.backed k id held in
        absurd (find_by-ne-none k id e s.entries there same nothing)
  ]
  | inr (e, found) ↦
      let (there, same) =
        lookup_of_find_by k e s.entries c.distinct (λ id a h. (c.indexed id a h).0) found in
      ground (arith, found, same, c.indexed e.id e there)
]

-- The maps are read back from their own sorted entries.
pub load_entries-SameMaps :
    (s : Store)
    → Coherent s
    → SameMaps (load_entries (sort_by_id (values s.entries)) (empty_store s.dir)) s
unfolding lookup
load_entries-SameMaps s c =
    let es = values s.entries in
    let keyed =
      λ (id : String) (a : Entry) (h : lookup id s.entries ≡ some a). (c.indexed id a h).0 in
    let by_id = UniqueBy-id s.entries c.distinct keyed in
    let by_key = UniqueBy-key s.entries c.distinct keyed (Telling-Coherent s c) in
    (
      λ id.
          load_entries-entries id (sort_by_id es) (empty_store s.dir) (UniqueBy-sort id_of es by_id)
          ∙ or_else-none (find_by id_of id (sort_by_id es))
          ∙ find_by-sort id_of id es by_id
          ∙ find_by-id id s.entries c.distinct keyed,
      λ k.
          load_entries-by_key k (sort_by_id es) (empty_store s.dir) (UniqueBy-sort key_of es by_key)
          ∙ or_else-none (Option.map id_of (find_by key_of k (sort_by_id es)))
          ∙ ap (Option.map id_of) (find_by-sort key_of k es by_key)
          ∙ by_key_of_Coherent k s c,
    )

filled : {n : ℕ} → 0 < n → (n == 0) ≡ false
filled h = ground arith

module _ {Disk Data : Type 0} (env : Env Disk Data) where
  open env use {os, codec}

  pub load_index_of_marshalled :
      (s : Store) (d : Disk) (es : List Entry) (b : Data)
      → CodecLaws os.len codec
      → codec.marshal es ≡ some b
      → os.read_file (index_path env s) d ≡ contents b
      → load_index env s d ≡ ok (load_entries es s)
  unfolding load_index
  load_index_of_marshalled s d es b laws m read =
      rw (read, load_index)
        (rw (filled (laws.marshal-filled es b m), load_index)
          (rw (laws.round_trip es b m, load_index)))

-- Under the laws of the file operations and the codec: when a save of a store with coherent maps
-- succeeds, a new start in the same directory reads the index and finds under every ID and every
-- key what the running store has.
pub load-save :
    {Disk Data : Type 0} (env : Env Disk Data) (s : Store) (d d' : Disk)
    → OsLaws env.os (index_path env s)
    → CodecLaws env.os.len env.codec
    → Coherent s
    → save_index env s d ≡ (d', ok tt)
    → (t : Store) × (load_index env (empty_store s.dir) d' ≡ ok t) × SameMaps t s
load-save env s d d' os_laws codec_laws c saved =
    let whole : IsSaved env s d (d', ok tt) =
      subst (IsSaved env s d) saved (save_index_atomic env s d os_laws) in
    let (b, m, read) = whole in
    (
      load_entries (sort_by_id (values s.entries)) (empty_store s.dir),
      load_index_of_marshalled env (empty_store s.dir) d' _ b codec_laws m read,
      load_entries-SameMaps s c,
    )
