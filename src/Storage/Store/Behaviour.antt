-- ===== src/Storage/Store/Behaviour.antt =====
-- What a caller of `Store` in internal/storage/store.go sees: `Fetch` again, `Get` and `List`
-- after `Fetch` and `Delete`.
use bonnie.Prelude.{
  ℕ, String, ◌≡◌, refl, ◌∙◌, ap, subst, none, some, arith, inl, inr, length, str_eq, if◌then◌else◌,
  Bool-cases,
}
use bonnie.Prelude.Maps.{lookup, lookup-insert_self, lookup-erase, lookup-erase_self}
use bonnie.Prelude.Results.{ok, err, Result-cases}
use bonnie.Storage.Env.{Entry, FetchRequest, Fetcher, Env}
use bonnie.Storage.Index.{Error, not_found, Store, key_of, key_for, save_index, values}
use bonnie.Storage.Index.Coherent.{id_of, Coherent, find_by-id, UniqueBy-id}
use bonnie.Storage.Index.Sorting.{
  find_by, find_by-sort, IsSorted, sort_by_id-IsSorted, length-sort_by_id,
}
use bonnie.Storage.Store.Maps.{lookup_by_key-eq-some}
use bonnie.Storage.Store.Cases.{
  commit_cases, drop_entry_cases, do_fetch_cases, fetch_cases, delete_cases,
}
use bonnie.Storage.Store.{
  World, After, lookup_by_key, touched, removed, new_entry, get, list, mark_used, reuse, commit,
  checked, fetch, delete,
}

-- From coherent maps, `List` gives the entries in the order of their IDs, as many as the map has,
-- and an ID finds in it exactly what the map has.
pub list_lem :
    (s : Store)
    → Coherent s
    → IsSorted (list s)
      × (length (list s) ≡ length (values s.entries))
      × ((id : String) → find_by id_of id (list s) ≡ lookup id s.entries)
unfolding list
list_lem s c =
    let keyed =
      λ (id : String) (a : Entry) (h : lookup id s.entries ≡ some a). (c.indexed id a h).0 in
    (
      sort_by_id-IsSorted (values s.entries),
      length-sort_by_id (values s.entries),
      λ id.
          find_by-sort id_of id (values s.entries) (UniqueBy-id s.entries c.distinct keyed)
          ∙ find_by-id id s.entries c.distinct keyed,
    )

get-removed :
    (id j : String) (e : Entry) (s : Store)
    → get j (removed id e s) ≡ (if str_eq id j then err not_found else get j s)
unfolding get
get-removed id j e s = elim (Bool-cases (str_eq id j)) [
  | inl same ↦ rw (lookup-erase id j s.entries, get) (rw (same, get) refl)
  | inr other ↦ rw (lookup-erase id j s.entries, get) (rw (other, get) refl)
]

module _ {Disk Data : Type 0} (env : Env Disk Data) where
  -- What `Fetch` promises: the entry that it gives is the requested model's, `Get` finds it, and
  -- the next lookup by the key leads to it; a failure promises nothing here.
  abbrev pub IsStaged : FetchRequest → After env Entry → Type 0
  IsStaged req (w', ok e) =
      (key_of e ≡ key_for req.source req.model_id)
      × (get e.id w'.store ≡ ok e)
      × (lookup_by_key (key_for req.source req.model_id) w'.store ≡ some e)
  IsStaged req (w', err x) = Unit {0}

  -- How `Fetch` uses an entry that it finds: the entry's time of last use is set, the rest is
  -- kept, and the disk sees one save.
  reuse_lem :
      (e : Entry) (now : ℕ) (w : World Disk) (d : Disk)
      → lookup e.id w.store.entries ≡ some e
      → save_index env (touched e.id e now w.store) w.disk ≡ (d, ok tt)
      → reuse env e now w ≡ (
        record { store = touched e.id e now w.store; disk = d },
        ok (record e { last_used_at = now }),
      )
  unfolding reuse mark_used
  reuse_lem e now w d there saved =
      ground (arith, lookup-insert_self e.id (record e { last_used_at = now }) w.store.entries)

  reuse_failed :
      (e : Entry) (now : ℕ) (w : World Disk) (x : Error)
      → lookup e.id w.store.entries ≡ some e
      → (save_index env (touched e.id e now w.store) w.disk).1 ≡ err x
      → (reuse env e now w).1 ≡ err x
  unfolding reuse mark_used
  reuse_failed e now w x there failed = ground arith

  IsStaged-err :
      (req : FetchRequest) (r : After env Entry) (x : Error) → r.1 ≡ err x → IsStaged req r
  IsStaged-err req (w', ok e) x h = absurd (ground arith)
  IsStaged-err req (w', err y) x h = tt

  reuse-IsStaged :
      (req : FetchRequest) (e : Entry) (now : ℕ) (w : World Disk)
      → Coherent w.store
      → lookup_by_key (key_for req.source req.model_id) w.store ≡ some e
      → IsStaged req (reuse env e now w)
  unfolding get lookup_by_key
  reuse-IsStaged req e now w c found =
      let (there, same, by_key) =
        lookup_by_key-eq-some w.store c (key_for req.source req.model_id) e found in
      let saved = save_index env (touched e.id e now w.store) w.disk in
      elim (Result-cases saved.1) [
        | inl (tt, done) ↦ rw (reuse_lem e now w saved.0 there (ap (λ r. (saved.0, r)) done)) (
          same,
          ground (arith, lookup-insert_self e.id (record e { last_used_at = now }) w.store.entries),
          ground (
            arith,
            by_key,
            lookup-insert_self e.id (record e { last_used_at = now }) w.store.entries,
          ),
        )
        | inr (x, failed) ↦
            IsStaged-err req (reuse env e now w) x (reuse_failed e now w x there failed)
      ]

  commit-IsStaged :
      (req : FetchRequest) (e : Entry) (w : World Disk)
      → key_of e ≡ key_for req.source req.model_id
      → IsStaged req (commit env e w)
  unfolding get lookup_by_key
  commit-IsStaged req e w same =
      commit_cases env (IsStaged req) e w
        (λ d h. (
          same,
          ground (arith, lookup-insert_self e.id e w.store.entries),
          ground (
            arith,
            lookup-insert_self (key_of e) e.id w.store.by_key,
            lookup-insert_self e.id e w.store.entries,
          ),
        ))
        (λ d x. tt)

  -- From coherent maps, an entry that `Fetch` gives is the requested model's; `Get` finds it under
  -- its ID, and the key of the request leads to it.
  pub fetch-IsStaged :
      (req : FetchRequest) (now : ℕ) (w : World Disk)
      → Coherent w.store
      → IsStaged req (fetch env req now w)
  fetch-IsStaged req now w c =
      fetch_cases env (IsStaged req) req now w (λ x. tt)
        (λ e found. reuse-IsStaged req e now w c found)
        λ run missing.
          do_fetch_cases env (IsStaged req) req run now w (λ d x. tt)
            λ d size files found.
              commit-IsStaged req (new_entry env req w.store now size files found)
                (record w { disk = d }) refl

  checked_of_fetch :
      (req : FetchRequest) (now : ℕ) (w : World Disk) (e : Entry)
      → (fetch env req now w).1 ≡ ok e
      → (run : Fetcher Disk) × (checked env req ≡ ok run)
  unfolding fetch
  checked_of_fetch req now w e h = elim (Result-cases (checked env req)) [
    | inl found ↦ found
    | inr (x, refused) ↦ absurd (ground arith)
  ]

  -- From coherent maps: after a `Fetch` that succeeds, a second one for the same request whose save
  -- succeeds gives the same entry with a new time of last use. It runs no fetcher: the disk sees
  -- the save alone.
  pub fetch_again :
      (req : FetchRequest) (now later : ℕ) (w w' : World Disk) (e : Entry) (d : Disk)
      → Coherent w.store
      → fetch env req now w ≡ (w', ok e)
      → save_index env (touched e.id e later w'.store) w'.disk ≡ (d, ok tt)
      → fetch env req later w' ≡ (
        record { store = touched e.id e later w'.store; disk = d },
        ok (record e { last_used_at = later }),
      )
  unfolding fetch get
  fetch_again req now later w w' e d c done saved =
      let (run, passed) = checked_of_fetch req now w e (ap (λ r. r.1) done) in
      let staged : IsStaged req (w', ok e) =
        subst (IsStaged req) done (fetch-IsStaged req now w c) in
      rw (passed, fetch)
        (rw (staged.2, fetch) (reuse_lem e later w' d (ground (arith, staged.1)) saved))

  -- What `Delete` promises where it succeeds.
  abbrev pub IsDeleted : String → Store → After env (Unit {0}) → Type 0
  IsDeleted id s (w', ok _) =
      (e : Entry) × (lookup id s.entries ≡ some e)
      × (lookup_by_key (key_of e) w'.store ≡ none)
      × ((k : String)
          → lookup k w'.store.by_key ≡ (if str_eq (key_of e) k then none else lookup k s.by_key))
      × ((j : String) → get j w'.store ≡ (if str_eq id j then err not_found else get j s))
  IsDeleted id s (w', err x) = Unit {0}

  -- A `Delete` that succeeds removes an entry that was there: its key leads nowhere, every other key
  -- leads to the ID that it led to, `Get` no longer finds its ID, and every other ID gives what it gave.
  pub delete-IsDeleted : (id : String) (w : World Disk) → IsDeleted id w.store (delete env id w)
  unfolding get lookup_by_key
  delete-IsDeleted id w =
      delete_cases env (IsDeleted id w.store) id w (λ h. tt) (λ d x. tt)
        λ e d there.
          drop_entry_cases env (IsDeleted id w.store) id e (record w { disk = d })
            (λ d' h. (
              e,
              there,
              rw (lookup-erase_self (key_of e) w.store.by_key, lookup_by_key),
              λ k. lookup-erase (key_of e) k w.store.by_key,
              λ j. get-removed id j e w.store,
            ))
            (λ d' x. tt)
