-- ===== src/Storage/Store/Coherence.antt =====
-- The operations of `Store` in internal/storage/store.go and the agreement of its two maps, on
-- every branch, the roll-backs included.
use bonnie.Prelude.{ℕ, String, ◌≡◌, refl, none, some, arith, inl, inr, Option-cases}
use bonnie.Prelude.Maps.{lookup}
use bonnie.Prelude.Results.{ok, err}
use bonnie.Storage.Env.{Entry, FetchRequest, Env}
use bonnie.Storage.Index.{Store, key_of, key_for, entry_id}
use bonnie.Storage.Index.Coherent.{Coherent, SameMaps}
use bonnie.Storage.Store.Maps.{
  lookup_by_key-Coherent, touched-Coherent, added-Coherent, removed-added, removed-added-Coherent,
  removed-Coherent, restored-removed, restored-removed-Coherent,
}
use bonnie.Storage.Store.Cases.{
  commit_cases, drop_entry_cases, do_fetch_cases, fetch_cases, delete_cases,
}
use bonnie.Storage.Store.{World, After, lookup_by_key, new_entry, mark_used, reuse, fetch, delete}

module _ {Disk Data : Type 0} (env : Env Disk Data) where
  -- No other model in the store has the short digest of the requested one.
  abbrev pub HasClearId : FetchRequest → Store → Type 0
  HasClearId req s =
      (e : Entry)
      → lookup (entry_id env req.source req.model_id) s.entries ≡ some e
      → key_of e ≡ key_for req.source req.model_id

  abbrev CoherentAfter : {A : Type 0} → After env A → Type 0
  CoherentAfter r = Coherent r.0.store

  pub new_entry-IsNew :
      (req : FetchRequest) (s : Store)
      → Coherent s
      → HasClearId req s
      → lookup_by_key (key_for req.source req.model_id) s ≡ none
      → (lookup (entry_id env req.source req.model_id) s.entries ≡ none)
        × (lookup (key_for req.source req.model_id) s.by_key ≡ none)
  new_entry-IsNew req s c clear missing =
      let no_key = lookup_by_key-Coherent s c (key_for req.source req.model_id) missing in
      (
        elim (Option-cases (lookup (entry_id env req.source req.model_id) s.entries)) [
          | inl no_id ↦ no_id
          | inr (e, there) ↦ ground (
            arith,
            c.indexed (entry_id env req.source req.model_id) e there,
            clear e there,
            no_key,
          )
        ],
        no_key,
      )

  -- `markUsed` keeps coherent maps coherent, whether or not the ID is known and the save succeeds.
  pub mark_used-Coherent :
      (id : String) (now : ℕ) (w : World Disk)
      → Coherent w.store
      → Coherent (mark_used env id now w).0.store
  unfolding mark_used
  mark_used-Coherent id now w c = elim (Option-cases (lookup id w.store.entries)) [
    | inl h ↦ rw (h, mark_used) c
    | inr (e, h) ↦ rw (h, mark_used) (touched-Coherent w.store id e now h c)
  ]

  -- `Fetch` keeps coherent maps coherent, whatever the fetcher and the disk answer, if the short
  -- digest of the request is no other stored model's.
  pub fetch-Coherent :
      (req : FetchRequest) (now : ℕ) (w : World Disk)
      → Coherent w.store
      → HasClearId req w.store
      → Coherent (fetch env req now w).0.store
  unfolding reuse
  fetch-Coherent req now w c clear =
      fetch_cases env CoherentAfter req now w (λ x. c) (λ e there. mark_used-Coherent e.id now w c)
        λ run missing.
          let new = new_entry-IsNew req w.store c clear missing in
          do_fetch_cases env CoherentAfter req run now w (λ d x. c)
            λ d size files found.
              let e = new_entry env req w.store now size files found in
              commit_cases env CoherentAfter e (record w { disk = d })
                (λ d' h. added-Coherent w.store e new c)
                (λ d' x. removed-added-Coherent w.store e new c)

  -- `Delete` keeps coherent maps coherent, on every branch.
  pub delete-Coherent :
      (id : String) (w : World Disk) → Coherent w.store → Coherent (delete env id w).0.store
  delete-Coherent id w c =
      delete_cases env CoherentAfter id w (λ h. c) (λ d x. c)
        λ e d there.
          drop_entry_cases env CoherentAfter id e (record w { disk = d })
            (λ d' h. removed-Coherent w.store id e there c)
            (λ d' x. restored-removed-Coherent w.store id e there c)

  -- What an operation that fails leaves: the maps of before, as every lookup sees them.
  abbrev pub RolledBack : {A : Type 0} → Store → After env A → Type 0
  RolledBack s (w', ok _) = Unit {0}
  RolledBack s (w', err _) = SameMaps w'.store s

  -- From coherent maps, a `Delete` that fails, at the lookup, the removal of the files or the save,
  -- leaves both maps as they were, as every lookup sees them.
  pub delete_rolls_back :
      (id : String) (w : World Disk) → Coherent w.store → RolledBack w.store (delete env id w)
  delete_rolls_back id w c =
      delete_cases env (RolledBack w.store) id w (λ h. same) (λ d x. same)
        λ e d there.
          drop_entry_cases env (RolledBack w.store) id e (record w { disk = d }) (λ d' h. tt)
            (λ d' x. restored-removed w.store id e there c)
    where
      same : SameMaps w.store w.store
      same = (λ j. refl, λ k. refl)

  -- From coherent maps, and if the short digest of the request is no other stored model's: a
  -- `Fetch` of a model that is not in the store, if it fails at any step, leaves both maps as they
  -- were, as every lookup sees them.
  pub fetch_rolls_back :
      (req : FetchRequest) (now : ℕ) (w : World Disk)
      → Coherent w.store
      → HasClearId req w.store
      → lookup_by_key (key_for req.source req.model_id) w.store ≡ none
      → RolledBack w.store (fetch env req now w)
  fetch_rolls_back req now w c clear missing =
      fetch_cases env (RolledBack w.store) req now w (λ x. same)
        (λ e there. absurd (ground (arith, there, missing)))
        λ run _.
          do_fetch_cases env (RolledBack w.store) req run now w (λ d x. same)
            λ d size files found.
              let e = new_entry env req w.store now size files found in
              commit_cases env (RolledBack w.store) e (record w { disk = d }) (λ d' h. tt)
                (λ d' x. removed-added w.store e (new_entry-IsNew req w.store c clear missing))
    where
      same : SameMaps w.store w.store
      same = (λ j. refl, λ k. refl)
