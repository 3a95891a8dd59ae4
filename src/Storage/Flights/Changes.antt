-- ===== src/Storage/Flights/Changes.antt =====
-- internal/storage/store.go: how one locked piece of some call changes the two maps of the store.
use bonnie.Prelude.{
  ℕ, String, ◌≡◌, refl, ◌≢◌, sym, ◌∙◌, Option, none, some, arith, inl, inr, Option-cases, eq_iff,
}
use bonnie.Prelude.Maps.{lookup, lookup-insert, lookup-erase, lookup-insert_ne}
use bonnie.Storage.Env.{Entry, FetchRequest, Env}
use bonnie.Storage.Index.{Store, key_of, entry_id}
use bonnie.Storage.Index.Coherent.{UniqueKeys, Coherent, SameMaps, Coherent-SameMaps}
use bonnie.Storage.Store.Maps.{
  IsNew, touched-Coherent, added-Coherent, removed-Coherent, removed-added, removed-added-Coherent,
  restored-removed, restored-removed-Coherent,
}
use bonnie.Storage.Store.Cases.{commit_cases, drop_entry_cases, delete_cases}
use bonnie.Storage.Store.Coherence.{HasClearId}
use bonnie.Storage.Flights.{key_at}
use bonnie.Storage.Store.{World, touched, added, removed, mark_used, commit, delete}

module _ {Disk Data : Type 0} (env : Env Disk Data) (requests : ℕ → FetchRequest) where
  abbrev pub id_at : ℕ → String
  id_at i = entry_id env (requests i).source (requests i).model_id

  -- The requests of all callers have short digests of their own, unless they are of one model.
  abbrev pub ClearIds : Type 0
  ClearIds = (i j : ℕ) → id_at i ≡ id_at j → key_at requests i ≡ key_at requests j

  -- The entry is of the model that the caller requests.
  abbrev pub IsFor : ℕ → Entry → Type 0
  IsFor i e = (e.id ≡ id_at i) × (key_of e ≡ key_at requests i)

  -- A change of the maps; an entry is added by a caller that requests it.
  pub data Change : Option ℕ → Store → Store → Type 0 where
    alike : {who : Option ℕ} {s t : Store} → SameMaps t s → UniqueKeys t.entries → Change who s t
    touch :
        {who : Option ℕ} {s : Store} (id : String) (e : Entry) (now : ℕ)
        → lookup id s.entries ≡ some e
        → Change who s (touched id e now s)
    add : {s : Store} (i : ℕ) (e : Entry) → IsFor i e → IsNew e s → Change (some i) s (added e s)
    drop :
        {who : Option ℕ} {s : Store} (id : String) (e : Entry)
        → lookup id s.entries ≡ some e
        → Change who s (removed id e s)

  pub Change-Coherent : {who : Option ℕ} {s t : Store} → Change who s t → Coherent s → Coherent t
  Change-Coherent {s} {t} (alike same unique) c = Coherent-SameMaps s t unique same c
  Change-Coherent {s} (touch id e now there) c = touched-Coherent s id e now there c
  Change-Coherent {s} (add i e mine new) c = added-Coherent s e new c
  Change-Coherent {s} (drop id e there) c = removed-Coherent s id e there c

  pub Change-HasClearId :
      {who : Option ℕ} {s t : Store}
      → ClearIds
      → Change who s t
      → (j : ℕ) → HasClearId env (requests j) s
      → HasClearId env (requests j) t
  Change-HasClearId clear (alike same unique) j h e there = h e (sym (same.0 (id_at j)) ∙ there)
  Change-HasClearId {s = s} clear (touch id e now held) j h a there = ground (
    arith,
    lookup-insert id (id_at j) (record e { last_used_at = now }) s.entries,
    h e,
    h a,
    eq_iff id (id_at j),
  )
  Change-HasClearId {s = s} clear (add i e mine new) j h a there =
      ground
        (arith, lookup-insert e.id (id_at j) e s.entries, h a, clear i j, eq_iff e.id (id_at j))
  Change-HasClearId {s = s} clear (drop id e held) j h a there =
      ground (arith, lookup-erase id (id_at j) s.entries, h a)

  -- The change is nobody's, or of a caller that requests another model.
  abbrev pub Apart : Option ℕ → ℕ → Type 0
  Apart none j = Unit
  Apart (some i) j = key_at requests i ≢ key_at requests j

  -- A key that is absent stays so, whatever a caller of another model does.
  pub Change-absent :
      {who : Option ℕ} {s t : Store}
      → Change who s t
      → (j : ℕ) → Apart who j
      → lookup (key_at requests j) s.by_key ≡ none
      → lookup (key_at requests j) t.by_key ≡ none
  Change-absent (alike same unique) j apart h = same.1 (key_at requests j) ∙ h
  Change-absent (touch id e now there) j apart h = h
  Change-absent {s = s} (add i e mine new) j apart h =
      lookup-insert_ne (key_of e) (key_at requests j) e.id s.by_key (λ q. apart (sym mine.1 ∙ q))
      ∙ h
  Change-absent {s = s} (drop id e there) j apart h =
      ground (arith, lookup-erase (key_of e) (key_at requests j) s.by_key)

  pub mark_used-Change :
      {who : Option ℕ} (id : String) (now : ℕ) (w : World Disk)
      → Coherent w.store
      → Change who w.store (mark_used env id now w).0.store
  unfolding mark_used
  mark_used-Change id now w c = elim (Option-cases (lookup id w.store.entries)) [
    | inl h ↦ rw (h, mark_used) (alike ((λ j. refl), (λ k. refl)) c.distinct)
    | inr (e, h) ↦ rw (h, mark_used) (touch id e now h)
  ]

  pub delete_change :
      {who : Option ℕ} (id : String) (w : World Disk)
      → Coherent w.store
      → Change who w.store (delete env id w).0.store
  delete_change {who} id w c =
      delete_cases env (λ r. Change who w.store r.0.store) id w (λ h. same) (λ d x. same)
        λ e d there.
          drop_entry_cases env (λ r. Change who w.store r.0.store) id e (record w { disk = d })
            (λ d' h. drop id e there)
            (λ d' x.
              alike (restored-removed w.store id e there c)
                (restored-removed-Coherent w.store id e there c).distinct)
    where
      same : Change who w.store w.store
      same = alike ((λ j. refl), (λ k. refl)) c.distinct

  pub commit_change :
      (i : ℕ) (e : Entry) (w : World Disk)
      → Coherent w.store
      → IsFor i e
      → IsNew e w.store
      → Change (some i) w.store (commit env e w).0.store
  commit_change i e w c mine new =
      commit_cases env (λ r. Change (some i) w.store r.0.store) e w (λ d h. add i e mine new)
        (λ d x.
          alike (removed-added w.store e new) (removed-added-Coherent w.store e new c).distinct)
