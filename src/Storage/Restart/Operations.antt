-- ===== src/Storage/Restart/Operations.antt =====
-- The operations of `Store` in internal/storage/store.go, and the models that a new start finds.
use bonnie.Prelude.{
  ℕ, String, ◌≡◌, refl, sym, ◌∙◌, ap, subst, some, str_eq, arith, Bool, true, false, Bool-cases,
  Option-cases, inl, inr, if◌then◌else◌,
}
use bonnie.Prelude.Maps.{Map, lookup, insert, erase, lookup-insert, lookup-erase}
use bonnie.Prelude.Results.{ok, Result-cases}
use bonnie.Storage.Env.{Entry, FetchRequest, Env}
use bonnie.Storage.Index.{Store, entry_id, save_index}
use bonnie.Storage.Index.Coherent.{Coherent}
use bonnie.Storage.Store.{
  World, After, touched, added, removed, restored, new_entry, dest_of, mark_used, reuse, fetch,
  delete, commit, drop_entry,
}
use bonnie.Storage.Store.Maps.{
  touched-Coherent, added-Coherent, removed-added, removed-added-Coherent, removed-Coherent,
  restored-removed, restored-removed-Coherent, IsNew,
}
use bonnie.Storage.Store.Cases.{
  commit_ends, drop_entry_ends, do_fetch_ends, fetch_ends, delete_ends,
}
use bonnie.Storage.Store.Coherence.{HasClearId, new_entry-IsNew}
use bonnie.Storage.Restart.Models.{Alike, Alike-sym, SameMaps-Alike, touched-Alike}
use bonnie.Storage.Restart.{
  SameIndex, IsNamed, AllNamed, IsSound, Laws, kept-Restarts, saved-Restarts, unsaved-SameIndex,
}

pub if-keeps {ℓ} :
    {A : Type 0} (Q : A → Type ℓ) (b : Bool) (x y : A) → Q x → Q y → Q (if b then x else y)
if-keeps Q true x y qx qy = qx
if-keeps Q false x y qx qy = qy

module _ {Disk Data : Type 0} (env : Env Disk Data) (dir : String)
    (Known : String → String → Type 0) where
  open env use {os, filepath}

  insert-AllNamed :
      (key : String) (e : Entry) (m : Map Entry)
      → IsNamed env dir Known e
      → AllNamed env dir Known m
      → AllNamed env dir Known (insert key e m)
  insert-AllNamed key e m named all j a h = elim (Bool-cases (str_eq key j)) [
    | inl hit ↦
        let same : e ≡ a = ground (arith, lookup-insert key j e m) in
        subst (IsNamed env dir Known) same named
    | inr miss ↦ all j a (ground (arith, lookup-insert key j e m))
  ]

  erase-AllNamed :
      (key : String) (m : Map Entry)
      → AllNamed env dir Known m
      → AllNamed env dir Known (erase key m)
  erase-AllNamed key m all j a h = all j a (ground (arith, lookup-erase key j m))

  module _ (laws : Laws env dir Known) (w : World Disk) (sound : IsSound env dir Known w) where
    -- What is left when a save of changed maps fails and the maps are put back, or are as they were
    -- but for a time of last use.
    kept-IsSound :
        (s : Store) (d : Disk)
        → s.dir ≡ dir
        → Coherent s
        → AllNamed env dir Known s.entries
        → SameIndex env dir w.disk d
        → Alike w.store s
        → IsSound env dir Known (record { store = s; disk = d })
    kept-IsSound s d at c named same alike = record {
      at = at;
      coherent = c;
      named = named;
      restarts = kept-Restarts env dir w.store s w.disk d same alike sound.restarts;
    }

    saved-IsSound :
        (s : Store) (d d' : Disk)
        → s.dir ≡ dir
        → Coherent s
        → AllNamed env dir Known s.entries
        → save_index env s d ≡ (d', ok tt)
        → IsSound env dir Known (record { store = s; disk = d' })
    saved-IsSound s d d' at c named saved = record {
      at = at;
      coherent = c;
      named = named;
      restarts = saved-Restarts env dir laws.os_laws laws.codec_laws s d d' at c saved;
    }

    -- Only the disk has changed, and not the index.
    pub same-IsSound :
        (d : Disk) → SameIndex env dir w.disk d → IsSound env dir Known (record w { disk = d })
    same-IsSound d same =
        kept-IsSound w.store d sound.at sound.coherent sound.named same (λ id. refl, λ k. refl)

    pub mark_used-IsSound :
        (id : String) (now : ℕ) → IsSound env dir Known (mark_used env id now w).0
    unfolding mark_used
    mark_used-IsSound id now = elim (Option-cases (lookup id w.store.entries)) [
      | inl h ↦ rw (h, mark_used) sound
      | inr (e, h) ↦
          let s = touched id e now w.store in
          let saved = save_index env s w.disk in
          let c = touched-Coherent w.store id e now h sound.coherent in
          let named =
            insert-AllNamed id (record e { last_used_at = now }) w.store.entries
              (sound.named id e h) sound.named in
          elim (Result-cases saved.1) [
            | inl (tt, done) ↦
                rw (h, mark_used)
                  (saved-IsSound s w.disk saved.0 sound.at c named (ap (λ r. (saved.0, r)) done))
            | inr (x, failed) ↦
                rw (h, mark_used)
                  (kept-IsSound s saved.0 sound.at c named
                    (unsaved-SameIndex env dir laws.os_laws s w.disk saved.0 x sound.at
                      (ap (λ r. (saved.0, r)) failed))
                    (touched-Alike w.store id e now h))
          ]
    ]

    reuse-IsSound : (e : Entry) (now : ℕ) → IsSound env dir Known (reuse env e now w).0
    unfolding reuse
    reuse-IsSound e now = mark_used-IsSound e.id now

    pub clear_id : (req : FetchRequest) → Known req.source req.model_id → HasClearId env req w.store
    clear_id req known e there =
        let (known', id, path) = sound.named _ e there in
        laws.distinct e.source e.model_id req.source req.model_id known' known
          (sym id ∙ (sound.coherent.indexed _ e there).0)

    pub managed_dest :
        (req : FetchRequest)
        → req.dest ≡ ""
        → dest_of env req w.store ≡ filepath.join dir (entry_id env req.source req.model_id)
    managed_dest req managed =
        rw managed (ap (λ d. filepath.join d (entry_id env req.source req.model_id)) sound.at)

    commit-IsSound :
        (e : Entry) (d : Disk)
        → SameIndex env dir w.disk d
        → IsNamed env dir Known e
        → IsNew e w.store
        → IsSound env dir Known (commit env e (record w { disk = d })).0
    commit-IsSound e d same named new =
        let all = insert-AllNamed e.id e w.store.entries named sound.named in
        let s' = removed e.id e (added e w.store) in
        commit_ends env (λ r. IsSound env dir Known r.0) e (record w { disk = d })
          (λ d' saved.
            saved-IsSound (added e w.store) d d' sound.at
              (added-Coherent w.store e new sound.coherent) all saved)
          (λ d' x failed.
            kept-IsSound s' d' sound.at (removed-added-Coherent w.store e new sound.coherent)
              (erase-AllNamed e.id (added e w.store).entries all)
              (unsaved-SameIndex env dir laws.os_laws (added e w.store) d d' x sound.at failed
                ∙ same)
              (Alike-sym s' w.store (SameMaps-Alike s' w.store (removed-added w.store e new))))

    -- Whatever the fetcher and the file operations answer.
    pub fetch-IsSound :
        (req : FetchRequest) (now : ℕ)
        → req.dest ≡ ""
        → Known req.source req.model_id
        → IsSound env dir Known (fetch env req now w).0
    fetch-IsSound req now managed known =
        let P = λ (r : After env Entry). IsSound env dir Known r.0 in
        let Q = λ (d : Disk). SameIndex env dir w.disk d in
        let home = managed_dest req managed in
        let cleared = λ (d : Disk) (q : Q d).
          (subst (λ dest. Q (os.remove_all dest d).0) (sym home)
            (laws.remove_all-index req.source req.model_id d known ∙ q)) in
        fetch_ends env P req now w (λ x. sound) (λ e there. reuse-IsSound e now)
          λ run passed missing.
            do_fetch_ends env P Q req run now w
              (subst (λ dest. Q (os.mkdir_all dest w.disk).0) (sym home)
                (laws.mkdir_all-index req.source req.model_id w.disk known))
              (λ d q.
                subst (λ dest. Q (run req dest d).0) (sym home)
                  (laws.fetch-index req run d known passed ∙ q))
              (λ d q. if-keeps Q (str_eq req.dest "") _ d (cleared d q) q)
              (λ d x q. same-IsSound d q)
              λ d size files found q.
                let e = new_entry env req w.store now size files found in
                commit-IsSound e d q (known, refl, home)
                  (new_entry-IsNew env req w.store sound.coherent (clear_id req known) missing)

    drop_entry-IsSound :
        (id : String) (e : Entry) (d : Disk)
        → SameIndex env dir w.disk d
        → lookup id w.store.entries ≡ some e
        → IsSound env dir Known (drop_entry env id e (record w { disk = d })).0
    drop_entry-IsSound id e d same there =
        let all = erase-AllNamed id w.store.entries sound.named in
        let s' = restored id e (removed id e w.store) in
        drop_entry_ends env (λ r. IsSound env dir Known r.0) id e (record w { disk = d })
          (λ d' saved.
            saved-IsSound (removed id e w.store) d d' sound.at
              (removed-Coherent w.store id e there sound.coherent) all saved)
          (λ d' x failed.
            kept-IsSound s' d' sound.at
              (restored-removed-Coherent w.store id e there sound.coherent)
              (insert-AllNamed id e (removed id e w.store).entries (sound.named id e there) all)
              (unsaved-SameIndex env dir laws.os_laws (removed id e w.store) d d' x sound.at failed
                ∙ same)
              (Alike-sym s' w.store
                (SameMaps-Alike s' w.store (restored-removed w.store id e there sound.coherent))))

    pub delete-IsSound : (id : String) → IsSound env dir Known (delete env id w).0
    delete-IsSound id =
        delete_ends env (λ r. IsSound env dir Known r.0) (λ d. SameIndex env dir w.disk d) id w refl
          (λ e there.
            let (known, named, path) = sound.named id e there in
            let home = path ∙ ap (filepath.join dir) named in
            subst (λ p. SameIndex env dir w.disk (os.remove_all p w.disk).0) (sym home)
              (laws.remove_all-index e.source e.model_id w.disk known))
          (λ h. sound) (λ d x q. same-IsSound d q)
          (λ e d there q. drop_entry-IsSound id e d q there)
