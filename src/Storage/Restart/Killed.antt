-- ===== src/Storage/Restart/Killed.antt =====
-- A process that is killed between two calls of an operation of internal/storage/store.go: what the
-- next start finds.
pub mod Calls
pub mod Lasts
use bonnie.Prelude.{
  ℕ, String, ◌≡◌, ◌⊎◌, refl, sym, ◌∙◌, ap, subst, true, not, none, some, List, [], ◌∷◌, ◌++◌,
  if◌then◌else◌, str_eq, inl, inr, Bool-cases, Option-cases, All, All-map,
}
use bonnie.Prelude.Maps.{lookup}
use bonnie.Prelude.Results.{Result, ok, err, Result-cases}
use bonnie.Storage.Env.{Entry, FetchRequest, Fetcher, Env, OsLaws, contents}
use bonnie.Storage.Paths.{under_root}
use bonnie.Storage.Index.{
  Store, values, sort_by_id, load_entries, load_index, empty_store, key_for, save_index,
}
use bonnie.Storage.Index.Coherent.{Coherent, Coherent-SameMaps}
use bonnie.Storage.Index.RoundTrip.{load_entries-SameMaps, load_index_of_marshalled}
use bonnie.Storage.Store.{
  World, touched, added, removed, new_entry, dest_of, lookup_by_key, measure_tree, checked, fetch,
  drop_entry, delete,
}
use bonnie.Storage.Store.Maps.{removed-Coherent}
use bonnie.Storage.Restart.Models.{SameMaps-Alike}
use bonnie.Storage.Restart.Passes.{OldOrNew, save_passes, save_passes-OldOrNew}
use bonnie.Storage.Restart.{
  SameIndex, Restarts, IsSound, Laws, index_at, IsLoaded, load_index-IsLoaded, kept-Restarts,
  whole-Restarts,
}

-- The disks between the calls of an operation, the fetcher's run being one call.
module _ {Disk Data : Type 0} (env : Env Disk Data) where
  open env use {os, filepath}

  unfoldable pub delete_passes : String → World Disk → List Disk
  unfolding save_passes
  delete_passes id w = elim (lookup id w.store.entries) [
    | none ↦ w.disk ∷ []
    | some e ↦
        let (d', gone) = os.remove_all e.path w.disk in
        let s' = removed id e w.store in
        w.disk
        ∷ (if not (under_root filepath w.store.dir e.path)
            then save_passes env s' w.disk
            else if not gone
            then d' ∷ []
            else save_passes env s' d')
  ]

  unfoldable pub reuse_passes : Entry → ℕ → World Disk → List Disk
  unfolding save_passes
  reuse_passes existing now w = elim (lookup existing.id w.store.entries) [
    | none ↦ w.disk ∷ []
    | some e ↦ save_passes env (touched existing.id e now w.store) w.disk
  ]

  unfoldable pub do_fetch_passes : FetchRequest → Fetcher Disk → ℕ → World Disk → List Disk
  unfolding save_passes measure_tree
  do_fetch_passes req fetch now w =
      let dest = dest_of env req w.store in
      let (d₁, made) = os.mkdir_all dest w.disk in
      let (d₂, fetched) = fetch req dest d₁ in
      let d₃ = if str_eq req.dest "" then (os.remove_all dest d₂).0 else d₂ in
      w.disk
      ∷ d₁
      ∷ (if not made
          then []
          else d₂ ∷ elim fetched [
            | none ↦ d₃ ∷ []
            | some files ↦ elim (measure_tree (os.walk_dir dest d₂)) [
              | none ↦ []
              | some (size, discovered) ↦
                  let e = new_entry env req w.store now size files discovered in
                  save_passes env (added e w.store) d₂
            ]
          ])

  -- The second look of the flight finds what the first one did.
  unfoldable pub fetch_passes : FetchRequest → ℕ → World Disk → List Disk
  unfolding reuse_passes do_fetch_passes
  fetch_passes req now w = elim (checked env req) [
    | err x ↦ w.disk ∷ []
    | ok fetcher ↦ elim (lookup_by_key (key_for req.source req.model_id) w.store) [
      | some existing ↦ reuse_passes existing now w
      | none ↦ do_fetch_passes req fetcher now w
    ]
  ]

-- Every disk on the way leads a new start to the models of before or to those of after.
module _ {Disk Data : Type 0} (env : Env Disk Data) (dir : String) where
  open env use {os, filepath, codec}

  abbrev pub AllRestart : Store → Store → List Disk → Type 0
  AllRestart s s' ds = All (λ d. Restarts env dir s d ⊎ Restarts env dir s' d) ds

  module _ (Known : String → String → Type 0) (laws : Laws env dir Known) (w : World Disk)
      (sound : IsSound env dir Known w) where
    pub before :
        (s : Store) (d : Disk)
        → SameIndex env dir w.disk d
        → Restarts env dir w.store d ⊎ Restarts env dir s d
    before s d same =
        inl (
          kept-Restarts env dir w.store w.store w.disk d same (λ id. refl, λ k. refl)
            sound.restarts)

    -- A disk that a save of `s` passes through, where a save that succeeds leaves `s'`.
    pass_restarts :
        (s s' : Store) (d x : Disk) (at : s.dir ≡ dir)
        (os_laws : OsLaws os (filepath.join s.dir "index.json"))
        → Coherent s
        → SameIndex env dir w.disk d
        → ((save_index env s d).1 ≡ ok tt → s ≡ s')
        → OldOrNew env s os_laws (save_index env s d).1 d x
        → Restarts env dir w.store x ⊎ Restarts env dir s' x
    pass_restarts s s' d x at os_laws c same done (inl old) = before s' x (
        subst
          (λ y.
            os.read_file (filepath.join y "index.json") x
            ≡ os.read_file (filepath.join y "index.json") d)
          at old
        ∙ same)
    pass_restarts s s' d x at os_laws c same done (inr (saved, b, m, whole)) = inr (
        subst (λ k. Restarts env dir k x) (done saved)
          (whole-Restarts env dir laws.codec_laws s x b at c m
            (subst (λ y. os.read_file (filepath.join y "index.json") x ≡ contents b) at whole)))

    pub save_passes-AllRestart :
        (s s' : Store) (d : Disk)
        → s.dir ≡ dir
        → Coherent s
        → SameIndex env dir w.disk d
        → ((save_index env s d).1 ≡ ok tt → s ≡ s')
        → AllRestart w.store s' (save_passes env s d)
    save_passes-AllRestart s s' d at c same done =
        let os_laws = subst (λ x. OsLaws os (filepath.join x "index.json")) (sym at) laws.os_laws in
        All-map (OldOrNew env s os_laws (save_index env s d).1 d)
          (λ x. Restarts env dir w.store x ⊎ Restarts env dir s' x)
          (λ x h. pass_restarts s s' d x at os_laws c same done h) (save_passes env s d)
          (save_passes-OldOrNew env s os_laws d)

    dropped :
        (id : String) (e : Entry) (d : Disk)
        → (save_index env (removed id e w.store) d).1 ≡ ok tt
        → removed id e w.store ≡ (drop_entry env id e (record w { disk = d })).0.store
    unfolding drop_entry
    dropped id e d saved = rw (saved, drop_entry) refl

    pub delete_passes_to :
        (id : String) (s' : Store)
        → (delete env id w).0.store ≡ s'
        → AllRestart w.store s' (delete_passes env id w)
    unfolding delete_passes delete
    delete_passes_to id s' ends = elim (Option-cases (lookup id w.store.entries)) [
      | inl h ↦ rw (h, delete_passes) (before s' w.disk refl, tt)
      | inr (e, h) ↦
          let s = removed id e w.store in
          let c = removed-Coherent w.store id e h sound.coherent in
          let gone = os.remove_all e.path w.disk in
          let (known, named, path) = sound.named id e h in
          let home = path ∙ ap (filepath.join dir) named in
          let kept : SameIndex env dir w.disk gone.0 =
            subst (λ p. SameIndex env dir w.disk (os.remove_all p w.disk).0) (sym home)
              (laws.remove_all-index e.source e.model_id w.disk known) in
          elim (Bool-cases (under_root filepath w.store.dir e.path)) [
            | inr out ↦
                let left : (drop_entry env id e w).0.store ≡ (delete env id w).0.store =
                  rw (h, delete) (rw (out, delete) refl) in
                rw (h, delete_passes)
                  (rw (out, delete_passes)
                    (
                      before s' w.disk refl,
                      save_passes-AllRestart s s' w.disk sound.at c refl
                          (λ k. dropped id e w.disk k ∙ left ∙ ends),
                    ))
            | inl under ↦ elim (Bool-cases gone.1) [
              | inr stuck ↦
                  rw (h, delete_passes)
                    (rw (under, delete_passes)
                      (rw (stuck, delete_passes)
                        (before s' w.disk refl, (before s' gone.0 kept, tt))))
              | inl clear ↦
                  let left : (drop_entry env id e (record w { disk = gone.0 })).0.store
                      ≡ (delete env id w).0.store =
                    rw (h, delete) (rw (under, delete) (rw (clear, delete) refl)) in
                  rw (h, delete_passes)
                    (rw (under, delete_passes)
                      (rw (clear, delete_passes)
                        (
                          before s' w.disk refl,
                          save_passes-AllRestart s s' gone.0 sound.at c kept
                              (λ k. dropped id e gone.0 k ∙ left ∙ ends),
                        )))
            ]
          ]
    ]
