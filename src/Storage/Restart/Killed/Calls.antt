-- ===== src/Storage/Restart/Killed/Calls.antt =====
-- `Fetch` and `Delete` of internal/storage/store.go in a process that is killed.
use bonnie.Prelude.{
  ℕ, String, ◌≡◌, refl, sym, ◌∙◌, subst, none, List, str_eq, inl, inr, Bool-cases, Option-cases,
}
use bonnie.Prelude.Maps.{lookup}
use bonnie.Prelude.Results.{ok, Result-cases}
use bonnie.Storage.Env.{Entry, FetchRequest, Fetcher, Env, OsLaws}
use bonnie.Storage.Restart.Passes.{last_or}
use bonnie.Storage.Restart.Killed.Lasts.{fetch_passes-last, delete_passes-last}
use bonnie.Storage.Index.{Store, key_for, save_index}
use bonnie.Storage.Store.{
  World, touched, added, new_entry, dest_of, lookup_by_key, measure_tree, checked, mark_used, reuse,
  commit, do_fetch, flight, fetch, delete,
}
use bonnie.Storage.Store.Maps.{touched-Coherent, added-Coherent}
use bonnie.Storage.Store.Coherence.{new_entry-IsNew}
use bonnie.Storage.Restart.Operations.{clear_id, managed_dest, if-keeps}
use bonnie.Storage.Restart.{SameIndex, IsSound, Laws}
use bonnie.Storage.Restart.Killed.{
  AllRestart, before, save_passes-AllRestart, delete_passes, delete_passes_to, reuse_passes,
  do_fetch_passes, fetch_passes,
}

module _ {Disk Data : Type 0} (env : Env Disk Data) (dir : String)
    (Known : String → String → Type 0) (laws : Laws env dir Known) (w : World Disk)
    (sound : IsSound env dir Known w) where
  open env use {os, filepath}

  reuse_passes_to :
      (existing : Entry) (now : ℕ) (s' : Store)
      → (reuse env existing now w).0.store ≡ s'
      → AllRestart env dir w.store s' (reuse_passes env existing now w)
  unfolding reuse_passes reuse
  reuse_passes_to existing now s' ends = elim (Option-cases (lookup existing.id w.store.entries)) [
    | inl h ↦ rw (h, reuse_passes) (before env dir Known laws w sound s' w.disk refl, tt)
    | inr (e, h) ↦
        let left : touched existing.id e now w.store ≡ (reuse env existing now w).0.store =
          rw (h, mark_used) refl in
        rw (h, reuse_passes)
          (save_passes-AllRestart env dir Known laws w sound (touched existing.id e now w.store) s'
            w.disk sound.at (touched-Coherent w.store existing.id e now h sound.coherent) refl
            (λ k. left ∙ ends))
  ]

  committed :
      (e : Entry) (d : Disk)
      → (save_index env (added e w.store) d).1 ≡ ok tt
      → added e w.store ≡ (commit env e (record w { disk = d })).0.store
  unfolding commit
  committed e d saved = rw (saved, commit) refl

  do_fetch_passes_to :
      (req : FetchRequest) (run : Fetcher Disk) (now : ℕ) (s' : Store)
      → req.dest ≡ ""
      → Known req.source req.model_id
      → checked env req ≡ ok run
      → lookup_by_key (key_for req.source req.model_id) w.store ≡ none
      → (do_fetch env req run now w).0.store ≡ s'
      → AllRestart env dir w.store s' (do_fetch_passes env req run now w)
  unfolding do_fetch_passes do_fetch
  do_fetch_passes_to req run now s' managed known passed new ends =
      let home = managed_dest env dir Known laws w sound req managed in
      let here = before env dir Known laws w sound s' in
      let d₁ = os.mkdir_all (dest_of env req w.store) w.disk in
      let d₂ = run req (dest_of env req w.store) d₁.0 in
      let q₁ : SameIndex env dir w.disk d₁.0 =
        subst (λ dest. SameIndex env dir w.disk (os.mkdir_all dest w.disk).0) (sym home)
          (laws.mkdir_all-index req.source req.model_id w.disk known) in
      let q₂ : SameIndex env dir w.disk d₂.0 =
        subst (λ dest. SameIndex env dir w.disk (run req dest d₁.0).0) (sym home)
          (laws.fetch-index req run d₁.0 known passed ∙ q₁) in
      let q₃ =
        if-keeps (λ d. SameIndex env dir w.disk d) (str_eq req.dest "") _ d₂.0
          (subst (λ dest. SameIndex env dir w.disk (os.remove_all dest d₂.0).0) (sym home)
            (laws.remove_all-index req.source req.model_id d₂.0 known ∙ q₂))
          q₂ in
      elim (Bool-cases d₁.1) [
        | inr refused ↦ rw (refused, do_fetch_passes) (here w.disk refl, (here d₁.0 q₁, tt))
        | inl made ↦ elim (Option-cases d₂.1) [
          | inl failed ↦
              rw (made, do_fetch_passes)
                (rw (failed, do_fetch_passes)
                  (here w.disk refl, (here d₁.0 q₁, (here d₂.0 q₂, (here _ q₃, tt)))))
          | inr (files, fetched) ↦
              elim (Option-cases (measure_tree (os.walk_dir (dest_of env req w.store) d₂.0))) [
                | inl lost ↦
                    rw (made, do_fetch_passes)
                      (rw (fetched, do_fetch_passes)
                        (rw (lost, do_fetch_passes)
                          (here w.disk refl, (here d₁.0 q₁, (here d₂.0 q₂, tt)))))
                | inr ((size, found), measured) ↦
                    let e = new_entry env req w.store now size files found in
                    let fresh_entry =
                      new_entry-IsNew env req w.store sound.coherent
                        (clear_id env dir Known laws w sound req known) new in
                    let left : (commit env e (record w { disk = d₂.0 })).0.store
                        ≡ (do_fetch env req run now w).0.store =
                      rw (made, do_fetch) (rw (fetched, do_fetch) (rw (measured, do_fetch) refl)) in
                    rw (made, do_fetch_passes)
                      (rw (fetched, do_fetch_passes)
                        (rw (measured, do_fetch_passes)
                          (
                            here w.disk refl,
                            (
                              here d₁.0 q₁,
                              (
                                here d₂.0 q₂,
                                save_passes-AllRestart env dir Known laws w sound (added e w.store)
                                    s' d₂.0 sound.at
                                    (added-Coherent w.store e fresh_entry sound.coherent) q₂
                                    (λ k. committed e d₂.0 k ∙ left ∙ ends),
                              ),
                            ),
                          )))
              ]
        ]
      ]

  fetch_passes_to :
      (req : FetchRequest) (now : ℕ) (s' : Store)
      → req.dest ≡ ""
      → Known req.source req.model_id
      → (fetch env req now w).0.store ≡ s'
      → AllRestart env dir w.store s' (fetch_passes env req now w)
  unfolding fetch_passes fetch
  fetch_passes_to req now s' managed known ends =
      let key = key_for req.source req.model_id in
      elim (Result-cases (checked env req)) [
        | inr (x, h) ↦ rw (h, fetch_passes) (before env dir Known laws w sound s' w.disk refl, tt)
        | inl (run, h) ↦ elim (Option-cases (lookup_by_key key w.store)) [
          | inr (e, there) ↦
              let left : (reuse env e now w).0.store ≡ (fetch env req now w).0.store =
                rw (h, fetch) (rw (there, fetch) refl) in
              rw (h, fetch_passes)
                (rw (there, fetch_passes) (reuse_passes_to e now s' (left ∙ ends)))
          | inl new ↦
              let left : (do_fetch env req run now w).0.store ≡ (fetch env req now w).0.store =
                rw (h, fetch) (rw (new, fetch) (rw (new, flight) refl)) in
              rw (h, fetch_passes)
                (rw (new, fetch_passes)
                  (do_fetch_passes_to req run now s' managed known h new (left ∙ ends)))
        ]
      ]

  -- The disks end with the one that an operation leaves, and each of them leads a new start to the
  -- models of before or to those of after.
  abbrev pub IsPassed : World Disk → List Disk → Type 0
  IsPassed after ds = AllRestart env dir w.store after.store ds × (last_or w.disk ds ≡ after.disk)

  -- Under the laws of the store over its lives, from a store in order whose models a new start would
  -- find, for a `Fetch` of a known model into the store's own directory, and for any `Delete`: if
  -- the process is killed between any two of the calls that the operation makes of the file system
  -- and of the fetcher, then the next start finds a whole index with the models of before, or with
  -- those that the operation would have left, but for times of last use. The last of these disks is
  -- the one that the operation leaves.
  pub killed-IsPassed :
      (req : FetchRequest) (now : ℕ) (id : String)
      → req.dest ≡ ""
      → Known req.source req.model_id
      → IsPassed (fetch env req now w).0 (fetch_passes env req now w)
        × IsPassed (delete env id w).0 (delete_passes env id w)
  killed-IsPassed req now id managed known =
      let os_laws =
        subst (λ x. OsLaws os (filepath.join x "index.json")) (sym sound.at) laws.os_laws in
      (
        (
          fetch_passes_to req now (fetch env req now w).0.store managed known refl,
          fetch_passes-last env w os_laws req now,
        ),
        (
          delete_passes_to env dir Known laws w sound id (delete env id w).0.store refl,
          delete_passes-last env w os_laws id,
        ),
      )
