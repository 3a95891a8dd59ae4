-- ===== src/Storage/Restart/Killed/Lasts.antt =====
-- The disks that the operations of internal/storage/store.go pass through end with the one that
-- they leave.
use bonnie.Prelude.{ℕ, String, ◌≡◌, refl, sym, ◌∙◌, inl, inr, Bool-cases, Option-cases}
use bonnie.Prelude.Maps.{lookup}
use bonnie.Prelude.Results.{Result-cases}
use bonnie.Storage.Env.{Entry, FetchRequest, Fetcher, Env, OsLaws}
use bonnie.Storage.Paths.{under_root}
use bonnie.Storage.Index.{key_for, index_path, save_index}
use bonnie.Storage.Store.{
  World, touched, added, removed, new_entry, dest_of, lookup_by_key, measure_tree, checked,
  mark_used, reuse, commit, do_fetch, flight, fetch, drop_entry, delete,
}
use bonnie.Storage.Restart.Passes.{last_or, save_passes-last}
use bonnie.Storage.Restart.Killed.{delete_passes, reuse_passes, do_fetch_passes, fetch_passes}

module _ {Disk Data : Type 0} (env : Env Disk Data) (w : World Disk)
    (laws : OsLaws env.os (index_path env w.store)) where
  open env use {os, filepath}

  commit-disk :
      (e : Entry) (d : Disk)
      → (commit env e (record w { disk = d })).0.disk ≡ (save_index env (added e w.store) d).0
  unfolding commit
  commit-disk e d = elim (Result-cases (save_index env (added e w.store) d).1) [
    | inl (tt, h) ↦ rw (h, commit) refl
    | inr (x, h) ↦ rw (h, commit) refl
  ]

  drop_entry-disk :
      (id : String) (e : Entry) (d : Disk)
      → (drop_entry env id e (record w { disk = d })).0.disk
        ≡ (save_index env (removed id e w.store) d).0
  unfolding drop_entry
  drop_entry-disk id e d = elim (Result-cases (save_index env (removed id e w.store) d).1) [
    | inl (tt, h) ↦ rw (h, drop_entry) refl
    | inr (x, h) ↦ rw (h, drop_entry) refl
  ]

  pub delete_passes-last :
      (id : String) → last_or w.disk (delete_passes env id w) ≡ (delete env id w).0.disk
  unfolding delete_passes delete
  delete_passes-last id = elim (Option-cases (lookup id w.store.entries)) [
    | inl h ↦ rw (h, last_or, delete_passes, delete) refl
    | inr (e, h) ↦
        let s = removed id e w.store in
        let gone = os.remove_all e.path w.disk in
        elim (Bool-cases (under_root filepath w.store.dir e.path)) [
          | inr out ↦
              rw (h, last_or, delete_passes, delete)
                (rw (out, last_or, delete_passes, delete)
                  (save_passes-last env s laws w.disk w.disk ∙ sym (drop_entry-disk id e w.disk)))
          | inl under ↦ elim (Bool-cases gone.1) [
            | inr stuck ↦
                rw (h, last_or, delete_passes, delete)
                  (rw (under, last_or, delete_passes, delete)
                    (rw (stuck, last_or, delete_passes, delete) refl))
            | inl clear ↦
                rw (h, last_or, delete_passes, delete)
                  (rw (under, last_or, delete_passes, delete)
                    (rw (clear, last_or, delete_passes, delete)
                      (save_passes-last env s laws w.disk gone.0
                        ∙ sym (drop_entry-disk id e gone.0))))
          ]
        ]
  ]

  reuse_passes-last :
      (e : Entry) (now : ℕ) → last_or w.disk (reuse_passes env e now w) ≡ (reuse env e now w).0.disk
  unfolding reuse_passes reuse
  reuse_passes-last e now = elim (Option-cases (lookup e.id w.store.entries)) [
    | inl h ↦ rw (h, last_or, reuse_passes, mark_used) refl
    | inr (k, h) ↦
        rw (h, last_or, reuse_passes, mark_used)
          (save_passes-last env (touched e.id k now w.store) laws w.disk w.disk)
  ]

  do_fetch_passes-last :
      (req : FetchRequest) (run : Fetcher Disk) (now : ℕ)
      → last_or w.disk (do_fetch_passes env req run now w) ≡ (do_fetch env req run now w).0.disk
  unfolding do_fetch_passes do_fetch
  do_fetch_passes-last req run now =
      let d₁ = os.mkdir_all (dest_of env req w.store) w.disk in
      let d₂ = run req (dest_of env req w.store) d₁.0 in
      elim (Bool-cases d₁.1) [
        | inr refused ↦ rw (refused, last_or, do_fetch_passes, do_fetch) refl
        | inl made ↦ elim (Option-cases d₂.1) [
          | inl failed ↦
              rw (made, last_or, do_fetch_passes, do_fetch)
                (rw (failed, last_or, do_fetch_passes, do_fetch) refl)
          | inr (files, fetched) ↦
              elim (Option-cases (measure_tree (os.walk_dir (dest_of env req w.store) d₂.0))) [
                | inl lost ↦
                    rw (made, last_or, do_fetch_passes, do_fetch)
                      (rw (fetched, last_or, do_fetch_passes, do_fetch)
                        (rw (lost, last_or, do_fetch_passes, do_fetch) refl))
                | inr ((size, found), measured) ↦
                    let e = new_entry env req w.store now size files found in
                    rw (made, last_or, do_fetch_passes, do_fetch)
                      (rw (fetched, last_or, do_fetch_passes, do_fetch)
                        (rw (measured, last_or, do_fetch_passes, do_fetch)
                          (save_passes-last env (added e w.store) laws d₂.0 d₂.0
                            ∙ sym (commit-disk e d₂.0))))
              ]
        ]
      ]

  pub fetch_passes-last :
      (req : FetchRequest) (now : ℕ)
      → last_or w.disk (fetch_passes env req now w) ≡ (fetch env req now w).0.disk
  unfolding fetch_passes fetch
  fetch_passes-last req now =
      let found = lookup_by_key (key_for req.source req.model_id) w.store in
      elim (Result-cases (checked env req)) [
        | inr (x, h) ↦ rw (h, last_or, fetch_passes, fetch) refl
        | inl (run, h) ↦ elim (Option-cases found) [
          | inr (e, there) ↦
              rw (h, last_or, fetch_passes, fetch)
                (rw (there, last_or, fetch_passes, fetch) (reuse_passes-last e now))
          | inl new ↦
              rw (h, last_or, fetch_passes, fetch)
                (rw (new, last_or, fetch_passes, fetch)
                  (rw (new, flight) (do_fetch_passes-last req run now)))
        ]
      ]
