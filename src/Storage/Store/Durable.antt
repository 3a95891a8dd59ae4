-- ===== src/Storage/Store/Durable.antt =====
-- The operations of `Store` in internal/storage/store.go followed by a new start in its directory.
use bonnie.Prelude.{ℕ, String, ◌≡◌, ap, subst, inl, inr, Option-cases}
use bonnie.Prelude.Maps.{lookup}
use bonnie.Prelude.Results.{ok, err, Result-cases}
use bonnie.Storage.Env.{Entry, FetchRequest, Env, OsLaws, CodecLaws}
use bonnie.Storage.Index.{Store, index_path, load_index, save_index, empty_store}
use bonnie.Storage.Index.Coherent.{Coherent, SameMaps}
use bonnie.Storage.Index.RoundTrip.{load-save}
use bonnie.Storage.Store.Maps.{touched-Coherent, added-Coherent, removed-Coherent}
use bonnie.Storage.Store.Coherence.{HasClearId, new_entry-IsNew}
use bonnie.Storage.Store.Cases.{
  commit_cases, drop_entry_cases, do_fetch_cases, fetch_cases, delete_cases,
}
use bonnie.Storage.Store.{
  World, After, touched, added, removed, new_entry, mark_used, reuse, fetch, delete,
}

module _ {Disk Data : Type 0} (env : Env Disk Data) where
  -- A store started in the directory on the disk finds what the running store finds.
  abbrev pub IsOnDisk : World Disk → Type 0
  IsOnDisk w =
      (t : Store) × (load_index env (empty_store w.store.dir) w.disk ≡ ok t) × SameMaps t w.store

  -- So it is, if the operation succeeded.
  abbrev pub IsDurable : {A : Type 0} → After env A → Type 0
  IsDurable (w', ok _) = IsOnDisk w'
  IsDurable (w', err _) = Unit {0}

module _ {Disk Data : Type 0} (env : Env Disk Data) (w : World Disk)
    (os_laws : OsLaws env.os (index_path env w.store)) (codec_laws : CodecLaws env.os.len env.codec)
    (c : Coherent w.store) where
  mark_used-IsDurable : (id : String) (now : ℕ) → IsDurable env (mark_used env id now w)
  unfolding mark_used
  mark_used-IsDurable id now = elim (Option-cases (lookup id w.store.entries)) [
    | inl h ↦ rw (h, mark_used) tt
    | inr (e, h) ↦
        let s = touched id e now w.store in
        let saved = save_index env s w.disk in
        elim (Result-cases saved.1) [
          | inl (tt, done) ↦
              rw (h, mark_used)
                (rw (done, mark_used)
                  (load-save env s w.disk saved.0 os_laws codec_laws
                    (touched-Coherent w.store id e now h c) (ap (λ r. (saved.0, r)) done)))
          | inr (x, failed) ↦ rw (h, mark_used) (rw (failed, mark_used) tt)
        ]
  ]

  reuse-IsDurable : (e : Entry) (now : ℕ) → IsDurable env (reuse env e now w)
  unfolding reuse
  reuse-IsDurable e now = elim (Result-cases (mark_used env e.id now w).1) [
    | inl (tt, done) ↦
        let marked = mark_used env e.id now w in
        rw (done, reuse)
          (subst (λ r. IsDurable env (marked.0, r)) done (mark_used-IsDurable e.id now))
    | inr (x, failed) ↦ rw (failed, reuse) tt
  ]

  -- Under the laws of the file operations and the codec, from coherent maps, and if the short
  -- digest of the request is no other stored model's: after a `Fetch` that succeeds, a new start in
  -- the same directory finds every entry that the running store has, under the same IDs and keys.
  pub fetch-IsDurable :
      (req : FetchRequest) (now : ℕ)
      → HasClearId env req w.store
      → IsDurable env (fetch env req now w)
  fetch-IsDurable req now clear =
      fetch_cases env (IsDurable env) req now w (λ x. tt) (λ e there. reuse-IsDurable e now)
        λ run missing.
          do_fetch_cases env (IsDurable env) req run now w (λ d x. tt)
            λ d size files found.
              let e = new_entry env req w.store now size files found in
              let new = new_entry-IsNew env req w.store c clear missing in
              commit_cases env (IsDurable env) e (record w { disk = d })
                (λ d' h.
                  load-save env (added e w.store) d d' os_laws codec_laws
                    (added-Coherent w.store e new c) h)
                (λ d' x. tt)

  -- Under the laws of the file operations and the codec, and from coherent maps: after a `Delete`
  -- that succeeds, a new start in the same directory finds what the running store has.
  pub delete-IsDurable : (id : String) → IsDurable env (delete env id w)
  delete-IsDurable id =
      delete_cases env (IsDurable env) id w (λ h. tt) (λ d x. tt)
        λ e d there.
          drop_entry_cases env (IsDurable env) id e (record w { disk = d })
            (λ d' h.
              load-save env (removed id e w.store) d d' os_laws codec_laws
                (removed-Coherent w.store id e there c) h)
            (λ d' x. tt)
