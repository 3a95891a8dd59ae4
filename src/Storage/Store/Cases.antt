-- ===== src/Storage/Store/Cases.antt =====
-- How the operations of `Store` in internal/storage/store.go end, branch by branch.
use bonnie.Prelude.{
  ℕ, String, ◌≡◌, none, some, List, Bool-cases, Option-cases, inl, inr, ap, if◌then◌else◌, str_eq,
}
use bonnie.Prelude.Maps.{lookup}
use bonnie.Prelude.Results.{ok, err, Result-cases}
use bonnie.Storage.Env.{Entry, FetchRequest, Fetcher, Env}
use bonnie.Storage.Paths.{under_root}
use bonnie.Storage.Index.{Error, not_found, key_for, save_index}
use bonnie.Storage.Store.{
  World, After, lookup_by_key, added, removed, restored, new_entry, dest_of, reuse, commit,
  measure_tree, do_fetch, flight, checked, fetch, drop_entry, delete,
}

module _ {Disk Data : Type 0} (env : Env Disk Data) where
  pub commit_ends :
      (P : After env Entry → Type 0) (e : Entry) (w : World Disk)
      → ((d : Disk)
          → save_index env (added e w.store) w.disk ≡ (d, ok tt)
          → P (record { store = added e w.store; disk = d }, ok e))
      → ((d : Disk) (x : Error)
          → save_index env (added e w.store) w.disk ≡ (d, err x)
          → P (record { store = removed e.id e (added e w.store); disk = d }, err x))
      → P (commit env e w)
  unfolding commit
  commit_ends P e w done failed =
      let saved = save_index env (added e w.store) w.disk in
      elim (Result-cases saved.1) [
        | inl (tt, h) ↦ rw (h, commit) (done saved.0 (ap (λ r. (saved.0, r)) h))
        | inr (x, h) ↦ rw (h, commit) (failed saved.0 x (ap (λ r. (saved.0, r)) h))
      ]

  pub commit_cases :
      (P : After env Entry → Type 0) (e : Entry) (w : World Disk)
      → ((d : Disk)
          → save_index env (added e w.store) w.disk ≡ (d, ok tt)
          → P (record { store = added e w.store; disk = d }, ok e))
      → ((d : Disk) (x : Error)
          → P (record { store = removed e.id e (added e w.store); disk = d }, err x))
      → P (commit env e w)
  commit_cases P e w done failed = commit_ends P e w done (λ d x h. failed d x)

  pub drop_entry_ends :
      (P : After env (Unit {0}) → Type 0) (id : String) (e : Entry) (w : World Disk)
      → ((d : Disk)
          → save_index env (removed id e w.store) w.disk ≡ (d, ok tt)
          → P (record { store = removed id e w.store; disk = d }, ok tt))
      → ((d : Disk) (x : Error)
          → save_index env (removed id e w.store) w.disk ≡ (d, err x)
          → P (record { store = restored id e (removed id e w.store); disk = d }, err x))
      → P (drop_entry env id e w)
  unfolding drop_entry
  drop_entry_ends P id e w done failed =
      let saved = save_index env (removed id e w.store) w.disk in
      elim (Result-cases saved.1) [
        | inl (tt, h) ↦ rw (h, drop_entry) (done saved.0 (ap (λ r. (saved.0, r)) h))
        | inr (x, h) ↦ rw (h, drop_entry) (failed saved.0 x (ap (λ r. (saved.0, r)) h))
      ]

  pub drop_entry_cases :
      (P : After env (Unit {0}) → Type 0) (id : String) (e : Entry) (w : World Disk)
      → ((d : Disk)
          → save_index env (removed id e w.store) w.disk ≡ (d, ok tt)
          → P (record { store = removed id e w.store; disk = d }, ok tt))
      → ((d : Disk) (x : Error)
          → P (record { store = restored id e (removed id e w.store); disk = d }, err x))
      → P (drop_entry env id e w)
  drop_entry_cases P id e w done failed = drop_entry_ends P id e w done (λ d x h. failed d x)

  -- `doFetch` stops before the maps are written, or commits its new entry; `Q` is what the calls
  -- before that keep of the disk.
  pub do_fetch_ends :
      (P : After env Entry → Type 0) (Q : Disk → Type 0) (req : FetchRequest) (run : Fetcher Disk)
      (now : ℕ) (w : World Disk)
      → Q (env.os.mkdir_all (dest_of env req w.store) w.disk).0
      → ((d : Disk) → Q d → Q (run req (dest_of env req w.store) d).0)
      → ((d : Disk)
          → Q d
          → Q (if str_eq req.dest "" then (env.os.remove_all (dest_of env req w.store) d).0 else d))
      → ((d : Disk) (x : Error) → Q d → P (record w { disk = d }, err x))
      → ((d : Disk) (size : ℕ) (files found : List String)
          → Q d
          → P (commit env (new_entry env req w.store now size files found) (record w { disk = d })))
      → P (do_fetch env req run now w)
  unfolding do_fetch
  do_fetch_ends P Q req run now w q_made q_ran q_cleared stop go =
      let dest = dest_of env req w.store in
      let made = env.os.mkdir_all dest w.disk in
      let ran = run req dest made.0 in
      let q = q_ran made.0 q_made in
      elim (Bool-cases made.1) [
        | inr h ↦ rw h (stop _ _ q_made)
        | inl h ↦ elim (Option-cases ran.1) [
          | inl none_made ↦
              rw (h, do_fetch) (rw (none_made, do_fetch) (stop _ _ (q_cleared ran.0 q)))
          | inr (files, some_made) ↦
              elim (Option-cases (measure_tree (env.os.walk_dir dest ran.0))) [
                | inl lost ↦
                    rw (h, do_fetch) (rw (some_made, do_fetch) (rw (lost, do_fetch) (stop _ _ q)))
                | inr ((size, found), measured) ↦
                    rw (h, do_fetch)
                      (rw (some_made, do_fetch)
                        (rw (measured, do_fetch) (go ran.0 size files found q)))
              ]
        ]
      ]

  pub do_fetch_cases :
      (P : After env Entry → Type 0) (req : FetchRequest) (run : Fetcher Disk) (now : ℕ)
      (w : World Disk)
      → ((d : Disk) (x : Error) → P (record w { disk = d }, err x))
      → ((d : Disk) (size : ℕ) (files found : List String)
          → P (commit env (new_entry env req w.store now size files found) (record w { disk = d })))
      → P (do_fetch env req run now w)
  do_fetch_cases P req run now w stop go =
      do_fetch_ends P (λ d. Unit {0}) req run now w tt (λ d q. tt) (λ d q. tt) (λ d x q. stop d x)
        (λ d size files found q. go d size files found)

  -- `Fetch` refuses the request, uses the entry that it finds, or runs the fetch.
  pub fetch_ends :
      (P : After env Entry → Type 0) (req : FetchRequest) (now : ℕ) (w : World Disk)
      → ((x : Error) → P (w, err x))
      → ((e : Entry)
          → lookup_by_key (key_for req.source req.model_id) w.store ≡ some e
          → P (reuse env e now w))
      → ((run : Fetcher Disk)
          → checked env req ≡ ok run
          → lookup_by_key (key_for req.source req.model_id) w.store ≡ none
          → P (do_fetch env req run now w))
      → P (fetch env req now w)
  unfolding fetch
  fetch_ends P req now w refused present absent =
      let found = lookup_by_key (key_for req.source req.model_id) w.store in
      elim (Result-cases (checked env req)) [
        | inr (x, h) ↦ rw (h, fetch) (refused x)
        | inl (run, h) ↦ elim (Option-cases found) [
          | inr (e, there) ↦ rw (h, fetch) (rw (there, fetch) (present e there))
          | inl missing ↦
              rw (h, fetch) (rw (missing, fetch) (rw (missing, flight) (absent run h missing)))
        ]
      ]

  pub fetch_cases :
      (P : After env Entry → Type 0) (req : FetchRequest) (now : ℕ) (w : World Disk)
      → ((x : Error) → P (w, err x))
      → ((e : Entry)
          → lookup_by_key (key_for req.source req.model_id) w.store ≡ some e
          → P (reuse env e now w))
      → ((run : Fetcher Disk)
          → lookup_by_key (key_for req.source req.model_id) w.store ≡ none
          → P (do_fetch env req run now w))
      → P (fetch env req now w)
  fetch_cases P req now w refused present absent =
      fetch_ends P req now w refused present (λ run h. absent run)

  -- `Q` is what the removal of the files keeps of the disk.
  pub delete_ends :
      (P : After env (Unit {0}) → Type 0) (Q : Disk → Type 0) (id : String) (w : World Disk)
      → Q w.disk
      → ((e : Entry) → lookup id w.store.entries ≡ some e → Q (env.os.remove_all e.path w.disk).0)
      → (lookup id w.store.entries ≡ none → P (w, err not_found))
      → ((d : Disk) (x : Error) → Q d → P (record w { disk = d }, err x))
      → ((e : Entry) (d : Disk)
          → lookup id w.store.entries ≡ some e
          → Q d
          → P (drop_entry env id e (record w { disk = d })))
      → P (delete env id w)
  unfolding delete
  delete_ends P Q id w q_now q_gone missing stuck go =
      elim (Option-cases (lookup id w.store.entries)) [
        | inl h ↦ rw (h, delete) (missing h)
        | inr (e, h) ↦ elim (Bool-cases (under_root env.filepath w.store.dir e.path)) [
          | inr out ↦ rw (h, delete) (rw (out, delete) (go e w.disk h q_now))
          | inl under ↦ elim (Bool-cases (env.os.remove_all e.path w.disk).1) [
            | inr kept ↦
                rw (h, delete) (rw (under, delete) (rw (kept, delete) (stuck _ _ (q_gone e h))))
            | inl gone ↦
                rw (h, delete) (rw (under, delete) (rw (gone, delete) (go e _ h (q_gone e h))))
          ]
        ]
      ]

  pub delete_cases :
      (P : After env (Unit {0}) → Type 0) (id : String) (w : World Disk)
      → (lookup id w.store.entries ≡ none → P (w, err not_found))
      → ((d : Disk) (x : Error) → P (record w { disk = d }, err x))
      → ((e : Entry) (d : Disk)
          → lookup id w.store.entries ≡ some e
          → P (drop_entry env id e (record w { disk = d })))
      → P (delete env id w)
  delete_cases P id w missing stuck go =
      delete_ends P (λ d. Unit {0}) id w tt (λ e h. tt) missing (λ d x q. stuck d x)
        (λ e d h q. go e d h)
