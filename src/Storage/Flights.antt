-- ===== src/Storage/Flights.antt =====
-- internal/storage/store.go: many callers of one `Store`. Each piece of `Fetch` and `doFetch`
-- between two points where the mutex is free is one step, as is each call of the file system and
-- of the fetcher; `Delete` and `MarkUsed` hold the mutex and are one step each. `inflight` is the
-- table of golang.org/x/sync/singleflight: `Do` runs its function for the first caller of a key, and
-- the callers that come while it runs wait and share the result.

pub mod Changes
pub mod Leaders
pub mod Moves
pub mod Table
pub mod Invariant
use bonnie.Prelude.{
  ℕ, String, ◌≡◌, Bool, true, false, none, some, List, [], ◌==◌, if◌then◌else◌, str_eq,
}
use bonnie.Prelude.Maps.{Map, lookup, insert, erase}
use bonnie.Prelude.Results.{Result, ok, err}
use bonnie.Storage.Env.{Entry, FetchRequest, Fetcher, Env}
use bonnie.Storage.Index.{Error, create_dest, fetcher_failed, measure_failed, key_for}
use bonnie.Storage.Store.{
  World, entry_or_zero, lookup_by_key, mark_used, dest_of, new_entry, measure_tree, commit, checked,
  delete,
}

-- Where a call of `Fetch` stands, before the step that the name says. `marking` and `reading` say
-- whether the call leads a flight.
pub data Phase (Disk : Type 0) : Type 0 where
  starting : Phase Disk
  joining leading making running : Fetcher Disk → Phase Disk
  marking reading : Bool → String → Phase Disk
  clearing : Phase Disk
  measuring : List String → Phase Disk
  committing : Entry → Phase Disk
  landing finished : Result Error Entry → Phase Disk
  waiting : ℕ → Phase Disk

abbrev pub ended : {Disk : Type 0} → Bool → Result Error Entry → Phase Disk
ended true r = landing r
ended false r = finished r

pub record Flights (Disk : Type 0) : Type 0 where
  pub world : World Disk
  pub inflight : Map ℕ
  pub calls : ℕ → Phase Disk

-- No call has begun.
abbrev pub quiet : {Disk : Type 0} → World Disk → Flights Disk
quiet w = record { world = w; inflight = []; calls = λ i. starting }

abbrev pub set_call : {Disk : Type 0} → ℕ → Phase Disk → (ℕ → Phase Disk) → ℕ → Phase Disk
set_call i p calls j = if i == j then p else calls j

-- The key that a caller asks for.
abbrev pub key_at : (ℕ → FetchRequest) → ℕ → String
key_at requests i = key_for (requests i).source (requests i).model_id

module _ {Disk Data : Type 0} (env : Env Disk Data) where
  open env use {os}

  -- The steps of one call, but for those of the table.
  unfoldable pub proceed : FetchRequest → ℕ → Phase Disk → World Disk → World Disk × Phase Disk
  proceed req now starting w = elim (checked env req) [
    | err x ↦ (w, finished (err x))
    | ok run ↦ elim (lookup_by_key (key_for req.source req.model_id) w.store) [
      | some e ↦ (w, marking false e.id)
      | none ↦ (w, joining run)
    ]
  ]
  proceed req now (marking leads id) w =
      let (w', r) = mark_used env id now w in
      elim r [ ok _ ↦ (w', reading leads id) | err x ↦ (w', ended leads (err x)) ]
  proceed req now (reading leads id) w =
      (w, ended leads (ok (entry_or_zero (lookup id w.store.entries))))
  proceed req now (leading run) w = elim (lookup_by_key (key_for req.source req.model_id) w.store) [
    | some e ↦ (w, marking true e.id)
    | none ↦ (w, making run)
  ]
  proceed req now (making run) w =
      let (d, made) = os.mkdir_all (dest_of env req w.store) w.disk in
      (record w { disk = d }, if made then running run else landing (err create_dest))
  proceed req now (running run) w =
      let (d, fetched) = run req (dest_of env req w.store) w.disk in
      elim fetched [
        | none ↦ (record w { disk = d }, clearing)
        | some files ↦ (record w { disk = d }, measuring files)
      ]
  proceed req now clearing w =
      let d = (os.remove_all (dest_of env req w.store) w.disk).0 in
      (record w { disk = if str_eq req.dest "" then d else w.disk }, landing (err fetcher_failed))
  proceed req now (measuring files) w =
      elim (measure_tree (os.walk_dir (dest_of env req w.store) w.disk)) [
        | none ↦ (w, landing (err measure_failed))
        | some (size, found) ↦ (w, committing (new_entry env req w.store now size files found))
      ]
  proceed req now (committing e) w = let (w', r) = commit env e w in (w', landing r)
  proceed req now (joining run) w = (w, joining run)
  proceed req now (landing r) w = (w, landing r)
  proceed req now (finished r) w = (w, finished r)
  proceed req now (waiting i) w = (w, waiting i)

  module _ (requests : ℕ → FetchRequest) where
    abbrev pub move : ℕ → ℕ → Flights Disk → Flights Disk
    move i now s =
        let (w, p) = proceed (requests i) now (s.calls i) s.world in
        record s { world = w; calls = set_call i p s.calls }

    -- One step of some caller: of its call, at the table, or of `Delete` or `MarkUsed`.
    pub data Step (s : Flights Disk) : Flights Disk → Type 0 where
      moves : (i now : ℕ) → Step s (move i now s)
      leads :
          (i : ℕ) (run : Fetcher Disk)
          → s.calls i ≡ joining run
          → lookup (key_at requests i) s.inflight ≡ none
          → Step s (record s {
            inflight = insert (key_at requests i) i s.inflight;
            calls = set_call i (leading run) s.calls;
          })
      joins :
          (i j : ℕ) (run : Fetcher Disk)
          → s.calls i ≡ joining run
          → lookup (key_at requests i) s.inflight ≡ some j
          → Step s (record s { calls = set_call i (waiting j) s.calls })
      lands :
          (i : ℕ) (r : Result Error Entry)
          → s.calls i ≡ landing r
          → Step s (record s {
            inflight = erase (key_at requests i) s.inflight;
            calls = set_call i (finished r) s.calls;
          })
      receives :
          (i j : ℕ) (r : Result Error Entry)
          → s.calls i ≡ waiting j
          → s.calls j ≡ finished r
          → Step s (record s { calls = set_call i (finished r) s.calls })
      deletes : (id : String) → Step s (record s { world = (delete env id s.world).0 })
      marks :
          (id : String) (now : ℕ) → Step s (record s { world = (mark_used env id now s.world).0 })

    pub data Reach (s : Flights Disk) : Flights Disk → Type 0 where
      stay : Reach s s
      later : {t u : Flights Disk} → Reach s t → Step t u → Reach s u
