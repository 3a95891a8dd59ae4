-- ===== src/Storage/Flights/Moves.antt =====
-- internal/storage/store.go: the steps of one call of `Fetch`, as a list of what each can do.
use bonnie.Prelude.{
  ℕ, String, ◌≡◌, refl, Bool, true, false, none, List, inl, inr, Option-cases, Bool-cases,
}
use bonnie.Prelude.Results.{Result, err, Result-cases}
use bonnie.Storage.Env.{Entry, FetchRequest, Fetcher, Env}
use bonnie.Storage.Index.{Error, create_dest}
use bonnie.Storage.Index.Coherent.{Coherent}
use bonnie.Storage.Store.Maps.{lookup_by_key-Coherent}
use bonnie.Storage.Store.Coherence.{HasClearId, new_entry-IsNew}
use bonnie.Storage.Store.{
  World, lookup_by_key, new_entry, checked, measure_tree, dest_of, mark_used, commit,
}
use bonnie.Storage.Flights.Changes.{Change, alike, mark_used-Change, commit_change}
use bonnie.Storage.Flights.Leaders.{is_leading, IsSound, IsSound-ended, author, lookup_by_key-none}
use bonnie.Storage.Flights.{
  Phase, starting, joining, leading, making, running, marking, reading, clearing, measuring,
  committing, landing, finished, waiting, ended, key_at, proceed,
}

-- The phases that wait for the table of the flights, or for nothing.
abbrev pub is_resting : {Disk : Type 0} → Phase Disk → Bool
is_resting (joining run) = true
is_resting (landing r) = true
is_resting (finished r) = true
is_resting (waiting i) = true
is_resting p = false

ended-is_leading :
    (Disk : Type 0) (leads : Bool) (r : Result Error Entry)
    → is_leading {Disk = Disk} (ended leads r) ≡ leads
ended-is_leading Disk true r = refl
ended-is_leading Disk false r = refl

module _ {Disk Data : Type 0} (env : Env Disk Data) (requests : ℕ → FetchRequest) where
  open env use {os}

  -- A step of the call of `i` in the world `w`.
  pub data Moved (i now : ℕ) (w : World Disk) : Phase Disk → World Disk → Phase Disk → Type 0 where
    refused : (x : Error) → Moved i now w starting w (finished (err x))
    located : (id : String) → Moved i now w starting w (marking false id)
    missed : (run : Fetcher Disk) → Moved i now w starting w (joining run)
    marked :
        (leads : Bool) (id : String)
        → Moved i now w (marking leads id) (mark_used env id now w).0 (reading leads id)
    unmarked :
        (leads : Bool) (id : String) (x : Error)
        → Moved i now w (marking leads id) (mark_used env id now w).0 (ended leads (err x))
    read :
        (leads : Bool) (id : String) (r : Result Error Entry)
        → Moved i now w (reading leads id) w (ended leads r)
    overtaken : (run : Fetcher Disk) (id : String) → Moved i now w (leading run) w (marking true id)
    alone :
        (run : Fetcher Disk)
        → lookup_by_key (key_at requests i) w.store ≡ none
        → Moved i now w (leading run) w (making run)
    made :
        (run : Fetcher Disk) (d : Disk)
        → Moved i now w (making run) (record w { disk = d }) (running run)
    unmade :
        (run : Fetcher Disk) (d : Disk)
        → Moved i now w (making run) (record w { disk = d }) (landing (err create_dest))
    broke :
        (run : Fetcher Disk) (d : Disk)
        → Moved i now w (running run) (record w { disk = d }) clearing
    ran :
        (run : Fetcher Disk) (d : Disk) (files : List String)
        → Moved i now w (running run) (record w { disk = d }) (measuring files)
    cleared :
        (d : Disk) (x : Error) → Moved i now w clearing (record w { disk = d }) (landing (err x))
    unmeasured :
        (files : List String) (x : Error) → Moved i now w (measuring files) w (landing (err x))
    measured :
        (files found : List String) (size : ℕ)
        → Moved i now w
            (measuring files)
            w
            (committing (new_entry env (requests i) w.store now size files found))
    committed :
        (e : Entry) → Moved i now w (committing e) (commit env e w).0 (landing (commit env e w).1)
    rests : (p : Phase Disk) → is_resting p ≡ true → Moved i now w p w p

  pub proceed-Moved :
      (i now : ℕ) (p : Phase Disk) (w : World Disk)
      → let r = proceed env (requests i) now p w in Moved i now w p r.0 r.1
  unfolding proceed
  proceed-Moved i now starting w = elim (Result-cases (checked env (requests i))) [
    | inr (x, h) ↦ rw (h, proceed) (refused x)
    | inl (run, h) ↦ elim (Option-cases (lookup_by_key (key_at requests i) w.store)) [
      | inl e ↦ rw (h, proceed) (rw (e, proceed) (missed run))
      | inr (a, e) ↦ rw (h, proceed) (rw (e, proceed) (located a.id))
    ]
  ]
  proceed-Moved i now (marking leads id) w = elim (Result-cases (mark_used env id now w).1) [
    | inr (x, h) ↦ rw (h, proceed) (unmarked leads id x)
    | inl (x, h) ↦ rw (h, proceed) (marked leads id)
  ]
  proceed-Moved i now (reading leads id) w = read leads id _
  proceed-Moved i now (leading run) w =
      elim (Option-cases (lookup_by_key (key_at requests i) w.store)) [
        | inl e ↦ rw (e, proceed) (alone run e)
        | inr (a, e) ↦ rw (e, proceed) (overtaken run a.id)
      ]
  proceed-Moved i now (making run) w =
      elim (Bool-cases (os.mkdir_all (dest_of env (requests i) w.store) w.disk).1) [
        | inl e ↦ rw (e, proceed) (made run _)
        | inr e ↦ rw (e, proceed) (unmade run _)
      ]
  proceed-Moved i now (running run) w =
      elim (Option-cases (run (requests i) (dest_of env (requests i) w.store) w.disk).1) [
        | inl e ↦ rw (e, proceed) (broke run _)
        | inr (files, e) ↦ rw (e, proceed) (ran run _ files)
      ]
  proceed-Moved i now clearing w = cleared _ _
  proceed-Moved i now (measuring files) w =
      elim (Option-cases (measure_tree (os.walk_dir (dest_of env (requests i) w.store) w.disk))) [
        | inl e ↦ rw (e, proceed) (unmeasured files _)
        | inr ((size, found), e) ↦ rw (e, proceed) (measured files found size)
      ]
  proceed-Moved i now (committing e) w = committed e
  proceed-Moved i now (joining run) w = rests (joining run) refl
  proceed-Moved i now (landing r) w = rests (landing r) refl
  proceed-Moved i now (finished r) w = rests (finished r) refl
  proceed-Moved i now (waiting j) w = rests (waiting j) refl

  -- A step neither takes the lead nor gives it up.
  pub Moved-is_leading :
      {i now : ℕ} {w w' : World Disk} {p p' : Phase Disk}
      → Moved i now w p w' p'
      → is_leading p' ≡ is_leading p
  Moved-is_leading (refused x) = refl
  Moved-is_leading (located id) = refl
  Moved-is_leading (missed run) = refl
  Moved-is_leading (marked leads id) = refl
  Moved-is_leading (unmarked leads id x) = ended-is_leading Disk leads (err x)
  Moved-is_leading (read leads id r) = ended-is_leading Disk leads r
  Moved-is_leading (overtaken run id) = refl
  Moved-is_leading (alone run h) = refl
  Moved-is_leading (made run d) = refl
  Moved-is_leading (unmade run d) = refl
  Moved-is_leading (broke run d) = refl
  Moved-is_leading (ran run d files) = refl
  Moved-is_leading (cleared d x) = refl
  Moved-is_leading (unmeasured files x) = refl
  Moved-is_leading (measured files found size) = refl
  Moved-is_leading (committed e) = refl
  Moved-is_leading (rests p h) = refl

  -- Only `markUsed` and a commit change the maps.
  pub Moved-Change :
      {i now : ℕ} {w w' : World Disk} {p p' : Phase Disk}
      → Moved i now w p w' p'
      → Coherent w.store
      → HasClearId env (requests i) w.store
      → IsSound env requests i w.store p
      → Change env requests (author env requests i p) w.store w'.store
  Moved-Change {i} {now} {w} (marked leads id) c clear sound =
      mark_used-Change env requests id now w c
  Moved-Change {i} {now} {w} (unmarked leads id x) c clear sound =
      mark_used-Change env requests id now w c
  Moved-Change {i} {now} {w} (committed e) c clear sound =
      let (mine, absent) = sound in
      let new =
        new_entry-IsNew env (requests i) w.store c clear
          (lookup_by_key-none (key_at requests i) w.store absent) in
      commit_change env requests i e w c mine (rw (mine.0, mine.1) new)
  Moved-Change {i} {now} {w} m c clear sound = alike ((λ j. refl), (λ k. refl)) c.distinct

  -- What a call needs of the store is there before its next step.
  pub Moved-IsSound :
      {i now : ℕ} {w w' : World Disk} {p p' : Phase Disk}
      → Moved i now w p w' p'
      → Coherent w.store
      → IsSound env requests i w.store p
      → IsSound env requests i w'.store p'
  Moved-IsSound (refused x) c sound = tt
  Moved-IsSound (located id) c sound = tt
  Moved-IsSound (missed run) c sound = tt
  Moved-IsSound (marked leads id) c sound = tt
  Moved-IsSound {i} {now} {w} (unmarked leads id x) c sound =
      IsSound-ended env requests i (mark_used env id now w).0.store leads (err x)
  Moved-IsSound {i} {w = w} (read leads id r) c sound = IsSound-ended env requests i w.store leads r
  Moved-IsSound (overtaken run id) c sound = tt
  Moved-IsSound {i} {w = w} (alone run h) c sound =
      lookup_by_key-Coherent w.store c (key_at requests i) h
  Moved-IsSound (made run d) c sound = sound
  Moved-IsSound (unmade run d) c sound = tt
  Moved-IsSound (broke run d) c sound = sound
  Moved-IsSound (ran run d files) c sound = sound
  Moved-IsSound (cleared d x) c sound = tt
  Moved-IsSound (unmeasured files x) c sound = tt
  Moved-IsSound (measured files found size) c sound = ((refl, refl), sound)
  Moved-IsSound (committed e) c sound = tt
  Moved-IsSound (rests p h) c sound = sound

  pub Moved-finished :
      {i now : ℕ} {w w' : World Disk} {p p' : Phase Disk} (r : Result Error Entry)
      → Moved i now w p w' p'
      → p ≡ finished r
      → p' ≡ finished r
  Moved-finished r (rests p h) same = same
  Moved-finished r m same = absurd cc

  pub Moved-waiting :
      {i now : ℕ} {w w' : World Disk} {p p' : Phase Disk} (j : ℕ)
      → Moved i now w p w' p'
      → p' ≡ waiting j
      → p ≡ waiting j
  Moved-waiting j (rests p h) same = same
  Moved-waiting j (unmarked true id x) same = absurd cc
  Moved-waiting j (unmarked false id x) same = absurd cc
  Moved-waiting j (read true id r) same = absurd cc
  Moved-waiting j (read false id r) same = absurd cc
  Moved-waiting j m same = absurd cc
