-- ===== src/Storage/Index/Atomic.antt =====
-- `saveIndexLocked` of internal/storage/store.go and the contents of the index file.
use bonnie.Prelude.{
  String, ◌≡◌, refl, ◌∙◌, ◌≢◌, Bool, true, false, Option, some, inl, inr, Bool-cases, Option-cases,
}
use bonnie.Prelude.Results.{Result, ok, err}
use bonnie.Storage.Env.{contents, Env, OsLaws, IsBlank}
use bonnie.Storage.Index.{Error, Store, values, sort_by_id, index_path, replace_index, save_index}

module _ {Disk Data : Type 0} (env : Env Disk Data) (s : Store) where
  open env use {os, codec}

  -- What a save may leave behind: the marshalled entries on success, the old index on failure.
  abbrev pub IsWhole : Data → Disk → Disk × Result Error (Unit {0}) → Type 0
  IsWhole b d (d', ok _) = os.read_file (index_path env s) d' ≡ contents b
  IsWhole b d (d', err _) = os.read_file (index_path env s) d' ≡ os.read_file (index_path env s) d

module _ {Disk Data : Type 0} (env : Env Disk Data) (s : Store)
    (laws : OsLaws env.os (index_path env s)) (b : Data) (tmp : String) (d : Disk)
    (other : index_path env s ≢ tmp) (blank : IsBlank env.os.len (env.os.read_file tmp d)) where
  open env use {os}

  abbrev written : Disk × Bool
  written = os.write tmp b d

  abbrev closed : Disk × Bool
  closed = os.close tmp written.0

  abbrev renamed : Disk × Bool
  renamed = os.rename tmp (index_path env s) closed.0

  pub closed_same : os.read_file (index_path env s) closed.0 ≡ os.read_file (index_path env s) d
  closed_same = laws.close-same tmp _ written.0 ∙ laws.write-other tmp b d other

  pub closed_dropped :
      os.read_file (index_path env s) (os.remove tmp closed.0).0 ≡ os.read_file (index_path env s) d
  closed_dropped = laws.remove-other tmp closed.0 other ∙ closed_same

  pub renamed_dropped :
      renamed.1 ≡ false
      → os.read_file (index_path env s) (os.remove tmp renamed.0).0
        ≡ os.read_file (index_path env s) d
  renamed_dropped e =
      laws.remove-other tmp renamed.0 other ∙ laws.rename-fails tmp closed.0 e ∙ closed_same

  pub renamed_whole :
      written.1 ≡ true → renamed.1 ≡ true → os.read_file (index_path env s) renamed.0 ≡ contents b
  renamed_whole w e =
      laws.rename-moves tmp closed.0 e
      ∙ laws.close-same tmp tmp written.0
      ∙ laws.write-whole tmp b d blank w

  replace_index-IsWhole : IsWhole env s b d (replace_index env s b tmp d)
  unfolding replace_index
  replace_index-IsWhole = elim (Bool-cases written.1) [
    | inr w ↦ rw w closed_dropped
    | inl w ↦ elim (Bool-cases closed.1) [
      | inr c ↦ rw (w, c) closed_dropped
      | inl c ↦ elim (Bool-cases renamed.1) [
        | inr r ↦ rw (w, c, r) (renamed_dropped r)
        | inl r ↦ rw (w, c, r) (renamed_whole w r)
      ]
    ]
  ]

module _ {Disk Data : Type 0} (env : Env Disk Data) (s : Store) (d : Disk) where
  open env use {os, codec}

  -- The two outcomes of a save: the marshalled, sorted entries are the index, or the old bytes are.
  abbrev pub IsSaved : Disk × Result Error (Unit {0}) → Type 0
  IsSaved (d', ok _) =
      (b : Data) × (codec.marshal (sort_by_id (values s.entries)) ≡ some b)
      × (os.read_file (index_path env s) d' ≡ contents b)
  IsSaved (d', err _) = os.read_file (index_path env s) d' ≡ os.read_file (index_path env s) d

module _ {Disk Data : Type 0} (env : Env Disk Data) (s : Store)
    (laws : OsLaws env.os (index_path env s)) (d : Disk) where
  open env use {os, codec}

  abbrev made : Disk × Option String
  made = os.create_temp s.dir d

  IsWhole-made :
      (b : Data) (tmp : String)
      → made.1 ≡ some tmp
      → (r : Disk × Result Error (Unit {0})) → IsWhole env s b made.0 r
      → IsWhole env s b d r
  IsWhole-made b tmp e (d', ok _) h = h
  IsWhole-made b tmp e (d', err _) h = h ∙ laws.create_temp-other s.dir d

  save_marshalled :
      (b : Data)
      → codec.marshal (sort_by_id (values s.entries)) ≡ some b
      → IsWhole env s b d (save_index env s d)
  unfolding save_index
  save_marshalled b m = elim (Option-cases made.1) [
    | inl no_name ↦ rw (m, save_index) (rw (no_name, save_index) (laws.create_temp-other s.dir d))
    | inr (tmp, name) ↦
        rw (m, save_index)
          (rw (name, save_index)
            (IsWhole-made b tmp name _ (
              replace_index-IsWhole env s laws b tmp made.0 (laws.create_temp-name s.dir tmp d name)
                (laws.create_temp-blank s.dir tmp d name))))
  ]

  IsSaved-IsWhole :
      (b : Data)
      → codec.marshal (sort_by_id (values s.entries)) ≡ some b
      → (r : Disk × Result Error (Unit {0})) → IsWhole env s b d r
      → IsSaved env s d r
  IsSaved-IsWhole b m (d', ok _) h = (b, m, h)
  IsSaved-IsWhole b m (d', err _) h = h

  save_index-IsSaved : IsSaved env s d (save_index env s d)
  unfolding save_index
  save_index-IsSaved = elim (Option-cases (codec.marshal (sort_by_id (values s.entries)))) [
    | inl m ↦ rw (m, save_index) refl
    | inr (b, m) ↦ IsSaved-IsWhole b m (save_index env s d) (save_marshalled b m)
  ]

-- Under the laws of the file operations: a save that succeeds leaves the marshalled, sorted entries
-- at the index path, whole; a save that fails at any step leaves what was there.
pub save_index_atomic :
    {Disk Data : Type 0} (env : Env Disk Data) (s : Store) (d : Disk)
    → OsLaws env.os (index_path env s)
    → IsSaved env s d (save_index env s d)
save_index_atomic env s d laws = save_index-IsSaved env s laws d
