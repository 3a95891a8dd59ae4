-- ===== src/Storage/Restart/Passes.antt =====
-- The disks that a save of internal/storage/store.go passes through, for a process that is killed on
-- the way: `saveIndexLocked`, call by call.
use mathlib.Core.Logic.{◌⊎◌}
use bonnie.Prelude.{
  String, ◌≡◌, refl, ◌∙◌, ◌≢◌, not, none, some, List, [], ◌∷◌, if◌then◌else◌, inl, inr, Bool-cases,
  Option-cases, ◌||◌, All,
}
use bonnie.Prelude.Results.{Result, ok}
use bonnie.Storage.Env.{Env, OsLaws, IsBlank, contents}
use bonnie.Storage.Index.Atomic.{closed_same, closed_dropped, renamed_dropped, renamed_whole}
use bonnie.Storage.Index.{Store, Error, values, sort_by_id, index_path, replace_index, save_index}

module _ {Disk Data : Type 0} (env : Env Disk Data) where
  open env use {os, codec}

  -- From the temporary file's name on: a write, a close, and the rename or the removal.
  unfoldable pub replace_passes : Store → Data → String → Disk → List Disk
  replace_passes s bytes tmp d =
      let (d₁, written) = os.write tmp bytes d in
      let (d₂, closed) = os.close tmp d₁ in
      let (d₃, renamed) = os.rename tmp (index_path env s) d₂ in
      d
      ∷ d₁
      ∷ d₂
      ∷ (if not written || not closed
          then (os.remove tmp d₂).0 ∷ []
          else d₃ ∷ (if not renamed then (os.remove tmp d₃).0 ∷ [] else []))

  unfoldable pub save_passes : Store → Disk → List Disk
  unfolding replace_passes
  save_passes s d = elim (codec.marshal (sort_by_id (values s.entries))) [
    | none ↦ d ∷ []
    | some bytes ↦
        let (d₁, made) = os.create_temp s.dir d in
        d ∷ elim made [ none ↦ d₁ ∷ [] | some tmp ↦ replace_passes s bytes tmp d₁ ]
  ]

abbrev pub last_or : {A : Type 0} → A → List A → A
last_or d [] = d
last_or d (x ∷ xs) = last_or x xs

-- A save of `s` that began on `d`.
module _ {Disk Data : Type 0} (env : Env Disk Data) (s : Store)
    (laws : OsLaws env.os (index_path env s)) where
  open env use {os, codec}

  -- The index is the one of `d`, or the whole of the new one, and the save will succeed.
  abbrev pub OldOrNew : Result Error (Unit {0}) → Disk → Disk → Type 0
  OldOrNew r d x =
      (os.read_file (index_path env s) x ≡ os.read_file (index_path env s) d)
      ⊎ ((r ≡ ok tt)
          × (b : Data) × (codec.marshal (sort_by_id (values s.entries)) ≡ some b)
          × (os.read_file (index_path env s) x ≡ contents b))

  module _ (b : Data) (m : codec.marshal (sort_by_id (values s.entries)) ≡ some b) (tmp : String)
      (d d₀ : Disk) (other : index_path env s ≢ tmp) (blank : IsBlank os.len (os.read_file tmp d))
      (same : os.read_file (index_path env s) d ≡ os.read_file (index_path env s) d₀) where
    replace_passes-OldOrNew :
        (r : Result Error (Unit {0}))
        → ((replace_index env s b tmp d).1 ≡ ok tt → r ≡ ok tt)
        → All (OldOrNew r d₀) (replace_passes env s b tmp d)
    unfolding replace_passes replace_index
    replace_passes-OldOrNew result succeed =
        let kept = closed_same env s laws b tmp d other blank ∙ same in
        let dropped = closed_dropped env s laws b tmp d other blank ∙ same in
        let write_same = laws.write-other tmp b d other ∙ same in
        let d₁ = os.write tmp b d in
        let d₂ = os.close tmp d₁.0 in
        let d₃ = os.rename tmp (index_path env s) d₂.0 in
        elim (Bool-cases d₁.1) [
          | inr w ↦
              rw (w, replace_passes) (inl same, (inl write_same, (inl kept, (inl dropped, tt))))
          | inl w ↦ elim (Bool-cases d₂.1) [
            | inr c ↦
                rw (w, c, replace_passes)
                  (inl same, (inl write_same, (inl kept, (inl dropped, tt))))
            | inl c ↦ elim (Bool-cases d₃.1) [
              | inr r ↦
                  let undone = renamed_dropped env s laws b tmp d other blank r ∙ same in
                  rw (w, c, r, replace_passes)
                    (
                      inl same,
                      (
                        inl write_same,
                        (inl kept, (inl (laws.rename-fails tmp d₂.0 r ∙ kept), (inl undone, tt))),
                      ),
                    )
              | inl r ↦
                  let done : (replace_index env s b tmp d).1 ≡ ok tt = rw (w, c, r) refl in
                  let whole = renamed_whole env s laws b tmp d other blank w r in
                  rw (w, c, r, replace_passes)
                    (inl same, (inl write_same, (inl kept, (inr (succeed done, b, m, whole), tt))))
            ]
          ]
        ]

    replace_passes-last :
        (a : Disk) → last_or a (replace_passes env s b tmp d) ≡ (replace_index env s b tmp d).0
    unfolding replace_passes replace_index
    replace_passes-last a =
        let d₁ = os.write tmp b d in
        let d₂ = os.close tmp d₁.0 in
        let d₃ = os.rename tmp (index_path env s) d₂.0 in
        elim (Bool-cases d₁.1) [
          | inr w ↦ rw w refl
          | inl w ↦ elim (Bool-cases d₂.1) [
            | inr c ↦ rw (w, c) refl
            | inl c ↦ elim (Bool-cases d₃.1) [
              | inr r ↦ rw (w, c, r) refl
              | inl r ↦ rw (w, c, r) refl
            ]
          ]
        ]

  pub save_passes-OldOrNew :
      (d : Disk) → All (OldOrNew (save_index env s d).1 d) (save_passes env s d)
  unfolding save_passes save_index
  save_passes-OldOrNew d = elim (Option-cases (codec.marshal (sort_by_id (values s.entries)))) [
    | inl none_made ↦ rw (none_made, save_passes) (inl refl, tt)
    | inr (b, m) ↦ elim (Option-cases (os.create_temp s.dir d).1) [
      | inl no_name ↦
          rw (m, save_passes)
            (rw (no_name, save_passes) (inl refl, (inl (laws.create_temp-other s.dir d), tt)))
      | inr (tmp, name) ↦
          rw (m, save_passes)
            (rw (name, save_passes)
              (
                inl refl,
                replace_passes-OldOrNew b m tmp (os.create_temp s.dir d).0 d
                    (laws.create_temp-name s.dir tmp d name)
                    (laws.create_temp-blank s.dir tmp d name) (laws.create_temp-other s.dir d)
                    (save_index env s d).1 (λ h. rw (m, save_index) (rw (name, save_index) h)),
              ))
    ]
  ]

  pub save_passes-last : (a d : Disk) → last_or a (save_passes env s d) ≡ (save_index env s d).0
  unfolding save_passes save_index
  save_passes-last a d = elim (Option-cases (codec.marshal (sort_by_id (values s.entries)))) [
    | inl none_made ↦ rw (none_made, last_or, save_passes, save_index) refl
    | inr (b, m) ↦ elim (Option-cases (os.create_temp s.dir d).1) [
      | inl no_name ↦ rw (m, last_or, save_passes, save_index) (rw no_name refl)
      | inr (tmp, name) ↦
          rw (m, last_or, save_passes, save_index)
            (rw (name, last_or, save_passes, save_index)
              (replace_passes-last b m tmp (os.create_temp s.dir d).0 d
                (laws.create_temp-name s.dir tmp d name) (laws.create_temp-blank s.dir tmp d name)
                (laws.create_temp-other s.dir d) d))
    ]
  ]
