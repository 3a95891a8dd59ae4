-- ===== src/Api/Handlers/Models/Status.antt =====
-- internal/api/handlers/models.go: the statuses of a deletion, and what they say of the store.
use bonnie.Prelude.{
  ℕ, String, ◌≡◌, refl, ◌∙◌, Bool, true, false, not, is_some, if◌then◌else◌, none, some, arith, inl,
  inr, Bool-cases, Option-cases, str_eq,
}
use bonnie.Prelude.Maps.{lookup}
use bonnie.Prelude.Results.{Result, ok, err, Result-cases}
use bonnie.Storage.Env.{Entry, Env}
use bonnie.Storage.Paths.{under_root}
use bonnie.Storage.Index.{
  Error, Store, key_of, not_found, values, sort_by_id, replace_index, save_index,
}
use bonnie.Storage.Store.{World, get, lookup_by_key, removed, delete, drop_entry}
use bonnie.Storage.Index.Coherent.{Coherent, SameMaps}
use bonnie.Storage.Store.Coherence.{delete_rolls_back}
use bonnie.Storage.Store.Behaviour.{delete-IsDeleted}
use bonnie.Api.Http.{fresh, write_error_text, write_header}
use bonnie.Api.Handlers.Models.{delete_model, is_not_found}

-- The result is `ErrNotFound`.
abbrev lost : {A : Type 0} → Result Error A → Bool
lost (ok a) = false
lost (err x) = is_not_found x

module _ {Disk Data : Type 0} (env : Env Disk Data) where
  lost-replace_index :
      (s : Store) (b : Data) (tmp : String) (d : Disk)
      → lost (replace_index env s b tmp d).1 ≡ false
  unfolding replace_index
  lost-replace_index s b tmp d = ground arith

  lost-save_index : (s : Store) (d : Disk) → lost (save_index env s d).1 ≡ false
  unfolding save_index
  lost-save_index s d = elim (Option-cases (env.codec.marshal (sort_by_id (values s.entries)))) [
    | inl uncoded ↦ rw (uncoded, save_index) refl
    | inr (b, coded) ↦ elim (Option-cases (env.os.create_temp s.dir d).1) [
      | inl unmade ↦ rw (coded, save_index) (rw (unmade, save_index) refl)
      | inr (tmp, made) ↦
          rw (coded, save_index)
            (rw (made, save_index) (lost-replace_index s b tmp (env.os.create_temp s.dir d).0))
    ]
  ]

  lost-drop_entry :
      (id : String) (e : Entry) (w : World Disk) → lost (drop_entry env id e w).1 ≡ false
  unfolding drop_entry
  lost-drop_entry id e w = ground (arith, lost-save_index (removed id e w.store) w.disk)

  -- A deletion knows exactly the entries of the store.
  lost-delete :
      (id : String) (w : World Disk)
      → lost (delete env id w).1 ≡ not (is_some (lookup id w.store.entries))
  unfolding delete
  lost-delete id w = elim (Option-cases (lookup id w.store.entries)) [
    | inl missing ↦ rw (missing, delete) refl
    | inr (e, there) ↦ elim (Bool-cases (under_root env.filepath w.store.dir e.path)) [
      | inr out ↦ rw (there, delete) (rw (out, delete) (lost-drop_entry id e w))
      | inl under ↦ elim (Bool-cases (env.os.remove_all e.path w.disk).1) [
        | inr kept ↦ rw (there, delete) (rw (under, delete) (rw (kept, delete) refl))
        | inl gone ↦
            rw (there, delete)
              (rw (under, delete)
                (rw (gone, delete) (lost-drop_entry id e (record w { disk = _ }))))
      ]
    ]
  ]

  -- What a status says of the store before and after a deletion.
  pub data Tells (id : String) (s : Store) : Store → ℕ → Type 0 where
    gone :
        (e : Entry) {t : Store}
        → lookup id s.entries ≡ some e
        → lookup_by_key (key_of e) t ≡ none
        → ((k : String)
            → lookup k t.by_key ≡ (if str_eq (key_of e) k then none else lookup k s.by_key))
        → ((j : String) → get j t ≡ (if str_eq id j then err not_found else get j s))
        → Tells id s t 204
    unknown : {t : Store} → lookup id s.entries ≡ none → SameMaps t s → Tells id s t 404
    kept : (e : Entry) {t : Store} → lookup id s.entries ≡ some e → SameMaps t s → Tells id s t 500

  -- From coherent maps, and for an ID that is not empty, the status of a deletion tells the truth: 204,
  -- that there was an entry, that its key and its ID are gone, and that every other key and ID leads
  -- where it led; 404, that there was none; 500, that there is one. In the last two cases every lookup gives what it gave.
  pub delete_model-Tells :
      (Float Opaque : Type 0) (error_text : Error → String) (id : String) (s : World Disk)
      → Coherent s.store
      → str_eq id "" ≡ false
      → let out = delete_model env error_text id s (fresh {Float = Float} {Opaque = Opaque}) in
        (code : ℕ) × (type : String) × (out.1.sent
          ≡ some (record { status = code; content_type = type }))
        × Tells id s.store out.0.store code
  unfolding delete_model write_header write_error_text
  delete_model-Tells Float Opaque error_text id s c named =
      let r = delete env id s in
      let deleted = delete-IsDeleted env id s in
      let back = delete_rolls_back env id s c in
      let found = lost-delete id s in
      elim (Result-cases r.1) [
        | inl (done, h) ↦
            let (e, there, key, keys, others) = rw h at deleted in
            rw (named, delete_model)
              (rw (h, delete_model) (204, "", refl, gone e there key keys others))
        | inr (x, h) ↦
            let same = rw h at back in
            let lost_now : is_not_found x ≡ not (is_some (lookup id s.store.entries)) =
              rw h at found in
            elim (Option-cases (lookup id s.store.entries)) [
              | inl none_there ↦
                  let stray : is_not_found x ≡ true = lost_now ∙ rw none_there refl in
                  rw (named, delete_model)
                    (rw (h, delete_model)
                      (rw (stray, delete_model)
                        (404, "application/json", refl, unknown none_there same)))
              | inr (e, there) ↦
                  let other : is_not_found x ≡ false = lost_now ∙ rw there refl in
                  rw (named, delete_model)
                    (rw (h, delete_model)
                      (rw (other, delete_model) (500, "application/json", refl, kept e there same)))
            ]
      ]
