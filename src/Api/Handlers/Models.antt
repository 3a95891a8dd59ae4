-- ===== src/Api/Handlers/Models.antt =====
-- internal/api/handlers/models.go: the model endpoints over the operations of internal/storage. The
-- request's body comes decoded, or not at all.
pub mod Status
use bonnie.Prelude.{
  ℕ, String, Bool, true, false, Option, none, some, List, [], if◌then◌else◌, str_eq,
}
use bonnie.Prelude.Results.{Result, ok, err}
use bonnie.Storage.Env.{Env, FetchRequest}
use bonnie.Storage.Index.{Error, not_found}
use bonnie.Storage.Store.{World, fetch, list, delete}
use bonnie.Api.Http.{
  Writer, entry, entries, write_header, write_json, write_error, write_error_text,
}

-- `errors.Is(err, storage.ErrNotFound)`.
abbrev pub is_not_found : Error → Bool
is_not_found not_found = true
is_not_found x = false

-- `List`; the store's list gives no error.
module _ {Disk Float Opaque : Type 0} where
  unfoldable pub list_models : World Disk → Writer Float Opaque → Writer Float Opaque
  unfolding write_json
  list_models s w = write_json (entries (list s.store)) w

module _ {Disk Data : Type 0} (env : Env Disk Data) {Float Opaque : Type 0}
    (error_text : Error → String) where
  -- `Fetch`; the text of the store's error goes to the client.
  unfoldable pub fetch_model :
      Option FetchRequest → ℕ → World Disk → Writer Float Opaque → World Disk × Writer Float Opaque
  unfolding write_json write_error_text
  fetch_model none now s w = (s, write_error 400 "invalid request body" w)
  fetch_model (some req) now s w =
      if str_eq req.source ""
      then (s, write_error 400 "source is required" w)
      else if str_eq req.model_id ""
      then (s, write_error 400 "model_id is required" w)
      else let (s', r) = fetch env req now s in
        (s', elim r [ err x ↦ write_error 500 (error_text x) w | ok e ↦ write_json (entry e) w ])

  -- `Delete`.
  unfoldable pub delete_model :
      String → World Disk → Writer Float Opaque → World Disk × Writer Float Opaque
  unfolding write_error_text write_header
  delete_model id s w =
      if str_eq id ""
      then (s, write_error 400 "id is required" w)
      else let (s', r) = delete env id s in
        (
          s',
          elim r [
            | ok _ ↦ write_header 204 w
            | err x ↦
                if is_not_found x
                then write_error 404 "model not found" w
                else write_error 500 "failed to delete model" w
          ],
        )
