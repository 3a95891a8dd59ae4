-- ===== src/Container/Artifacts.antt =====
-- internal/container/paired_run.go: `waitForExit` and `readResults`.
pub mod Archive
use bonnie.Prelude.{
  ℕ, suc, String, ◌≡◌, refl, Bool, true, false, not, Option, none, some, List, [], ◌∷◌,
  if◌then◌else◌, ltb, length, take, str_eq,
}
use bonnie.Prelude.Bytes.{Bytes}
use bonnie.Prelude.Int.{ℤ}
use bonnie.Prelude.Results.{Result, ok, err}
use bonnie.Container.Docker.{
  Client, Step, Waited, exited, wait_failed, TarItem, bad_header, irregular, regular, waited,
  copied_from,
}
use bonnie.Container.Monad.{RunState, M, record_step}

-- What `waitForExit` makes of an answer: an empty message is no error.
abbrev pub exit_of : Waited → Result String ℤ
exit_of (wait_failed e) = err e
exit_of (exited code none) = ok code
exit_of (exited code (some message)) = if str_eq message "" then ok code else err message

unfoldable pub wait_for_exit : Client → String → RunState → RunState × Result String ℤ
wait_for_exit client id s = (record_step (waited id) s, exit_of (client.container_wait s.trace id))

-- `maxResultsSize`, 256 MB.
abbrev pub max_results_size : ℕ
max_results_size = 268435456

-- A file's content, read up to one byte over the limit.
unfoldable pub check_results : ℕ → (Bytes → Bool) → Bytes → Result String Bytes
check_results limit json_valid content =
    let body = take (suc limit) content in
    if ltb limit (length body)
    then err "results file exceeds 268435456 bytes size limit"
    else if not (json_valid body)
    then err "results file is not valid JSON"
    else ok body

-- The first regular file of the archive decides.
unfoldable pub read_archive : (Bytes → Bool) → List TarItem → Result String Bytes
unfolding check_results
read_archive json_valid [] = err "results archive empty"
read_archive json_valid (bad_header e ∷ items) = err e
read_archive json_valid (irregular ∷ items) = read_archive json_valid items
read_archive json_valid (regular (err e) ∷ items) = err e
read_archive json_valid (regular (ok content) ∷ items) =
    check_results max_results_size json_valid content

-- `readResults`.
unfoldable pub read_results : Client → String → RunState → RunState × Result String Bytes
unfolding read_archive
read_results client id s = elim (client.copy_from s.trace id "/results/out.json") [
  | err e ↦ (record_step (copied_from id) s, err e)
  | ok items ↦ (record_step (copied_from id) s, read_archive client.json_valid items)
]
