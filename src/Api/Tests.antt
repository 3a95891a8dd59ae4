-- ===== src/Api/Tests.antt =====
-- Requests to the models of internal/api, and the API theorems at them.
pub mod Mux
pub mod Served
mod Streamed
use bonnie.Prelude.{◌≡◌, ◌↔◌, ◌⊎◌, refl, true, none, some, List, [], ◌∷◌}
use bonnie.Prelude.Bytes.{Bytes, codes}
use bonnie.Prelude.Int.{pos}
use bonnie.Container.Spec.{PairedRunSpec, validate_run_id}
use bonnie.Container.Monad.{benchmark_kind_invalid}
use bonnie.Container.PairedRun.{refusal}
use bonnie.Container.PairedRun.Tests.{request}
use bonnie.Api.Auth.{passed, refused, is_skipped, auth}
use bonnie.Api.Auth.Bearer.{IsBearer, auth_iff}
use bonnie.Api.Benchmark.{reject, run_timeout}
use bonnie.Api.Benchmark.Checks.{reject-refusal}

abbrev open_paths : List Bytes
open_paths = codes "/health" ∷ codes "/ready" ∷ codes "/metrics" ∷ []

right_token : auth (codes "s3") open_paths (codes "/api/v1/exec") (codes "bEARER s3") ≡ passed
unfolding auth
right_token = refl

wrong_token :
    auth (codes "s3") open_paths (codes "/api/v1/exec") (codes "Bearer s3 ")
    ≡ refused (codes "unauthorized")
unfolding auth
wrong_token = refl

auth_iff_example :
    (auth (codes "s3") open_paths (codes "/api/v1/exec") (codes "bEARER s3") ≡ passed) ↔ (
      (is_skipped open_paths (codes "/api/v1/exec") ≡ true)
      ⊎ IsBearer (codes "s3") (codes "bEARER s3"))
auth_iff_example = auth_iff (codes "s3") open_paths (codes "/api/v1/exec") (codes "bEARER s3")

-- A request whose benchmark is of no known kind.
abbrev odd_kind : PairedRunSpec
odd_kind = record request { benchmark = record request.benchmark { kind = "python" } }

odd_kind_taken : reject true (some odd_kind) ≡ none
unfolding reject validate_run_id
odd_kind_taken = refl

odd_kind_refused : refusal odd_kind ≡ some benchmark_kind_invalid
unfolding refusal validate_run_id
odd_kind_refused = refl

reject-refusal_example :
    (refusal odd_kind ≡ none) ⊎ (refusal odd_kind ≡ some benchmark_kind_invalid)
reject-refusal_example = reject-refusal true odd_kind odd_kind_taken

default_timeout : run_timeout (record request { timeout_seconds = pos 0 }) ≡ pos 3600000000000
unfolding run_timeout
default_timeout = refl
