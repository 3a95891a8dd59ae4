-- ===== src/Api/Benchmark/Checks.antt =====
-- The checks of `Run` in internal/api/handlers/benchmark.go against those of `PairedRun`.
use bonnie.Prelude.{◌≡◌, ◌⊎◌, Bool, none, some, arith}
use bonnie.Container.Spec.{PairedRunSpec}
use bonnie.Container.Monad.{benchmark_kind_invalid}
use bonnie.Container.PairedRun.{refusal}
use bonnie.Api.Benchmark.{reject}

-- A request that the handler lets through is accepted by `PairedRun`, or refused for the kind of
-- its benchmark and nothing else.
pub reject-refusal :
    (streams : Bool) (spec : PairedRunSpec)
    → reject streams (some spec) ≡ none
    → (refusal spec ≡ none) ⊎ (refusal spec ≡ some benchmark_kind_invalid)
unfolding reject refusal
reject-refusal streams spec h = ground arith
