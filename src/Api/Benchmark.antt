-- ===== src/Api/Benchmark.antt =====
-- internal/api/handlers/benchmark.go: the checks of `Run` before the stream begins.
pub mod Checks
use bonnie.Prelude.{
  ◌*◌, ◌≡◌, Bool, true, false, not, Option, none, some, String, if◌then◌else◌, str_eq,
}
use bonnie.Prelude.Int.{ℤ, pos, pos_part, is_positive, to_int64}
use bonnie.Container.Spec.{PairedRunSpec, validate_run_id}

-- What the client is told, with status 400 but for the last, which has 500.
pub data Rejection : Type 0 where
  invalid_body run_id_missing run_id_malformed engine_image_missing : Rejection
  benchmark_image_missing streaming_unsupported : Rejection

-- The checks in their order; `streams` says whether the writer can be flushed. An absent body is one
-- that does not decode.
unfoldable pub reject : Bool → Option PairedRunSpec → Option Rejection
reject streams none = some invalid_body
reject streams (some spec) =
    if str_eq spec.run_id ""
    then some run_id_missing
    else if not (validate_run_id spec.run_id)
    then some run_id_malformed
    else if str_eq spec.engine.image ""
    then some engine_image_missing
    else if str_eq spec.benchmark.image ""
    then some benchmark_image_missing
    else if not streams
    then some streaming_unsupported
    else none

-- The time that a run is given, in nanoseconds: an hour, or the seconds of the request as an
-- `int64`.
unfoldable pub run_timeout : PairedRunSpec → ℤ
run_timeout spec =
    if is_positive spec.timeout_seconds
    then to_int64 (pos_part spec.timeout_seconds * 1000000000)
    else pos 3600000000000
