-- ===== src/Container/Spec.antt =====
-- The requests of internal/container/paired_run.go, the events of a run, and `ValidateRunID`.
use bonnie.Prelude.{
  ℕ, String, ◌≡◌, refl, Bool, true, false, not, ◌&&◌, ◌||◌, List, [], ◌∷◌, leb, ◌==◌, str_eq,
}
use bonnie.Prelude.Bytes.{Bytes, codes}
use bonnie.Prelude.Int.{ℤ}
use bonnie.Prelude.Maps.{Map}

pub record HealthCheck : Type 0 where
  pub path : String
  pub port : ℤ
  pub timeout_seconds : ℤ

pub record EngineSpec : Type 0 where
  pub image : String
  pub args : List String
  pub env : Map String
  pub ports : List ℤ
  pub model_path : String
  pub health_check : HealthCheck

pub record BenchmarkSpec : Type 0 where
  pub kind : String
  pub image : String
  pub args : List String
  pub env : Map String
  pub config : Bytes
  pub yaml_spec : Bytes

pub record PairedRunSpec : Type 0 where
  pub run_id : String
  pub timeout_seconds : ℤ
  pub engine : EngineSpec
  pub benchmark : BenchmarkSpec

-- `PairedRunEvent`; a zero time stamp is one that is not set.
pub record PairedRunEvent : Type 0 where
  pub type : String
  pub phase : String
  pub source : String
  pub line : String
  pub timestamp : ℕ
  pub results : Bytes
  pub duration_ms : ℕ
  pub error : String

-- The character class of `validRunID`.
abbrev pub is_run_id_char : ℕ → Bool
is_run_id_char c =
    leb b'a' c && leb c b'z'
    || leb b'A' c && leb c b'Z'
    || leb b'0' c && leb c b'9'
    || c == b'_'
    || c == b'-'

all_run_id_chars : Bytes → Bool
all_run_id_chars [] = true
all_run_id_chars (c ∷ s) = is_run_id_char c && all_run_id_chars s

-- `ValidateRunID`: one or more characters of the class.
unfoldable pub validate_run_id : String → Bool
unfolding all_run_id_chars
validate_run_id id = not (str_eq id "") && all_run_id_chars (codes id)

run_ids :
    (validate_run_id "run-7_A" ≡ true)
    × (validate_run_id "a/b" ≡ false)
    × (validate_run_id "" ≡ false)
unfolding validate_run_id
run_ids = (refl, refl, refl)
