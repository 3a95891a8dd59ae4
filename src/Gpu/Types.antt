-- ===== src/Gpu/Types.antt =====
-- internal/gpu/types.go, and the failures of the detection. internal/gpu/command.go runs a tool:
-- an argument here.
use bonnie.Prelude.{ℕ, ◌^◌, ◌<◌, ◌≡◌, Option, none, some, List, [], ◌∷◌, String}
use bonnie.Prelude.Bytes.{Bytes}
use bonnie.Prelude.Int.{ℤ}
use bonnie.Prelude.Results.{Result, ok, err}

pub data Vendor : Type 0 where
  nvidia amd intel unknown : Vendor

pub record Info : Type 0 where
  pub index : ℤ
  pub name : Bytes
  pub vendor : Vendor
  pub memory_total : ℕ
  pub memory_free : ℕ
  pub utilization : ℤ

pub record Snapshot : Type 0 where
  pub vendor : Vendor
  pub gpus : List Info
  pub timestamp : ℕ

-- What an output is refused for, with the text in question.
pub data GpuError : Type 0 where
  tool_failed : String → GpuError
  invalid_json : String → GpuError
  field_count : ℕ → Bytes → GpuError
  invalid_index invalid_total invalid_free invalid_used invalid_use : Bytes → GpuError
  invalid_device : Bytes → String → GpuError
  no_gpus : GpuError

-- `strconv` answers with a number or an error.
abbrev pub or_invalid {ℓ} : {A : Type ℓ} → GpuError → Option A → Result GpuError A
or_invalid e none = err e
or_invalid e (some a) = ok a

-- The check at the end of each parser.
abbrev pub at_least_one : List Info → Result GpuError (List Info)
at_least_one [] = err no_gpus
at_least_one (g ∷ gpus) = ok (g ∷ gpus)

-- `CommandRunner.Run` of a tool with arguments.
abbrev pub Runner : Type 0
Runner = List String → Result String Bytes

abbrev pub tool_output : Runner → List String → Result GpuError Bytes
tool_output run command = elim (run command) [ ok out ↦ ok out | err e ↦ err (tool_failed e) ]

-- The memory of a GPU fits its fields.
abbrev pub IsInfo : Vendor → Info → Type 0
IsInfo v g = (g.vendor ≡ v) × (g.memory_total < 2 ^ 64) × (g.memory_free < 2 ^ 64)
