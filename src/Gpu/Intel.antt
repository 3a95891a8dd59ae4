-- ===== src/Gpu/Intel.antt =====
-- internal/gpu/intel.go.
use bonnie.Prelude.{◌||◌, List, [], ◌∷◌, if◌then◌else◌, is_empty, length}
use bonnie.Prelude.Bytes.{Bytes, codes, has_prefix}
use bonnie.Prelude.Int.{pos}
use bonnie.Prelude.Results.{Result, ok, err, ◌>>=◌}
use bonnie.Gpu.Text.{trim_space, split, parse_uint, atoi}
use bonnie.Gpu.Types.{
  Vendor, Info, GpuError, field_count, invalid_index, invalid_total, invalid_free, or_invalid,
  at_least_one, Runner, tool_output,
}

-- The fields of one line; those after the fourth are not read.
unfoldable pub intel_fields : Bytes → List Bytes → Result GpuError Info
unfolding parse_uint atoi
intel_fields line (i ∷ n ∷ t ∷ f ∷ more) = do
  index ← or_invalid (invalid_index i) (atoi (trim_space i))
  total ← or_invalid (invalid_total t) (parse_uint (trim_space t))
  free ← or_invalid (invalid_free f) (parse_uint (trim_space f))
  ok (record {
    index = index;
    name = trim_space n;
    vendor = Vendor.intel;
    memory_total = total;
    memory_free = free;
    utilization = pos 0;
  })
intel_fields line fields = err (field_count (length fields) line)

-- The loop; blank lines and the heading are passed over.
unfoldable pub intel_lines : List Bytes → Result GpuError (List Info)
unfolding intel_fields
intel_lines [] = ok []
intel_lines (l ∷ ls) =
    let line = trim_space l in
    let rest = intel_lines ls in
    if is_empty line || has_prefix line (codes "DeviceID")
    then rest
    else do gpu ← intel_fields line (split b',' line); gpus ← rest; ok (gpu ∷ gpus)

-- `parseIntelOutput`.
unfoldable pub parse_intel_output : Bytes → Result GpuError (List Info)
unfolding intel_lines
parse_intel_output output = intel_lines (split b'\n' (trim_space output)) >>= at_least_one

-- `detectIntel`.
unfoldable pub detect_intel : Runner → Result GpuError (List Info)
unfolding parse_intel_output
detect_intel run =
    tool_output run ("xpu-smi" ∷ "discovery" ∷ "--dump" ∷ "1,3,6,7" ∷ []) >>= parse_intel_output
