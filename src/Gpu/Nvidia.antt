-- ===== src/Gpu/Nvidia.antt =====
-- internal/gpu/nvidia.go.
use bonnie.Prelude.{List, [], ◌∷◌, if◌then◌else◌, is_empty, length}
use bonnie.Prelude.Bytes.{Bytes}
use bonnie.Prelude.Results.{Result, ok, err, ◌>>=◌}
use bonnie.Gpu.Text.{trim_space, split, split_pair, parse_uint, atoi}
use bonnie.Gpu.Types.{
  Vendor, Info, GpuError, field_count, invalid_index, invalid_total, invalid_free, invalid_use,
  or_invalid, at_least_one, Runner, tool_output,
}

-- The fields of one line.
unfoldable pub nvidia_fields : Bytes → List Bytes → Result GpuError Info
unfolding parse_uint atoi
nvidia_fields line (i ∷ n ∷ t ∷ f ∷ u ∷ []) = do
  index ← or_invalid (invalid_index i) (atoi (trim_space i))
  total ← or_invalid (invalid_total t) (parse_uint (trim_space t))
  free ← or_invalid (invalid_free f) (parse_uint (trim_space f))
  util ← or_invalid (invalid_use u) (atoi (trim_space u))
  ok (record {
    index = index;
    name = trim_space n;
    vendor = Vendor.nvidia;
    memory_total = total;
    memory_free = free;
    utilization = util;
  })
nvidia_fields line fields = err (field_count (length fields) line)

-- The loop; blank lines are passed over, and the first bad line ends it.
unfoldable pub nvidia_lines : List Bytes → Result GpuError (List Info)
unfolding nvidia_fields
nvidia_lines [] = ok []
nvidia_lines (l ∷ ls) =
    let line = trim_space l in
    let rest = nvidia_lines ls in
    if is_empty line
    then rest
    else do gpu ← nvidia_fields line (split_pair b',' b' ' line); gpus ← rest; ok (gpu ∷ gpus)

-- `parseNVIDIAOutput`.
unfoldable pub parse_nvidia_output : Bytes → Result GpuError (List Info)
unfolding nvidia_lines
parse_nvidia_output output = nvidia_lines (split b'\n' (trim_space output)) >>= at_least_one

-- `detectNVIDIA`.
unfoldable pub detect_nvidia : Runner → Result GpuError (List Info)
unfolding parse_nvidia_output
detect_nvidia run =
    tool_output run (
      "nvidia-smi" ∷ "--query-gpu=index,name,memory.total,memory.free,utilization.gpu"
      ∷ "--format=csv,noheader,nounits" ∷ [])
    >>= parse_nvidia_output
