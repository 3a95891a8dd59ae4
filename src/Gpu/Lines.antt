-- ===== src/Gpu/Lines.antt =====
-- The two parsers of lines, internal/gpu/nvidia.go and internal/gpu/intel.go: what they answer.
use bonnie.Prelude.{refl, ◌||◌, List, [], ◌∷◌, All, inl, inr, Bool-cases, is_empty}
use bonnie.Prelude.Bytes.{Bytes, codes, has_prefix}
use bonnie.Prelude.Results.{Result, ok, ◌>>=◌}
use bonnie.Gpu.Text.{trim_space, split, split_pair, parse_uint, atoi}
use bonnie.Gpu.Types.{
  Vendor, Info, GpuError, invalid_index, invalid_total, invalid_free, invalid_use, or_invalid,
  IsInfo, Runner, tool_output,
}
use bonnie.Gpu.Sound.{Holds, >>=-Holds, any-Holds, or_invalid-Bounded, Found, at_least_one-Holds}
use bonnie.Gpu.Nvidia.{nvidia_fields, nvidia_lines, parse_nvidia_output, detect_nvidia}
use bonnie.Gpu.Intel.{intel_fields, intel_lines, parse_intel_output, detect_intel}

nvidia_fields-Holds :
    (line : Bytes) (fields : List Bytes) → Holds (IsInfo Vendor.nvidia) (nvidia_fields line fields)
unfolding nvidia_fields
nvidia_fields-Holds line [] = tt
nvidia_fields-Holds line (i ∷ []) = tt
nvidia_fields-Holds line (i ∷ n ∷ []) = tt
nvidia_fields-Holds line (i ∷ n ∷ t ∷ []) = tt
nvidia_fields-Holds line (i ∷ n ∷ t ∷ f ∷ []) = tt
nvidia_fields-Holds line (i ∷ n ∷ t ∷ f ∷ u ∷ x ∷ more) = tt
nvidia_fields-Holds line (i ∷ n ∷ t ∷ f ∷ u ∷ []) =
    >>=-Holds _ _ (or_invalid (invalid_index i) (atoi (trim_space i))) _ (any-Holds _) λ index _.
      >>=-Holds _ _ (or_invalid (invalid_total t) (parse_uint (trim_space t))) _
        (or_invalid-Bounded (invalid_total t) (trim_space t))
        λ total ht.
          >>=-Holds _ _ (or_invalid (invalid_free f) (parse_uint (trim_space f))) _
            (or_invalid-Bounded (invalid_free f) (trim_space f))
            λ free hf.
              >>=-Holds _ _ (or_invalid (invalid_use u) (atoi (trim_space u))) _ (any-Holds _)
                λ util _. (refl, ht, hf)

intel_fields-Holds :
    (line : Bytes) (fields : List Bytes) → Holds (IsInfo Vendor.intel) (intel_fields line fields)
unfolding intel_fields
intel_fields-Holds line [] = tt
intel_fields-Holds line (i ∷ []) = tt
intel_fields-Holds line (i ∷ n ∷ []) = tt
intel_fields-Holds line (i ∷ n ∷ t ∷ []) = tt
intel_fields-Holds line (i ∷ n ∷ t ∷ f ∷ more) =
    >>=-Holds _ _ (or_invalid (invalid_index i) (atoi (trim_space i))) _ (any-Holds _) λ index _.
      >>=-Holds _ _ (or_invalid (invalid_total t) (parse_uint (trim_space t))) _
        (or_invalid-Bounded (invalid_total t) (trim_space t))
        λ total ht.
          >>=-Holds _ _ (or_invalid (invalid_free f) (parse_uint (trim_space f))) _
            (or_invalid-Bounded (invalid_free f) (trim_space f)) λ free hf. (refl, ht, hf)

-- One line more, if it parses.
more-Holds :
    (v : Vendor) (g : Result GpuError Info) (rest : Result GpuError (List Info))
    → Holds (IsInfo v) g
    → Holds (All (IsInfo v)) rest
    → Holds (All (IsInfo v)) (g >>= λ gpu. rest >>= λ gpus. ok (gpu ∷ gpus))
more-Holds v g rest hg hr = >>=-Holds _ _ g _ hg λ gpu h. >>=-Holds _ _ rest _ hr λ gpus hs. (h, hs)

nvidia_lines-Holds : (ls : List Bytes) → Holds (All (IsInfo Vendor.nvidia)) (nvidia_lines ls)
unfolding nvidia_lines
nvidia_lines-Holds [] = tt
nvidia_lines-Holds (l ∷ ls) =
    let line = trim_space l in
    let fields = split_pair b',' b' ' line in
    elim (Bool-cases (is_empty line)) [
      | inl e ↦ rw (e, nvidia_lines) (nvidia_lines-Holds ls)
      | inr e ↦
          rw (e, nvidia_lines)
            (more-Holds Vendor.nvidia (nvidia_fields line fields) (nvidia_lines ls)
              (nvidia_fields-Holds line fields) (nvidia_lines-Holds ls))
    ]

intel_lines-Holds : (ls : List Bytes) → Holds (All (IsInfo Vendor.intel)) (intel_lines ls)
unfolding intel_lines
intel_lines-Holds [] = tt
intel_lines-Holds (l ∷ ls) =
    let line = trim_space l in
    let fields = split b',' line in
    elim (Bool-cases (is_empty line || has_prefix line (codes "DeviceID"))) [
      | inl e ↦ rw (e, intel_lines) (intel_lines-Holds ls)
      | inr e ↦
          rw (e, intel_lines)
            (more-Holds Vendor.intel (intel_fields line fields) (intel_lines ls)
              (intel_fields-Holds line fields) (intel_lines-Holds ls))
    ]

pub detect_nvidia-Holds : (run : Runner) → Holds (Found Vendor.nvidia) (detect_nvidia run)
unfolding detect_nvidia parse_nvidia_output
detect_nvidia-Holds run = >>=-Holds _ _ (tool_output run _) _ (any-Holds _) λ out _.
    >>=-Holds _ _ (nvidia_lines (split b'\n' (trim_space out))) _
      (nvidia_lines-Holds (split b'\n' (trim_space out))) λ gpus h. at_least_one-Holds _ gpus h

pub detect_intel-Holds : (run : Runner) → Holds (Found Vendor.intel) (detect_intel run)
unfolding detect_intel parse_intel_output
detect_intel-Holds run = >>=-Holds _ _ (tool_output run _) _ (any-Holds _) λ out _.
    >>=-Holds _ _ (intel_lines (split b'\n' (trim_space out))) _
      (intel_lines-Holds (split b'\n' (trim_space out))) λ gpus h. at_least_one-Holds _ gpus h
