-- ===== src/System/Tests.antt =====
-- The parsers of internal/system at the output of a small host.
use bonnie.Prelude.{[], ◌≡◌, ◌/◌, refl, ◌∷◌, ◌++◌}
use bonnie.Prelude.Bytes.{codes}
use bonnie.Prelude.Results.{ok, err}
use bonnie.Gpu.Text.{parse_uint}
use bonnie.System.{parse_cpu_model, parse_mem_total, parse_df_output, too_few_fields}
use bonnie.System.Memory.{after_lines, mem_line, parse_mem_total-mem_line}

cpu :
    parse_cpu_model (codes "processor\t: 0\nmodel name\t: AMD EPYC: 7\nmodel name\t: other\n")
    ≡ codes "AMD EPYC: 7"
unfolding parse_cpu_model
cpu = refl

no_memory : parse_mem_total (codes "MemTotal: 12x kB\nMemTotal: 2048 kB\n") ≡ 0
unfolding parse_mem_total parse_uint
no_memory = refl

disk :
    parse_df_output (λ s. s) (codes " Size Used Avail Use%\n 98G 12G  81G  13%\n")
    ≡ ok (record {
      total_gb = codes "98";
      used_gb = codes "12";
      available_gb = codes "81";
      used_percent = codes "13%";
    })
unfolding parse_df_output
disk = refl

no_disk : parse_df_output (λ s. s) (codes "Size\n98G 12G\n") ≡ err too_few_fields
unfolding parse_df_output
no_disk = refl

parse_mem_total-mem_line_example :
    parse_mem_total (
      after_lines
        (codes "MemFree: 1 kB" ∷ [])
        (mem_line 7 (codes "16303428") ++ (b'\n' ∷ codes "Buffers: 1 kB\n")))
    ≡ 16303428 / 1024
parse_mem_total-mem_line_example =
    parse_mem_total-mem_line (codes "MemFree: 1 kB" ∷ []) 7 b'1' (codes "6303428")
      (codes "Buffers: 1 kB\n") 16303428 (refl, refl, tt) refl (unfold parse_uint in refl)
