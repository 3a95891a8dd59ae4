-- ===== src/Api/Handlers/Metrics.antt =====
-- internal/api/handlers/gpu.go: the metrics of the GPUs in the text format of Prometheus. `quote` is
-- the verb `%q`.
use bonnie.Prelude.{List, [], ◌∷◌, ◌++◌, map, length}
use bonnie.Prelude.Bytes.{Bytes, codes}
use bonnie.Prelude.Int.{show_int, show_nat}
use bonnie.Gpu.Types.{Info, Snapshot}
use bonnie.Gpu.Poller.{Poller}
use bonnie.Api.Http.{Writer, set_type}
use bonnie.Api.Handlers.Host.{vendor_text, write_line}

module _ {Float Opaque : Type 0} where
  abbrev pub write_lines : List Bytes → Writer Float Opaque → Writer Float Opaque
  write_lines [] w = w
  write_lines (line ∷ lines) w = write_lines lines (write_line line w)

module _ (quote : Bytes → Bytes) where
  -- One gauge of one GPU.
  abbrev pub gauge : Bytes → Bytes → Info → Bytes
  gauge name value g =
      name
      ++ codes "{index=\""
      ++ codes (show_int g.index)
      ++ codes "\",name="
      ++ quote g.name
      ++ codes ",vendor="
      ++ quote (vendor_text g.vendor)
      ++ codes "} "
      ++ value

  unfoldable pub metric_lines : Snapshot → List Bytes
  metric_lines snap =
      codes "# HELP bonnie_gpu_memory_total_mib Total GPU memory in MiB."
        ∷ codes "# TYPE bonnie_gpu_memory_total_mib gauge"
        ∷ map (λ g. gauge (codes "bonnie_gpu_memory_total_mib") (codes (show_nat g.memory_total)) g)
            snap.gpus
      ++ codes "# HELP bonnie_gpu_memory_free_mib Free GPU memory in MiB."
        ∷ codes "# TYPE bonnie_gpu_memory_free_mib gauge"
        ∷ map (λ g. gauge (codes "bonnie_gpu_memory_free_mib") (codes (show_nat g.memory_free)) g)
            snap.gpus
      ++ codes "# HELP bonnie_gpu_utilization_percent GPU utilization percentage."
        ∷ codes "# TYPE bonnie_gpu_utilization_percent gauge"
        ∷ map
            (λ g. gauge (codes "bonnie_gpu_utilization_percent") (codes (show_int g.utilization)) g)
            snap.gpus
      ++ codes "# HELP bonnie_gpu_count Total number of GPUs detected."
        ∷ codes "# TYPE bonnie_gpu_count gauge"
        ∷ (codes "bonnie_gpu_count{vendor="
            ++ quote (vendor_text snap.vendor)
            ++ codes "} "
            ++ codes (show_nat (length snap.gpus)))
        ∷ []

  -- `Metrics`.
  unfoldable pub gpu_metrics :
      {Float Opaque : Type 0} → Poller → Writer Float Opaque → Writer Float Opaque
  unfolding metric_lines
  gpu_metrics p w =
      write_lines (metric_lines p.latest) (set_type "text/plain; version=0.0.4; charset=utf-8" w)
