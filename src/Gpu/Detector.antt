-- ===== src/Gpu/Detector.antt =====
-- internal/gpu/detector.go.
pub mod Order
use bonnie.Prelude.{ℕ, ◌≡◌, refl, List, [], ◌∷◌}
use bonnie.Prelude.Results.{Result, ok, err}
use bonnie.Gpu.Types.{Vendor, Info, Snapshot, GpuError, Runner}
use bonnie.Gpu.Nvidia.{detect_nvidia}
use bonnie.Gpu.Amd.{Decoder, detect_amd}
use bonnie.Gpu.Intel.{detect_intel}

abbrev pub snapshot_of : Vendor → List Info → ℕ → Snapshot
snapshot_of v gpus now = record { vendor = v; gpus = gpus; timestamp = now }

-- What the first vendor whose tool answers gives.
abbrev pub first_of :
    Result GpuError (List Info)
    → Result GpuError (List Info)
    → Result GpuError (List Info)
    → ℕ
    → Snapshot
first_of (ok gpus) amd intel now = snapshot_of Vendor.nvidia gpus now
first_of (err e) (ok gpus) intel now = snapshot_of Vendor.amd gpus now
first_of (err e) (err f) (ok gpus) now = snapshot_of Vendor.intel gpus now
first_of (err e) (err f) (err g) now = snapshot_of Vendor.unknown [] now

-- `Detect`, at the time of its return.
unfoldable pub detect : Decoder → Runner → ℕ → Snapshot
unfolding detect_nvidia detect_amd detect_intel
detect json run now = first_of (detect_nvidia run) (detect_amd json run) (detect_intel run) now
