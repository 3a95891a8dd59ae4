-- ===== src/Gpu/Detector/Order.antt =====
-- What `Detect` of internal/gpu/detector.go answers with.
use bonnie.Prelude.{ℕ, ◌≡◌, refl, sym, Bool, true, false, List, [], ◌∷◌, All, arith}
use bonnie.Prelude.Results.{Result, ok, err}
use bonnie.Gpu.Types.{Vendor, Info, Snapshot, GpuError, IsInfo, Runner}
use bonnie.Gpu.Sound.{Holds, Found}
use bonnie.Gpu.Nvidia.{detect_nvidia}
use bonnie.Gpu.Amd.{Decoder, detect_amd}
use bonnie.Gpu.Intel.{detect_intel}
use bonnie.Gpu.Lines.{detect_nvidia-Holds, detect_intel-Holds}
use bonnie.Gpu.Amd.Memory.{detect_amd-Holds}
use bonnie.Gpu.Detector.{snapshot_of, first_of, detect}

abbrev pub has_gpus : Vendor → Bool
has_gpus Vendor.unknown = false
has_gpus _ = true

abbrev pub is_any : List Info → Bool
is_any [] = false
is_any (g ∷ gpus) = true

-- A snapshot's GPUs are its vendor's, in range, and there are some unless it names no vendor.
abbrev pub IsConsistent : Snapshot → Type 0
IsConsistent snap = All (IsInfo snap.vendor) snap.gpus × (is_any snap.gpus ≡ has_gpus snap.vendor)

snapshot_of-IsConsistent :
    (v : Vendor) (gpus : List Info) (now : ℕ)
    → has_gpus v ≡ true
    → Found v gpus
    → IsConsistent (snapshot_of v gpus now)
snapshot_of-IsConsistent v [] now named h = absurd (omega (arith, h.1))
snapshot_of-IsConsistent v (g ∷ gpus) now named h = (h.0, sym named)

first_of-IsConsistent :
    (nvidia amd intel : Result GpuError (List Info)) (now : ℕ)
    → Holds (Found Vendor.nvidia) nvidia
    → Holds (Found Vendor.amd) amd
    → Holds (Found Vendor.intel) intel
    → IsConsistent (first_of nvidia amd intel now)
first_of-IsConsistent (ok gpus) amd intel now hn ha hi =
    snapshot_of-IsConsistent Vendor.nvidia gpus now refl hn
first_of-IsConsistent (err e) (ok gpus) intel now hn ha hi =
    snapshot_of-IsConsistent Vendor.amd gpus now refl ha
first_of-IsConsistent (err e) (err f) (ok gpus) now hn ha hi =
    snapshot_of-IsConsistent Vendor.intel gpus now refl hi
first_of-IsConsistent (err e) (err f) (err g) now hn ha hi = (tt, refl)

-- Whatever the three tools print, the snapshot of `Detect` has GPUs of its own vendor only, their
-- memory fits 64 bits, and it has one GPU at least unless its vendor is `none`.
pub detect-IsConsistent :
    (json : Decoder) (run : Runner) (now : ℕ) → IsConsistent (detect json run now)
unfolding detect
detect-IsConsistent json run now =
    first_of-IsConsistent (detect_nvidia run) (detect_amd json run) (detect_intel run) now
      (detect_nvidia-Holds run) (detect_amd-Holds json run) (detect_intel-Holds run)
