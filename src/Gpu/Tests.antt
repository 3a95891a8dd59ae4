-- ===== src/Gpu/Tests.antt =====
-- Runs of the models of internal/gpu at concrete outputs, and the GPU theorems at them.
use bonnie.Prelude.{
  ℕ, ◌-◌, ◌/◌, ◌^◌, ◌≤◌, ◌≡◌, refl, none, some, map, List, [], ◌∷◌, if◌then◌else◌, str_eq, arith,
  leb, All,
}
use bonnie.Prelude.Bytes.{codes}
use bonnie.Prelude.Int.{pos}
use bonnie.Prelude.Results.{ok, err}
use bonnie.Gpu.Types.{Vendor, Info, Snapshot, GpuError, Runner}
use bonnie.Gpu.Nvidia.{parse_nvidia_output}
use bonnie.Gpu.Intel.{parse_intel_output}
use bonnie.Gpu.Amd.{RocmDevice, Decoder, free_mib, parse_amd_output}
use bonnie.Gpu.Amd.Memory.{Numbered, free_mib_lem, parse_amd_output-Numbered}
use bonnie.Gpu.Detector.{detect}
use bonnie.Gpu.Detector.Order.{IsConsistent, detect-IsConsistent}
use bonnie.Gpu.Poller.{Poller, start, step, detected, published, subscribed, received}
use bonnie.Gpu.Poller.Reach.{
  first, started, placed, passed_on, joined, taken, IsNewest, IsHeld, Holding, Reach-Holding,
}

abbrev card : Info
card = record {
  index = pos 0;
  name = codes "A100";
  vendor = Vendor.nvidia;
  memory_total = 40960;
  memory_free = 40000;
  utilization = pos 7;
}

one_card : parse_nvidia_output (codes "0, A100, 40960, 40000, 7\n") ≡ ok (card ∷ [])
unfolding parse_nvidia_output
one_card = refl

no_card : parse_nvidia_output (codes "\n") ≡ err GpuError.no_gpus
unfolding parse_nvidia_output
no_card = refl

bad_card :
    parse_nvidia_output (codes "0, A100, x, 40000, 7") ≡ err (GpuError.invalid_total (codes "x"))
unfolding parse_nvidia_output
bad_card = refl

arc : Info
arc = record {
  index = pos 1;
  name = codes "Arc";
  vendor = Vendor.intel;
  memory_total = 16000;
  memory_free = 15000;
  utilization = pos 0;
}

one_arc : parse_intel_output (codes "DeviceID,Name\n1, Arc, 16000, 15000,x") ≡ ok (arc ∷ [])
unfolding parse_intel_output arc
one_arc = refl

abbrev device : RocmDevice
device = record {
  card_series = codes "MI300";
  gpu_use = [];
  vram_total_mem = codes "2097152";
  vram_total_use = codes "1048576";
}

abbrev decoder : Decoder
decoder = record {
  object = λ out. ok ((codes "card1", []) ∷ (codes "system", []) ∷ (codes "card0", []) ∷ []);
  device = λ raw. ok device;
  float_int = λ s. none;
}

abbrev mi300 : ℕ → Info
mi300 i = record {
  index = pos i;
  name = codes "MI300";
  vendor = Vendor.amd;
  memory_total = 2;
  memory_free = 1;
  utilization = pos 0;
}

abbrev two_mi300 : List Info
two_mi300 = mi300 0 ∷ mi300 1 ∷ []

two_cards : parse_amd_output decoder [] ≡ ok two_mi300
unfolding parse_amd_output
two_cards = refl

parse_amd_output-Numbered_example : Numbered 0 two_mi300 × (1 ≤ 2)
parse_amd_output-Numbered_example = parse_amd_output-Numbered decoder [] two_mi300 two_cards

free_mib_lem_example : free_mib 1048576 2097152 ≡ (
    if leb 2097152 1048576
    then (1048576 - 2097152) / 1048576
    else (2 ^ 64 - (2097152 - 1048576)) / 1048576)
free_mib_lem_example = free_mib_lem 1048576 2097152 (omega arith) (omega arith)

-- A host with an AMD tool only.
abbrev amd_host : Runner
amd_host [] = err "no command"
amd_host (tool ∷ args) = if str_eq tool "rocm-smi" then ok [] else err "not found"

detect-IsConsistent_example : IsConsistent (detect decoder amd_host 3)
detect-IsConsistent_example = detect-IsConsistent decoder amd_host 3

amd_first : (detect decoder amd_host 3).gpus ≡ two_mi300
unfolding detect
amd_first = refl

abbrev at : ℕ → Snapshot
at now = record { vendor = Vendor.unknown; gpus = []; timestamp = now }

-- Two ticks; the channel is emptied between them, and the second is not passed on yet.
abbrev polled : Poller
polled = step (detected (at 3)) (
    step (received 0)
      (step (published (at 2)) (step (detected (at 2)) (step subscribed (start (at 1) [])))))

Reach-Holding_example :
    IsNewest polled.latest (at 3 ∷ at 2 ∷ at 1 ∷ [])
    × IsHeld (some (at 3)) (at 3 ∷ at 2 ∷ at 1 ∷ [])
    × All (Holding (at 3 ∷ at 2 ∷ at 1 ∷ [])) polled.subs
    × (polled.subs ≡ map first ([] ∷ []))
Reach-Holding_example =
    Reach-Holding (at 3 ∷ at 2 ∷ at 1 ∷ []) (some (at 3)) ([] ∷ []) polled
      (placed (at 3) (taken 0 (passed_on (placed (at 2) (joined (started (at 1) [] tt))))))
