-- ===== src/Gpu/Amd/Memory.antt =====
-- The cards of internal/gpu/amd.go: their indices, and the memory that is free.
use bonnie.Prelude.{
  ℕ, zero, suc, ◌-◌, ◌/◌, ◌^◌, ◌≤◌, ◌<◌, ◌≡◌, refl, subst, if◌then◌else◌, leb, List, [], ◌∷◌, map,
  All, length, arith,
}
use bonnie.Prelude.Bytes.{Bytes}
use bonnie.Prelude.Int.{ℤ, pos}
use bonnie.Prelude.Results.{Result, ok, err}
use bonnie.Gpu.Text.{parse_uint}
use bonnie.Gpu.Types.{
  Vendor, Info, GpuError, invalid_total, invalid_used, or_invalid, IsInfo, Runner, tool_output,
}
use bonnie.Gpu.Sound.{Holds, >>=-Holds, any-Holds, or_invalid-Bounded, Found, at_least_one-Holds}
use bonnie.Gpu.Amd.{
  Decoder, RocmDevice, card_keys, sort_keys, free_mib, utilization_of, amd_info, device_of,
  amd_cards, members, parse_amd_output, detect_amd,
}

-- For a total and a use of 64 bits: the free memory is the rest of the total where no more is in
-- use than there is, in MiB; where more is, it is 2 ^ 64 bytes less the excess, in MiB.
pub free_mib_lem :
    (total used : ℕ)
    → total < 2 ^ 64
    → used < 2 ^ 64
    → free_mib total used
      ≡ (if leb used total then (total - used) / 1048576 else (2 ^ 64 - (used - total)) / 1048576)
unfolding free_mib
free_mib_lem total used ht hu = ground arith

free_mib-Bounded : (total used : ℕ) → free_mib total used < 2 ^ 64
unfolding free_mib
free_mib-Bounded total used = omega arith

-- The numbers from `i` on, as many as `n`.
abbrev pub count_from : ℕ → ℕ → List ℤ
count_from i zero = []
count_from i (suc n) = pos i ∷ count_from (suc i) n

-- Cards in their order: the indices from `i` on.
abbrev pub Numbered : ℕ → List Info → Type 0
Numbered i gpus =
    (map (λ g. g.index) gpus ≡ count_from i (length gpus)) × All (IsInfo Vendor.amd) gpus

cons_number :
    (g : Info) (i : ℕ) (gpus : List Info)
    → g.index ≡ pos i
    → map (λ g. g.index) gpus ≡ count_from (suc i) (length gpus)
    → map (λ g. g.index) (g ∷ gpus) ≡ count_from i (length (g ∷ gpus))
cons_number g i gpus at numbers = cc

module _ (json : Decoder) where
  amd_info-Holds :
      (index : ℕ) (dev : RocmDevice)
      → Holds (λ g. (g.index ≡ pos index) × IsInfo Vendor.amd g) (amd_info json index dev)
  unfolding amd_info
  amd_info-Holds index dev =
      >>=-Holds _ _ (or_invalid (invalid_total dev.vram_total_mem) (parse_uint dev.vram_total_mem))
        _ (or_invalid-Bounded (invalid_total dev.vram_total_mem) dev.vram_total_mem)
        λ total ht.
          >>=-Holds _ _
            (or_invalid (invalid_used dev.vram_total_use) (parse_uint dev.vram_total_use)) _
            (or_invalid-Bounded (invalid_used dev.vram_total_use) dev.vram_total_use)
            λ used hu.
              >>=-Holds _ _ (utilization_of json dev) _ (any-Holds _)
                λ util _. (refl, (refl, omega arith, free_mib-Bounded total used))

  amd_cards-Holds :
      (index : ℕ) (ms : List (Bytes × Bytes)) → Holds (Numbered index) (amd_cards json index ms)
  unfolding amd_cards
  amd_cards-Holds index [] = (refl, tt)
  amd_cards-Holds index (m ∷ ms) = >>=-Holds _ _ (device_of json m) _ (any-Holds _) λ dev _.
      >>=-Holds _ _ (amd_info json index dev) _ (amd_info-Holds index dev) λ gpu (at, info).
        >>=-Holds _ _ (amd_cards json (suc index) ms) _ (amd_cards-Holds (suc index) ms)
          λ gpus (numbers, infos). (cons_number gpu index gpus at numbers, (info, infos))

  parse_amd_output-Holds :
      (output : Bytes)
      → Holds (λ gpus. Numbered 0 gpus × (1 ≤ length gpus)) (parse_amd_output json output)
  unfolding parse_amd_output
  parse_amd_output-Holds output = >>=-Holds _ _ (members json output) _ (any-Holds _) λ raw _.
      >>=-Holds _ _ (amd_cards json 0 (sort_keys (card_keys raw))) _
        (amd_cards-Holds 0 (sort_keys (card_keys raw)))
        λ gpus h. at_least_one-Holds (Numbered 0) gpus h

  -- Where the parser of `rocm-smi` answers, its GPUs are numbered from zero on without a gap, there
  -- is one at least, and each is AMD's with memory that fits its fields.
  pub parse_amd_output-Numbered :
      (output : Bytes) (gpus : List Info)
      → parse_amd_output json output ≡ ok gpus
      → Numbered 0 gpus × (1 ≤ length gpus)
  parse_amd_output-Numbered output gpus e =
      subst (Holds (λ gs. Numbered 0 gs × (1 ≤ length gs))) e (parse_amd_output-Holds output)

  pub detect_amd-Holds : (run : Runner) → Holds (Found Vendor.amd) (detect_amd json run)
  unfolding detect_amd
  detect_amd-Holds run =
      >>=-Holds _ _ (tool_output run _) _ (any-Holds _)
        λ out _. weaken (parse_amd_output json out) (parse_amd_output-Holds out)
    where
      weaken :
          (r : Result GpuError (List Info))
          → Holds (λ gpus. Numbered 0 gpus × (1 ≤ length gpus)) r
          → Holds (Found Vendor.amd) r
      weaken (ok gpus) h = (h.0.1, h.1)
      weaken (err e) h = tt
