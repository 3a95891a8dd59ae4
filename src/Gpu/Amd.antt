-- ===== src/Gpu/Amd.antt =====
-- internal/gpu/amd.go. The JSON decoder and `strconv.ParseFloat` are arguments; a JSON object is
-- the list of its members, each key once.
pub mod Memory
use bonnie.Prelude.{
  ℕ, suc, ◌+◌, ◌-◌, ◌/◌, ◌%◌, ◌^◌, ◌≡◌, refl, Bool, true, false, Option, none, some, List, [], ◌∷◌,
  String, if◌then◌else◌, is_empty,
}
use bonnie.Prelude.Bytes.{Bytes, codes, has_prefix, bytes_leb}
use bonnie.Prelude.Int.{ℤ, pos}
use bonnie.Prelude.Results.{Result, ok, err, ◌>>=◌}
use bonnie.Gpu.Text.{parse_uint}
use bonnie.Gpu.Types.{
  Vendor, Info, GpuError, invalid_json, invalid_device, invalid_total, invalid_used, invalid_use,
  or_invalid, at_least_one, Runner, tool_output,
}

pub record RocmDevice : Type 0 where
  pub card_series : Bytes
  pub gpu_use : Bytes
  pub vram_total_mem : Bytes
  pub vram_total_use : Bytes

-- `json.Unmarshal` into a map and into a device, and `int(f)` of what `ParseFloat` answers.
pub record Decoder : Type 0 where
  pub object : Bytes → Result String (List (Bytes × Bytes))
  pub device : Bytes → Result String RocmDevice
  pub float_int : Bytes → Option ℤ

-- The members whose key begins with `card`.
unfoldable pub card_keys : List (Bytes × Bytes) → List (Bytes × Bytes)
card_keys [] = []
card_keys (m ∷ ms) =
    let rest = card_keys ms in if has_prefix m.0 (codes "card") then m ∷ rest else rest

-- `sort.Strings`, on the keys.
unfoldable pub insert_key : Bytes × Bytes → List (Bytes × Bytes) → List (Bytes × Bytes)
insert_key m [] = m ∷ []
insert_key m (n ∷ ns) =
    let rest = insert_key m ns in if bytes_leb m.0 n.0 then m ∷ n ∷ ns else n ∷ rest

unfoldable pub sort_keys : List (Bytes × Bytes) → List (Bytes × Bytes)
unfolding insert_key
sort_keys [] = []
sort_keys (m ∷ ms) = insert_key m (sort_keys ms)

-- `uint64` subtraction wraps around.
unfoldable pub free_mib : ℕ → ℕ → ℕ
free_mib total used = ((total + 2 ^ 64 - used) % 2 ^ 64) / 1048576

module _ (json : Decoder) where
  unfoldable pub utilization_of : RocmDevice → Result GpuError ℤ
  utilization_of dev =
      if is_empty dev.gpu_use
      then ok (pos 0)
      else or_invalid (invalid_use dev.gpu_use) (json.float_int dev.gpu_use)

  unfoldable pub amd_info : ℕ → RocmDevice → Result GpuError Info
  unfolding parse_uint free_mib utilization_of
  amd_info index dev = do
    total ← or_invalid (invalid_total dev.vram_total_mem) (parse_uint dev.vram_total_mem)
    used ← or_invalid (invalid_used dev.vram_total_use) (parse_uint dev.vram_total_use)
    util ← utilization_of dev
    ok (record {
      index = pos index;
      name = dev.card_series;
      vendor = Vendor.amd;
      memory_total = total / 1048576;
      memory_free = free_mib total used;
      utilization = util;
    })

  abbrev pub device_of : Bytes × Bytes → Result GpuError RocmDevice
  device_of m = elim (json.device m.1) [ ok dev ↦ ok dev | err e ↦ err (invalid_device m.0 e) ]

  -- The loop over the sorted keys, from an index on.
  unfoldable pub amd_cards : ℕ → List (Bytes × Bytes) → Result GpuError (List Info)
  unfolding amd_info
  amd_cards index [] = ok []
  amd_cards index (m ∷ ms) =
      let rest = amd_cards (suc index) ms in
      do dev ← device_of m; gpu ← amd_info index dev; gpus ← rest; ok (gpu ∷ gpus)

  abbrev pub members : Bytes → Result GpuError (List (Bytes × Bytes))
  members output = elim (json.object output) [ ok ms ↦ ok ms | err e ↦ err (invalid_json e) ]

  -- `parseAMDOutput`.
  unfoldable pub parse_amd_output : Bytes → Result GpuError (List Info)
  unfolding card_keys sort_keys amd_cards
  parse_amd_output output = do
    raw ← members output
    gpus ← amd_cards 0 (sort_keys (card_keys raw))
    at_least_one gpus

  -- `detectAMD`.
  unfoldable pub detect_amd : Runner → Result GpuError (List Info)
  unfolding parse_amd_output
  detect_amd run =
      tool_output run
        ("rocm-smi" ∷ "--showid" ∷ "--showuse" ∷ "--showmeminfo" ∷ "vram" ∷ "--json" ∷ [])
      >>= parse_amd_output
