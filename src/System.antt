-- ===== src/System.antt =====
-- internal/system/info.go: what the host says of itself in /proc and in the output of tools, on ASCII
-- text. The operating system is a parameter; `strconv.ParseFloat` is one, as the number that it gives.
pub mod Memory
mod Tests
use bonnie.Prelude.{
  ℕ, ◌*◌, ◌/◌, String, Bool, true, false, not, Option, none, some, List, [], ◌∷◌, if◌then◌else◌,
  str_eq, ◌==◌, is_empty,
}
use bonnie.Prelude.Bytes.{Bytes, codes, has_prefix}
use bonnie.Prelude.Results.{Result, ok, err}
use bonnie.Gpu.Text.{is_space, trim_space, onto_first, split, parse_uint}
use bonnie.Gpu.Types.{Runner}

pub record SystemInfo : Type 0 where
  pub hostname : String
  pub os : String
  pub arch : String
  pub kernel : Bytes
  pub cpu_model : Bytes
  pub cpu_cores : ℕ
  pub memory_mb : ℕ

-- What `Collect` asks the Go runtime and the operating system.
pub record Host : Type 0 where
  pub hostname : String
  pub goos : String
  pub goarch : String
  pub num_cpu : ℕ
  pub read_file : String → Option Bytes
  pub run : Runner

-- `strings.SplitN(s, sep, 2)`, where it gives two parts: the second.
abbrev pub after_first : ℕ → Bytes → Option Bytes
after_first sep [] = none
after_first sep (c ∷ s) = let rest = after_first sep s in if c == sep then some s else rest

abbrev pub starts_word : Bytes → Bool
starts_word [] = false
starts_word (c ∷ s) = not (is_space c)

-- `strings.Fields`.
abbrev pub fields : Bytes → List Bytes
fields [] = []
fields (c ∷ s) =
    let rest = fields s in
    if is_space c then rest else if starts_word s then onto_first c rest else (c ∷ []) ∷ rest

abbrev pub cpu_model_from : List Bytes → Bytes
cpu_model_from [] = []
cpu_model_from (line ∷ lines) =
    let later = cpu_model_from lines in
    if has_prefix line (codes "model name")
    then elim (after_first b':' line) [ none ↦ later | some model ↦ trim_space model ]
    else later

-- `parseCPUModel`.
unfoldable pub parse_cpu_model : Bytes → Bytes
parse_cpu_model text = cpu_model_from (split b'\n' text)

-- The fields of a line that begins with `MemTotal:`; without a second one the loop goes on.
abbrev pub mem_of_fields : List Bytes → ℕ → ℕ
mem_of_fields [] later = later
mem_of_fields (name ∷ []) later = later
mem_of_fields (name ∷ kb ∷ rest) later = elim (parse_uint kb) [ none ↦ 0 | some n ↦ n / 1024 ]

abbrev pub mem_total_from : List Bytes → ℕ
mem_total_from [] = 0
mem_total_from (line ∷ lines) =
    let later = mem_total_from lines in
    if has_prefix line (codes "MemTotal:") then mem_of_fields (fields line) later else later

-- `parseMemTotal`, in MiB.
unfoldable pub parse_mem_total : Bytes → ℕ
parse_mem_total text = mem_total_from (split b'\n' text)

module _ (host : Host) where
  abbrev output_or : Bytes → List String → Bytes
  output_or other command = elim (host.run command) [ ok out ↦ trim_space out | err e ↦ other ]

  -- `/proc` is read on Linux.
  abbrev pub add_linux : SystemInfo → SystemInfo
  add_linux info =
      let cpu : Bytes = elim (host.read_file "/proc/cpuinfo") [
        | none ↦ info.cpu_model
        | some text ↦ parse_cpu_model text
      ] in
      let memory : ℕ = elim (host.read_file "/proc/meminfo") [
        | none ↦ info.memory_mb
        | some text ↦ parse_mem_total text
      ] in
      record info { cpu_model = cpu; memory_mb = memory }

  abbrev pub memory_of_sysctl : ℕ → Result String Bytes → ℕ
  memory_of_sysctl other (err e) = other
  memory_of_sysctl other (ok out) = elim (parse_uint (trim_space out)) [
    | none ↦ other
    | some bytes ↦ bytes / (1024 * 1024)
  ]

  abbrev pub add_darwin : SystemInfo → SystemInfo
  add_darwin info = record info {
    cpu_model = output_or info.cpu_model ("sysctl" ∷ "-n" ∷ "machdep.cpu.brand_string" ∷ []);
    memory_mb = memory_of_sysctl info.memory_mb (host.run ("sysctl" ∷ "-n" ∷ "hw.memsize" ∷ []));
  }

  -- `Collect`; it returns no error.
  unfoldable pub collect : SystemInfo
  collect =
      let info : SystemInfo = record {
        hostname = host.hostname;
        os = host.goos;
        arch = host.goarch;
        kernel = output_or [] ("uname" ∷ "-r" ∷ []);
        cpu_model = [];
        cpu_cores = host.num_cpu;
        memory_mb = 0;
      } in
      let on_linux = if str_eq host.goos "linux" then add_linux info else info in
      if str_eq host.goos "darwin" then add_darwin on_linux else on_linux

pub record DiskUsage (Float : Type 0) : Type 0 where
  pub total_gb : Float
  pub used_gb : Float
  pub available_gb : Float
  pub used_percent : Bytes

pub data DfError : Type 0 where
  df_failed : String → DfError
  unexpected_format : DfError
  too_few_fields : DfError

-- `strings.TrimSuffix` of one byte.
abbrev pub trim_suffix : ℕ → Bytes → Bytes
trim_suffix c [] = []
trim_suffix c (b ∷ s) =
    let rest = trim_suffix c s in if b == c then if is_empty s then [] else b ∷ rest else b ∷ rest

module _ {Float : Type 0} (parse_float : Bytes → Float) where
  abbrev pub usage_of : List Bytes → Result DfError (DiskUsage Float)
  usage_of (total ∷ used ∷ avail ∷ percent ∷ rest) = ok (record {
    total_gb = parse_float (trim_suffix b'G' total);
    used_gb = parse_float (trim_suffix b'G' used);
    available_gb = parse_float (trim_suffix b'G' avail);
    used_percent = trim_space percent;
  })
  usage_of columns = err too_few_fields

  abbrev pub usage_of_lines : List Bytes → Result DfError (DiskUsage Float)
  usage_of_lines (title ∷ line ∷ lines) = usage_of (fields line)
  usage_of_lines lines = err unexpected_format

  -- `parseDFOutput`.
  unfoldable pub parse_df_output : Bytes → Result DfError (DiskUsage Float)
  parse_df_output output = usage_of_lines (split b'\n' (trim_space output))

  -- `CollectDisk`.
  unfoldable pub collect_disk : Host → Result DfError (DiskUsage Float)
  unfolding parse_df_output
  collect_disk host = elim (host.run ("df" ∷ "-BG" ∷ "--output=size,used,avail,pcent" ∷ "/" ∷ [])) [
    | err e ↦ err (df_failed e)
    | ok out ↦ parse_df_output out
  ]
