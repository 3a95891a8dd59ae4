-- ===== src/Api/Handlers/Host.antt =====
-- internal/api/handlers: the endpoints of the GPUs (gpu.go), the host (system.go), its commands
-- (exec.go) and its health (health.go).
use bonnie.Prelude.{
  String, Bool, true, false, Option, none, some, List, [], ◌∷◌, ◌++◌, if◌then◌else◌, str_eq, not,
}
use bonnie.Prelude.Bytes.{Bytes, codes}
use bonnie.Prelude.Results.{ok, err}
use bonnie.Gpu.Types.{Vendor, nvidia, amd, intel, unknown, Runner}
use bonnie.Gpu.Poller.{Poller}
use bonnie.System.{DiskUsage, Host, collect, collect_disk}
use bonnie.Api.Http.{
  Writer, flag, snapshot, host, opaque, raw, set_type, write_header, flush, write, write_json,
  write_error, write_error_text,
}

-- The values of the vendors.
abbrev pub vendor_text : Vendor → Bytes
vendor_text nvidia = codes "nvidia"
vendor_text amd = codes "amd"
vendor_text intel = codes "intel"
vendor_text unknown = codes "unknown"

-- `exec.go`: the decoded body.
pub record ExecRequest : Type 0 where
  pub command : String
  pub args : List String

-- The command that `Exec` runs, where it comes so far.
unfoldable pub command_of : Bool → Option ExecRequest → Option (List String)
command_of flushes none = none
command_of flushes (some req) =
    if str_eq req.command ""
    then none
    else if not flushes
    then none
    else some (req.command ∷ req.args)

module _ {Float Opaque : Type 0} where
  -- `Status`.
  unfoldable pub gpu_status : Poller → Writer Float Opaque → Writer Float Opaque
  unfolding write_json
  gpu_status p w = write_json (snapshot p.latest) w

  -- `writeMetric`.
  abbrev pub write_line : Bytes → Writer Float Opaque → Writer Float Opaque
  write_line line w = write (raw (line ++ b'\n' ∷ [])) w

  -- `Exec`; `quote` is the verb `%q`.
  unfoldable pub exec :
      (Bytes → Bytes)
      → Runner
      → Bool
      → Option ExecRequest
      → Writer Float Opaque
      → Writer Float Opaque
  unfolding write write_error_text
  exec quote run flushes none w = write_error 400 "invalid request body" w
  exec quote run flushes (some req) w =
      if str_eq req.command ""
      then write_error 400 "command is required" w
      else if not flushes
      then write_error 500 "streaming not supported" w
      else let w' = flush (set_type "text/event-stream" w) in
        elim (run (req.command ∷ req.args)) [
          | err e ↦
              flush
                (write (raw (codes "data: {\"error\": " ++ quote (codes e) ++ codes "}\n\n")) w')
          | ok out ↦
              let after = flush (write (raw (codes "data: " ++ out ++ codes "\n\n")) w') in
              flush (write (raw (codes "event: done\ndata: {\"exit_code\": 0}\n\n")) after)
        ]

  -- `Info`; the disk's error is not reported.
  unfoldable pub system_info : (Bytes → Float) → Host → Writer Float Opaque → Writer Float Opaque
  unfolding write_json
  system_info parse_float h w =
      let disk : Option (DiskUsage Float) = elim (collect_disk parse_float h) [
        | ok usage ↦ some usage
        | err x ↦ none
      ] in
      write_json (host (collect h) disk) w

  -- `Health`, on the report of the registry, whether it is healthy and what it says.
  unfoldable pub health : Bool × Opaque → Writer Float Opaque → Writer Float Opaque
  unfolding write write_header
  health (healthy, report) w =
      let w' = set_type "application/json" w in
      write (opaque report) (if healthy then w' else write_header 503 w')

  -- `Ready`, on the answer of Docker's ping.
  unfoldable pub ready : Option String → Writer Float Opaque → Writer Float Opaque
  unfolding write write_header
  ready none w = write (flag "ready" true) (set_type "application/json" w)
  ready (some e) w = write (flag "ready" false) (write_header 503 (set_type "application/json" w))
