-- ===== src/Container/Docker.antt =====
-- The Docker client, the health probe and the clock that internal/container/paired_run.go calls.
-- A trace lists what a run has done so far, newest first, and an answer may depend on all of it.
use bonnie.Prelude.{ℕ, String, Bool, Option, List}
use bonnie.Prelude.Bytes.{Bytes}
use bonnie.Prelude.Int.{ℤ}
use bonnie.Prelude.Maps.{Map}
use bonnie.Prelude.Results.{Result}
use bonnie.Container.Spec.{PairedRunEvent}

pub record DeviceMapping : Type 0 where
  pub path_on_host : String
  pub path_in_container : String
  pub cgroup_permissions : String

pub record DeviceRequest : Type 0 where
  pub count : ℤ
  pub capabilities : List (List String)

pub record Mount : Type 0 where
  pub source : String
  pub target : String

pub record HostConfig : Type 0 where
  pub binds : List String
  pub mounts : List Mount
  pub device_requests : List DeviceRequest
  pub devices : List DeviceMapping
  pub security_opt : List String
  pub group_add : List String

pub record ContainerConfig : Type 0 where
  pub image : String
  pub cmd : List String
  pub env : List String
  pub host : HostConfig
  pub networks : List String

-- One call or pause of a run, whatever it answered. A container's creation that was granted carries
-- the ID of the answer. `offered` is an event for the channel, with whether the send waits for room.
pub data Step : Type 0 where
  network_requested volume_requested network_removed volume_removed : String → Step
  container_created : ContainerConfig → String → String → Step
  container_refused : ContainerConfig → String → Step
  container_started container_stopped container_removed : String → Step
  inspected waited copied_from : String → Step
  copied_to : String → String → Bytes → Step
  probed : String → ℤ → String → Step
  slept events_closed : Step
  offered : Bool → PairedRunEvent → Step

abbrev pub Trace : Type 0
Trace = List Step

-- `NetworkSettings`, which may be nil: the endpoints, which may be nil, with their addresses.
abbrev pub Inspection : Type 0
Inspection = Option (Map (Option String))

-- How `ContainerWait` ends: with a status code and the message of an error in the answer, or with
-- an error; the cancelled context is one.
pub data Waited : Type 0 where
  exited : ℤ → Option String → Waited
  wait_failed : String → Waited

-- What `tar.Reader.Next` gives, entry by entry; the end of the list is the end of the archive.
pub data TarItem : Type 0 where
  bad_header : String → TarItem
  irregular : TarItem
  regular : Result String Bytes → TarItem

-- `none` is the absence of an error; a text is the error's.
pub record Client : Type 0 where
  pub network_create : Trace → String → Option String
  pub volume_create : Trace → String → Option String
  pub container_create : Trace → ContainerConfig → String → Result String String
  pub container_start : Trace → String → Option String
  pub container_inspect : Trace → String → Result String Inspection
  pub container_wait : Trace → String → Waited
  pub copy_to : Trace → String → String → Bytes → Option String
  pub copy_from : Trace → String → String → Result String (List TarItem)
  pub http_ok : Trace → String → ℤ → String → Option ℕ
  pub json_valid : Bytes → Bool
  pub cancelled : Trace → Option String
  pub now : Trace → ℕ
