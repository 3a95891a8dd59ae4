-- ===== src/Container/Manager.antt =====
-- internal/container/manager.go and logs.go: `Manager`, which passes its calls on to Docker. The
-- daemon is a parameter: a call takes its state and gives the next one with its answer.
use bonnie.Prelude.{
  String, Bool, true, Option, none, some, List, [], ◌∷◌, map, if◌then◌else◌, str_eq,
}
use bonnie.Prelude.Int.{ℤ}
use bonnie.Prelude.Bytes.{Bytes}
use bonnie.Prelude.Results.{Result, ok, err}
use bonnie.Gpu.Types.{Vendor}
use bonnie.Container.Docker.{HostConfig, ContainerConfig}
use bonnie.Container.Runtime.{inject_gpu}

pub record CreateRequest : Type 0 where
  pub name : String
  pub image : String
  pub env : List String
  pub mounts : List String
  pub gpu : Bool
  pub command : List String

-- `Info`.
pub record ContainerInfo : Type 0 where
  pub id : String
  pub name : String
  pub image : String
  pub state : String
  pub status : String
  pub created : ℤ

-- What `ContainerList` says of one container, as far as it is used.
pub record Summary : Type 0 where
  pub id : String
  pub names : List String
  pub image : String
  pub state : String
  pub status : String
  pub created : ℤ

-- The options of `ContainerLogs`.
pub record LogsOptions : Type 0 where
  pub show_stdout : Bool
  pub show_stderr : Bool
  pub follow : Bool
  pub timestamps : Bool

-- What a stream of logs holds: the pieces that `io.Copy` reads and passes on, one `Write` each.
abbrev pub LogPieces : Type 0
LogPieces = List Bytes

-- The calls of the Docker client, on a daemon; `Opaque` is the answer of `ContainerInspect`, which
-- is only passed on.
pub record Docker (Daemon Opaque : Type 0) : Type 0 where
  pub create : ContainerConfig → String → Daemon → Daemon × Result String String
  pub start : String → Daemon → Daemon × Option String
  pub stop : String → Daemon → Daemon × Option String
  pub restart : String → Daemon → Daemon × Option String
  pub remove : Bool → String → Daemon → Daemon × Option String
  pub inspect : String → Daemon → Result String Opaque
  pub list : Bool → Daemon → Result String (List Summary)
  pub logs : String → LogsOptions → Daemon → Result String LogPieces
  pub ping : Daemon → Option String

-- The wrapped errors: what failed, the container, and the text of the cause.
pub data ManagerError : Type 0 where
  create_failed list_failed : String → ManagerError
  start_failed stop_failed restart_failed remove_failed inspect_failed :
      String → String → ManagerError

abbrev bare_host : List String → HostConfig
bare_host binds = record {
  binds = binds;
  mounts = [];
  device_requests = [];
  devices = [];
  security_opt = [];
  group_add = [];
}

-- What `Create` asks of Docker; it joins no network.
unfoldable pub config_of : Vendor → CreateRequest → ContainerConfig
config_of vendor req = record {
  image = req.image;
  cmd = req.command;
  env = req.env;
  host = if req.gpu then inject_gpu (bare_host req.mounts) vendor else bare_host req.mounts;
  networks = [];
}

-- `strings.TrimPrefix(name, "/")`.
abbrev pub trim_slash : String → String
trim_slash String.[] = ""
trim_slash (String.◌∷◌ c s) = if str_eq (String.◌∷◌ c "") "/" then s else String.◌∷◌ c s

abbrev pub first_name : List String → String
first_name [] = ""
first_name (name ∷ names) = trim_slash name

abbrev pub info_of : Summary → ContainerInfo
info_of s = record {
  id = s.id;
  name = first_name s.names;
  image = s.image;
  state = s.state;
  status = s.status;
  created = s.created;
}

abbrev pub answer : (String → ManagerError) → Option String → Result ManagerError (Unit {0})
answer x none = ok tt
answer x (some e) = err (x e)

module _ {Daemon Opaque : Type 0} (docker : Docker Daemon Opaque) where
  -- `Create`.
  unfoldable pub create : Vendor → CreateRequest → Daemon → Daemon × Result ManagerError String
  unfolding config_of
  create vendor req d =
      let (d', r) = docker.create (config_of vendor req) req.name d in
      (d', elim r [ ok id ↦ ok id | err e ↦ err (create_failed e) ])

  -- `Start`, `Stop`, `Restart` and `Remove`.
  unfoldable pub start : String → Daemon → Daemon × Result ManagerError (Unit {0})
  start id d = let (d', r) = docker.start id d in (d', answer (start_failed id) r)

  unfoldable pub stop : String → Daemon → Daemon × Result ManagerError (Unit {0})
  stop id d = let (d', r) = docker.stop id d in (d', answer (stop_failed id) r)

  unfoldable pub restart : String → Daemon → Daemon × Result ManagerError (Unit {0})
  restart id d = let (d', r) = docker.restart id d in (d', answer (restart_failed id) r)

  unfoldable pub remove : Bool → String → Daemon → Daemon × Result ManagerError (Unit {0})
  remove force id d = let (d', r) = docker.remove force id d in (d', answer (remove_failed id) r)

  -- `Inspect`.
  unfoldable pub inspect : String → Daemon → Result ManagerError Opaque
  inspect id d = elim (docker.inspect id d) [ ok x ↦ ok x | err e ↦ err (inspect_failed id e) ]

  -- `List`, of the containers that stand still too.
  unfoldable pub list_containers : Daemon → Result ManagerError (List ContainerInfo)
  list_containers d = elim (docker.list true d) [
    | ok cs ↦ ok (map info_of cs)
    | err e ↦ err (list_failed e)
  ]

  -- `LogStream`: what it writes, piece by piece.
  unfoldable pub log_stream : String → Bool → Daemon → Result String LogPieces
  log_stream id follow d =
      docker.logs id
        (record { show_stdout = true; show_stderr = true; follow = follow; timestamps = true }) d
