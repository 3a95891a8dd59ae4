-- ===== src/Api/Tests/Served.antt =====
-- A router on a small daemon: tests of internal/api, and the theorems at concrete requests.
use bonnie.Prelude.{
  ℕ, String, ◌≡◌, refl, subst, ap, true, false, none, some, List, [], ◌∷◌, eq_iff, arith, inr,
}
use bonnie.Prelude.Bytes.{codes}
use bonnie.Prelude.Maps.{lookup}
use bonnie.Prelude.Results.{ok, err}
use bonnie.Storage.Env.{Entry, Env, missing}
use bonnie.Storage.Index.{key_of, save_index}
use bonnie.Storage.Index.Coherent.{Coherent}
use bonnie.Storage.Store.{World, delete}
use bonnie.Container.Manager.{Docker, create}
use bonnie.Gpu.Types.{nvidia, unknown}
use bonnie.Api.Auth.{refused, auth}
use bonnie.Api.Auth.Bearer.{IsBearer, auth_iff}
use bonnie.Api.Http.{Sent, fresh, write, write_header, write_json, write_error_text, raw}
use bonnie.Api.Http.Answered.{IsAnswered}
use bonnie.Api.Middleware.{logged}
use bonnie.Api.Handlers.Containers.{write_event, create_one}
use bonnie.Api.Handlers.Models.{list_models, delete_model}
use bonnie.Api.Handlers.Models.Status.{Tells, delete_model-Tells}
use bonnie.Api.Handlers.Host.{command_of}
use bonnie.Api.Router.{routes, Request, App, Deps, after_exec, handle, serve, write_auth_error}
use bonnie.Api.Router.Guard.{MuxLaws, IsTurnedAway, serve-IsTurnedAway}
use bonnie.Api.Tests.Mux.{find_exact, find_exact-Mem, find_exact-pattern}
use bonnie.Api.Router.Chain.{serve-logged}

-- Requests: every function of the component runs under this line.
requests : Unit {0}
unfolding serve handle routes find_exact auth write_auth_error write write_header write_json
    write_error_text create_one list_models delete_model delete save_index lookup create logged
requests = tt

-- Nothing is ever on this disk.
abbrev env : Env (Unit {0}) (Unit {0})
env = record {
  os = record {
    len = λ b. 1;
    read_file = λ path d. missing;
    mkdir_all = λ path d. (d, true);
    create_temp = λ dir d. (d, some ".index.json.1");
    write = λ name b d. (d, true);
    close = λ name d. (d, true);
    rename = λ from to d. (d, true);
    remove = λ name d. (d, true);
    remove_all = λ name d. (d, true);
    walk_dir = λ root d. [];
  };
  filepath = record { abs = λ p. some p; rel = λ root p. some "m"; join = λ a b. b };
  codec = record { marshal = λ es. some tt; unmarshal = λ b. some [] };
  hex_digest = λ key. key;
  fetchers = [];
}

-- The daemon knows the names of its containers.
abbrev pub docker : Docker (List String) String
docker = record {
  create = λ config name d. (name ∷ d, ok name);
  start = λ id d. (d, none);
  stop = λ id d. (d, none);
  restart = λ id d. (d, none);
  remove = λ force id d. ([], none);
  inspect = λ id d. err "No such container";
  list = λ all d. ok [];
  logs = λ id options d. ok [];
  ping = λ d. none;
}

abbrev deps : Deps (Unit {0}) (Unit {0}) (List String) ℕ String
deps = record {
  env = env;
  docker = docker;
  vendor = nvidia;
  host = record {
    hostname = "h";
    goos = "linux";
    goarch = "amd64";
    num_cpu = 8;
    read_file = λ path. none;
    run = λ command. err "not found";
  };
  parse_float = λ b. 0;
  quote = λ b. b;
  error_text = λ x. "failed";
  report = λ d. (true, "fine");
  now = 7;
  auth_token = codes "s3";
  has_models = true;
  has_runner = false;
  paired_run = λ spec d. (d, []);
  find = find_exact;
  mounts = λ pattern method path. true;
  missing = write_error_text 404 (codes "404 page not found");
  changes = λ command disk daemon. (disk, "ran" ∷ daemon);
}

deps-MuxLaws : MuxLaws (Unit {0}) (Unit {0}) (List String) ℕ String deps
deps-MuxLaws = record {
  registered = find_exact-Mem;
  literal = λ rs method path reg id found plain. find_exact-pattern rs method path reg id found;
}

abbrev staged : Entry
staged = record {
  id = "a1";
  source = "nfs";
  model_id = "llama";
  path = "/models/a1";
  size_bytes = 8;
  files = [];
  fetched_at = 7;
  last_used_at = 7;
}

abbrev models : World (Unit {0})
models = record {
  store = record {
    dir = "/models";
    entries = ("a1", staged) ∷ [];
    by_key = ("nfs:llama", "a1") ∷ [];
  };
  disk = tt;
}

abbrev app : App (Unit {0}) (List String)
app = record {
  models = models;
  daemon = "old" ∷ [];
  poller = record { latest = record { vendor = unknown; gpus = []; timestamp = 0 }; subs = [] };
}

abbrev create_request : Request
create_request = record {
  method = "POST";
  path = "/api/v1/containers";
  authorization = codes "Bearer s4";
  flushes = true;
  create_body = some (record {
    name = "new";
    image = "busybox";
    env = [];
    mounts = [];
    gpu = false;
    command = [];
  });
  fetch_body = none;
  exec_body = none;
  spec_body = none;
}

-- The right token makes a container, the wrong one none.
created :
    (serve deps (record create_request { authorization = codes "Bearer s3" }) app fresh).0.daemon
    ≡ "new" ∷ "old" ∷ []
unfolding requests
created = refl

refused_one : (serve deps create_request app fresh).0.daemon ≡ "old" ∷ []
unfolding requests
refused_one = refl

-- A command reaches the host with the token only, and a path that is not known needs it as well.
ran_one :
    (serve deps
      (record create_request {
        path = "/api/v1/exec";
        authorization = codes "Bearer s3";
        exec_body = some (record { command = "reboot"; args = [] });
      })
      app
      fresh).0.daemon
    ≡ "ran" ∷ "old" ∷ []
unfolding requests after_exec command_of
ran_one = refl

unknown_one :
    (serve deps (record create_request { path = "/api/v1/nothing" }) app fresh).1.sent
    ≡ some (record { status = 401; content_type = "application/json" })
unfolding requests
unknown_one = refl

-- A piece of two lines becomes one data field, and a second line that is no field.
two_lines :
    (write_event (codes "a\nb") (fresh {Float = ℕ} {Opaque = String})).bodies
    ≡ raw (codes "data: a\nb\n\n") ∷ []
unfolding requests
two_lines = refl

serve-IsTurnedAway_example :
    IsTurnedAway deps create_request app fresh (serve deps create_request app fresh)
serve-IsTurnedAway_example =
    serve-IsTurnedAway deps deps-MuxLaws create_request app fresh refl stranger
  where
    stranger : ¬ IsBearer (codes "s3") (codes "Bearer s4")
    stranger h = absurd (
        ground (
          arith,
          (auth_iff (codes "s3") [] (codes "/") (codes "Bearer s4")).1 (inr h),
          unauthorized,
        ))
      where
        unauthorized :
            auth (codes "s3") [] (codes "/") (codes "Bearer s4") ≡ refused (codes "unauthorized")
        unauthorized = unfold requests in refl

serve-logged_example :
    let out = serve deps create_request app fresh in
    (s : Sent) × (out.1.sent ≡ some s)
    × (logged "POST" "/api/v1/containers"
          (record { state = out.0; writer = out.1; panicked = false })
        ≡ record { method = "POST"; path = "/api/v1/containers"; status = s.status } ∷ [])
serve-logged_example = serve-logged deps create_request app lost
  where
    lost : IsAnswered (deps.missing fresh)
    lost =
        unfold requests in
        record { status = 404; content_type = "application/json"; out = refl; seen = refl }

models-Coherent : Coherent models.store
unfolding lookup
models-Coherent = record {
  distinct = (refl, tt);
  indexed = λ id e h.
      let same : "a1" ≡ id = ground (arith, eq_iff "a1" id) in
      let one : staged ≡ e = ground arith in
      subst (λ x. (x.id ≡ id) × (lookup (key_of x) models.store.by_key ≡ some id)) one
        (same, ap some same);
  backed = λ k id h.
      let same : "nfs:llama" ≡ k = ground (arith, eq_iff "nfs:llama" k) in
      let one : "a1" ≡ id = ground arith in
      (staged, subst (λ j. lookup j models.store.entries ≡ some staged) one refl, same);
}

delete_model-Tells_example :
    let out = delete_model env (λ x. "failed") "a1" models (fresh {Float = ℕ} {Opaque = String}) in
    (code : ℕ) × (type : String) × (out.1.sent
      ≡ some (record { status = code; content_type = type }))
    × Tells env "a1" models.store out.0.store code
delete_model-Tells_example =
    delete_model-Tells env ℕ String (λ x. "failed") "a1" models models-Coherent refl
