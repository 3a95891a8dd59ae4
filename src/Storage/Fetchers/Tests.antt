-- ===== src/Storage/Fetchers/Tests.antt =====
-- The fetchers of internal/storage on a small share.
use bonnie.Prelude.{◌≡◌, refl, true, false, some, [], ◌∷◌, ◌+s◌, if◌then◌else◌, str_eq}
use bonnie.Storage.Env.{FetchRequest, Fetcher}
use bonnie.Storage.Paths.{under_root}
use bonnie.Storage.Fetchers.{
  Ops, made_dir, opened, copied, ran, directory, regular, found, Files, copy_file, copy_entry,
  copy_entries, fetch_nfs, fetch_hf,
}

-- A share with one directory and one file, whose mode is 0o644.
abbrev share : Files
share = record {
  filepath = record {
    abs = λ p. some p;
    rel = λ root p. some (if str_eq p "/mnt/../etc" then "../etc" else "m");
    join = λ a b. if str_eq b "." then a else a +s "/" +s b;
  };
  base = λ p. "m";
  dir_of = λ p. "/models/a1";
  is_dir = λ t p. some true;
  walk_dir = λ t p. found "/mnt/m" (some ".") directory ∷ found "/mnt/m/b" (some "b") regular ∷ [];
  mkdir_all = λ t p. true;
  open_mode = λ t p. some 420;
  open_file = λ t p mode. true;
  copy = λ t a b. true;
  sync = λ t p. true;
  readlink = λ t p. some "x";
  lstat = λ t p. false;
  make_link = λ t a b. true;
  look_path = λ name. some "/bin/hf";
  environ = [];
  run = λ t args variables. true;
}

abbrev request : FetchRequest
request = record {
  source = "nfs";
  model_id = "llama";
  dest = "";
  patterns = "*.gguf" ∷ "" ∷ [];
  mount_source = "/mnt";
  subpath = "m";
}

-- Shares: every function of the component runs under this line.
shares : Unit {0}
unfolding fetch_nfs fetch_hf copy_entries copy_entry copy_file under_root
shares = tt

-- It is one of the fetchers of the store.
abbrev nfs : Fetcher Ops
nfs = fetch_nfs share

-- The mode is cut down to 0o640.
copied_tree : nfs request "/models/a1" [] ≡ (
  copied "/mnt/m/b" "/models/a1/b"
      ∷ opened "/models/a1/b" 416
      ∷ made_dir "/models/a1"
      ∷ made_dir "/models/a1"
      ∷ [],
  some [],
)
unfolding shares
copied_tree = refl

escaped : (nfs (record request { subpath = "../etc" }) "/models/a1" []).0 ≡ []
unfolding shares
escaped = refl

downloaded :
    (fetch_hf share "t" request "/models/a1" []).0
    ≡ ran
        ("/bin/hf" ∷ "download" ∷ "llama" ∷ "--local-dir" ∷ "/models/a1"
          ∷ "--local-dir-use-symlinks=False" ∷ "--include" ∷ "*.gguf" ∷ [])
        ("HF_HUB_DISABLE_TELEMETRY=1" ∷ "HF_TOKEN=t" ∷ "HUGGING_FACE_HUB_TOKEN=t" ∷ [])
      ∷ []
unfolding shares
downloaded = refl
