-- ===== src/Storage/Fetchers.antt =====
-- internal/storage/fetchers.go: the two fetchers. What they change on the disk is a trace, newest
-- first, that the answers of the operating system may depend on.
pub mod Confined
mod Tests
use bonnie.Prelude.{
  ℕ, ◌+◌, ◌*◌, ◌/◌, ◌%◌, String, Bool, true, false, not, Option, none, some, List, [], ◌∷◌, ◌++◌,
  ◌+s◌, ◌==◌, if◌then◌else◌, str_eq,
}
use bonnie.Storage.Env.{FetchRequest, Filepath}
use bonnie.Storage.Paths.{under_root}

-- A change of the disk, or an external command with its environment.
pub data Op : Type 0 where
  made_dir : String → Op
  opened : String → ℕ → Op
  copied : String → String → Op
  linked : String → String → Op
  ran : List String → List String → Op

abbrev pub Ops : Type 0
Ops = List Op

pub data Kind : Type 0 where
  directory regular symlink irregular : Kind

-- What `filepath.WalkDir` hands its callback: an error, or a path with what `filepath.Rel` says of it
-- and its kind.
pub data Found : Type 0 where
  walk_failed : Found
  found : String → Option String → Kind → Found

-- The operating system; a Boolean is true where the call returns no error.
pub record Files : Type 0 where
  pub filepath : Filepath
  pub base : String → String
  pub dir_of : String → String
  pub is_dir : Ops → String → Option Bool
  pub walk_dir : Ops → String → List Found
  pub mkdir_all : Ops → String → Bool
  pub open_mode : Ops → String → Option ℕ
  pub open_file : Ops → String → ℕ → Bool
  pub copy : Ops → String → String → Bool
  pub sync : Ops → String → Bool
  pub readlink : Ops → String → Option String
  pub lstat : Ops → String → Bool
  pub make_link : Ops → String → String → Bool
  pub look_path : String → Option String
  pub environ : List String
  pub run : Ops → List String → List String → Bool

-- `mode & 0o640`: the owner's read and write bits and the group's read bit.
abbrev pub masked : ℕ → ℕ
masked mode = mode / 256 % 2 * 256 + mode / 128 % 2 * 128 + mode / 32 % 2 * 32

abbrev pub mode_of : ℕ → ℕ
mode_of mode = if masked mode == 0 then 416 else masked mode

module _ (files : Files) where
  -- `copyFile`. `open_mode` is the opening of the source and the mode that it has.
  unfoldable pub copy_file : String → String → Ops → Ops × Bool
  copy_file src dst t =
      let t₁ = made_dir (files.dir_of dst) ∷ t in
      if not (files.mkdir_all t (files.dir_of dst))
      then (t₁, false)
      else elim (files.open_mode t₁ src) [
        | none ↦ (t₁, false)
        | some mode ↦
            let t₂ = opened dst (mode_of mode) ∷ t₁ in
            if not (files.open_file t₁ dst (mode_of mode))
            then (t₂, false)
            else let t₃ = copied src dst ∷ t₂ in
              if not (files.copy t₂ src dst) then (t₃, false) else (t₃, files.sync t₃ dst)
      ]

  -- The callback of `copyTree`, on one entry.
  unfoldable pub copy_entry : String → Kind → String → Ops → Ops × Bool
  unfolding copy_file
  copy_entry path directory target t = (made_dir target ∷ t, files.mkdir_all t target)
  copy_entry path regular target t = copy_file path target t
  copy_entry path symlink target t = elim (files.readlink t path) [
    | none ↦ (t, false)
    | some link ↦
        if files.lstat t target
        then (t, true)
        else (linked link target ∷ t, files.make_link t link target)
  ]
  copy_entry path irregular target t = (t, false)

  -- `copyTree`, along the walk; the first error ends it.
  unfoldable pub copy_entries : String → List Found → Ops → Ops × Bool
  copy_entries dst [] t = (t, true)
  copy_entries dst (walk_failed ∷ fs) t = (t, false)
  copy_entries dst (found path none kind ∷ fs) t = (t, false)
  copy_entries dst (found path (some rel) kind ∷ fs) t =
      let (t', fine) = copy_entry path kind (files.filepath.join dst rel) t in
      let rest = copy_entries dst fs t' in if fine then rest else (t', false)

  -- `nfsFetcher.Fetch`.
  unfoldable pub fetch_nfs : FetchRequest → String → Ops → Ops × Option (List String)
  unfolding copy_file copy_entries
  fetch_nfs req dest t =
      let src = files.filepath.join req.mount_source req.subpath in
      if not (under_root files.filepath req.mount_source src)
      then (t, none)
      else elim (files.is_dir t src) [
        | none ↦ (t, none)
        | some is_dir ↦
            let whole = copy_entries dest (files.walk_dir t src) t in
            let one = copy_file src (files.filepath.join dest (files.base src)) t in
            if is_dir
            then (whole.0, if whole.1 then some [] else none)
            else (one.0, if one.1 then some (files.base src ∷ []) else none)
      ]

  abbrev pub include_args : List String → List String
  include_args [] = []
  include_args (p ∷ ps) =
      let rest = include_args ps in if str_eq p "" then rest else "--include" ∷ p ∷ rest

  abbrev pub token_env : String → List String
  token_env token =
      if str_eq token ""
      then []
      else ("HF_TOKEN=" +s token) ∷ ("HUGGING_FACE_HUB_TOKEN=" +s token) ∷ []

  -- `huggingfaceFetcher.Fetch`; the token comes from the configuration.
  unfoldable pub fetch_hf : String → FetchRequest → String → Ops → Ops × Option (List String)
  fetch_hf token req dest t = elim (files.look_path "huggingface-cli") [
    | none ↦ (t, none)
    | some bin ↦
        let args =
          bin
          ∷ "download"
          ∷ req.model_id
          ∷ "--local-dir"
          ∷ dest
          ∷ "--local-dir-use-symlinks=False"
          ∷ include_args req.patterns in
        let variables = files.environ ++ "HF_HUB_DISABLE_TELEMETRY=1" ∷ token_env token in
        (ran args variables ∷ t, if files.run t args variables then some [] else none)
  ]
