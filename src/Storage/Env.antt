-- ===== src/Storage/Env.antt =====
-- What internal/storage calls and does not implement: the operating system's file operations,
-- `filepath`, the JSON codec of the index, the digest of a key, and the fetchers behind their
-- interface; and the data of internal/storage/store.go that these calls carry.
use bonnie.Prelude.{ℕ, String, ◌≡◌, ◌≢◌, ◌<◌, Bool, true, false, Option, some, List}
use bonnie.Prelude.Maps.{Map}

-- A staged model. Times are instants counted from an epoch.
pub record Entry : Type 0 where
  pub id : String
  pub source : String
  pub model_id : String
  pub path : String
  pub size_bytes : ℕ
  pub files : List String
  pub fetched_at : ℕ
  pub last_used_at : ℕ

pub record FetchRequest : Type 0 where
  pub source : String
  pub model_id : String
  pub dest : String
  pub patterns : List String
  pub mount_source : String
  pub subpath : String

-- The answers of `os.ReadFile`. The bytes of a file are a type of their own, which the index code
-- only measures, decodes and passes on.
pub data Reading (Data : Type 0) : Type 0 where
  missing unreadable : Reading Data
  contents : Data → Reading Data

-- What `filepath.WalkDir` hands its callback: an error, a directory, or a file with what
-- `d.Info` and `filepath.Rel` answer about it.
pub data Visit : Type 0 where
  broken folder : Visit
  file : Option ℕ → Option String → Visit

-- The file operations. The Boolean is true where the call returns no error.
pub record Os (Disk Data : Type 0) : Type 0 where
  pub len : Data → ℕ
  pub read_file : String → Disk → Reading Data
  pub mkdir_all : String → Disk → Disk × Bool
  pub create_temp : String → Disk → Disk × Option String
  pub write : String → Data → Disk → Disk × Bool
  pub close : String → Disk → Disk × Bool
  pub rename : String → String → Disk → Disk × Bool
  pub remove : String → Disk → Disk × Bool
  pub remove_all : String → Disk → Disk × Bool
  pub walk_dir : String → Disk → List Visit

pub record Filepath : Type 0 where
  pub abs : String → Option String
  pub rel : String → String → Option String
  pub join : String → String → String

pub record Codec (Data : Type 0) : Type 0 where
  pub marshal : List Entry → Option Data
  pub unmarshal : Data → Option (List Entry)

-- A fetcher stages a request into a directory and lists the files that it made.
abbrev pub Fetcher : Type 0 → Type 0
Fetcher Disk = FetchRequest → String → Disk → Disk × Option (List String)

pub record Env (Disk Data : Type 0) : Type 0 where
  pub os : Os Disk Data
  pub filepath : Filepath
  pub codec : Codec Data
  pub hex_digest : String → String
  pub fetchers : Map (Fetcher Disk)

-- The file is there and holds no byte.
abbrev pub IsBlank : {Data : Type 0} → (Data → ℕ) → Reading Data → Type 0
IsBlank len missing = ⊥
IsBlank len unreadable = ⊥
IsBlank len (contents b) = len b ≡ 0

-- The documented behaviour of the file operations that the index relies on, for an index that
-- stands at `path`: `create_temp` makes an empty file of a name of its own; a write, a close and a
-- removal touch the named file only; a rename that succeeds moves the contents, and one that fails
-- moves nothing.
pub record OsLaws {Disk Data : Type 0} (os : Os Disk Data) (path : String) : Type 0 where
  pub create_temp-other :
      (dir : String) (d : Disk) → os.read_file path (os.create_temp dir d).0 ≡ os.read_file path d
  pub create_temp-name :
      (dir name : String) (d : Disk) → (os.create_temp dir d).1 ≡ some name → path ≢ name
  pub create_temp-blank :
      (dir name : String) (d : Disk)
      → (os.create_temp dir d).1 ≡ some name
      → IsBlank os.len (os.read_file name (os.create_temp dir d).0)
  pub write-other :
      (name : String) (b : Data) (d : Disk)
      → path ≢ name
      → os.read_file path (os.write name b d).0 ≡ os.read_file path d
  pub write-whole :
      (name : String) (b : Data) (d : Disk)
      → IsBlank os.len (os.read_file name d)
      → (os.write name b d).1 ≡ true
      → os.read_file name (os.write name b d).0 ≡ contents b
  pub close-same :
      (name other : String) (d : Disk)
      → os.read_file other (os.close name d).0 ≡ os.read_file other d
  pub remove-other :
      (name : String) (d : Disk)
      → path ≢ name
      → os.read_file path (os.remove name d).0 ≡ os.read_file path d
  pub rename-moves :
      (from : String) (d : Disk)
      → (os.rename from path d).1 ≡ true
      → os.read_file path (os.rename from path d).0 ≡ os.read_file from d
  pub rename-fails :
      (from : String) (d : Disk)
      → (os.rename from path d).1 ≡ false
      → os.read_file path (os.rename from path d).0 ≡ os.read_file path d

-- What is marshalled is unmarshalled, and is never the empty text.
pub record CodecLaws {Data : Type 0} (len : Data → ℕ) (codec : Codec Data) : Type 0 where
  pub round_trip :
      (es : List Entry) (b : Data) → codec.marshal es ≡ some b → codec.unmarshal b ≡ some es
  pub marshal-filled : (es : List Entry) (b : Data) → codec.marshal es ≡ some b → 0 < len b
