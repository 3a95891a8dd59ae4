-- ===== src/Storage/Fetchers/Confined.antt =====
-- internal/storage/fetchers.go: where the NFS fetcher writes.
use bonnie.Prelude.{
  ℕ, ◌%◌, ◌≤◌, String, ◌≡◌, ◌⊎◌, Bool, true, false, not, ◌&&◌, ◌||◌, none, some, List, [], ◌∷◌,
  is_empty, All,
}
use bonnie.Prelude.Bytes.{Bytes, codes, bytes_eq}
use bonnie.Gpu.Text.{split}
use bonnie.Storage.Fetchers.{
  Op, made_dir, opened, copied, linked, ran, Ops, directory, regular, symlink, irregular, Found,
  walk_failed, found, Files,
}

-- A mode that gives the group no writing and others nothing at all.
abbrev pub IsPrivate : ℕ → Type 0
IsPrivate mode = (mode ≤ 416) × (mode % 32 ≡ 0)

-- Each element of a relative path is a name, and not empty, `.` or `..`.
abbrev all_names : List Bytes → Bool
all_names [] = true
all_names (name ∷ names) =
    not (is_empty name || bytes_eq name (codes ".") || bytes_eq name (codes ".."))
    && all_names names

abbrev pub is_below : String → Bool
is_below rel = all_names (split b'/' (codes rel))

-- What the walk and the path of a file are documented to give: clean paths relative to the root of
-- the walk, of which `.` alone is the root itself, which is no regular file; and a name of its own
-- for what is no directory.
abbrev pub IsEntry : Found → Type 0
IsEntry walk_failed = Unit
IsEntry (found path none kind) = Unit
IsEntry (found path (some rel) regular) = is_below rel ≡ true
IsEntry (found path (some rel) directory) = (rel ≡ ".") ⊎ (is_below rel ≡ true)
IsEntry (found path (some rel) symlink) = (rel ≡ ".") ⊎ (is_below rel ≡ true)
IsEntry (found path (some rel) irregular) = (rel ≡ ".") ⊎ (is_below rel ≡ true)

pub record WalkLaws (files : Files) : Type 0 where
  pub walk_dir-below : (t : Ops) (root : String) → All IsEntry (files.walk_dir t root)
  pub base-below :
      (t : Ops) (path : String)
      → files.is_dir t path ≡ some false
      → is_below (files.base path) ≡ true

module _ (files : Files) (laws : WalkLaws files) (dest : String) where
  open files use {filepath, dir_of}

  -- The destination, or a path below it: the destination joined with names only.
  abbrev pub IsTarget : String → Type 0
  IsTarget path =
      (rel : String) × ((rel ≡ ".") ⊎ (is_below rel ≡ true)) × (path ≡ filepath.join dest rel)

  -- A change that stays below the destination: a directory, that of a path below the destination
  -- too, a file with a private mode, what is copied into it, or a link.
  abbrev pub IsAllowed : Op → Type 0
  IsAllowed (made_dir path) =
      IsTarget path
      ⊎ ((rel : String) × (is_below rel ≡ true) × (path ≡ dir_of (filepath.join dest rel)))
  IsAllowed (opened path mode) = IsTarget path × IsPrivate mode
  IsAllowed (copied src path) = IsTarget path
  IsAllowed (linked link path) = IsTarget path
  IsAllowed (ran args variables) = ⊥
