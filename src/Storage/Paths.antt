-- ===== src/Storage/Paths.antt =====
-- internal/storage/store.go: `underRoot` and `filepathHasDotDotPrefix`, the guard that keeps
-- deletions and NFS copies under a root directory. A relative path is read as its bytes.
use bonnie.Prelude.{
  String, ◌≡◌, ◌≢◌, ◌↔◌, Bool, true, false, not, ◌&&◌, none, some, [], ◌∷◌, arith, ◌==◌,
  if◌then◌else◌, Option-cases, inl, inr, sym, ◌∙◌,
}
use bonnie.Prelude.Bytes.{Bytes, codes, bytes_eq}
use bonnie.Storage.Env.{Filepath}

unfoldable pub filepath_has_dot_dot_prefix : Bytes → Bool
filepath_has_dot_dot_prefix [] = false
filepath_has_dot_dot_prefix (a ∷ []) = false
filepath_has_dot_dot_prefix (a ∷ b ∷ []) = a == b'.' && b == b'.'
filepath_has_dot_dot_prefix (a ∷ b ∷ c ∷ s) = a == b'.' && b == b'.' && c == b'/'

-- The last line of `underRoot`.
inside : Bytes → Bool
unfolding filepath_has_dot_dot_prefix
inside rel = not (bytes_eq rel (codes "..")) && not (filepath_has_dot_dot_prefix rel)

unfoldable pub under_root : Filepath → String → String → Bool
unfolding inside
under_root fp root path = elim (fp.abs root) [
  | none ↦ false
  | some abs_root ↦ elim (fp.abs path) [
    | none ↦ false
    | some abs_path ↦ elim (fp.rel abs_root abs_path) [
      | none ↦ false
      | some rel ↦ inside (codes rel)
    ]
  ]
]

-- The bytes up to the first separator.
unfoldable pub first_component : Bytes → Bytes
first_component [] = []
first_component (c ∷ s) = let rest = c ∷ first_component s in if c == b'/' then [] else rest

inside_iff : (rel : Bytes) → (inside rel ≡ true) ↔ (first_component rel ≢ codes "..")
unfolding inside first_component
inside_iff [] = ground arith
inside_iff (a ∷ []) = ground arith
inside_iff (a ∷ b ∷ []) = ground arith
inside_iff (a ∷ b ∷ c ∷ s) = ground arith

-- The relative path from the root to the path, where the library finds both.
abbrev pub Relative : Filepath → String → String → String → Type 0
Relative fp root path rel =
    (r : String) × (p : String) × (fp.abs root ≡ some r)
    × (fp.abs path ≡ some p)
    × (fp.rel r p ≡ some rel)

under_root_of_Relative :
    (fp : Filepath) (root path rel : String)
    → Relative fp root path rel
    → under_root fp root path ≡ inside (codes rel)
unfolding under_root
under_root_of_Relative fp root path rel (r, p, er, ep, e) =
    rw (er, under_root) (rw (ep, under_root) (rw (e, under_root)))

under_root-Relative :
    (fp : Filepath) (root path : String)
    → under_root fp root path ≡ true
    → (rel : String) × Relative fp root path rel
unfolding under_root
under_root-Relative fp root path h = elim (Option-cases (fp.abs root)) [
  | inl er ↦ absurd (ground arith)
  | inr (r, er) ↦ elim (Option-cases (fp.abs path)) [
    | inl ep ↦ absurd (ground arith)
    | inr (p, ep) ↦ elim (Option-cases (fp.rel r p)) [
      | inl e ↦ absurd (ground arith)
      | inr (rel, e) ↦ (rel, (r, p, er, ep, e))
    ]
  ]
]

-- The guard accepts a path exactly when the library finds a relative path from the root to it
-- whose first component is not `..`. So the root itself, at `.`, is accepted.
pub under_root_iff :
    (fp : Filepath) (root path : String)
    → (under_root fp root path ≡ true)
      ↔ ((rel : String) × Relative fp root path rel × (first_component (codes rel) ≢ codes ".."))
under_root_iff fp root path = (
  λ h.
      let (rel, found) = under_root-Relative fp root path h in
      (
        rel,
        found,
        (inside_iff (codes rel)).0 (sym (under_root_of_Relative fp root path rel found) ∙ h),
      ),
  λ (rel, found, free).
      under_root_of_Relative fp root path rel found ∙ (inside_iff (codes rel)).1 free,
)
