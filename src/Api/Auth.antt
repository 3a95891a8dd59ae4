-- ===== src/Api/Auth.antt =====
-- internal/api/middleware/auth.go, on requests whose header is ASCII.
pub mod Bearer
use bonnie.Prelude.{
  ℕ, ◌+◌, Bool, true, false, not, ◌&&◌, ◌||◌, Option, none, some, List, [], ◌∷◌, map, if◌then◌else◌,
  ◌==◌, leb, is_empty,
}
use bonnie.Prelude.Bytes.{Bytes, codes, bytes_eq}

-- What the middleware does: the next handler is called, or 401 is written with a message.
pub data Decision : Type 0 where
  passed : Decision
  refused : Bytes → Decision

-- `skip[path]`, of the map made from the paths.
abbrev pub is_skipped : List Bytes → Bytes → Bool
is_skipped [] path = false
is_skipped (p ∷ ps) path = bytes_eq p path || is_skipped ps path

-- `strings.SplitN(s, " ", 2)`, where it gives two parts.
abbrev pub cut_space : Bytes → Option (Bytes × Bytes)
cut_space [] = none
cut_space (c ∷ s) =
    if c == b' '
    then some ([], s)
    else elim (cut_space s) [ none ↦ none | some (first, rest) ↦ some (c ∷ first, rest) ]

-- `strings.EqualFold`, of ASCII.
abbrev pub lower : ℕ → ℕ
lower c = if leb b'A' c && leb c b'Z' then c + 32 else c

abbrev pub equal_fold : Bytes → Bytes → Bool
equal_fold s t = bytes_eq (map lower s) (map lower t)

abbrev pub check_parts : Bytes → Option (Bytes × Bytes) → Decision
check_parts token none = refused (codes "unauthorized")
check_parts token (some (scheme, given)) =
    if not (equal_fold scheme (codes "Bearer")) || not (bytes_eq given token)
    then refused (codes "unauthorized")
    else passed

-- The handler of `Auth`, on the path and the header of a request; a missing header is empty.
unfoldable pub auth : Bytes → List Bytes → Bytes → Bytes → Decision
auth token skip path header =
    if is_skipped skip path
    then passed
    else if is_empty header
    then refused (codes "missing authorization header")
    else check_parts token (cut_space header)
