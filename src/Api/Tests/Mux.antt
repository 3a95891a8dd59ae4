-- ===== src/Api/Tests/Mux.antt =====
-- A mux for tests of internal/api.
use bonnie.Prelude.{
  String, ◌≡◌, ◌&&◌, Option, none, some, List, [], ◌∷◌, if◌then◌else◌, str_eq, eq_iff, arith,
  Bool-cases, inl, inr,
}
use mathlib.Core.List.{Memᴰ}
use bonnie.Api.Router.{Registration}

-- A mux for the paths without parameters.
unfoldable pub find_exact : List Registration → String → String → Option (Registration × String)
find_exact [] method path = none
find_exact (r ∷ rs) method path =
    let rest = find_exact rs method path in
    if str_eq r.method method && str_eq r.pattern path then some (r, "") else rest

pub find_exact-Mem :
    (rs : List Registration) (method path : String) (reg : Registration) (id : String)
    → find_exact rs method path ≡ some (reg, id)
    → Memᴰ reg rs
unfolding find_exact
find_exact-Mem [] method path reg id h = absurd (ground arith)
find_exact-Mem (r ∷ rs) method path reg id h =
    elim (Bool-cases (str_eq r.method method && str_eq r.pattern path)) [
      | inl hit ↦ Memᴰ.head (ground arith)
      | inr miss ↦ Memᴰ.tail (find_exact-Mem rs method path reg id (rw miss at h))
    ]

pub find_exact-pattern :
    (rs : List Registration) (method path : String) (reg : Registration) (id : String)
    → find_exact rs method path ≡ some (reg, id)
    → reg.pattern ≡ path
unfolding find_exact
find_exact-pattern [] method path reg id h = absurd (ground arith)
find_exact-pattern (r ∷ rs) method path reg id h =
    elim (Bool-cases (str_eq r.method method && str_eq r.pattern path)) [
      | inl hit ↦ ground (arith, eq_iff r.pattern path)
      | inr miss ↦ find_exact-pattern rs method path reg id (rw miss at h)
    ]
