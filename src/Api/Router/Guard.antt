-- ===== src/Api/Router/Guard.antt =====
-- internal/api/router.go: which requests reach the routes behind the authentication.
use bonnie.Prelude.{
  String, ◌≡◌, refl, sym, ◌⊎◌, inl, inr, Bool, true, false, ◌||◌, ◌&&◌, not, subst, some, List, [],
  ◌∷◌, ◌==◌, is_empty, Bool-cases, Option-cases, arith,
}
use mathlib.Core.List.{Memᴰ}
use bonnie.Prelude.Bytes.{Bytes, codes}
use bonnie.Api.Auth.{Decision, passed, refused, is_skipped, auth}
use bonnie.Api.Auth.Bearer.{IsBearer, auth_iff}
use bonnie.Api.Http.{Writer}
use bonnie.Api.Router.{
  Registration, routes, open_paths, Request, App, Deps, write_auth_error, serve,
}

and_left : (a b : Bool) → a && b ≡ true → a ≡ true
and_left a b h = ground arith

and_right : (a b : Bool) → a && b ≡ true → b ≡ true
and_right a b h = ground arith

-- A pattern that has no parameter and does not end with a slash.
abbrev pub is_plain : Bytes → Bool
is_plain [] = true
is_plain (c ∷ s) = not (c == b'{') && not (c == b'*') && not (c == b'/' && is_empty s) && is_plain s

-- chi finds a route that was registered, and a plain pattern stands for its own path only.
pub record MuxLaws (Disk Data Daemon Float Opaque : Type 0)
    (deps : Deps Disk Data Daemon Float Opaque) : Type 0 where
  pub registered :
      (rs : List Registration) (method path : String) (reg : Registration) (id : String)
      → deps.find rs method path ≡ some (reg, id)
      → Memᴰ reg rs
  pub literal :
      (rs : List Registration) (method path : String) (reg : Registration) (id : String)
      → deps.find rs method path ≡ some (reg, id)
      → is_plain (codes reg.pattern) ≡ true
      → reg.pattern ≡ path

-- A registration is behind the guard, or stands for one of the open paths.
abbrev is_kept : Registration → Bool
is_kept reg =
    reg.guarded || (is_plain (codes reg.pattern) && is_skipped open_paths (codes reg.pattern))

abbrev all_kept : List Registration → Bool
all_kept [] = true
all_kept (reg ∷ rs) = is_kept reg && all_kept rs

routes-all_kept : (has_models has_runner : Bool) → all_kept (routes has_models has_runner) ≡ true
unfolding routes
routes-all_kept true true = refl
routes-all_kept true false = refl
routes-all_kept false true = refl
routes-all_kept false false = refl

all_kept-is_kept :
    (reg : Registration) (rs : List Registration)
    → Memᴰ reg rs
    → all_kept rs ≡ true
    → is_kept reg ≡ true
all_kept-is_kept reg [] there h = elim there [ ]
all_kept-is_kept reg (r ∷ rs) (Memᴰ.head same) h =
    subst (λ x. is_kept x ≡ true) (sym same) (and_left (is_kept r) (all_kept rs) h)
all_kept-is_kept reg (r ∷ rs) (Memᴰ.tail later) h =
    all_kept-is_kept reg rs later (and_right (is_kept r) (all_kept rs) h)

kept_open :
    (reg : Registration) (path : String)
    → is_kept reg ≡ true
    → reg.guarded ≡ false
    → (is_plain (codes reg.pattern) ≡ true → reg.pattern ≡ path)
    → is_skipped open_paths (codes path) ≡ true
kept_open reg path kept unguarded same =
    let both : is_plain (codes reg.pattern) && is_skipped open_paths (codes reg.pattern) ≡ true =
      rw unguarded at kept in
    let plain = and_left (is_plain (codes reg.pattern)) _ both in
    subst (λ p. is_skipped open_paths (codes p) ≡ true) (same plain)
      (and_right (is_plain (codes reg.pattern)) _ both)

pub Decision-cases : (d : Decision) → (d ≡ passed) ⊎ ((msg : Bytes) × (d ≡ refused msg))
Decision-cases passed = inl refl
Decision-cases (refused msg) = inr (msg, refl)

module _ {Disk Data Daemon Float Opaque : Type 0} (deps : Deps Disk Data Daemon Float Opaque) where
  -- The state is as it was, and the client got a refusal, or, outside the mounted router, the mux's
  -- answer.
  abbrev pub IsTurnedAway :
      Request
      → App Disk Daemon
      → Writer Float Opaque
      → App Disk Daemon × Writer Float Opaque
      → Type 0
  IsTurnedAway req app w out =
      (out.0 ≡ app)
      × (((deps.mounts "/api/v1" req.method req.path ≡ false) × (out.1 ≡ deps.missing w))
          ⊎ ((msg : Bytes) × (out.1 ≡ write_auth_error deps msg w)))

  refused_of :
      (req : Request)
      → is_skipped open_paths (codes req.path) ≡ false
      → ¬ IsBearer deps.auth_token req.authorization
      → (msg : Bytes) × (auth deps.auth_token open_paths (codes req.path) req.authorization
          ≡ refused msg)
  refused_of req closed no_bearer =
      elim (Decision-cases (auth deps.auth_token open_paths (codes req.path) req.authorization)) [
        | inr turned ↦ turned
        | inl admitted ↦
            elim ((auth_iff deps.auth_token open_paths (codes req.path) req.authorization).0
              admitted) [
                | inl skipped ↦ absurd (ground (arith, closed, skipped))
                | inr bearer ↦ absurd (no_bearer bearer)
              ]
      ]

  -- If the mux finds registered routes only, by patterns that stand for themselves only where they have
  -- no parameter and no slash at their end: a request for any path but `/health`, `/ready` and
  -- `/metrics` whose header is not the bearer of the token changes nothing of the models, the disk, the
  -- containers and the poller, and runs no command. It is answered by the refusal of `Auth`, or, where
  -- its path is not handed to the router at `/api/v1`, possibly by the mux, as unknown.
  pub serve-IsTurnedAway :
      MuxLaws Disk Data Daemon Float Opaque deps
      → (req : Request) (app : App Disk Daemon) (w : Writer Float Opaque)
      → is_skipped open_paths (codes req.path) ≡ false
      → ¬ IsBearer deps.auth_token req.authorization
      → IsTurnedAway req app w (serve deps req app w)
  unfolding serve
  serve-IsTurnedAway laws req app w closed no_bearer =
      let rs = routes deps.has_models deps.has_runner in
      elim (Option-cases (deps.find rs req.method req.path)) [
        | inl lost ↦ elim (Bool-cases (deps.mounts "/api/v1" req.method req.path)) [
          | inr outside ↦ rw (lost, serve) (rw (outside, serve) (refl, inl (refl, refl)))
          | inl inside ↦
              let (msg, turned) = refused_of req closed no_bearer in
              rw (lost, serve) (rw (inside, serve) (rw (turned, serve) (refl, inr (msg, refl))))
        ]
        | inr ((reg, id), found) ↦ elim (Bool-cases reg.guarded) [
          | inl guarded ↦
              let (msg, turned) = refused_of req closed no_bearer in
              rw (found, serve) (rw (guarded, serve) (rw (turned, serve) (refl, inr (msg, refl))))
          | inr open_to_all ↦
              let kept =
                all_kept-is_kept reg rs (laws.registered rs req.method req.path reg id found)
                  (routes-all_kept deps.has_models deps.has_runner) in
              absurd (
                ground (
                  arith,
                  closed,
                  kept_open reg req.path kept open_to_all
                      (laws.literal rs req.method req.path reg id found),
                ))
        ]
      ]
