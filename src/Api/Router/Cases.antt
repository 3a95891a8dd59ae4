-- ===== src/Api/Router/Cases.antt =====
-- How a request to the router of internal/api ends.
use bonnie.Prelude.{String, inl, inr, Bool-cases, Option-cases}
use bonnie.Prelude.Bytes.{Bytes, codes}
use bonnie.Api.Auth.{auth}
use bonnie.Api.Http.{Writer}
use bonnie.Api.Router.{
  Route, Request, App, Deps, routes, open_paths, handle, write_auth_error, serve,
}
use bonnie.Api.Router.Guard.{Decision-cases}

module _ {Disk Data Daemon Float Opaque : Type 0} (deps : Deps Disk Data Daemon Float Opaque) where
  -- A request ends with the mux's answer, with a refusal, or with what its handler does.
  pub serve_cases :
      (P : App Disk Daemon × Writer Float Opaque → Type 0) (req : Request) (app : App Disk Daemon)
      (w : Writer Float Opaque)
      → P (app, deps.missing w)
      → ((msg : Bytes) → P (app, write_auth_error deps msg w))
      → ((route : Route) (id : String) → P (handle deps route id req app w))
      → P (serve deps req app w)
  unfolding serve
  serve_cases P req app w lost turned handled =
      elim (Option-cases (deps.find (routes deps.has_models deps.has_runner) req.method req.path)) [
        | inl h ↦ elim (Bool-cases (deps.mounts "/api/v1" req.method req.path)) [
          | inr outside ↦ rw (h, serve) (rw (outside, serve) lost)
          | inl inside ↦
              elim (Decision-cases
                (auth deps.auth_token open_paths (codes req.path) req.authorization)) [
                  | inl admitted ↦ rw (h, serve) (rw (inside, serve) (rw (admitted, serve) lost))
                  | inr (msg, refusal) ↦
                      rw (h, serve) (rw (inside, serve) (rw (refusal, serve) (turned msg)))
                ]
        ]
        | inr ((reg, id), h) ↦ elim (Bool-cases reg.guarded) [
          | inr all ↦ rw (h, serve) (rw (all, serve) (handled reg.route id))
          | inl guarded ↦
              elim (Decision-cases
                (auth deps.auth_token open_paths (codes req.path) req.authorization)) [
                  | inl admitted ↦
                      rw (h, serve)
                        (rw (guarded, serve) (rw (admitted, serve) (handled reg.route id)))
                  | inr (msg, refusal) ↦
                      rw (h, serve) (rw (guarded, serve) (rw (refusal, serve) (turned msg)))
                ]
        ]
      ]
