-- ===== src/Api/Http/Answered.antt =====
-- What of a response has gone out.
use bonnie.Prelude.{ℕ, String, ◌≡◌, refl, true, false, none, some, List, [], ◌∷◌}
use bonnie.Prelude.Bytes.{Bytes, codes}
use bonnie.Container.Manager.{LogPieces}
use bonnie.Api.Http.{
  Writer, Body, pair, raw, run_event, flush, write, write_header, write_json, write_error_text,
}
use bonnie.Api.Handlers.Containers.{write_event, write_events}
use bonnie.Api.Handlers.Metrics.{write_lines}
use bonnie.Api.Handlers.Stream.{Signal, disconnected, closed, event, forward, write_frame}

module _ {Float Opaque : Type 0} where
  -- One status went out, and it is the one that the log will show.
  pub record IsAnswered (w : Writer Float Opaque) : Type 0 where
    pub status : ℕ
    pub content_type : String
    pub out : w.sent ≡ some (record { status = status; content_type = content_type })
    pub seen : w.status_code ≡ status

  -- Nothing has gone out.
  abbrev pub IsUnsent : Writer Float Opaque → Type 0
  IsUnsent w = (w.sent ≡ none) × (w.status_code ≡ 200)

  pub write-IsUnsent :
      (body : Body Float Opaque) (w : Writer Float Opaque) → IsUnsent w → IsAnswered (write body w)
  unfolding write
  write-IsUnsent body w (unsent, plain) = record {
    status = 200;
    content_type = w.content_type;
    out = rw unsent refl;
    seen = plain;
  }

  pub flush-IsUnsent : (w : Writer Float Opaque) → IsUnsent w → IsAnswered (flush w)
  flush-IsUnsent w (unsent, plain) = record {
    status = 200;
    content_type = w.content_type;
    out = rw unsent refl;
    seen = plain;
  }

  pub write_header-IsUnsent :
      (code : ℕ) (w : Writer Float Opaque) → w.sent ≡ none → IsAnswered (write_header code w)
  unfolding write_header
  write_header-IsUnsent code w unsent = record {
    status = code;
    content_type = w.content_type;
    out = rw unsent refl;
    seen = refl;
  }

  pub write-IsAnswered :
      (body : Body Float Opaque) (w : Writer Float Opaque)
      → IsAnswered w
      → IsAnswered (write body w)
  unfolding write
  write-IsAnswered body w h = record {
    status = h.status;
    content_type = h.content_type;
    out = rw h.out refl;
    seen = h.seen;
  }

  pub flush-IsAnswered : (w : Writer Float Opaque) → IsAnswered w → IsAnswered (flush w)
  flush-IsAnswered w h = record {
    status = h.status;
    content_type = h.content_type;
    out = rw h.out refl;
    seen = h.seen;
  }

  pub write_events-IsAnswered :
      (pieces : LogPieces) (w : Writer Float Opaque)
      → IsAnswered w
      → IsAnswered (write_events pieces w)
  write_events-IsAnswered [] w h = h
  write_events-IsAnswered (piece ∷ pieces) w h =
      write_events-IsAnswered pieces (write_event piece w)
        (flush-IsAnswered (write _ w) (write-IsAnswered _ w h))

  pub write_lines-IsAnswered :
      (lines : List Bytes) (w : Writer Float Opaque)
      → IsAnswered w
      → IsAnswered (write_lines lines w)
  write_lines-IsAnswered [] w h = h
  write_lines-IsAnswered (line ∷ lines) w h =
      write_lines-IsAnswered lines (write _ w) (write-IsAnswered _ w h)

  pub forward-IsAnswered :
      (signals : List Signal) (w : Writer Float Opaque)
      → IsAnswered w
      → IsAnswered (forward signals w)
  forward-IsAnswered [] w h = h
  forward-IsAnswered (disconnected ∷ signals) w h = h
  forward-IsAnswered (closed ∷ signals) w h = h
  forward-IsAnswered (event ev false ∷ signals) w h = h
  forward-IsAnswered (event ev true ∷ signals) w h =
      let w₁ = write (raw (codes "data: ")) w in
      let w₂ = write (run_event ev) w₁ in
      let w₃ = write (raw (codes "\n")) w₂ in
      forward-IsAnswered signals (write_frame ev w) (
        flush-IsAnswered w₃
          (write-IsAnswered _ w₂ (write-IsAnswered _ w₁ (write-IsAnswered _ w h))))

  pub write_error-IsAnswered :
      (code : ℕ) (msg : Bytes) (w : Writer Float Opaque)
      → IsUnsent w
      → IsAnswered (write_error_text code msg w)
  unfolding write_error_text
  write_error-IsAnswered code msg w (unsent, plain) =
      write-IsAnswered (pair "error" msg)
        (write_header code (record w { content_type = "application/json" }))
        (write_header-IsUnsent code (record w { content_type = "application/json" }) unsent)

  pub write_json-IsAnswered :
      (body : Body Float Opaque) (w : Writer Float Opaque)
      → IsUnsent w
      → IsAnswered (write_json body w)
  unfolding write_json
  write_json-IsAnswered body w h =
      write-IsUnsent body (record w { content_type = "application/json" }) h
