-- ===== src/Container/Logs/Lines.antt =====
-- The lines of a container's output, for `streamLogs` of internal/container/paired_run.go.
use bonnie.Prelude.{
  ℕ, zero, suc, ◌≤◌, ◌≡◌, refl, sym, ◌∙◌, ap, true, false, Option, none, some, List, [], ◌∷◌, ◌++◌,
  if◌then◌else◌, ◌==◌, length, inl, inr, arith, Bool-cases,
}
use bonnie.Prelude.Bytes.{Bytes}
use bonnie.Container.Logs.{
  cut_line, LogEvent, line_event, drain, Stop, stop_event, pump, stream_logs,
}

-- The lines of a text that end in a newline, byte by byte: each is the bytes since the last one.
unfoldable pub events_of : Bytes → Bytes → List LogEvent
events_of line [] = []
events_of line (c ∷ s) =
    let here = events_of [] s in
    let on = events_of (line ++ (c ∷ [])) s in if c == b'\n' then line_event line ++ here else on

-- The bytes after the last newline.
unfoldable pub rest_of : Bytes → Bytes → Bytes
rest_of line [] = line
rest_of line (c ∷ s) =
    let here = rest_of [] s in
    let on = rest_of (line ++ (c ∷ [])) s in if c == b'\n' then here else on

append_assoc : {A : Type 0} (xs ys zs : List A) → (xs ++ ys) ++ zs ≡ xs ++ (ys ++ zs)
append_assoc [] ys zs = refl
append_assoc (x ∷ xs) ys zs = ap (λ r. x ∷ r) (append_assoc xs ys zs)

append_nil : {A : Type 0} (xs : List A) → xs ++ [] ≡ xs
append_nil [] = refl
append_nil (x ∷ xs) = ap (λ r. x ∷ r) (append_nil xs)

events_of-append :
    (line s t : Bytes) → events_of line (s ++ t) ≡ events_of line s ++ events_of (rest_of line s) t
unfolding events_of rest_of
events_of-append line [] t = refl
events_of-append line (c ∷ s) t = elim (Bool-cases (c == b'\n')) [
  | inl e ↦
      rw (e, events_of, rest_of)
        (ap (λ r. line_event line ++ r) (events_of-append [] s t)
          ∙ sym (append_assoc (line_event line) (events_of [] s) (events_of (rest_of [] s) t)))
  | inr e ↦ rw (e, events_of, rest_of) (events_of-append (line ++ (c ∷ [])) s t)
]

rest_of-append : (line s t : Bytes) → rest_of line (s ++ t) ≡ rest_of (rest_of line s) t
unfolding rest_of
rest_of-append line [] t = refl
rest_of-append line (c ∷ s) t = elim (Bool-cases (c == b'\n')) [
  | inl e ↦ rw (e, rest_of) (rest_of-append [] s t)
  | inr e ↦ rw (e, rest_of) (rest_of-append (line ++ (c ∷ [])) s t)
]

-- What a cut finds, against the scan with the bytes of an unfinished line before it.
abbrev CutOf : Bytes → Bytes → Option (Bytes × Bytes) → Type 0
CutOf line s none = (events_of line s ≡ []) × (rest_of line s ≡ line ++ s)
CutOf line s (some (first, rest)) =
    (events_of line s ≡ line_event (line ++ first) ++ events_of [] rest)
    × (rest_of line s ≡ rest_of [] rest)
    × (suc (length rest) ≤ length s)

push-CutOf :
    (line : Bytes) (c : ℕ) (s : Bytes) (o : Option (Bytes × Bytes))
    → (c == b'\n') ≡ false
    → CutOf (line ++ (c ∷ [])) s o
    → CutOf line (c ∷ s) (elim o [ none ↦ none | some (first, rest) ↦ some (c ∷ first, rest) ])
unfolding events_of rest_of
push-CutOf line c s none e h = rw (e, events_of, rest_of) (h.0, h.1 ∙ append_assoc line (c ∷ []) s)
push-CutOf line c s (some (first, rest)) e h =
    rw (e, events_of, rest_of)
      (
        h.0 ∙ ap (λ l. line_event l ++ events_of [] rest) (append_assoc line (c ∷ []) first),
        h.1,
        omega (arith, h.2),
      )

newline-CutOf :
    (line : Bytes) (c : ℕ) (s : Bytes) → (c == b'\n') ≡ true → CutOf line (c ∷ s) (some ([], s))
unfolding events_of rest_of
newline-CutOf line c s e =
    rw (e, events_of, rest_of)
      (ap (λ l. line_event l ++ events_of [] s) (sym (append_nil line)), refl, omega arith)

cut_line-CutOf : (line s : Bytes) → CutOf line s (cut_line s)
unfolding events_of rest_of
cut_line-CutOf line [] = (refl, sym (append_nil line))
cut_line-CutOf line (c ∷ s) = elim (Bool-cases (c == b'\n')) [
  | inl e ↦ rw e (newline-CutOf line c s e)
  | inr e ↦ rw e (push-CutOf line c s (cut_line s) e (cut_line-CutOf (line ++ (c ∷ [])) s))
]

drain_lem :
    (fuel : ℕ) (s : Bytes)
    → length s ≤ fuel
    → ((drain fuel s).0 ≡ events_of [] s) × ((drain fuel s).1 ≡ rest_of [] s)
unfolding drain events_of rest_of
drain_lem zero [] h = (refl, refl)
drain_lem zero (c ∷ s) h = absurd (omega arith)
drain_lem (suc fuel) s h =
    go (λ rest k. drain_lem fuel rest k) (cut_line s) refl (cut_line-CutOf [] s)
  where
    go :
        ((rest : Bytes)
          → length rest ≤ fuel
          → ((drain fuel rest).0 ≡ events_of [] rest) × ((drain fuel rest).1 ≡ rest_of [] rest))
        → (o : Option (Bytes × Bytes)) → cut_line s ≡ o
        → CutOf [] s o
        → ((drain (suc fuel) s).0 ≡ events_of [] s) × ((drain (suc fuel) s).1 ≡ rest_of [] s)
    go rec none e k = rw (e, drain) (sym k.0, sym k.1)
    go rec (some (first, rest)) e k =
        let later = rec rest (omega (arith, k.2, h)) in
        rw (e, drain) (ap (λ es. line_event first ++ es) later.0 ∙ sym k.0, later.1 ∙ sym k.1)

-- All the bytes of the reads, up to the one that ends the stream.
abbrev pub output : List (Bytes × Option Stop) → Bytes
output [] = []
output ((chunk, none) ∷ reads) = chunk ++ output reads
output ((chunk, some stop) ∷ reads) = chunk

-- The event that the end of the stream gives.
abbrev pub ending : List (Bytes × Option Stop) → List LogEvent
ending [] = []
ending ((chunk, none) ∷ reads) = ending reads
ending ((chunk, some stop) ∷ reads) = stop_event stop

-- A buffer without a newline.
abbrev IsPartial : Bytes → Type 0
IsPartial buf = (events_of [] buf ≡ []) × (rest_of [] buf ≡ buf)

empty-IsPartial : IsPartial []
unfolding events_of rest_of
empty-IsPartial = (refl, refl)

snoc-IsPartial :
    (line : Bytes) (c : ℕ) → (c == b'\n') ≡ false → IsPartial line → IsPartial (line ++ (c ∷ []))
unfolding events_of rest_of
snoc-IsPartial line c e (no_events, whole) =
    let one : events_of line (c ∷ []) ≡ [] = rw (e, events_of) refl in
    let left : rest_of line (c ∷ []) ≡ line ++ (c ∷ []) = rw (e, rest_of) refl in
    (
      events_of-append [] line (c ∷ [])
          ∙ ap (λ es. es ++ events_of (rest_of [] line) (c ∷ [])) no_events
          ∙ ap (λ l. events_of l (c ∷ [])) whole
          ∙ one,
      rest_of-append [] line (c ∷ []) ∙ ap (λ l. rest_of l (c ∷ [])) whole ∙ left,
    )

rest_of-IsPartial : (line s : Bytes) → IsPartial line → IsPartial (rest_of line s)
unfolding events_of rest_of
rest_of-IsPartial line [] h = h
rest_of-IsPartial line (c ∷ s) h = elim (Bool-cases (c == b'\n')) [
  | inl e ↦ rw (e, rest_of) (rest_of-IsPartial [] s (refl, refl))
  | inr e ↦ rw (e, rest_of) (rest_of-IsPartial (line ++ (c ∷ [])) s (snoc-IsPartial line c e h))
]

-- The scan goes on from a buffer as from its bytes.
resume : (buf s : Bytes) → IsPartial buf → events_of [] (buf ++ s) ≡ events_of buf s
resume buf s (no_events, whole) =
    events_of-append [] buf s
    ∙ ap (λ es. es ++ events_of (rest_of [] buf) s) no_events
    ∙ ap (λ l. events_of l s) whole

pump_lem :
    (buf : Bytes) (reads : List (Bytes × Option Stop))
    → IsPartial buf
    → pump buf reads ≡ events_of [] (buf ++ output reads) ++ ending reads
unfolding pump
pump_lem buf [] (no_events, whole) =
    sym (append_nil _ ∙ ap (events_of []) (append_nil buf) ∙ no_events)
pump_lem buf ((chunk, some stop) ∷ reads) h =
    let drained = drain_lem (length (buf ++ chunk)) (buf ++ chunk) (omega arith) in
    ap (λ es. es ++ stop_event stop) drained.0
pump_lem buf ((chunk, none) ∷ reads) h =
    let whole = buf ++ chunk in
    let drained = drain_lem (length whole) whole (omega arith) in
    let left = rest_of [] whole in
    let partial = rest_of-IsPartial [] whole empty-IsPartial in
    let out = output reads in
    ap (λ es. es ++ pump (drain (length whole) whole).1 reads) drained.0
    ∙ ap (λ l. events_of [] whole ++ pump l reads) drained.1
    ∙ ap (λ es. events_of [] whole ++ es) (pump_lem left reads partial)
    ∙ sym (append_assoc (events_of [] whole) (events_of [] (left ++ out)) (ending reads))
    ∙ ap (λ es. (events_of [] whole ++ es) ++ ending reads) (resume left out partial)
    ∙ ap (λ es. es ++ ending reads) (sym (events_of-append [] whole out))
    ∙ ap (λ text. events_of [] text ++ ending reads) (append_assoc buf chunk out)

-- Once its stream is open, `streamLogs` sends the non-empty lines of the whole output without their
-- trailing carriage returns, each once and in order, and then the error that ended the stream,
-- however the output was cut into reads. What follows the last newline is not sent.
pub stream_logs_lem :
    (reads : List (Bytes × Option Stop))
    → stream_logs none reads ≡ events_of [] (output reads) ++ ending reads
unfolding stream_logs events_of rest_of
stream_logs_lem reads = pump_lem [] reads (refl, refl)
