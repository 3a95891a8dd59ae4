-- ===== src/Container/Logs.antt =====
-- internal/container/paired_run.go: `streamLogs`, which cuts a container's output into lines. A
-- read gives some bytes, and the last one how the stream ended; logs are ASCII here.
pub mod Lines
use bonnie.Prelude.{
  ℕ, zero, suc, String, ◌≡◌, refl, Bool, true, false, Option, none, some, List, [], ◌∷◌, ◌++◌, map,
  if◌then◌else◌, ◌==◌, length, is_empty,
}
use bonnie.Prelude.Bytes.{Bytes, codes}

-- The text before the first newline and the text after it, `bytes.IndexByte` and the two slices.
abbrev pub cut_line : Bytes → Option (Bytes × Bytes)
cut_line [] = none
cut_line (c ∷ s) =
    if c == b'\n'
    then some ([], s)
    else elim (cut_line s) [ none ↦ none | some (line, rest) ↦ some (c ∷ line, rest) ]

-- `strings.TrimRight(s, "\r")`.
abbrev pub trim_cr : Bytes → Bytes
trim_cr [] = []
trim_cr (c ∷ s) =
    let rest = trim_cr s in
    if c == b'\r' then (if is_empty rest then [] else c ∷ rest) else c ∷ rest

-- The events of a stream: a line, or the error that ended it.
pub data LogEvent : Type 0 where
  progress : Bytes → LogEvent
  log_error : String → LogEvent

-- One line; an empty one is not sent.
abbrev pub line_event : Bytes → List LogEvent
line_event line = let text = trim_cr line in if is_empty text then [] else progress text ∷ []

-- The inner loop: the events of the complete lines, and the bytes left in the buffer. A line takes
-- one byte at least, so the length of the buffer is fuel enough.
unfoldable pub drain : ℕ → Bytes → List LogEvent × Bytes
drain zero buf = ([], buf)
drain (suc fuel) buf = elim (cut_line buf) [
  | none ↦ ([], buf)
  | some (line, rest) ↦ let (events, left) = drain fuel rest in (line_event line ++ events, left)
]

-- How a stream ends: at its end, with its context, or with an error.
pub data Stop : Type 0 where
  eof cancelled : Stop
  broken : String → Stop

abbrev pub stop_event : Stop → List LogEvent
stop_event eof = []
stop_event cancelled = []
stop_event (broken e) = log_error e ∷ []

-- The outer loop, read by read. Where the list ends before a stop, the next read has not returned.
unfoldable pub pump : Bytes → List (Bytes × Option Stop) → List LogEvent
unfolding drain
pump buf [] = []
pump buf ((chunk, stop) ∷ reads) =
    let whole = buf ++ chunk in
    let (events, left) = drain (length whole) whole in
    let later = pump left reads in events ++ elim stop [ none ↦ later | some s ↦ stop_event s ]

-- `streamLogs`, from the answer of `ContainerLogs`.
unfoldable pub stream_logs : Option String → List (Bytes × Option Stop) → List LogEvent
unfolding pump
stream_logs (some e) reads = log_error e ∷ []
stream_logs none reads = pump [] reads
