-- ===== src/Container/PairedRun/Channel.antt =====
-- internal/container/paired_run.go, `emit` and the closing of the events, and the channel that
-- internal/api/handlers/benchmark.go makes for them: what the run, the two log streams and the handler do
-- to it, in whatever order they come. A sender that finds no room for the outcome of the run waits
-- in the order of the arrivals.
pub mod Bounds
pub mod Order
pub mod Delivery
mod Tests
use bonnie.Prelude.{
  ℕ, zero, suc, Bool, true, false, not, ◌||◌, List, [], ◌∷◌, ◌++◌, if◌then◌else◌, str_eq, ltb,
  length, is_empty,
}
use bonnie.Container.Spec.{PairedRunEvent}

pub record Channel : Type 0 where
  pub queue : List PairedRunEvent
  pub pending : List PairedRunEvent
  pub delivered : List PairedRunEvent
  pub closed : Bool
  pub crashed : Bool

-- `make(chan container.PairedRunEvent, 64)`.
abbrev pub capacity : ℕ
capacity = 64

abbrev pub new_channel : Channel
new_channel = record { queue = []; pending = []; delivered = []; closed = false; crashed = false }

abbrev pub is_outcome : PairedRunEvent → Bool
is_outcome ev = str_eq ev.type "result" || str_eq ev.type "error"

-- `emit`: a send on a closed channel panics; what finds no room is dropped, unless it is an outcome.
unfoldable pub send : PairedRunEvent → Channel → Channel
send ev c =
    if c.closed
    then record c { crashed = true }
    else if ltb (length c.queue) capacity
    then record c { queue = c.queue ++ ev ∷ [] }
    else if is_outcome ev
    then record c { pending = c.pending ++ ev ∷ [] }
    else c

-- The handler takes an event, and the first sender that waits gets the place.
unfoldable pub take_event : Channel → Channel
take_event c = elim c.queue [
  | [] ↦ c
  | ev ∷ rest ↦ elim c.pending [
    | [] ↦ record c { delivered = c.delivered ++ ev ∷ []; queue = rest }
    | p ∷ ps ↦ record c { delivered = c.delivered ++ ev ∷ []; queue = rest ++ p ∷ []; pending = ps }
  ]
]

abbrev pub without_at {ℓ} : {A : Type ℓ} → ℕ → List A → List A
without_at i [] = []
without_at zero (x ∷ xs) = xs
without_at (suc i) (x ∷ xs) = x ∷ without_at i xs

-- A sender has waited for ten seconds.
unfoldable pub give_up : ℕ → Channel → Channel
give_up i c = record c { pending = without_at i c.pending }

-- `close(events)`; a sender that waits then panics.
unfoldable pub close_events : Channel → Channel
close_events c = record c { closed = true; crashed = c.crashed || not (is_empty c.pending) }

pub data Act : Type 0 where
  emits : PairedRunEvent → Act
  takes : Act
  gives_up : ℕ → Act
  closes : Act

unfoldable pub act : Act → Channel → Channel
unfolding send take_event give_up close_events
act (emits ev) c = send ev c
act takes c = take_event c
act (gives_up i) c = give_up i c
act closes c = close_events c

-- What comes of some acts, the first at the head.
unfoldable pub run_acts : List Act → Channel → Channel
unfolding act
run_acts [] c = c
run_acts (a ∷ acts) c = run_acts acts (act a c)
