-- ===== src/Container/PairedRun/Channel/Tests.antt =====
-- A small run's channel, and the theorems on internal/container/paired_run.go at it.
use bonnie.Prelude.{◌≡◌, refl, true, List, [], ◌∷◌}
use bonnie.Container.Spec.{PairedRunEvent}
use bonnie.Container.Monad.{blank_event, status}
use bonnie.Container.PairedRun.Channel.{
  Channel, new_channel, send, take_event, give_up, close_events, Act, emits, takes, closes, act,
  run_acts,
}
use bonnie.Container.PairedRun.Channel.Order.{all_of, emitted, IsPart, run_acts-IsPart}

-- Channels: every function of the component runs under this line.
channels : Unit {0}
unfolding run_acts act send take_event give_up close_events
channels = tt

abbrev outcome : PairedRunEvent
outcome = record blank_event { type = "result"; phase = "done" }

abbrev line : PairedRunEvent
line = record blank_event { type = "progress"; source = "engine"; line = "ready" }

abbrev acts : List Act
acts = emits (status "starting-engine") ∷ emits line ∷ takes ∷ []

abbrev line_of_engine : Channel → List PairedRunEvent
line_of_engine c = c.queue

after_acts : line_of_engine (run_acts acts new_channel) ≡ line ∷ []
unfolding channels
after_acts = refl

-- `PairedRun` has returned and closed the channel, and a log stream emits a last line.
late_line : (run_acts (emits outcome ∷ closes ∷ emits line ∷ []) new_channel).crashed ≡ true
unfolding channels
late_line = refl

run_acts-IsPart_example : IsPart (all_of (run_acts acts new_channel)) (emitted acts)
run_acts-IsPart_example = run_acts-IsPart acts

-- A log stream goes on while the handler takes what there is.
abbrev later : List Act
later = takes ∷ emits line ∷ takes ∷ takes ∷ takes ∷ []
