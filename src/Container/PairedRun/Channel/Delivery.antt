-- ===== src/Container/PairedRun/Channel/Delivery.antt =====
-- internal/container/paired_run.go: the outcome of a run reaches a client that goes on reading.
use bonnie.Prelude.{ℕ, suc, ◌+◌, List, [], ◌∷◌, length}
use bonnie.Container.PairedRun.Channel.{Channel, Act, emits, takes, gives_up, closes}

-- The events that the client does not have yet.
abbrev pub left : Channel → ℕ
left c = length c.queue + length c.pending

-- How often the handler takes an event.
abbrev pub takes_in : List Act → ℕ
takes_in [] = 0
takes_in (takes ∷ acts) = suc (takes_in acts)
takes_in (emits ev ∷ acts) = takes_in acts
takes_in (gives_up i ∷ acts) = takes_in acts
takes_in (closes ∷ acts) = takes_in acts

-- No sender gives up.
abbrev pub AllPatient : List Act → Type 0
AllPatient [] = Unit
AllPatient (gives_up i ∷ acts) = ⊥
AllPatient (takes ∷ acts) = AllPatient acts
AllPatient (emits ev ∷ acts) = AllPatient acts
AllPatient (closes ∷ acts) = AllPatient acts
