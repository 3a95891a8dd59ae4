-- ===== src/Container/PairedRun/Channel/Bounds.antt =====
-- internal/container/paired_run.go: the room in the channel of a run's events.
use bonnie.Prelude.{
  ℕ, zero, suc, ◌≤◌, ◌≡◌, refl, ◌⊎◌, inr, Bool, List, [], ◌∷◌, arith, length, length-append,
}
use bonnie.Container.Spec.{PairedRunEvent}
use bonnie.Container.PairedRun.Channel.{
  Channel, capacity, send, take_event, without_at, give_up, close_events, Act, emits, takes,
  gives_up, closes, act, run_acts,
}

-- The queue fits, and a sender waits only where it is full.
abbrev pub IsBounded : Channel → Type 0
IsBounded c = (length c.queue ≤ capacity) × ((length c.queue ≡ capacity) ⊎ (length c.pending ≡ 0))

pub send-IsBounded : (ev : PairedRunEvent) (c : Channel) → IsBounded c → IsBounded (send ev c)
unfolding send
send-IsBounded ev c h = ground (arith, length-append c.queue (ev ∷ []))

abbrev pub channel :
    List PairedRunEvent → List PairedRunEvent → List PairedRunEvent → Bool → Bool → Channel
channel q p d shut crashed = record {
  queue = q;
  pending = p;
  delivered = d;
  closed = shut;
  crashed = crashed;
}

pub take_event-IsBounded :
    (q p d : List PairedRunEvent) (shut crashed : Bool)
    → IsBounded (channel q p d shut crashed)
    → IsBounded (take_event (channel q p d shut crashed))
unfolding take_event
take_event-IsBounded [] p d shut crashed h = h
take_event-IsBounded (ev ∷ q) [] d shut crashed h = (omega (arith, h.0), inr refl)
take_event-IsBounded (ev ∷ q) (x ∷ p) d shut crashed h = ground (arith, length-append q (x ∷ []))

length-without_at : {A : Type 0} (i : ℕ) (xs : List A) → length (without_at i xs) ≤ length xs
length-without_at i [] = omega arith
length-without_at zero (x ∷ xs) = omega arith
length-without_at (suc i) (x ∷ xs) = omega (arith, length-without_at i xs)

give_up-IsBounded : (i : ℕ) (c : Channel) → IsBounded c → IsBounded (give_up i c)
unfolding give_up
give_up-IsBounded i c h = ground (arith, length-without_at i c.pending)

pub act-IsBounded : (a : Act) (c : Channel) → IsBounded c → IsBounded (act a c)
unfolding act close_events
act-IsBounded (emits ev) c h = send-IsBounded ev c h
act-IsBounded takes c h = take_event-IsBounded c.queue c.pending c.delivered c.closed c.crashed h
act-IsBounded (gives_up i) c h = give_up-IsBounded i c h
act-IsBounded closes c h = h

-- A channel that holds 64 events at most, and for which a sender waits only while it is full, stays
-- so, whatever is done to it and in whatever order.
pub run_acts-IsBounded : (acts : List Act) (c : Channel) → IsBounded c → IsBounded (run_acts acts c)
unfolding run_acts
run_acts-IsBounded [] c h = h
run_acts-IsBounded (a ∷ acts) c h = run_acts-IsBounded acts (act a c) (act-IsBounded a c h)
