-- ===== src/Container/PairedRun/Channel/Order.antt =====
-- internal/container/paired_run.go: the order of the events of a run.
use bonnie.Prelude.{
  ℕ, zero, suc, ◌≡◌, refl, sym, ◌∙◌, ap, inl, inr, Bool, List, [], ◌∷◌, ◌++◌, arith, length,
  Bool-cases, ltb,
}
use mathlib.Core.List.{append_assoc, append-nil}
use bonnie.Container.Spec.{PairedRunEvent}
use bonnie.Container.PairedRun.Channel.{
  Channel, capacity, new_channel, is_outcome, send, take_event, without_at, give_up, close_events,
  Act, emits, takes, gives_up, closes, act, run_acts,
}
use bonnie.Container.PairedRun.Channel.Bounds.{IsBounded, channel, act-IsBounded}

-- All events in the channel's hands: those that the client has, those in the queue, and those that
-- a sender waits with.
abbrev pub all_of : Channel → List PairedRunEvent
all_of c = c.delivered ++ (c.queue ++ c.pending)

-- A list that comes of another one by leaving elements out.
pub data IsPart {A : Type 0} : List A → List A → Type 0 where
  none_left : IsPart [] []
  kept : {x : A} {xs ys : List A} → IsPart xs ys → IsPart (x ∷ xs) (x ∷ ys)
  left_out : {x : A} {xs ys : List A} → IsPart xs ys → IsPart xs (x ∷ ys)

module _ {A : Type 0} where
  IsPart-refl : (xs : List A) → IsPart xs xs
  IsPart-refl [] = none_left
  IsPart-refl (x ∷ xs) = kept (IsPart-refl xs)

  IsPart-trans : {ys zs : List A} → IsPart ys zs → {xs : List A} → IsPart xs ys → IsPart xs zs
  IsPart-trans none_left h = h
  IsPart-trans (left_out k) h = left_out (IsPart-trans k h)
  IsPart-trans (kept k) (kept h) = kept (IsPart-trans k h)
  IsPart-trans (kept k) (left_out h) = left_out (IsPart-trans k h)

  IsPart-append_left : (xs : List A) {ys zs : List A} → IsPart ys zs → IsPart (xs ++ ys) (xs ++ zs)
  IsPart-append_left [] h = h
  IsPart-append_left (x ∷ xs) h = kept (IsPart-append_left xs h)

  IsPart-grow : {xs ys : List A} (x : A) → IsPart xs ys → IsPart (xs ++ x ∷ []) (ys ++ x ∷ [])
  IsPart-grow x none_left = kept none_left
  IsPart-grow x (kept h) = kept (IsPart-grow x h)
  IsPart-grow x (left_out h) = left_out (IsPart-grow x h)

  IsPart-more : {xs ys : List A} (x : A) → IsPart xs ys → IsPart xs (ys ++ x ∷ [])
  IsPart-more x none_left = left_out none_left
  IsPart-more x (kept h) = kept (IsPart-more x h)
  IsPart-more x (left_out h) = left_out (IsPart-more x h)

  IsPart-without_at : (i : ℕ) (xs : List A) → IsPart (without_at i xs) xs
  IsPart-without_at i [] = none_left
  IsPart-without_at zero (x ∷ xs) = left_out (IsPart-refl xs)
  IsPart-without_at (suc i) (x ∷ xs) = kept (IsPart-without_at i xs)

-- The first event in the queue goes over to the client, and nothing changes its place.
pub all_of-take_event :
    (q p d : List PairedRunEvent) (shut crashed : Bool)
    → all_of (take_event (channel q p d shut crashed)) ≡ d ++ (q ++ p)
unfolding take_event
all_of-take_event [] p d shut crashed = refl
all_of-take_event (ev ∷ q) [] d shut crashed = append_assoc d (ev ∷ []) (q ++ [])
all_of-take_event (ev ∷ q) (x ∷ p) d shut crashed =
    append_assoc d (ev ∷ []) ((q ++ x ∷ []) ++ p)
    ∙ ap (λ r. d ++ (ev ∷ r)) (append_assoc q (x ∷ []) p)

-- What is emitted, in its order.
abbrev pub emitted : List Act → List PairedRunEvent
emitted [] = []
emitted (emits ev ∷ acts) = ev ∷ emitted acts
emitted (takes ∷ acts) = emitted acts
emitted (gives_up i ∷ acts) = emitted acts
emitted (closes ∷ acts) = emitted acts

pub length-zero : {A : Type 0} (xs : List A) → length xs ≡ 0 → xs ≡ []
length-zero [] h = refl
length-zero (x ∷ xs) h = absurd (omega arith)

-- An event that finds its place stands at the end.
pub all_of-append :
    (q p d : List PairedRunEvent) (ev : PairedRunEvent)
    → d ++ (q ++ (p ++ ev ∷ [])) ≡ (d ++ (q ++ p)) ++ ev ∷ []
all_of-append q p d ev =
    ap (λ r. d ++ r) (sym (append_assoc q p (ev ∷ []))) ∙ sym (append_assoc d (q ++ p) (ev ∷ []))

pub all_of-append_empty :
    (q d : List PairedRunEvent) (ev : PairedRunEvent)
    → d ++ ((q ++ ev ∷ []) ++ []) ≡ (d ++ (q ++ [])) ++ ev ∷ []
all_of-append_empty q d ev =
    rw (append-nil (q ++ ev ∷ []), append-nil q) (sym (append_assoc d q (ev ∷ [])))

send-IsPart :
    (ev : PairedRunEvent) (c : Channel) (sent : List PairedRunEvent)
    → IsBounded c
    → IsPart (all_of c) sent
    → IsPart (all_of (send ev c)) (sent ++ ev ∷ [])
unfolding send
send-IsPart ev c sent bounded h = elim (Bool-cases c.closed) [
  | inl shut ↦ rw (shut, send) (IsPart-more ev h)
  | inr open_now ↦ elim (Bool-cases (ltb (length c.queue) capacity)) [
    | inl room ↦
        let nobody : c.pending ≡ [] = length-zero c.pending (ground arith) in
        let moved : c.delivered ++ ((c.queue ++ ev ∷ []) ++ c.pending) ≡ all_of c ++ ev ∷ [] =
          rw nobody (all_of-append_empty c.queue c.delivered ev) in
        rw (open_now, send) (rw (room, send) (rw moved (IsPart-grow ev h)))
    | inr full ↦ elim (Bool-cases (is_outcome ev)) [
      | inl waits ↦
          rw (open_now, send)
            (rw (full, send)
              (rw (waits, send)
                (rw (all_of-append c.queue c.pending c.delivered ev) (IsPart-grow ev h))))
      | inr drop_it ↦ rw (open_now, send) (rw (full, send) (rw (drop_it, send) (IsPart-more ev h)))
    ]
  ]
]

-- The events that one act emits.
abbrev event_of : Act → List PairedRunEvent
event_of (emits ev) = ev ∷ []
event_of takes = []
event_of (gives_up i) = []
event_of closes = []

act-IsPart :
    (a : Act) (c : Channel) (sent : List PairedRunEvent)
    → IsBounded c
    → IsPart (all_of c) sent
    → IsPart (all_of (act a c)) (sent ++ event_of a)
unfolding act give_up close_events
act-IsPart (emits ev) c sent bounded h = send-IsPart ev c sent bounded h
act-IsPart takes c sent bounded h =
    rw (append-nil sent, all_of-take_event c.queue c.pending c.delivered c.closed c.crashed) h
act-IsPart (gives_up i) c sent bounded h = rw (append-nil sent) (
    IsPart-trans h
      (IsPart-append_left c.delivered (IsPart-append_left c.queue (IsPart-without_at i c.pending))))
act-IsPart closes c sent bounded h = rw (append-nil sent) h

emitted-cons : (a : Act) (acts : List Act) → emitted (a ∷ acts) ≡ event_of a ++ emitted acts
emitted-cons (emits ev) acts = refl
emitted-cons takes acts = refl
emitted-cons (gives_up i) acts = refl
emitted-cons closes acts = refl

run_acts-IsPart_from :
    (acts : List Act) (c : Channel) (sent : List PairedRunEvent)
    → IsBounded c
    → IsPart (all_of c) sent
    → IsPart (all_of (run_acts acts c)) (sent ++ emitted acts)
unfolding run_acts
run_acts-IsPart_from [] c sent bounded h = rw (append-nil sent) h
run_acts-IsPart_from (a ∷ acts) c sent bounded h =
    rw (emitted-cons a acts, sym (append_assoc sent (event_of a) (emitted acts)))
      (run_acts-IsPart_from acts (act a c) (sent ++ event_of a) (act-IsBounded a c bounded)
        (act-IsPart a c sent bounded h))

-- Whatever the run, its log streams and the handler do to the channel, and in whatever order: the
-- client's events, then those in the queue, then those that a sender waits with, are the emitted
-- events in the order of their emission, with some left out. None comes twice, and none is made up.
pub run_acts-IsPart : (acts : List Act) → IsPart (all_of (run_acts acts new_channel)) (emitted acts)
run_acts-IsPart acts = run_acts-IsPart_from acts new_channel [] (omega arith, inr refl) none_left
