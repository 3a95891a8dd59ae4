-- ===== src/Gpu/Poller/Reach.antt =====
-- The states that a poller of internal/gpu/poller.go gets to.
use bonnie.Prelude.{
  ℕ, zero, suc, ◌≡◌, refl, sym, ◌∙◌, ap, subst, ◌⊎◌, inl, inr, Option, none, some, List, [], ◌∷◌,
  ◌++◌, map, All, All-append, All-map,
}
use bonnie.Gpu.Types.{Snapshot}
use bonnie.Gpu.Poller.{
  Poller, subscribe, set_latest, offer, publish, take_at, receive, detected, published, subscribed,
  received, step, start,
}

-- The oldest of some snapshots, which come oldest first.
abbrev pub first : List Snapshot → Option Snapshot
first [] = none
first (snap ∷ snaps) = some snap

-- A channel has been emptied.
abbrev pub clear_at : ℕ → List (List Snapshot) → List (List Snapshot)
clear_at i [] = []
clear_at zero (snaps ∷ rest) = [] ∷ rest
clear_at (suc i) (snaps ∷ rest) = snaps ∷ clear_at i rest

abbrev pub add_to : Snapshot → List Snapshot → List Snapshot
add_to snap snaps = snaps ++ snap ∷ []

-- The detections so far, newest first; the one that the loop has in place and has not passed on yet;
-- for each channel what has been passed on since it was last empty; and the state. Other callers
-- come between the two pieces of a tick.
pub data Reach : List Snapshot → Option Snapshot → List (List Snapshot) → Poller → Type 0 where
  started :
      (snap : Snapshot) (subs : List (Option Snapshot))
      → All (λ ch. ch ≡ none) subs
      → Reach (snap ∷ []) none (map (λ ch. []) subs) (start snap subs)
  placed :
      (snap : Snapshot) {h : List Snapshot} {since : List (List Snapshot)} {p : Poller}
      → Reach h none since p
      → Reach (snap ∷ h) (some snap) since (step (detected snap) p)
  passed_on :
      {snap : Snapshot} {h : List Snapshot} {since : List (List Snapshot)} {p : Poller}
      → Reach h (some snap) since p
      → Reach h none (map (add_to snap) since) (step (published snap) p)
  joined :
      {h : List Snapshot} {held : Option Snapshot} {since : List (List Snapshot)} {p : Poller}
      → Reach h held since p
      → Reach h held (since ++ [] ∷ []) (step subscribed p)
  taken :
      (i : ℕ) {h : List Snapshot} {held : Option Snapshot} {since : List (List Snapshot)}
      {p : Poller}
      → Reach h held since p
      → Reach h held (clear_at i since) (step (received i) p)

abbrev pub OneOf : Snapshot → List Snapshot → Type 0
OneOf snap [] = ⊥
OneOf snap (s ∷ h) = (snap ≡ s) ⊎ OneOf snap h

-- A channel holds nothing, or a detection.
abbrev pub Holding : List Snapshot → Option Snapshot → Type 0
Holding h none = Unit
Holding h (some snap) = OneOf snap h

abbrev pub IsNewest : Snapshot → List Snapshot → Type 0
IsNewest snap [] = ⊥
IsNewest snap (s ∷ h) = snap ≡ s

OneOf-newest : (snap : Snapshot) (h : List Snapshot) → IsNewest snap h → OneOf snap h
OneOf-newest snap (s ∷ h) newest = inl newest
OneOf-newest snap [] newest = absurd newest

-- What is not passed on yet is the newest detection.
abbrev pub IsHeld : Option Snapshot → List Snapshot → Type 0
IsHeld none h = Unit
IsHeld (some snap) h = IsNewest snap h

offer-Holding :
    (snap : Snapshot) (h : List Snapshot) (chs : List (Option Snapshot))
    → OneOf snap h
    → All (Holding h) chs
    → All (Holding h) (map (offer snap) chs)
offer-Holding snap h [] there a = tt
offer-Holding snap h (none ∷ chs) there a = (there, offer-Holding snap h chs there a.1)
offer-Holding snap h (some old ∷ chs) there a = (a.0, offer-Holding snap h chs there a.1)

later-Holding :
    (snap : Snapshot) (h : List Snapshot) (ch : Option Snapshot)
    → Holding h ch
    → Holding (snap ∷ h) ch
later-Holding snap h none a = tt
later-Holding snap h (some old) a = inr a

take_at-Holding :
    (h : List Snapshot) (i : ℕ) (chs : List (Option Snapshot))
    → All (Holding h) chs
    → All (Holding h) (take_at i chs)
take_at-Holding h i [] a = tt
take_at-Holding h zero (ch ∷ chs) a = (tt, a.1)
take_at-Holding h (suc i) (ch ∷ chs) a = (a.0, take_at-Holding h i chs a.1)

first-add_to : (snap : Snapshot) (s : List Snapshot) → offer snap (first s) ≡ first (add_to snap s)
first-add_to snap [] = refl
first-add_to snap (x ∷ s) = refl

offer-first :
    (snap : Snapshot) (since : List (List Snapshot))
    → map (offer snap) (map first since) ≡ map first (map (add_to snap) since)
offer-first snap [] = refl
offer-first snap (s ∷ since) = rw (first-add_to snap s, offer-first snap since) refl

join-first :
    (since : List (List Snapshot)) → map first since ++ none ∷ [] ≡ map first (since ++ [] ∷ [])
join-first [] = refl
join-first (s ∷ since) = ap (λ chs. first s ∷ chs) (join-first since)

take_at-first :
    (i : ℕ) (since : List (List Snapshot))
    → take_at i (map first since) ≡ map first (clear_at i since)
take_at-first i [] = refl
take_at-first zero (s ∷ since) = refl
take_at-first (suc i) (s ∷ since) = ap (λ chs. first s ∷ chs) (take_at-first i since)

empty-first :
    (subs : List (Option Snapshot))
    → All (λ ch. ch ≡ none) subs
    → subs ≡ map first (map (λ ch. []) subs)
empty-first [] empty = refl
empty-first (ch ∷ subs) (e, empty) = rw e (ap (λ chs. none ∷ chs) (empty-first subs empty))

-- In every state that a poller gets to from its first detection, with empty channels, by any
-- order of detections, subscriptions, receives and the passing on of a detection, which is a step of
-- its own: `Latest` is the newest detection, and so is what is not passed on yet; and a channel
-- holds the oldest of what has been passed on since it was last empty, which is one of the detections.
pub Reach-Holding :
    (h : List Snapshot) (held : Option Snapshot) (since : List (List Snapshot)) (p : Poller)
    → Reach h held since p
    → IsNewest p.latest h × IsHeld held h × All (Holding h) p.subs × (p.subs ≡ map first since)
unfolding step set_latest publish subscribe receive start
Reach-Holding _ _ _ _ (started snap subs empty) = (
  refl,
  tt,
  All-map _ _ (λ ch e. subst (Holding (snap ∷ [])) (sym e) tt) subs empty,
  empty-first subs empty,
)
Reach-Holding _ _ _ _ (placed snap {h} {since} {p} r) =
    let (newest, held, all, firsts) = Reach-Holding h none since p r in
    (refl, refl, All-map _ _ (later-Holding snap h) p.subs all, firsts)
Reach-Holding _ _ _ _ (passed_on {snap} {h} {since} {p} r) =
    let (newest, held, all, firsts) = Reach-Holding h (some snap) since p r in
    (
      newest,
      tt,
      offer-Holding snap h p.subs (OneOf-newest snap h held) all,
      ap (map (offer snap)) firsts ∙ offer-first snap since,
    )
Reach-Holding _ _ _ _ (joined {h} {held} {since} {p} r) =
    let (newest, held, all, firsts) = Reach-Holding h held since p r in
    (
      newest,
      held,
      All-append _ p.subs (none ∷ []) all (tt, tt),
      ap (λ chs. chs ++ none ∷ []) firsts ∙ join-first since,
    )
Reach-Holding _ _ _ _ (taken i {h} {held} {since} {p} r) =
    let (newest, held, all, firsts) = Reach-Holding h held since p r in
    (newest, held, take_at-Holding h i p.subs all, ap (take_at i) firsts ∙ take_at-first i since)
