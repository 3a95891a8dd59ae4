-- ===== src/Gpu/Poller.antt =====
-- internal/gpu/poller.go: the newest snapshot and the subscribers' channels. A channel holds one
-- snapshot at most; each piece under a mutex is one step.
pub mod Reach
use bonnie.Prelude.{ℕ, zero, suc, ◌≡◌, refl, Option, none, some, List, [], ◌∷◌, ◌++◌, map}
use bonnie.Gpu.Types.{Snapshot}

pub record Poller : Type 0 where
  pub latest : Snapshot
  pub subs : List (Option Snapshot)

-- `Subscribe`: the new channel is empty, and the last of the list.
unfoldable pub subscribe : Poller → Poller
subscribe p = record p { subs = p.subs ++ (none ∷ []) }

unfoldable pub set_latest : Snapshot → Poller → Poller
set_latest snap p = record p { latest = snap }

-- `case ch <- snap: default:`.
abbrev pub offer : Snapshot → Option Snapshot → Option Snapshot
offer snap none = some snap
offer snap (some old) = some old

unfoldable pub publish : Snapshot → Poller → Poller
publish snap p = record p { subs = map (offer snap) p.subs }

-- A subscriber takes what its channel holds.
abbrev pub take_at : ℕ → List (Option Snapshot) → List (Option Snapshot)
take_at i [] = []
take_at zero (ch ∷ chs) = none ∷ chs
take_at (suc i) (ch ∷ chs) = ch ∷ take_at i chs

unfoldable pub receive : ℕ → Poller → Poller
receive i p = record p { subs = take_at i p.subs }

-- What happens to a poller after the first detection of `Start`. A tick of its loop has two locked
-- pieces, under two mutexes: `setLatest` with what it has detected, and `publish`.
pub data Event : Type 0 where
  detected : Snapshot → Event
  published : Snapshot → Event
  subscribed : Event
  received : ℕ → Event

unfoldable pub step : Event → Poller → Poller
unfolding set_latest publish subscribe receive
step (detected snap) p = set_latest snap p
step (published snap) p = publish snap p
step subscribed p = subscribe p
step (received i) p = receive i p

-- `Start` on a poller whose subscribers came before it.
unfoldable pub start : Snapshot → List (Option Snapshot) → Poller
start snap subs = record { latest = snap; subs = subs }
