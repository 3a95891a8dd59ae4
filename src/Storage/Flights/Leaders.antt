-- ===== src/Storage/Flights/Leaders.antt =====
-- internal/storage/store.go: who leads a flight, and what holds of the store while a leader runs the
-- fetcher.
use bonnie.Prelude.{ℕ, String, ◌≡◌, refl, Bool, true, false, Option, none, some}
use bonnie.Prelude.Maps.{lookup}
use bonnie.Prelude.Results.{Result}
use bonnie.Storage.Env.{Entry, FetchRequest, Env}
use bonnie.Storage.Index.{Error, Store}
use bonnie.Storage.Store.{lookup_by_key}
use bonnie.Storage.Flights.Changes.{IsFor, Change, Apart, Change-absent}
use bonnie.Storage.Flights.{
  Phase, starting, joining, leading, making, running, marking, reading, clearing, measuring,
  committing, landing, finished, waiting, ended, key_at,
}

-- Whether a call leads a flight, and whether it is past the second look into the store.
abbrev pub is_leading : {Disk : Type 0} → Phase Disk → Bool
is_leading (marking leads id) = leads
is_leading (reading leads id) = leads
is_leading (leading run) = true
is_leading (making run) = true
is_leading (running run) = true
is_leading clearing = true
is_leading (measuring files) = true
is_leading (committing e) = true
is_leading (landing r) = true
is_leading starting = false
is_leading (joining run) = false
is_leading (finished r) = false
is_leading (waiting i) = false

pub lookup_by_key-none :
    (k : String) (s : Store) → lookup k s.by_key ≡ none → lookup_by_key k s ≡ none
unfolding lookup_by_key
lookup_by_key-none k s h = rw (h, lookup_by_key) refl

module _ {Disk Data : Type 0} (env : Env Disk Data) (requests : ℕ → FetchRequest) where
  open env use {os}

  -- What the store is like before a step of a call: no entry has the key of a call that fetches,
  -- and what it commits is of its model.
  abbrev pub IsSound : ℕ → Store → Phase Disk → Type 0
  IsSound i s (making run) = lookup (key_at requests i) s.by_key ≡ none
  IsSound i s (running run) = lookup (key_at requests i) s.by_key ≡ none
  IsSound i s (measuring files) = lookup (key_at requests i) s.by_key ≡ none
  IsSound i s clearing = lookup (key_at requests i) s.by_key ≡ none
  IsSound i s (committing e) = IsFor env requests i e × (lookup (key_at requests i) s.by_key ≡ none)
  IsSound i s starting = Unit
  IsSound i s (joining run) = Unit
  IsSound i s (leading run) = Unit
  IsSound i s (marking leads id) = Unit
  IsSound i s (reading leads id) = Unit
  IsSound i s (landing r) = Unit
  IsSound i s (finished r) = Unit
  IsSound i s (waiting j) = Unit

  -- Only the step of a commit adds an entry.
  abbrev pub author : ℕ → Phase Disk → Option ℕ
  author i (committing e) = some i
  author i p = none

  pub Change-IsSound :
      {who : Option ℕ} {s t : Store}
      → Change env requests who s t
      → (j : ℕ) (p : Phase Disk) → Apart env requests who j
      → IsSound j s p
      → IsSound j t p
  Change-IsSound ch j (making run) apart h = Change-absent env requests ch j apart h
  Change-IsSound ch j (running run) apart h = Change-absent env requests ch j apart h
  Change-IsSound ch j (measuring files) apart h = Change-absent env requests ch j apart h
  Change-IsSound ch j clearing apart h = Change-absent env requests ch j apart h
  Change-IsSound ch j (committing e) apart h = (h.0, Change-absent env requests ch j apart h.1)
  Change-IsSound ch j starting apart h = tt
  Change-IsSound ch j (joining run) apart h = tt
  Change-IsSound ch j (leading run) apart h = tt
  Change-IsSound ch j (marking leads id) apart h = tt
  Change-IsSound ch j (reading leads id) apart h = tt
  Change-IsSound ch j (landing r) apart h = tt
  Change-IsSound ch j (finished r) apart h = tt
  Change-IsSound ch j (waiting i) apart h = tt

  -- A call that leads no flight asks nothing of the store.
  pub IsSound-follower : (j : ℕ) (s : Store) (p : Phase Disk) → is_leading p ≡ false → IsSound j s p
  IsSound-follower j s (marking leads id) h = tt
  IsSound-follower j s (reading leads id) h = tt
  IsSound-follower j s starting h = tt
  IsSound-follower j s (joining run) h = tt
  IsSound-follower j s (finished r) h = tt
  IsSound-follower j s (waiting i) h = tt
  IsSound-follower j s (leading run) h = tt
  IsSound-follower j s (making run) h = cc
  IsSound-follower j s (running run) h = cc
  IsSound-follower j s clearing h = cc
  IsSound-follower j s (measuring files) h = cc
  IsSound-follower j s (committing e) h = cc
  IsSound-follower j s (landing r) h = tt

  pub IsSound-ended :
      (i : ℕ) (s : Store) (leads : Bool) (r : Result Error Entry) → IsSound i s (ended leads r)
  IsSound-ended i s true r = tt
  IsSound-ended i s false r = tt
