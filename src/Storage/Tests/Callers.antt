-- ===== src/Storage/Tests/Callers.antt =====
-- internal/storage/store.go: callers that fetch the same model at once, and a deletion in between.
use bonnie.Prelude.{
  ℕ, ◌≡◌, ◌≢◌, refl, Bool-cases, false, sym, ◌∙◌, some, [], ◌∷◌, arith, ◌==◌, if◌then◌else◌, inl,
  inr,
}
use bonnie.Prelude.Maps.{lookup, insert, erase}
use bonnie.Prelude.Results.{ok}
use bonnie.Storage.Env.{Entry, FetchRequest, Fetcher}
use bonnie.Storage.Paths.{under_root, first_component}
use bonnie.Storage.Index.{empty_store, entry_id, save_index}
use bonnie.Storage.Index.Coherent.{Coherent}
use bonnie.Storage.Store.Maps.{IsNew}
use bonnie.Storage.Store.Coherence.{HasClearId}
use bonnie.Storage.Store.{World, sort_strings, fetch, delete, mark_used, zero_entry}
use bonnie.Storage.Flights.{
  leading, reading, committing, finished, waiting, key_at, proceed, Flights, quiet, set_call, moves,
  leads, joins, Reach, stay, later, move,
}
use bonnie.Storage.Flights.Changes.{ClearIds, IsFor, id_at}
use bonnie.Storage.Flights.Invariant.{Reach-Coherent, Reach-single, Reach-commit-IsNew}
use bonnie.Storage.Tests.Files.{Disk, data_len, rename_file, env}
use bonnie.Storage.Tests.Files as Files

-- Flights: every function of the component runs under this line.
flights : Unit {0}
unfolding proceed fetch delete mark_used save_index lookup insert erase data_len Files.reading
    rename_file entry_id sort_strings under_root first_component
flights = tt

abbrev start : World Disk
start = record { store = empty_store "/models"; disk = [] }

abbrev request : FetchRequest
request = record {
  source = "nfs";
  model_id = "llama";
  dest = "";
  patterns = [];
  mount_source = "/mnt";
  subpath = "";
}

-- All callers want one model, but for the third.
abbrev requests : ℕ → FetchRequest
requests i = if i == 2 then record request { model_id = "qwen" } else request

abbrev run : Fetcher Disk
run req dest d = (d, some [])

abbrev begun : Flights Disk
begun = move env requests 1 7 (move env requests 0 7 (quiet start))

begun-Reach : Reach env requests (quiet start) begun
begun-Reach = later (later stay (moves 0 7)) (moves 1 7)

-- The first caller leads, the second waits.
abbrev led : Flights Disk
led = record begun {
  inflight = insert (key_at requests 0) 0 begun.inflight;
  calls = set_call 0 (leading run) begun.calls;
}

abbrev followed : Flights Disk
followed = record led { calls = set_call 1 (waiting 0) led.calls }

followed-Reach : Reach env requests (quiet start) followed
unfolding flights
followed-Reach = later (later begun-Reach (leads 0 run refl refl)) (joins 1 0 run refl refl)

-- Four steps on, the leader is about to commit.
abbrev measured : Flights Disk
measured =
    move env requests 0 7
      (move env requests 0 7 (move env requests 0 7 (move env requests 0 7 followed)))

measured-Reach : Reach env requests (quiet start) measured
measured-Reach =
    later (later (later (later followed-Reach (moves 0 7)) (moves 0 7)) (moves 0 7)) (moves 0 7)

abbrev staged : Entry
staged = record {
  id = "nfs:llama";
  source = "nfs";
  model_id = "llama";
  path = "/models/nfs:llama";
  size_bytes = 8;
  files = "a.txt" ∷ "b.bin" ∷ [];
  fetched_at = 7;
  last_used_at = 7;
}

measured_committing : measured.calls 0 ≡ committing staged
unfolding flights
measured_committing = refl

-- A deletion between `markUsed` and the second look gives a caller the zero entry, and no error.
abbrev marked : Flights Disk
marked = record {
  world = record {
    store = record {
      dir = "/models";
      entries = ("nfs:llama", staged) ∷ [];
      by_key = ("nfs:llama", "nfs:llama") ∷ [];
    };
    disk = [];
  };
  inflight = [];
  calls = set_call 0 (reading false "nfs:llama") (λ i. finished (ok staged));
}

deleted_read :
    (move env requests 0 9
        (record marked { world = (delete env "nfs:llama" marked.world).0 })).calls
      0
    ≡ finished (ok zero_entry)
unfolding flights
deleted_read = refl

-- The digest of the test leaves keys of this length as they are.
id_at-key_at : (i : ℕ) → id_at env requests i ≡ key_at requests i
unfolding flights
id_at-key_at i = elim (Bool-cases (i == 2)) [ inl a ↦ rw a refl | inr a ↦ rw a refl ]

requests-ClearIds : ClearIds env requests
requests-ClearIds i j h = sym (id_at-key_at i) ∙ h ∙ id_at-key_at j

start-Coherent : Coherent start.store
unfolding lookup
start-Coherent = record {
  distinct = tt;
  indexed = λ id e h. absurd (ground arith);
  backed = λ k id h. absurd (ground arith);
}

start-HasClearId : (i : ℕ) → HasClearId env (requests i) start.store
unfolding lookup
start-HasClearId i e h = absurd (ground arith)

Reach-Coherent_example : Coherent measured.world.store
Reach-Coherent_example =
    Reach-Coherent env requests start requests-ClearIds start-Coherent start-HasClearId
      measured-Reach

-- The third caller leads a flight of its own.
abbrev third : Flights Disk
third = move env requests 2 7 measured

abbrev both : Flights Disk
both = record third {
  inflight = insert (key_at requests 2) 2 third.inflight;
  calls = set_call 2 (leading run) third.calls;
}

both-Reach : Reach env requests (quiet start) both
unfolding flights
both-Reach = later (later measured-Reach (moves 2 7)) (leads 2 run refl refl)

Reach-single_example : key_at requests 0 ≢ key_at requests 2
Reach-single_example =
    Reach-single env requests start requests-ClearIds start-Coherent start-HasClearId both-Reach 0 2
      (omega arith) (unfold flights in refl) (unfold flights in refl)

Reach-commit-IsNew_example : IsFor env requests 0 staged × IsNew staged measured.world.store
Reach-commit-IsNew_example =
    Reach-commit-IsNew env requests start requests-ClearIds start-Coherent start-HasClearId
      measured-Reach 0 staged measured_committing
