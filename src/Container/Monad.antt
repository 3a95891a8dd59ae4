-- ===== src/Container/Monad.antt =====
-- The state of a run in internal/container/paired_run.go, `runState`, and its `emit` and
-- `emitError`. An action takes the state and gives the next one with a value or a failure.
use bonnie.Prelude.{String, ◌||◌, Option, none, some, [], ◌∷◌, if◌then◌else◌, str_eq, ◌==◌}
use bonnie.Prelude.Results.{Result, ok, err}
use bonnie.Container.Spec.{PairedRunEvent}
use bonnie.Container.Docker.{Step, Trace, offered, Client}

-- What `PairedRun` returns where it fails; `cause` is the text of the wrapped error.
pub data Failure : Type 0 where
  run_id_required run_id_invalid engine_image_required benchmark_image_required : Failure
  benchmark_kind_invalid : Failure
  create_network create_volume create_engine start_engine engine_health : String → Failure
  create_benchmark copy_config start_benchmark wait_benchmark read_results : String → Failure
  benchmark_failed : String → Failure

pub record RunState : Type 0 where
  pub trace : Trace
  pub engine_id : String
  pub bench_id : String

abbrev pub M : Type 0 → Type 0
M A = RunState → RunState × Result Failure A

-- A failure ends the run.
infixl 5 ◌>>=◌ ◌>>◌
unfoldable pub ◌>>=◌ : {A B : Type 0} → M A → (A → M B) → M B
◌>>=◌ m f s = let (s', r) = m s in elim r [ ok a ↦ f a s' | err x ↦ (s', err x) ]

abbrev pub ◌>>◌ : {B : Type 0} → M (Unit {0}) → M B → M B
m >> k = m >>= λ _. k

abbrev pub pure : {A : Type 0} → A → M A
pure a s = (s, ok a)

abbrev pub fail : {A : Type 0} → Failure → M A
fail x s = (s, err x)

abbrev pub record_step : Step → RunState → RunState
record_step step s = record s { trace = step ∷ s.trace }

-- `emit`: the event gets a time stamp if it has none. The outcome of a run waits for room in the
-- channel, up to ten seconds; any other event is dropped where there is none.
unfoldable pub emit : Client → PairedRunEvent → M (Unit {0})
emit client ev s =
    let stamp = if ev.timestamp == 0 then client.now s.trace else ev.timestamp in
    let waits = str_eq ev.type "result" || str_eq ev.type "error" in
    (record_step (offered waits (record ev { timestamp = stamp })) s, ok tt)

abbrev pub blank_event : PairedRunEvent
blank_event = record {
  type = "";
  phase = "";
  source = "";
  line = "";
  timestamp = 0;
  results = [];
  duration_ms = 0;
  error = "";
}

abbrev pub status : String → PairedRunEvent
status phase = record blank_event { type = "status"; phase = phase; source = "orchestrator" }

unfoldable pub emit_error : Client → String → String → M (Unit {0})
unfolding emit
emit_error client phase error =
    emit client
      (record blank_event { type = "error"; phase = phase; source = "orchestrator"; error = error })

-- `if err != nil { state.emitError(phase, err); return … }`.
unfoldable pub or_give_up : Client → String → (String → Failure) → Option String → M (Unit {0})
unfolding emit_error
or_give_up client phase x none s = (s, ok tt)
or_give_up client phase x (some error) s = ((emit_error client phase error s).0, err (x error))
