-- ===== src/Container/PairedRun/View.antt =====
-- What of a run of internal/container/paired_run.go a clean-up has to know: which containers,
-- networks and volumes were made and not yet removed, and the IDs that the run remembers.
use bonnie.Prelude.{
  String, ◌≡◌, refl, sym, Option, none, some, List, [], ◌∷◌, if◌then◌else◌, str_eq, ◌⊎◌, All, subst,
}
use bonnie.Prelude.Results.{Result, ok, err}
use bonnie.Container.Docker.{
  Trace, network_requested, volume_requested, network_removed, volume_removed, container_created,
  container_removed, offered, Client,
}
use bonnie.Container.Spec.{PairedRunEvent}
use bonnie.Container.Monad.{Failure, RunState, M, ◌>>=◌, emit, or_give_up}
use bonnie.Container.PairedRun.{or_fail_with, checked_call, checked_value}

abbrev pub without : String → List String → List String
without x [] = []
without x (y ∷ ys) = let rest = without x ys in if str_eq x y then rest else y ∷ rest

-- Containers with a granted creation and no later call to remove them.
abbrev pub containers : Trace → List String
containers [] = []
containers (container_created c name id ∷ t) = id ∷ containers t
containers (container_removed id ∷ t) = without id (containers t)
containers (_ ∷ t) = containers t

abbrev pub networks : Trace → List String
networks [] = []
networks (network_requested name ∷ t) = name ∷ networks t
networks (network_removed name ∷ t) = without name (networks t)
networks (_ ∷ t) = networks t

abbrev pub volumes : Trace → List String
volumes [] = []
volumes (volume_requested name ∷ t) = name ∷ volumes t
volumes (volume_removed name ∷ t) = without name (volumes t)
volumes (_ ∷ t) = volumes t

-- The type of the newest event, empty where there is none.
abbrev pub last_type : Trace → String
last_type [] = ""
last_type (offered waits ev ∷ t) = ev.type
last_type (_ ∷ t) = last_type t

pub record View : Type 0 where
  pub engine : String
  pub bench : String
  pub held : List String
  pub nets : List String
  pub vols : List String

abbrev pub view : RunState → View
view s = record {
  engine = s.engine_id;
  bench = s.bench_id;
  held = containers s.trace;
  nets = networks s.trace;
  vols = volumes s.trace;
}

-- Every resource that is left is one that the clean-up removes.
abbrev pub IsCovered : String → String → View → Type 0
IsCovered network volume v =
    All (λ id. (id ≡ v.engine) ⊎ (id ≡ v.bench)) v.held
    × All (λ n. n ≡ network) v.nets
    × All (λ n. n ≡ volume) v.vols

-- How a run that fails leaves its state: nothing is lost, and the newest event is an error.
abbrev pub HasFailed : String → String → RunState → Type 0
HasFailed network volume s = IsCovered network volume (view s) × (last_type s.trace ≡ "error")

abbrev pub At : View → RunState → Type 0
At v s = view s ≡ v

-- The two ends of an action: a value, with what then holds, or a failure.
pub data Ends (network volume : String) {A : Type 0} (after : A → RunState → Type 0)
    : RunState × Result Failure A → Type 0 where
  done : {s : RunState} {a : A} → after a s → Ends network volume after (s, ok a)
  failed :
      {s : RunState} {x : Failure}
      → HasFailed network volume s
      → Ends network volume after (s, err x)

-- Started where `before` holds, an action ends so.
abbrev pub Takes :
    String → String → (RunState → Type 0) → {A : Type 0} → M A → (A → RunState → Type 0) → Type 0
Takes network volume before m after = (s : RunState) → before s → Ends network volume after (m s)

-- What a call that answers with a value leaves.
abbrev pub Yields :
    {A : Type 0} → String → String → (A → View) → RunState × Result String A → Type 0
Yields network volume after (s, ok a) = At (after a) s
Yields network volume after (s, err e) = IsCovered network volume (view s)

module _ (client : Client) (network volume : String) where
  pub emit-Takes :
      (ev : PairedRunEvent) (v : View) → Takes network volume (At v) (emit client ev) (λ _. At v)
  unfolding emit
  emit-Takes ev v s h = done h

  or_give_up-Ends :
      (phase : String) (x : String → Failure) (e : Option String) (v : View) (s : RunState)
      → IsCovered network volume (view s)
      → At v s
      → Ends network volume (λ _. At v) (or_give_up client phase x e s)
  unfolding or_give_up
  or_give_up-Ends phase x none v s c h = done h
  or_give_up-Ends phase x (some e) v s c h = failed (c, refl)

  or_fail_with-Ends :
      {A : Type 0} (phase : String) (x : String → Failure) (after : A → View)
      (r : RunState × Result String A)
      → Yields network volume after r
      → Ends network volume (λ a. At (after a)) (or_fail_with client phase x r.1 r.0)
  unfolding or_fail_with
  or_fail_with-Ends phase x after (s, ok a) y = done y
  or_fail_with-Ends phase x after (s, err e) y = failed (y, refl)

  pub checked_call-Takes :
      (phase : String) (x : String → Failure) (act : RunState → RunState × Option String)
      (v w : View)
      → IsCovered network volume w
      → ((s : RunState) → At v s → At w (act s).0)
      → Takes network volume (At v) (checked_call client phase x act) (λ _. At w)
  unfolding checked_call
  checked_call-Takes phase x act v w c step s h =
      or_give_up-Ends phase x (act s).1 w (act s).0
        (subst (IsCovered network volume) (sym (step s h)) c) (step s h)

  pub checked_value-Takes :
      {A : Type 0} (phase : String) (x : String → Failure)
      (act : RunState → RunState × Result String A) (v : View) (after : A → View)
      → ((s : RunState) → At v s → Yields network volume after (act s))
      → Takes network volume (At v) (checked_value client phase x act) (λ a. At (after a))
  unfolding checked_value
  checked_value-Takes phase x act v after step s h =
      or_fail_with-Ends phase x after (act s) (step s h)

module _ (network volume : String) {A B : Type 0} where
  >>=-Ends :
      (r : RunState × Result Failure A) (f : A → M B) (between : A → RunState → Type 0)
      (after : B → RunState → Type 0)
      → Ends network volume between r
      → ((a : A) → Takes network volume (between a) (f a) after)
      → Ends network volume after (((λ _. r) >>= f) r.0)
  unfolding ◌>>=◌
  >>=-Ends r f between after (done {s} {a} h) k = k a s h
  >>=-Ends r f between after (failed h) k = failed h

  pub >>=-Takes :
      {before : RunState → Type 0} {between : A → RunState → Type 0} {after : B → RunState → Type 0}
      {m : M A} {f : A → M B}
      → Takes network volume before m between
      → ((a : A) → Takes network volume (between a) (f a) after)
      → Takes network volume before (m >>= f) after
  unfolding ◌>>=◌
  >>=-Takes {between = between} {after = after} {m = m} {f = f} hm hf s h =
      >>=-Ends (m s) f between after (hm s h) hf
