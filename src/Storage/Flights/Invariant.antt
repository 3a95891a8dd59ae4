-- ===== src/Storage/Flights/Invariant.antt =====
-- internal/storage/store.go: every step of every caller keeps the store and the table of the flights
-- in order.
use bonnie.Prelude.{ℕ, ◌≡◌, ◌≢◌, refl, sym, subst, ◌∙◌, true, none, inl, inr, Bool-cases}
use bonnie.Prelude.Maps.{lookup}
use bonnie.Storage.Env.{Entry, FetchRequest, Env}
use bonnie.Storage.Index.Coherent.{Coherent}
use bonnie.Storage.Store.Coherence.{HasClearId, new_entry-IsNew}
use bonnie.Storage.Store.Maps.{IsNew}
use bonnie.Storage.Store.{World, mark_used, delete}
use bonnie.Storage.Flights.Changes.{
  ClearIds, IsFor, Change, Apart, Change-Coherent, Change-HasClearId, mark_used-Change,
  delete_change,
}
use bonnie.Storage.Flights.Leaders.{
  is_leading, IsSound, IsSound-follower, lookup_by_key-none, Change-IsSound, author,
}
use bonnie.Storage.Flights.Moves.{
  Moved, proceed-Moved, Moved-is_leading, Moved-Change, Moved-IsSound, Moved-finished,
  Moved-waiting,
}
use bonnie.Storage.Flights.{
  Phase, starting, joining, leading, making, running, marking, reading, clearing, measuring,
  committing, landing, finished, waiting, key_at, proceed, Flights, quiet, set_call, Step, moves,
  leads, joins, lands, receives, deletes, marks, Reach, stay, later,
}
use bonnie.Storage.Flights.Table.{
  set_call-elim, IsAwaited, Inv, led-apart, leads-Inv, joins-Inv, lands-Inv, receives-Inv,
}

module _ {Disk Data : Type 0} (env : Env Disk Data) (requests : ℕ → FetchRequest) where
  author-Apart :
      (i j : ℕ) (p : Phase Disk)
      → (is_leading p ≡ true → key_at requests i ≢ key_at requests j)
      → Apart env requests (author env requests i p) j
  author-Apart i j (committing e) apart = apart refl
  author-Apart i j starting apart = tt
  author-Apart i j (joining run) apart = tt
  author-Apart i j (leading run) apart = tt
  author-Apart i j (making run) apart = tt
  author-Apart i j (running run) apart = tt
  author-Apart i j clearing apart = tt
  author-Apart i j (measuring files) apart = tt
  author-Apart i j (marking l id) apart = tt
  author-Apart i j (reading l id) apart = tt
  author-Apart i j (landing r) apart = tt
  author-Apart i j (finished r) apart = tt
  author-Apart i j (waiting k) apart = tt

  moved-Inv :
      ClearIds env requests
      → (s : Flights Disk) (i now : ℕ) (w : World Disk) (p : Phase Disk)
      → Moved env requests i now s.world (s.calls i) w p
      → Inv env requests s
      → Inv env requests (record s { world = w; calls = set_call i p s.calls })
  moved-Inv ids s i now w p m inv = record {
    coherent = Change-Coherent env requests change inv.coherent;
    clear = λ j. Change-HasClearId env requests ids change j (inv.clear j);
    sound = λ j.
        set_call-elim (IsSound env requests j w.store) i j p s.calls
          (λ same.
            subst (λ x. IsSound env requests x w.store p) same
              (Moved-IsSound env requests m inv.coherent (inv.sound i)))
          (λ ne. elim (Bool-cases (is_leading (s.calls j))) [
            | inr follows ↦ IsSound-follower env requests j w.store (s.calls j) follows
            | inl leads_too ↦
                Change-IsSound env requests change j (s.calls j)
                  (author-Apart i j (s.calls i)
                    (λ lead. led-apart env requests s inv i j ne lead leads_too))
                  (inv.sound j)
          ]);
    led = λ j h. inv.led j (sym (leading_now j) ∙ h);
    seated = λ k j h. let (l, same) = inv.seated k j h in (leading_now j ∙ l, same);
    awaited = λ j k h. awaited_now k (
        inv.awaited j k (
          set_call-elim (λ q. q ≡ waiting k → s.calls j ≡ waiting k) i j p s.calls
            (λ same e. rw (sym same) (Moved-waiting env requests k m e)) (λ ne e. e) h));
  }
    where
      change : Change env requests (author env requests i (s.calls i)) s.world.store w.store
      change = Moved-Change env requests m inv.coherent (inv.clear i) (inv.sound i)

      leading_now : (j : ℕ) → is_leading (set_call i p s.calls j) ≡ is_leading (s.calls j)
      leading_now j =
          set_call-elim (λ q. is_leading q ≡ is_leading (s.calls j)) i j p s.calls
            (λ same. Moved-is_leading env requests m ∙ rw same refl) (λ ne. refl)

      awaited_now :
          (k : ℕ)
          → IsAwaited env requests (s.calls k)
          → IsAwaited env requests (set_call i p s.calls k)
      awaited_now k (inl l) = inl (leading_now k ∙ l)
      awaited_now k (inr (r, e)) = inr (
        r,
        set_call-elim (λ q. q ≡ finished r) i k p s.calls
            (λ same. Moved-finished env requests r m (rw same e)) (λ ne. e),
      )

  -- `Delete` and `MarkUsed` change the maps and no call.
  changes-Inv :
      (s : Flights Disk)
      → Inv env requests s
      → ClearIds env requests
      → (w : World Disk) → Change env requests none s.world.store w.store
      → Inv env requests (record s { world = w })
  changes-Inv s inv ids w change = record {
    coherent = Change-Coherent env requests change inv.coherent;
    clear = λ j. Change-HasClearId env requests ids change j (inv.clear j);
    sound = λ j. Change-IsSound env requests change j (s.calls j) tt (inv.sound j);
    led = inv.led;
    seated = inv.seated;
    awaited = inv.awaited;
  }

  pub Step-Inv :
      ClearIds env requests
      → {s t : Flights Disk} → Step env requests s t
      → Inv env requests s
      → Inv env requests t
  Step-Inv ids {s} (moves i now) inv =
      let r = proceed env (requests i) now (s.calls i) s.world in
      moved-Inv ids s i now r.0 r.1 (proceed-Moved env requests i now (s.calls i) s.world) inv
  Step-Inv ids {s} (leads i run at free) inv = leads-Inv env requests s inv i run at free
  Step-Inv ids {s} (joins i j run at there) inv = joins-Inv env requests s inv i j run at there
  Step-Inv ids {s} (lands i r at) inv = lands-Inv env requests s inv i r at
  Step-Inv ids {s} (receives i j r at there) inv = receives-Inv env requests s inv i j r at
  Step-Inv ids {s} (deletes id) inv =
      changes-Inv s inv ids (delete env id s.world).0
        (delete_change env requests id s.world inv.coherent)
  Step-Inv ids {s} (marks id now) inv =
      changes-Inv s inv ids (mark_used env id now s.world).0
        (mark_used-Change env requests id now s.world inv.coherent)

  module _ (w : World Disk) (ids : ClearIds env requests) (coherent : Coherent w.store)
      (clear : (i : ℕ) → HasClearId env (requests i) w.store) where
    pub Reach-Inv : {s : Flights Disk} → Reach env requests (quiet w) s → Inv env requests s
    unfolding lookup
    Reach-Inv stay = record {
      coherent = coherent;
      clear = clear;
      sound = λ i. tt;
      led = λ i h. absurd cc;
      seated = λ k j h. absurd cc;
      awaited = λ i j h. absurd cc;
    }
    Reach-Inv (later path step) = Step-Inv ids step (Reach-Inv path)

    -- From coherent maps, and if the short digests of the requests tell their models from one another
    -- and from the stored ones: in every state that callers of `Fetch`, `Delete` and `MarkUsed` reach,
    -- in whatever order their steps come, the two maps are coherent.
    pub Reach-Coherent :
        {s : Flights Disk} → Reach env requests (quiet w) s → Coherent s.world.store
    Reach-Coherent path = (Reach-Inv path).coherent

    -- From coherent maps, and if the short digests of the requests tell their models from one another
    -- and from the stored ones: in every reachable state, two calls that lead a flight, as a call does
    -- from the start of its flight until it lands, are for different models. So one model is
    -- never fetched twice at a time.
    pub Reach-single :
        {s : Flights Disk}
        → Reach env requests (quiet w) s
        → (i j : ℕ) → i ≢ j
        → is_leading (s.calls i) ≡ true
        → is_leading (s.calls j) ≡ true
        → key_at requests i ≢ key_at requests j
    Reach-single {s} path i j ne hi hj = led-apart env requests s (Reach-Inv path) i j ne hi hj

    -- From coherent maps, and if the short digests of the requests tell their models from one another
    -- and from the stored ones: in every reachable state, the entry that a call is about to commit is
    -- of the model that it was asked for, and neither its ID nor its key is in the store, so that
    -- a commit never replaces an entry.
    pub Reach-commit-IsNew :
        {s : Flights Disk}
        → Reach env requests (quiet w) s
        → (i : ℕ) (e : Entry) → s.calls i ≡ committing e
        → IsFor env requests i e × IsNew e s.world.store
    Reach-commit-IsNew {s} path i e at =
        let inv = Reach-Inv path in
        let (mine, absent) : IsSound env requests i s.world.store (committing e) =
          subst (λ p. IsSound env requests i s.world.store p) at (inv.sound i) in
        (
          mine,
          rw (mine.0, mine.1)
              (new_entry-IsNew env (requests i) s.world.store inv.coherent (inv.clear i)
                (lookup_by_key-none (key_at requests i) s.world.store absent)),
        )
