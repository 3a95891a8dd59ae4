-- ===== src/Storage/Flights/Table.antt =====
-- internal/storage/store.go: what holds of a store with many callers at every moment, and the steps
-- at the table of the flights.
use bonnie.Prelude.{
  ℕ, String, ◌≡◌, ◌≢◌, refl, sym, subst, ◌∙◌, true, false, none, some, arith, inl, inr, Bool-cases,
  ◌==◌, ==_iff, ◌⊎◌, str_eq, eq_iff,
}
use bonnie.Prelude.Maps.{lookup, insert, erase, lookup-insert, lookup-insert_self, lookup-erase}
use bonnie.Prelude.Results.{Result}
use bonnie.Storage.Env.{Entry, FetchRequest, Fetcher, Env}
use bonnie.Storage.Index.{Error}
use bonnie.Storage.Index.Coherent.{Coherent}
use bonnie.Storage.Store.Coherence.{HasClearId}
use bonnie.Storage.Flights.Leaders.{is_leading, IsSound}
use bonnie.Storage.Flights.{
  Phase, joining, leading, landing, finished, waiting, key_at, Flights, set_call,
}

-- What holds of the call that moved and of every other one holds of all.
pub set_call-elim :
    {Disk : Type 0} (P : Phase Disk → Type 0) (i j : ℕ) (p : Phase Disk) (calls : ℕ → Phase Disk)
    → (i ≡ j → P p)
    → (i ≢ j → P (calls j))
    → P (set_call i p calls j)
set_call-elim P i j p calls this that = elim (Bool-cases (i == j)) [
  | inl hit ↦ rw (hit, set_call) (this (ground (arith, ==_iff i j)))
  | inr miss ↦ rw (miss, set_call) (that (ground (arith, ==_iff i j)))
]

module _ {Disk Data : Type 0} (env : Env Disk Data) (requests : ℕ → FetchRequest) where
  -- A call that is waited for leads its flight, or has its result.
  abbrev pub IsAwaited : Phase Disk → Type 0
  IsAwaited p = (is_leading p ≡ true) ⊎ ((r : Result Error Entry) × (p ≡ finished r))

  pub record Inv (s : Flights Disk) : Type 0 where
    pub coherent : Coherent s.world.store
    pub clear : (i : ℕ) → HasClearId env (requests i) s.world.store
    pub sound : (i : ℕ) → IsSound env requests i s.world.store (s.calls i)
    pub led :
        (i : ℕ) → is_leading (s.calls i) ≡ true → lookup (key_at requests i) s.inflight ≡ some i
    pub seated :
        (k : String) (j : ℕ)
        → lookup k s.inflight ≡ some j
        → (is_leading (s.calls j) ≡ true) × (key_at requests j ≡ k)
    pub awaited : (i j : ℕ) → s.calls i ≡ waiting j → IsAwaited (s.calls j)

  -- Two calls that lead have keys of their own.
  pub led-apart :
      (s : Flights Disk)
      → Inv s
      → (i j : ℕ) → i ≢ j
      → is_leading (s.calls i) ≡ true
      → is_leading (s.calls j) ≡ true
      → key_at requests i ≢ key_at requests j
  led-apart s inv i j ne hi hj same = ground (arith, inv.led i hi, inv.led j hj)

  -- The steps at the table: the call of `i` goes on at `p`.
  module _ (s : Flights Disk) (inv : Inv s) (i : ℕ) where
    IsSound-set_call :
        (p : Phase Disk)
        → IsSound env requests i s.world.store p
        → (j : ℕ) → IsSound env requests j s.world.store (set_call i p s.calls j)
    IsSound-set_call p h j =
        set_call-elim (IsSound env requests j s.world.store) i j p s.calls
          (λ same. subst (λ x. IsSound env requests x s.world.store p) same h) (λ ne. inv.sound j)

    -- A caller that waits for another keeps what it waits for.
    IsAwaited-set_call :
        (p : Phase Disk)
        → ((k : ℕ) → p ≡ waiting k → IsAwaited (set_call i p s.calls k))
        → (IsAwaited (s.calls i) → IsAwaited p)
        → (j k : ℕ) → set_call i p s.calls j ≡ waiting k
        → IsAwaited (set_call i p s.calls k)
    IsAwaited-set_call p own kept j k =
        set_call-elim (λ q. q ≡ waiting k → IsAwaited (set_call i p s.calls k)) i j p s.calls
          (λ same. own k)
          (λ ne h.
            set_call-elim IsAwaited i k p s.calls
              (λ same. kept (subst (λ x. IsAwaited (s.calls x)) (sym same) (inv.awaited j k h)))
              (λ ne'. inv.awaited j k h))

    -- A call that leads nothing, before and after, leaves the table as it is.
    led_with :
        (p : Phase Disk)
        → is_leading p ≡ false
        → (j : ℕ) → is_leading (set_call i p s.calls j) ≡ true
        → lookup (key_at requests j) s.inflight ≡ some j
    led_with p follows j =
        set_call-elim (λ q. is_leading q ≡ true → lookup (key_at requests j) s.inflight ≡ some j) i
          j p s.calls (λ same h. absurd cc) (λ ne. inv.led j)

    seated_with :
        (p : Phase Disk)
        → is_leading (s.calls i) ≡ false
        → (k : String) (j : ℕ) → lookup k s.inflight ≡ some j
        → (is_leading (set_call i p s.calls j) ≡ true) × (key_at requests j ≡ k)
    seated_with p follows k j h =
        let (l, key) = inv.seated k j h in
        (
          set_call-elim (λ q. is_leading q ≡ true) i j p s.calls
              (λ same. absurd (ground (arith, l, follows, same))) (λ ne. l),
          key,
        )

    pub leads-Inv :
        (run : Fetcher Disk)
        → s.calls i ≡ joining run
        → lookup (key_at requests i) s.inflight ≡ none
        → Inv (record s {
          inflight = insert (key_at requests i) i s.inflight;
          calls = set_call i (leading run) s.calls;
        })
    leads-Inv run at free = record {
      coherent = inv.coherent;
      clear = inv.clear;
      sound = IsSound-set_call (leading run) tt;
      led = λ j.
          set_call-elim
            (λ q.
              is_leading q ≡ true
              → lookup (key_at requests j) (insert (key_at requests i) i s.inflight) ≡ some j)
            i j (leading run) s.calls
            (λ same h. rw same (lookup-insert_self (key_at requests j) j s.inflight))
            (λ ne h. ground (
              arith,
              inv.led j h,
              eq_iff (key_at requests i) (key_at requests j),
              lookup-insert (key_at requests i) (key_at requests j) i s.inflight,
            ));
      seated = λ k j h. elim (Bool-cases (str_eq (key_at requests i) k)) [
        | inl hit ↦
            let same : i ≡ j = ground (arith, lookup-insert (key_at requests i) k i s.inflight) in
            (
              set_call-elim (λ q. is_leading q ≡ true) i j (leading run) s.calls (λ e. refl)
                  (λ ne. absurd (ne same)),
              ground (arith, same, eq_iff (key_at requests i) k),
            )
        | inr miss ↦
            let (l, key) =
              inv.seated k j
                (sym (lookup-insert (key_at requests i) k i s.inflight ∙ rw miss) ∙ h) in
            (
              set_call-elim (λ q. is_leading q ≡ true) i j (leading run) s.calls (λ e. refl)
                  (λ ne. l),
              key,
            )
      ];
      awaited = IsAwaited-set_call (leading run) (λ k h. absurd cc) (λ h. inl refl);
    }

    pub joins-Inv :
        (j : ℕ) (run : Fetcher Disk)
        → s.calls i ≡ joining run
        → lookup (key_at requests i) s.inflight ≡ some j
        → Inv (record s { calls = set_call i (waiting j) s.calls })
    joins-Inv j run at there = record {
      coherent = inv.coherent;
      clear = inv.clear;
      sound = IsSound-set_call (waiting j) tt;
      led = led_with (waiting j) refl;
      seated = seated_with (waiting j) (rw at refl);
      awaited =
          IsAwaited-set_call (waiting j)
            (λ k h.
              let same : j ≡ k = ground arith in
              inl (
                subst (λ x. is_leading (set_call i (waiting j) s.calls x) ≡ true) same
                  (seated_with (waiting j) (rw at refl) (key_at requests i) j there).0))
            (λ h. elim h [
              | inl l ↦ absurd (ground (arith, l, at))
              | inr (r, e) ↦ absurd (ground (arith, e, at))
            ]);
    }

    pub lands-Inv :
        (r : Result Error Entry)
        → s.calls i ≡ landing r
        → Inv (record s {
          inflight = erase (key_at requests i) s.inflight;
          calls = set_call i (finished r) s.calls;
        })
    lands-Inv r at = record {
      coherent = inv.coherent;
      clear = inv.clear;
      sound = IsSound-set_call (finished r) tt;
      led = λ j.
          set_call-elim
            (λ q.
              is_leading q ≡ true
              → lookup (key_at requests j) (erase (key_at requests i) s.inflight) ≡ some j)
            i j (finished r) s.calls (λ same h. absurd cc)
            (λ ne h. ground (
              arith,
              inv.led j h,
              led-apart s inv i j ne (rw at refl) h,
              eq_iff (key_at requests i) (key_at requests j),
              lookup-erase (key_at requests i) (key_at requests j) s.inflight,
            ));
      seated = λ k j h.
          let miss : str_eq (key_at requests i) k ≡ false =
            ground (arith, lookup-erase (key_at requests i) k s.inflight) in
          let (l, key) =
            inv.seated k j (sym (lookup-erase (key_at requests i) k s.inflight ∙ rw miss) ∙ h) in
          (
            set_call-elim (λ q. is_leading q ≡ true) i j (finished r) s.calls
                (λ same. absurd (ground (arith, same, key, miss, eq_iff (key_at requests i) k)))
                (λ ne. l),
            key,
          );
      awaited = IsAwaited-set_call (finished r) (λ k h. absurd cc) (λ h. inr (r, refl));
    }

    pub receives-Inv :
        (j : ℕ) (r : Result Error Entry)
        → s.calls i ≡ waiting j
        → Inv (record s { calls = set_call i (finished r) s.calls })
    receives-Inv j r at = record {
      coherent = inv.coherent;
      clear = inv.clear;
      sound = IsSound-set_call (finished r) tt;
      led = led_with (finished r) refl;
      seated = seated_with (finished r) (rw at refl);
      awaited = IsAwaited-set_call (finished r) (λ k h. absurd cc) (λ h. inr (r, refl));
    }
