-- ===== src/Gpu/Sound.antt =====
-- What holds of the values that the parsers of internal/gpu answer with.
use bonnie.Prelude.{◌^◌, ◌≤◌, ◌<◌, ◌≡◌, refl, Option, none, some, List, [], ◌∷◌, All, length, arith}
use bonnie.Prelude.Bytes.{Bytes}
use bonnie.Prelude.Results.{Result, ok, err, ◌>>=◌}
use bonnie.Gpu.Text.{parse_uint, parse_uint-Bounded}
use bonnie.Gpu.Types.{Vendor, Info, GpuError, or_invalid, at_least_one, IsInfo}

-- A result whose value, if there is one, satisfies a predicate.
abbrev pub Holds {ℓ κ} : {E : Type 0} {A : Type ℓ} → (A → Type κ) → Result E A → Type κ
Holds P (ok a) = P a
Holds P (err e) = Unit

pub >>=-Holds {ℓ κ η μ} :
    {E : Type 0} {A : Type ℓ} {B : Type η} (P : A → Type κ) (Q : B → Type μ) (m : Result E A)
    (f : A → Result E B)
    → Holds P m
    → ((a : A) → P a → Holds Q (f a))
    → Holds Q (m >>= f)
>>=-Holds P Q (ok a) f h k = k a h
>>=-Holds P Q (err e) f h k = tt

pub any-Holds {ℓ} : {E : Type 0} {A : Type ℓ} (m : Result E A) → Holds (λ _. Unit {0}) m
any-Holds (ok a) = tt
any-Holds (err e) = tt

or_invalid-Holds {ℓ κ} :
    {A : Type ℓ} (P : A → Type κ) (e : GpuError) (o : Option A)
    → ((a : A) → o ≡ some a → P a)
    → Holds P (or_invalid e o)
or_invalid-Holds P e none h = tt
or_invalid-Holds P e (some a) h = h a refl

pub or_invalid-Bounded :
    (e : GpuError) (s : Bytes) → Holds (λ n. n < 2 ^ 64) (or_invalid e (parse_uint s))
or_invalid-Bounded e s = or_invalid-Holds _ e (parse_uint s) (parse_uint-Bounded s)

-- What a parser that answers has found: one GPU at least, each of its vendor and in range.
abbrev pub Found : Vendor → List Info → Type 0
Found v gpus = All (IsInfo v) gpus × (1 ≤ length gpus)

pub at_least_one-Holds {κ} :
    (P : List Info → Type κ) (gpus : List Info)
    → P gpus
    → Holds (λ gs. P gs × (1 ≤ length gs)) (at_least_one gpus)
at_least_one-Holds P [] h = tt
at_least_one-Holds P (g ∷ gpus) h = (h, omega arith)
