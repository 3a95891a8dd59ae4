-- ===== src/Config/Valid.antt =====
-- What a configuration that `Load` of internal/config/config.go accepts has.
use bonnie.Prelude.{
  ℕ, ◌+◌, ◌^◌, ◌≤◌, ◌<◌, String, ◌≡◌, ap, subst, true, Option, none, some, inl, inr, arith,
  Bool-cases, Option-cases, [], ◌∷◌, ◌==◌,
}
use bonnie.Prelude.Bytes.{Bytes, codes}
use bonnie.Prelude.Int.{ℤ, pos, negsuc, is_positive, pos_part}
use bonnie.Prelude.Results.{Result, ok, err, Result-cases}
use bonnie.Gpu.Text.{atoi, as_pos, as_neg, below, digits}
use bonnie.Config.{Config, Provider, ConfigError, load_from, load}

as_pos-below : (o : Option ℕ) (n : ℤ) → as_pos (below (2 ^ 63) o) ≡ some n → pos_part n < 2 ^ 63
as_pos-below none n h = absurd (ground arith)
as_pos-below (some m) n h = ground arith

as_neg-below : (o : Option ℕ) (n : ℤ) → as_neg (below (2 ^ 63 + 1) o) ≡ some n → pos_part n < 2 ^ 63
as_neg-below none n h = absurd (ground arith)
as_neg-below (some m) n h = ground arith

atoi-Bounded : (s : Bytes) (n : ℤ) → atoi s ≡ some n → pos_part n < 2 ^ 63
unfolding atoi
atoi-Bounded [] n = λ h. absurd (ground arith)
atoi-Bounded (c ∷ s) n = elim (Bool-cases (c == b'-')) [
  | inl e ↦ rw (e, atoi) (as_neg-below (digits s) n)
  | inr e ↦ elim (Bool-cases (c == b'+')) [
    | inl f ↦ rw (e, atoi) (rw (f, atoi) (as_pos-below (digits s) n))
    | inr f ↦ rw (e, atoi) (rw (f, atoi) (as_pos-below (digits (c ∷ s)) n))
  ]
]

positive-Bounded : (n : ℤ) → is_positive n ≡ true → 1 ≤ pos_part n
positive-Bounded (pos n) h = ground arith
positive-Bounded (negsuc n) h = absurd (ground arith)

-- The token is the provider's, and the interval is a positive `int`.
abbrev pub IsValid : Provider → Config → Type 0
IsValid p c =
    (p.get "BONNIE_AUTH_TOKEN" ≡ ok c.auth_token)
    × (1 ≤ pos_part c.poll_interval)
    × (pos_part c.poll_interval < 2 ^ 63)

abbrev or_config : Config → Result ConfigError Config → Config
or_config d (ok c) = c
or_config d (err e) = d

-- A configuration that `Load` accepts has the provider's token and a polling interval that is
-- positive and an `int` of 64 bits.
pub load-IsValid : (p : Provider) (c : Config) → load (some p) ≡ ok c → IsValid p c
unfolding load load_from
load-IsValid p c = elim (Result-cases (p.get "BONNIE_AUTH_TOKEN")) [
  | inr (x, e) ↦ rw (e, load_from) (λ h. absurd (ground arith))
  | inl (token, e) ↦
      let text = codes (p.get_or_default "BONNIE_POLL_INTERVAL" "10") in
      elim (Option-cases (atoi text)) [
        | inl f ↦ rw (e, load_from) (rw (f, load_from) (λ h. absurd (ground arith)))
        | inr (n, f) ↦ elim (Bool-cases (is_positive n)) [
          | inr g ↦
              rw (e, load_from) (rw (f, load_from) (rw (g, load_from) (λ h. absurd (ground arith))))
          | inl g ↦
              let small = atoi-Bounded text n f in
              let large = positive-Bounded n g in
              rw (e, load_from)
                (rw (f, load_from)
                  (rw (g, load_from) (λ h. built (ap (or_config c) h) large small)))
        ]
      ]
]
  where
    built :
        {made : Config}
        → made ≡ c
        → 1 ≤ pos_part made.poll_interval
        → pos_part made.poll_interval < 2 ^ 63
        → (◌≡◌ {A = Result String String} (ok made.auth_token) (ok c.auth_token))
          × (1 ≤ pos_part c.poll_interval)
          × (pos_part c.poll_interval < 2 ^ 63)
    built same large small = (
      ap {B = Result String String} (λ k. ok k.auth_token) same,
      subst (λ k. 1 ≤ pos_part k.poll_interval) same large,
      subst (λ k. pos_part k.poll_interval < 2 ^ 63) same small,
    )
