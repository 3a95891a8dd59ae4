-- ===== src/Container/Artifacts/Archive.antt =====
-- What `readResults` of internal/container/paired_run.go accepts.
use bonnie.Prelude.{
  ℕ, zero, suc, ◌≤◌, String, ◌≡◌, ◌↔◌, refl, sym, ap, subst, Bool, true, false, not, List, [], ◌∷◌,
  inl, inr, arith, ltb, length, take, Bool-cases, if◌then◌else◌,
}
use bonnie.Prelude.Bytes.{Bytes}
use bonnie.Prelude.Results.{Result, ok, err}
use bonnie.Container.Docker.{TarItem, bad_header, irregular, regular}
use bonnie.Container.Artifacts.{max_results_size, check_results, read_archive}

-- The first entry that is a regular file, with only other entries before it, has this content.
abbrev pub IsFirst : Bytes → List TarItem → Type 0
IsFirst body [] = ⊥
IsFirst body (bad_header e ∷ items) = ⊥
IsFirst body (irregular ∷ items) = IsFirst body items
IsFirst body (regular (err e) ∷ items) = ⊥
IsFirst body (regular (ok content) ∷ items) = content ≡ body

take-short : {A : Type 0} (n : ℕ) (xs : List A) → length xs ≤ n → take (suc n) xs ≡ xs
take-short n [] h = refl
take-short zero (x ∷ xs) h = absurd (omega arith)
take-short (suc n) (x ∷ xs) h = ap (λ ys. x ∷ ys) (take-short n xs (omega arith))

length-take_long :
    {A : Type 0} (n : ℕ) (xs : List A) → suc n ≤ length xs → length (take (suc n) xs) ≡ suc n
length-take_long n [] h = absurd (omega arith)
length-take_long zero (x ∷ xs) h = refl
length-take_long (suc n) (x ∷ xs) h = omega (arith, length-take_long n xs (omega arith))

module _ (json_valid : Bytes → Bool) where
  valid_iff :
      (limit : ℕ) (content body : Bytes)
      → length content ≤ limit
      → (if◌then◌else◌ {A = Result String Bytes}
            (not (json_valid content))
            (err "results file is not valid JSON")
            (ok content)
          ≡ ok body)
        ↔ ((content ≡ body) × (length body ≤ limit) × (json_valid body ≡ true))
  valid_iff limit content body h = elim (Bool-cases (json_valid content)) [
    | inl valid ↦ rw valid (
      (λ e.
          let same : content ≡ body = ground arith in
          (
            same,
            subst (λ b. length b ≤ limit) same h,
            subst (λ b. json_valid b ≡ true) same valid,
          )),
      (λ p. ap ok p.0),
    )
    | inr invalid ↦ rw invalid (
      (λ e. absurd (ground arith)),
      (λ (same, short, valid).
          let other = subst (λ b. json_valid b ≡ false) same invalid in absurd (ground arith)),
    )
  ]

  check_results_iff :
      (limit : ℕ) (content body : Bytes)
      → (check_results limit json_valid content ≡ ok body)
        ↔ ((content ≡ body) × (length body ≤ limit) × (json_valid body ≡ true))
  unfolding check_results
  check_results_iff limit content body = elim (Bool-cases (ltb limit (length content))) [
    | inl long ↦
        let cut = length-take_long limit content (ground arith) in
        let over : ltb limit (length (take (suc limit) content)) ≡ true = ground (arith, cut) in
        rw (over, check_results)
          (
            (λ h. absurd (ground arith)),
            (λ (same, short, valid).
                let fits = subst (λ b. length b ≤ limit) (sym same) short in absurd (ground arith)),
          )
    | inr short ↦
        let fits : length content ≤ limit = ground arith in
        let whole : take (suc limit) content ≡ content = take-short limit content fits in
        let under : ltb limit (length content) ≡ false = short in
        rw (whole, check_results) (rw (under, check_results) (valid_iff limit content body fits))
  ]

  -- The results are accepted exactly where the first regular file of the archive is read, holds at
  -- most 256 MB and is valid JSON; they are that file's whole content.
  pub read_archive_iff :
      (items : List TarItem) (body : Bytes)
      → (read_archive json_valid items ≡ ok body)
        ↔ (IsFirst body items × (length body ≤ max_results_size) × (json_valid body ≡ true))
  unfolding read_archive
  read_archive_iff [] body = ground arith
  read_archive_iff (bad_header e ∷ items) body = ground arith
  read_archive_iff (irregular ∷ items) body = read_archive_iff items body
  read_archive_iff (regular (err e) ∷ items) body = ground arith
  read_archive_iff (regular (ok content) ∷ items) body =
      check_results_iff max_results_size content body
