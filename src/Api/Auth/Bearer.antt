-- ===== src/Api/Auth/Bearer.antt =====
-- Which requests `Auth` of internal/api/middleware/auth.go lets pass.
use bonnie.Prelude.{
  ℕ, ◌≡◌, ◌↔◌, refl, sym, ◌∙◌, ap, subst, ◌⊎◌, inl, inr, Bool, true, false, not, ◌&&◌, Option, none,
  some, List, [], ◌∷◌, ◌++◌, map, ◌==◌, ==_iff, is_empty, arith, Bool-cases, if◌then◌else◌,
}
use bonnie.Prelude.Bytes.{Bytes, codes, bytes_eq, bytes_eq_iff}
use bonnie.Api.Auth.{
  Decision, passed, refused, is_skipped, cut_space, lower, equal_fold, check_parts, auth,
}

abbrev no_space : Bytes → Bool
no_space [] = true
no_space (c ∷ s) = not (c == b' ') && no_space s

lower-space : (c : ℕ) → (lower c == b' ') ≡ (c == b' ')
lower-space c = ground arith

no_space-lower : (s : Bytes) → no_space (map lower s) ≡ no_space s
no_space-lower [] = refl
no_space-lower (c ∷ s) =
    let first = lower-space c in let rest = no_space-lower s in rw (first, rest) refl

cut_space_first : (s t : Bytes) → no_space s ≡ true → cut_space (s ++ (b' ' ∷ t)) ≡ some (s, t)
cut_space_first [] t h = refl
cut_space_first (c ∷ s) t h = elim (Bool-cases (c == b' ')) [
  | inl e ↦ absurd (ground arith)
  | inr e ↦
      let clear : no_space s ≡ true = ground arith in
      let rest = cut_space_first s t clear in rw e (rw rest refl)
]

-- What a cut says of the text.
abbrev CutsTo : Bytes → Option (Bytes × Bytes) → Type 0
CutsTo h none = Unit
CutsTo h (some (s, t)) = h ≡ s ++ (b' ' ∷ t)

push-CutsTo :
    (c : ℕ) (h : Bytes) (o : Option (Bytes × Bytes))
    → CutsTo h o
    → CutsTo (c ∷ h) (elim o [ none ↦ none | some (first, rest) ↦ some (c ∷ first, rest) ])
push-CutsTo c h none k = tt
push-CutsTo c h (some (s, t)) k = ap (λ l. c ∷ l) k

cut_space-CutsTo : (h : Bytes) → CutsTo h (cut_space h)
cut_space-CutsTo [] = tt
cut_space-CutsTo (c ∷ h) = elim (Bool-cases (c == b' ')) [
  | inl e ↦ rw e (ap (λ x. x ∷ h) ((==_iff c b' ').0 e))
  | inr e ↦ rw e (push-CutsTo c h (cut_space h) (cut_space-CutsTo h))
]

-- A bearer header: the scheme in any case, one space, and the token.
abbrev pub IsBearer : Bytes → Bytes → Type 0
IsBearer token header =
    (scheme : Bytes) × (header ≡ scheme ++ (b' ' ∷ token)) × (map lower scheme ≡ codes "bearer")

passed-IsBearer :
    (token header : Bytes) (o : Option (Bytes × Bytes))
    → CutsTo header o
    → check_parts token o ≡ passed
    → IsBearer token header
passed-IsBearer token header none k h = absurd (ground arith)
passed-IsBearer token header (some (scheme, given)) k h =
    let folded : equal_fold scheme (codes "Bearer") ≡ true = ground arith in
    let same : bytes_eq given token ≡ true = ground arith in
    (
      scheme,
      k ∙ ap (λ t. scheme ++ (b' ' ∷ t)) ((bytes_eq_iff given token).0 same),
      (bytes_eq_iff (map lower scheme) (codes "bearer")).0 folded,
    )

is_empty-append : (s : Bytes) (c : ℕ) (t : Bytes) → is_empty (s ++ (c ∷ t)) ≡ false
is_empty-append [] c t = refl
is_empty-append (a ∷ s) c t = refl

abbrev check_header : Bytes → Bytes → Decision
check_header token header =
    if is_empty header
    then refused (codes "missing authorization header")
    else check_parts token (cut_space header)

check_header_iff :
    (token header : Bytes) → (check_header token header ≡ passed) ↔ IsBearer token header
check_header_iff token header = (there header, back)
  where
    there : (h : Bytes) → check_header token h ≡ passed → IsBearer token h
    there [] k = absurd (ground arith)
    there (c ∷ h) k = passed-IsBearer token (c ∷ h) (cut_space (c ∷ h)) (cut_space-CutsTo (c ∷ h)) k

    back : IsBearer token header → check_header token header ≡ passed
    back (scheme, e, folded) =
        let clear : no_space scheme ≡ true = sym (no_space-lower scheme) ∙ ap no_space folded in
        let some_bytes = is_empty-append scheme b' ' token in
        let cut = cut_space_first scheme token clear in
        let fold_true = (bytes_eq_iff (map lower scheme) (codes "bearer")).1 folded in
        let same = (bytes_eq_iff token token).1 refl in
        subst (λ h. check_header token h ≡ passed) (sym e)
          (rw some_bytes (rw cut (rw (fold_true, same) refl)))

-- A request passes exactly where its path is one that needs no authentication, or its header is
-- `Bearer`, in any case, one space, and the token, with nothing before or after.
pub auth_iff :
    (token : Bytes) (skip : List Bytes) (path header : Bytes)
    → (auth token skip path header ≡ passed)
      ↔ ((is_skipped skip path ≡ true) ⊎ IsBearer token header)
unfolding auth
auth_iff token skip path header =
    let bearer = check_header_iff token header in
    elim (Bool-cases (is_skipped skip path)) [
      | inl e ↦ rw (e, auth) ((λ k. inl refl), λ k. refl)
      | inr e ↦
          rw (e, auth)
            ((λ k. inr (bearer.0 k)), elim [ inl x ↦ absurd (ground arith) | inr b ↦ bearer.1 b ])
    ]
