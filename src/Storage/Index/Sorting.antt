-- ===== src/Storage/Index/Sorting.antt =====
-- The sort by ID of internal/storage/store.go, and what is found in a sorted list.
use bonnie.Prelude.{
  suc, String, ◌≡◌, refl, ◌∙◌, Bool, true, Option, none, some, List, [], ◌∷◌, if◌then◌else◌, str_eq,
  eq_iff, arith, Bool-cases, inl, inr, length,
}
use bonnie.Prelude.Bytes.{codes, bytes_leb, bytes_leb_total}
use bonnie.Storage.Env.{Entry}
use bonnie.Storage.Index.{insert_by_id, sort_by_id}

abbrev pub find_by : (Entry → String) → String → List Entry → Option Entry
find_by f k [] = none
find_by f k (e ∷ es) = if str_eq (f e) k then some e else find_by f k es

-- No two entries have the same `f`.
abbrev pub UniqueBy : (Entry → String) → List Entry → Type 0
UniqueBy f [] = Unit
UniqueBy f (e ∷ es) = (find_by f (f e) es ≡ none) × UniqueBy f es

module _ (f : Entry → String) where
  find_by-insert :
      (k : String) (e : Entry) (es : List Entry)
      → find_by f (f e) es ≡ none
      → find_by f k (insert_by_id e es) ≡ (if str_eq (f e) k then some e else find_by f k es)
  unfolding insert_by_id
  find_by-insert k e [] h = refl
  find_by-insert k e (x ∷ xs) h =
      ground (arith, find_by-insert k e xs, eq_iff (f e) k, eq_iff (f x) k, eq_iff (f x) (f e))

  UniqueBy-insert :
      (e : Entry) (es : List Entry)
      → find_by f (f e) es ≡ none
      → UniqueBy f es
      → UniqueBy f (insert_by_id e es)
  unfolding insert_by_id
  UniqueBy-insert e [] h u = (refl, tt)
  UniqueBy-insert e (x ∷ xs) h u = ground (
    arith,
    UniqueBy-insert e xs,
    find_by-insert (f x) e xs,
    eq_iff (f x) (f e),
    eq_iff (f e) (f x),
  )

  find_by-sort_UniqueBy :
      (es : List Entry)
      → UniqueBy f es
      → ((k : String) → find_by f k (sort_by_id es) ≡ find_by f k es) × UniqueBy f (sort_by_id es)
  unfolding sort_by_id
  find_by-sort_UniqueBy [] u = (λ k. refl, tt)
  find_by-sort_UniqueBy (e ∷ es) u =
      let (same, unique) = find_by-sort_UniqueBy es u.1 in
      let new = same (f e) ∙ u.0 in
      (
        λ k. find_by-insert k e (sort_by_id es) new ∙ rw (same k),
        UniqueBy-insert e (sort_by_id es) new unique,
      )

  -- Sorting changes nothing that is found by a key which tells the entries apart.
  pub find_by-sort :
      (k : String) (es : List Entry) → UniqueBy f es → find_by f k (sort_by_id es) ≡ find_by f k es
  find_by-sort k es u = (find_by-sort_UniqueBy es u).0 k

  pub UniqueBy-sort : (es : List Entry) → UniqueBy f es → UniqueBy f (sort_by_id es)
  UniqueBy-sort es u = (find_by-sort_UniqueBy es u).1

abbrev id_leb : Entry → Entry → Bool
id_leb a b = bytes_leb (codes a.id) (codes b.id)

-- Each entry's ID is at most the next one's.
abbrev StartsAbove : Entry → List Entry → Type 0
StartsAbove a [] = Unit
StartsAbove a (b ∷ es) = id_leb a b ≡ true

abbrev pub IsSorted : List Entry → Type 0
IsSorted [] = Unit
IsSorted (e ∷ es) = StartsAbove e es × IsSorted es

StartsAbove-insert :
    (a e : Entry) (es : List Entry)
    → id_leb a e ≡ true
    → StartsAbove a es
    → StartsAbove a (insert_by_id e es)
unfolding insert_by_id
StartsAbove-insert a e [] h s = h
StartsAbove-insert a e (x ∷ xs) h s = elim (Bool-cases (id_leb e x)) [
  | inl le ↦ rw le h
  | inr gt ↦ rw gt s
]

insert_by_id-IsSorted : (e : Entry) (es : List Entry) → IsSorted es → IsSorted (insert_by_id e es)
unfolding insert_by_id
insert_by_id-IsSorted e [] s = (tt, tt)
insert_by_id-IsSorted e (x ∷ xs) s = elim (Bool-cases (id_leb e x)) [
  | inl le ↦ rw le (le, s)
  | inr gt ↦ rw gt (
    StartsAbove-insert x e xs (bytes_leb_total (codes e.id) (codes x.id) gt) s.0,
    insert_by_id-IsSorted e xs s.1,
  )
]

pub sort_by_id-IsSorted : (es : List Entry) → IsSorted (sort_by_id es)
unfolding sort_by_id
sort_by_id-IsSorted [] = tt
sort_by_id-IsSorted (e ∷ es) = insert_by_id-IsSorted e (sort_by_id es) (sort_by_id-IsSorted es)

length-insert_by_id : (e : Entry) (es : List Entry) → length (insert_by_id e es) ≡ suc (length es)
unfolding insert_by_id
length-insert_by_id e [] = refl
length-insert_by_id e (x ∷ xs) = ground (arith, length-insert_by_id e xs)

pub length-sort_by_id : (es : List Entry) → length (sort_by_id es) ≡ length es
unfolding sort_by_id
length-sort_by_id [] = refl
length-sort_by_id (e ∷ es) =
    omega (arith, length-insert_by_id e (sort_by_id es), length-sort_by_id es)
