-- ===== src/Storage/Index/Coherent.antt =====
-- The invariant of the two maps of `Store` in internal/storage/store.go, and what it says of the
-- entries as a list.
use bonnie.Prelude.{
  String, ◌≡◌, refl, sym, ◌∙◌, ◌≢◌, none, some, [], ◌∷◌, str_eq, eq_iff, eq_refl, arith, inl, inr,
  Bool-cases, Option-cases,
}
use bonnie.Prelude.Maps.{Map, lookup}
use bonnie.Storage.Env.{Entry}
use bonnie.Storage.Index.Sorting.{find_by, UniqueBy}
use bonnie.Storage.Index.{Store, key_of, values}

-- A map holds each key once.
abbrev pub UniqueKeys : {V : Type 0} → Map V → Type 0
UniqueKeys [] = Unit
UniqueKeys ((k, v) ∷ m) = (lookup k m ≡ none) × UniqueKeys m

abbrev pub id_of : Entry → String
id_of e = e.id

-- Every entry stands under its own ID, and the two maps lead to one another.
pub record Coherent (s : Store) : Type 0 where
  pub distinct : UniqueKeys s.entries
  pub indexed :
      (id : String) (e : Entry)
      → lookup id s.entries ≡ some e
      → (e.id ≡ id) × (lookup (key_of e) s.by_key ≡ some id)
  pub backed :
      (k id : String)
      → lookup k s.by_key ≡ some id
      → (e : Entry) × (lookup id s.entries ≡ some e) × (key_of e ≡ k)

-- Two stores that answer every question alike.
abbrev pub SameMaps : Store → Store → Type 0
SameMaps s t =
    ((id : String) → lookup id s.entries ≡ lookup id t.entries)
    × ((k : String) → lookup k s.by_key ≡ lookup k t.by_key)

abbrev pub Keyed : Map Entry → Type 0
Keyed m = (id : String) (e : Entry) → lookup id m ≡ some e → e.id ≡ id

abbrev pub Telling : Map Entry → Type 0
Telling m =
    (i j : String) (a b : Entry)
    → lookup i m ≡ some a
    → lookup j m ≡ some b
    → key_of a ≡ key_of b
    → i ≡ j

module _ {ℓ} {V : Type ℓ} where
  lookup_head : (k : String) (v : V) (m : Map V) → lookup k ((k, v) ∷ m) ≡ some v
  unfolding lookup
  lookup_head k v m = ground (arith, eq_refl k)

  lookup_tail :
      (k j : String) (v w : V) (m : Map V)
      → lookup k m ≡ none
      → lookup j m ≡ some w
      → lookup j ((k, v) ∷ m) ≡ some w
  unfolding lookup
  lookup_tail k j v w m fresh h = ground (arith, eq_iff k j)

Keyed-tail :
    (k : String) (v : Entry) (m : Map Entry) → lookup k m ≡ none → Keyed ((k, v) ∷ m) → Keyed m
Keyed-tail k v m fresh keyed id e h = keyed id e (lookup_tail k id v e m fresh h)

Telling-tail :
    (k : String) (v : Entry) (m : Map Entry) → lookup k m ≡ none → Telling ((k, v) ∷ m) → Telling m
Telling-tail k v m fresh telling i j a b ha hb =
    telling i j a b (lookup_tail k i v a m fresh ha) (lookup_tail k j v b m fresh hb)

-- By its ID an entry is found in the list as it is in the map.
pub find_by-id :
    (j : String) (m : Map Entry) → UniqueKeys m → Keyed m → find_by id_of j (values m) ≡ lookup j m
unfolding lookup
find_by-id j [] u keyed = refl
find_by-id j ((k, e) ∷ m) u keyed =
    ground (arith, keyed k e (lookup_head k e m), find_by-id j m u.1 (Keyed-tail k e m u.0 keyed))

pub UniqueBy-id : (m : Map Entry) → UniqueKeys m → Keyed m → UniqueBy id_of (values m)
UniqueBy-id [] u keyed = tt
UniqueBy-id ((k, e) ∷ m) u keyed =
    let keyed' = Keyed-tail k e m u.0 keyed in
    (rw (keyed k e (lookup_head k e m)) (find_by-id k m u.1 keyed' ∙ u.0), UniqueBy-id m u.1 keyed')

-- What is found by a key is in the map, under its ID.
pub lookup_of_find_by :
    (j : String) (a : Entry) (m : Map Entry)
    → UniqueKeys m
    → Keyed m
    → find_by key_of j (values m) ≡ some a
    → (lookup a.id m ≡ some a) × (key_of a ≡ j)
lookup_of_find_by j a [] u keyed h = cc
lookup_of_find_by j a ((k, e) ∷ m) u keyed h = elim (Bool-cases (str_eq (key_of e) j)) [
  | inl hit ↦ ground (arith, keyed k e (lookup_head k e m), lookup_head k e m, eq_iff (key_of e) j)
  | inr miss ↦
      let (found, same) = lookup_of_find_by j a m u.1 (Keyed-tail k e m u.0 keyed) (rw miss at h) in
      (lookup_tail k a.id e a m u.0 found, same)
]

pub find_by-ne-none :
    (j id : String) (a : Entry) (m : Map Entry)
    → lookup id m ≡ some a
    → key_of a ≡ j
    → find_by key_of j (values m) ≢ none
unfolding lookup
find_by-ne-none j id a [] h same found = cc
find_by-ne-none j id a ((k, e) ∷ m) h same found =
    ground (arith, find_by-ne-none j id a m, eq_iff (key_of e) j)

pub UniqueBy-key : (m : Map Entry) → UniqueKeys m → Keyed m → Telling m → UniqueBy key_of (values m)
UniqueBy-key [] u keyed telling = tt
UniqueBy-key ((k, e) ∷ m) u keyed telling =
    let keyed' = Keyed-tail k e m u.0 keyed in
    (
      elim (Option-cases (find_by key_of (key_of e) (values m))) [
        | inl new ↦ new
        | inr (a, found) ↦
            let (at_id, same) = lookup_of_find_by (key_of e) a m u.1 keyed' found in
            let equal =
              telling k a.id e a (lookup_head k e m) (lookup_tail k a.id e a m u.0 at_id)
                (sym same) in
            ground (arith, equal, u.0, at_id)
      ],
      UniqueBy-key m u.1 keyed' (Telling-tail k e m u.0 telling),
    )

pub Telling-Coherent : (s : Store) → Coherent s → Telling s.entries
Telling-Coherent s c i j a b ha hb same = ground (arith, c.indexed i a ha, c.indexed j b hb)

pub Coherent-SameMaps :
    (s t : Store) → UniqueKeys t.entries → SameMaps t s → Coherent s → Coherent t
Coherent-SameMaps s t u (entries, by_key) c = record {
  distinct = u;
  indexed = λ id e h. ground (arith, entries id, by_key (key_of e), c.indexed id e);
  backed = λ k id h.
      let (e, there, same) = c.backed k id (sym (by_key k) ∙ h) in (e, entries id ∙ there, same);
}
