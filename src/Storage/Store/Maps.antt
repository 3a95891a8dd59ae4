-- ===== src/Storage/Store/Maps.antt =====
-- The changes that the operations of `Store` in internal/storage/store.go make to its two maps.
use bonnie.Prelude.{
  String, ◌≡◌, refl, sym, ◌∙◌, false, none, some, [], ◌∷◌, str_eq, eq_iff, eq_refl, arith,
  Bool-cases, Option-cases, inl, inr, ℕ,
}
use bonnie.Prelude.Maps.{Map, lookup, insert, erase, lookup-insert, lookup-erase}
use bonnie.Storage.Env.{Entry}
use bonnie.Storage.Index.{Store, key_of}
use bonnie.Storage.Index.Coherent.{UniqueKeys, Coherent, SameMaps, Coherent-SameMaps}
use bonnie.Storage.Store.{lookup_by_key, touched, added, removed, restored}

module _ {V : Type 0} where
  pub UniqueKeys-insert :
      (k : String) (v : V) (m : Map V) → UniqueKeys m → UniqueKeys (insert k v m)
  unfolding insert lookup
  UniqueKeys-insert k v [] u = (refl, tt)
  UniqueKeys-insert k v ((j, w) ∷ m) u =
      ground (arith, UniqueKeys-insert k v m u.1, lookup-insert k j v m, eq_iff j k, eq_iff k j)

  UniqueKeys-erase : (k : String) (m : Map V) → UniqueKeys m → UniqueKeys (erase k m)
  unfolding erase
  UniqueKeys-erase k [] u = tt
  UniqueKeys-erase k ((j, w) ∷ m) u = ground (arith, UniqueKeys-erase k m u.1, lookup-erase k j m)

-- A coherent store finds by a key what the map of the keys leads to.
pub lookup_by_key-Coherent :
    (s : Store) → Coherent s → (k : String) → lookup_by_key k s ≡ none → lookup k s.by_key ≡ none
unfolding lookup_by_key
lookup_by_key-Coherent s c k h = elim (Option-cases (lookup k s.by_key)) [
  | inl e ↦ e
  | inr (id, e) ↦ let (a, there, _) = c.backed k id e in ground arith
]

pub lookup_by_key-eq-some :
    (s : Store)
    → Coherent s
    → (k : String) (e : Entry) → lookup_by_key k s ≡ some e
    → (lookup e.id s.entries ≡ some e) × (key_of e ≡ k) × (lookup k s.by_key ≡ some e.id)
unfolding lookup_by_key
lookup_by_key-eq-some s c k e h = elim (Option-cases (lookup k s.by_key)) [
  | inl none_there ↦ absurd (ground arith)
  | inr (id, there) ↦
      let (a, held, same) = c.backed k id there in ground (arith, c.indexed id a held)
]

pub touched-Coherent :
    (s : Store) (id : String) (e : Entry) (now : ℕ)
    → lookup id s.entries ≡ some e
    → Coherent s
    → Coherent (touched id e now s)
touched-Coherent s id e now there c = record {
  distinct = UniqueKeys-insert id _ s.entries c.distinct;
  indexed = λ j a h. ground (
    arith,
    lookup-insert id j (record e { last_used_at = now }) s.entries,
    eq_iff id j,
    c.indexed id e there,
    c.indexed j a,
  );
  backed = λ k j h.
      let (a, held, same) = c.backed k j h in
      elim (Bool-cases (str_eq id j)) [
        | inl hit ↦ (
          record e { last_used_at = now },
          lookup-insert id j (record e { last_used_at = now }) s.entries ∙ rw hit,
          ground (arith, eq_iff id j),
        )
        | inr miss ↦
            (a, lookup-insert id j (record e { last_used_at = now }) s.entries ∙ rw miss held, same)
      ];
}

-- An entry is new to a store if neither its ID nor its key is there.
abbrev pub IsNew : Entry → Store → Type 0
IsNew e s = (lookup e.id s.entries ≡ none) × (lookup (key_of e) s.by_key ≡ none)

pub added-Coherent : (s : Store) (e : Entry) → IsNew e s → Coherent s → Coherent (added e s)
added-Coherent s e new c = record {
  distinct = UniqueKeys-insert e.id e s.entries c.distinct;
  indexed = λ j a h. ground (
    arith,
    lookup-insert e.id j e s.entries,
    lookup-insert (key_of e) (key_of a) e.id s.by_key,
    eq_iff e.id j,
    eq_iff (key_of e) (key_of a),
    c.indexed j a,
  );
  backed = λ k j h. elim (Bool-cases (str_eq (key_of e) k)) [
    | inl hit ↦ (
      e,
      ground (
        arith,
        lookup-insert (key_of e) k e.id s.by_key,
        lookup-insert e.id j e s.entries,
        eq_iff e.id j,
      ),
      ground (arith, eq_iff (key_of e) k),
    )
    | inr miss ↦
        let (a, held, same) =
          c.backed k j (sym (lookup-insert (key_of e) k e.id s.by_key ∙ rw miss) ∙ h) in
        (a, ground (arith, lookup-insert e.id j e s.entries, eq_iff e.id j), same)
  ];
}

-- The roll-back of an addition.
pub removed-added : (s : Store) (e : Entry) → IsNew e s → SameMaps (removed e.id e (added e s)) s
removed-added s e new = (
  λ j. ground (
    arith,
    lookup-erase e.id j (insert e.id e s.entries),
    lookup-insert e.id j e s.entries,
    eq_iff e.id j,
  ),
  λ k. ground (
    arith,
    lookup-erase (key_of e) k (insert (key_of e) e.id s.by_key),
    lookup-insert (key_of e) k e.id s.by_key,
    eq_iff (key_of e) k,
  ),
)

pub removed-Coherent :
    (s : Store) (id : String) (e : Entry)
    → lookup id s.entries ≡ some e
    → Coherent s
    → Coherent (removed id e s)
removed-Coherent s id e there c = record {
  distinct = UniqueKeys-erase id s.entries c.distinct;
  indexed = λ j a h. ground (
    arith,
    lookup-erase id j s.entries,
    lookup-erase (key_of e) (key_of a) s.by_key,
    eq_iff (key_of e) (key_of a),
    eq_iff id j,
    c.indexed j a,
    c.indexed id e there,
  );
  backed = λ k j h.
      let miss : str_eq (key_of e) k ≡ false = ground (arith, lookup-erase (key_of e) k s.by_key) in
      let (a, held, same) = c.backed k j (sym (lookup-erase (key_of e) k s.by_key ∙ rw miss) ∙ h) in
      (
        a,
        ground (
          arith,
          lookup-erase id j s.entries,
          eq_iff id j,
          eq_iff (key_of e) k,
          eq_refl (key_of e),
        ),
        same,
      );
}

-- The roll-back of a removal.
pub restored-removed :
    (s : Store) (id : String) (e : Entry)
    → lookup id s.entries ≡ some e
    → Coherent s
    → SameMaps (restored id e (removed id e s)) s
restored-removed s id e there c = (
  λ j.
      ground (
        arith,
        lookup-insert id j e (erase id s.entries),
        lookup-erase id j s.entries,
        eq_iff id j,
      ),
  λ k. ground (
    arith,
    lookup-insert (key_of e) k id (erase (key_of e) s.by_key),
    lookup-erase (key_of e) k s.by_key,
    eq_iff (key_of e) k,
    c.indexed id e there,
  ),
)

pub removed-added-Coherent :
    (s : Store) (e : Entry) → IsNew e s → Coherent s → Coherent (removed e.id e (added e s))
removed-added-Coherent s e new c =
    Coherent-SameMaps s _ (UniqueKeys-erase e.id _ (UniqueKeys-insert e.id e s.entries c.distinct))
      (removed-added s e new) c

pub restored-removed-Coherent :
    (s : Store) (id : String) (e : Entry)
    → lookup id s.entries ≡ some e
    → Coherent s
    → Coherent (restored id e (removed id e s))
restored-removed-Coherent s id e there c =
    Coherent-SameMaps s _ (UniqueKeys-insert id e _ (UniqueKeys-erase id s.entries c.distinct))
      (restored-removed s id e there c) c
