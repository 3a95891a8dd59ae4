-- ===== src/Storage/Restart/Start.antt =====
-- `NewStoreWithFetchers` of internal/storage/store.go in a directory that a store has used before,
-- or that none has.
use bonnie.Prelude.{
  String, ◌≡◌, refl, sym, subst, str_eq, arith, Option-cases, Bool-cases, ◌⊎◌, inl, inr,
}
use bonnie.Prelude.Maps.{lookup}
use bonnie.Prelude.Results.{Result, ok, err}
use bonnie.Storage.Env.{Env, missing}
use bonnie.Storage.Index.{Store, Error, dir_required, make_dir, load_index, new_store, empty_store}
use bonnie.Storage.Index.Coherent.{Coherent}
use bonnie.Storage.Restart.Models.{Alike, unused}
use bonnie.Storage.Restart.{
  SameIndex, IsNamed, AllNamed, IsSound, Laws, Restarts, IsLoaded, load_index-IsLoaded, index_at,
  kept-Restarts,
}

empty_store-Coherent : (dir : String) → Coherent (empty_store dir)
unfolding lookup
empty_store-Coherent dir = record {
  distinct = tt;
  indexed = λ id e h. cc;
  backed = λ k id h. absurd (ground arith);
}

module _ {Disk Data : Type 0} (env : Env Disk Data) (dir : String)
    (Known : String → String → Type 0) where
  Alike-AllNamed :
      (s t : Store)
      → Alike t s
      → AllNamed env dir Known s.entries
      → AllNamed env dir Known t.entries
  Alike-AllNamed s t alike named id a h = elim (Option-cases (lookup id s.entries)) [
    | inl lost ↦ absurd (ground (arith, alike.0 id))
    | inr (b, there) ↦
        let same : unused b ≡ unused a = ground (arith, alike.0 id) in
        subst (IsNamed env dir Known) same (named id b there)
  ]

  -- A directory without an index is that of an empty store.
  pub Restarts-empty :
      (d : Disk)
      → env.os.read_file (index_at env dir) d ≡ missing
      → Restarts env dir (empty_store dir) d
  unfolding load_index
  Restarts-empty d h =
      (empty_store dir, rw (h, load_index) refl, empty_store-Coherent dir, (λ id. refl, λ k. refl))

  -- How a start in the directory ends: with the models of the store that used it last, or, its index
  -- untouched, because there is no directory.
  abbrev pub Started : Store → Disk → Disk × Result Error Store → Type 0
  Started s d (d', ok t) = IsSound env dir Known (record { store = t; disk = d' }) × Alike t s
  Started s d (d', err x) = SameIndex env dir d d' × ((x ≡ dir_required) ⊎ (x ≡ make_dir))

  pub new_store-Started :
      (s : Store) (d : Disk)
      → Laws env dir Known
      → AllNamed env dir Known s.entries
      → Restarts env dir s d
      → Started s d (new_store env dir d)
  unfolding new_store
  new_store-Started s d laws named before = elim (Bool-cases (str_eq dir "")) [
    | inl empty ↦ rw (empty, new_store) (refl, inl refl)
    | inr filled ↦ elim (Bool-cases (env.os.mkdir_all dir d).1) [
      | inr refused ↦
          rw (filled, new_store) (rw (refused, new_store) (laws.start-index d, inr refl))
      | inl made ↦
          let d' = (env.os.mkdir_all dir d).0 in
          let (t, loads, c, alike) =
            kept-Restarts env dir s s d d' (laws.start-index d) (λ id. refl, λ k. refl) before in
          let loaded : IsLoaded dir (ok t) =
            subst (IsLoaded dir) loads (load_index-IsLoaded env dir d') in
          rw (filled, new_store)
            (rw (made, new_store)
              (subst (λ r. Started s d (d', r)) (sym loads)
                (
                  record {
                    at = loaded.1;
                    coherent = c;
                    named = Alike-AllNamed s t alike named;
                    restarts = (t, loads, c, (λ id. refl, λ k. refl));
                  },
                  alike,
                )))
    ]
  ]
