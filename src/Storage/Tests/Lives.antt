-- ===== src/Storage/Tests/Lives.antt =====
-- The store of internal/storage/store.go over the lives of a process, on the disk of named files.
use bonnie.Prelude.{
  String, ◌≡◌, ◌≢◌, refl, sym, ◌∙◌, ap, subst, Bool-cases, inl, inr, none, some, [], ◌∷◌, arith,
  eq_iff, str_eq,
}
use bonnie.Prelude.Maps.{lookup, insert, erase, lookup-erase_ne}
use bonnie.Prelude.Results.{Result, ok, err}
use bonnie.Storage.Env.{FetchRequest, Fetcher}
use bonnie.Storage.Index.{Error, mount_source_required, entry_id, sort_by_id}
use bonnie.Storage.Store.{lookup_by_key, checked, fetch, delete, sort_strings}
use bonnie.Storage.Restart.{IsSound, Laws}
use bonnie.Storage.Restart.Start.{Restarts-empty}
use bonnie.Storage.Restart.Killed.{fetch_passes, delete_passes}
use bonnie.Storage.Restart.Killed.Calls.{IsPassed, killed-IsPassed}
use bonnie.Storage.Tests.{request, start, staged, staged_disk, start-Coherent}
use bonnie.Storage.Tests.Files.{
  Disk, data_len, reading, rename_file, env, index, tmp, os_laws, codec_laws,
}

-- The one model that is asked for.
abbrev pub Known : String → String → Type 0
Known source model_id = (source ≡ "nfs") × (model_id ≡ "llama")

abbrev home : String
home = "/models/nfs:llama"

index-ne-home : home ≢ index
index-ne-home = ground (arith, eq_iff home index)

home_of :
    (source model_id : String) → Known source model_id → entry_id env source model_id ≡ "nfs:llama"
unfolding entry_id
home_of source model_id known = rw (known.0) (rw (known.1) refl)

abbrev or_run : Fetcher Disk → Result Error (Fetcher Disk) → Fetcher Disk
or_run d (ok fetcher) = fetcher
or_run d (err x) = d

fetched :
    (req : FetchRequest) (fetcher : Fetcher Disk)
    → Known req.source req.model_id
    → checked env req ≡ ok fetcher
    → (dest : String) (d : Disk) → (fetcher req dest d).0 ≡ d
unfolding checked lookup
fetched req fetcher known passed dest d = elim (Bool-cases (str_eq req.mount_source "")) [
  | inl unmounted ↦
      let refused : checked env req ≡ err mount_source_required =
        rw (known.0, checked)
          (rw (known.1, checked) (rw (known.0, checked) (rw (unmounted, checked) refl))) in
      let clash : err mount_source_required ≡ ok fetcher = sym refused ∙ passed in absurd (cc)
  | inr mounted ↦
      let found : checked env req ≡ ok (λ req dest d. (d, some [])) =
        rw (known.0, checked)
          (rw (known.1, checked) (rw (known.0, checked) (rw (mounted, checked) refl))) in
      subst (λ f. (f req dest d).0 ≡ d) (ap (or_run fetcher) (sym found ∙ passed)) refl
]

pub laws : Laws env "/models" Known
unfolding reading
laws = record {
  os_laws = os_laws;
  codec_laws = codec_laws;
  distinct = λ a m b n known known' same. ground arith;
  start-index = λ d. refl;
  mkdir_all-index = λ source model_id d known. refl;
  remove_all-index = λ source model_id d known.
      rw (home_of source model_id known) (ap reading (lookup-erase_ne home index d index-ne-home));
  fetch-index = λ req fetcher d known passed.
      ap (λ (k : Disk). reading (lookup index k)) (fetched req fetcher known passed _ d);
}

start-IsSound : IsSound env "/models" Known start
unfolding reading lookup
start-IsSound = record {
  at = refl;
  coherent = start-Coherent;
  named = λ id e h. absurd (ground arith);
  restarts = Restarts-empty env "/models" Known [] refl;
}

killed-IsPassed_example :
    IsPassed env "/models" Known laws start start-IsSound
      (fetch env request 7 start).0
      (fetch_passes env request 7 start)
    × IsPassed env "/models" Known laws start start-IsSound
        (delete env "nfs:llama" start).0
        (delete_passes env "nfs:llama" start)
killed-IsPassed_example =
    killed-IsPassed env "/models" Known laws start start-IsSound request 7 "nfs:llama" refl
      (refl, refl)

-- The index is there from the rename on, the last of the disks of a fetch.
fetch_disks :
    fetch_passes env request 7 start
    ≡ []
      ∷ []
      ∷ []
      ∷ []
      ∷ ((tmp, none) ∷ [])
      ∷ ((tmp, some (staged ∷ [])) ∷ [])
      ∷ ((tmp, some (staged ∷ [])) ∷ [])
      ∷ staged_disk
      ∷ []
unfolding fetch_passes lookup insert erase data_len reading rename_file entry_id sort_strings
    checked lookup_by_key sort_by_id
fetch_disks = refl
