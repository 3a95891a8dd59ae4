-- ===== src/Storage/Tests/Files.antt =====
-- A disk of named files and a codec that keeps the entries as they are, with the laws that
-- internal/storage relies on.
use Prim.Native.String
use bonnie.Prelude.{
  ℕ, String, ◌≡◌, refl, ◌≢◌, Bool, true, false, Option, none, some, List, [], ◌∷◌, arith, str_eq,
  eq_iff, if◌then◌else◌, sym, ◌∙◌, subst, ap, inl, inr, Option-cases,
}
use bonnie.Prelude.Maps.{
  Map, lookup, insert, erase, lookup-insert_self, lookup-insert_ne, lookup-erase_ne,
}
use bonnie.Storage.Env.{
  Entry, Reading, missing, contents, folder, file, Os, Filepath, Codec, Env, OsLaws, CodecLaws,
  IsBlank,
}

-- The bytes of a file: none, or an index.
abbrev pub Data : Type 0
Data = Option (List Entry)

abbrev pub Disk : Type 0
Disk = Map Data

unfoldable pub data_len : Data → ℕ
data_len none = 0
data_len (some es) = 1

unfoldable pub reading : Option Data → Reading Data
reading none = missing
reading (some b) = contents b

unfoldable pub rename_file : String → String → Disk → Disk × Bool
rename_file from to d = elim (lookup from d) [
  | none ↦ (d, false)
  | some b ↦ (insert to b (erase from d), true)
]

abbrev pub os : Os Disk Data
os = record {
  len = data_len;
  read_file = λ path d. reading (lookup path d);
  mkdir_all = λ path d. (d, true);
  create_temp = λ dir d. (insert ".index.json.1" none d, some ".index.json.1");
  write = λ name b d. (insert name b d, true);
  close = λ name d. (d, true);
  rename = rename_file;
  remove = λ name d. (erase name d, true);
  remove_all = λ name d. (erase name d, true);
  walk_dir = λ root d. folder ∷ file (some 5) (some "b.bin") ∷ file (some 3) (some "a.txt") ∷ [];
}

abbrev pub filepath : Filepath
filepath = record {
  abs = λ p. some p;
  rel = λ root p. some (if str_eq root p then "." else if str_eq p "/etc" then "../etc" else "m");
  join = λ a b. String.◌++◌ a (String.◌++◌ "/" b);
}

abbrev pub codec : Codec Data
codec = record { marshal = λ es. some (some es); unmarshal = λ b. b }

-- The NFS fetcher finds a model; the other one fails.
abbrev pub env : Env Disk Data
env = record {
  os = os;
  filepath = filepath;
  codec = codec;
  hex_digest = λ key. key;
  fetchers = ("nfs", λ req dest d. (d, some [])) ∷ ("huggingface", λ req dest d. (d, none)) ∷ [];
}

abbrev pub index : String
index = "/models/index.json"

abbrev pub tmp : String
tmp = ".index.json.1"

index-ne-tmp : index ≢ tmp
index-ne-tmp = ground (arith, eq_iff index tmp)

rename_moves :
    (from : String) (d : Disk)
    → (rename_file from index d).1 ≡ true
    → reading (lookup index (rename_file from index d).0) ≡ reading (lookup from d)
unfolding rename_file
rename_moves from d h = elim (Option-cases (lookup from d)) [
  | inl gone ↦ absurd (ground arith)
  | inr (b, there) ↦
      rw (there, rename_file) (ap reading (lookup-insert_self index b (erase from d)))
]

rename_fails :
    (from : String) (d : Disk)
    → (rename_file from index d).1 ≡ false
    → reading (lookup index (rename_file from index d).0) ≡ reading (lookup index d)
unfolding rename_file
rename_fails from d h = ground arith

pub os_laws : OsLaws os index
unfolding data_len reading
os_laws = record {
  create_temp-other =
      λ dir d. ap reading (lookup-insert_ne tmp index none d (λ e. index-ne-tmp (sym e)));
  create_temp-name =
      λ dir name d e. let same : tmp ≡ name = ground arith in λ h. index-ne-tmp (h ∙ sym same);
  create_temp-blank = λ dir name d e.
      let same : tmp ≡ name = ground arith in
      subst (λ n. IsBlank data_len (reading (lookup n (insert tmp none d)))) same
        (rw (lookup-insert_self {V = Data} tmp none d) refl);
  write-other = λ name b d other. ap reading (lookup-insert_ne name index b d (λ e. other (sym e)));
  write-whole = λ name b d blank done. ap reading (lookup-insert_self name b d);
  close-same = λ name other d. refl;
  remove-other = λ name d other. ap reading (lookup-erase_ne name index d (λ e. other (sym e)));
  rename-moves = rename_moves;
  rename-fails = rename_fails;
}

pub codec_laws : CodecLaws data_len codec
unfolding data_len
codec_laws = record {
  round_trip = λ es b e. sym (ground arith);
  marshal-filled = λ es b e. ground arith;
}
