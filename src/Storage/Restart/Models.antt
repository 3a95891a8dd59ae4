-- ===== src/Storage/Restart/Models.antt =====
-- Two stores of internal/storage/store.go that hold the same models.
use mathlib.Core.Option
use bonnie.Prelude.{ℕ, String, ◌≡◌, refl, sym, ◌∙◌, ap, some, arith, eq_iff}
use bonnie.Prelude.Maps.{lookup, lookup-insert}
use bonnie.Storage.Env.{Entry}
use bonnie.Storage.Index.{Store}
use bonnie.Storage.Index.Coherent.{SameMaps}
use bonnie.Storage.Store.{touched}

-- An entry without its time of last use.
abbrev pub unused : Entry → Entry
unused e = record e { last_used_at = 0 }

-- The same entries under the same IDs, but for the times of last use, and the same keys.
abbrev pub Alike : Store → Store → Type 0
Alike s t =
    ((id : String)
      → Option.map unused (lookup id s.entries) ≡ Option.map unused (lookup id t.entries))
    × ((k : String) → lookup k s.by_key ≡ lookup k t.by_key)

pub Alike-trans : (r s t : Store) → Alike r s → Alike s t → Alike r t
Alike-trans r s t h k = (λ id. h.0 id ∙ k.0 id, λ key. h.1 key ∙ k.1 key)

pub Alike-sym : (s t : Store) → Alike s t → Alike t s
Alike-sym s t h = (λ id. sym (h.0 id), λ key. sym (h.1 key))

pub SameMaps-Alike : (s t : Store) → SameMaps s t → Alike s t
SameMaps-Alike s t h = (λ id. ap (Option.map unused) (h.0 id), h.1)

pub touched-Alike :
    (s : Store) (id : String) (e : Entry) (now : ℕ)
    → lookup id s.entries ≡ some e
    → Alike s (touched id e now s)
touched-Alike s id e now there = (
  λ j. ground (arith, lookup-insert id j (record e { last_used_at = now }) s.entries, eq_iff id j),
  λ k. refl,
)
