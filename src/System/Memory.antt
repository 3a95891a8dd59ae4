-- ===== src/System/Memory.antt =====
-- internal/system/info.go: the total memory as Linux writes it in /proc/meminfo.
use bonnie.Prelude.{
  ℕ, zero, suc, ◌/◌, ◌≡◌, refl, ◌∙◌, ap, Bool, true, false, not, ◌&&◌, some, List, [], ◌∷◌, ◌++◌,
  ◌==◌, arith, Bool-cases, inl, inr,
}
use bonnie.Prelude.Bytes.{Bytes, codes, has_prefix}
use bonnie.Gpu.Text.{is_space, split, parse_uint}
use bonnie.System.{fields, mem_of_fields, mem_total_from, parse_mem_total}

-- Text without white space, which is without line ends.
abbrev pub solid : Bytes → Bool
solid [] = true
solid (c ∷ s) = not (is_space c) && solid s

abbrev pub spaces : ℕ → Bytes
spaces zero = []
spaces (suc n) = b' ' ∷ spaces n

abbrev pub no_newline : Bytes → Bool
no_newline [] = true
no_newline (c ∷ s) = not (c == b'\n') && no_newline s

split_line :
    (line rest : Bytes)
    → no_newline line ≡ true
    → split b'\n' (line ++ (b'\n' ∷ rest)) ≡ line ∷ split b'\n' rest
split_line [] rest h = refl
split_line (c ∷ line) rest h = elim (Bool-cases (c == b'\n')) [
  | inl e ↦ absurd (ground arith)
  | inr e ↦ rw (e, split) (rw (split_line line rest (ground arith)) refl)
]

no_newline-append :
    (s t : Bytes) → no_newline s ≡ true → no_newline t ≡ true → no_newline (s ++ t) ≡ true
no_newline-append [] t hs ht = ht
no_newline-append (c ∷ s) t hs ht = ground (arith, no_newline-append s t)

no_newline-solid : (s : Bytes) → solid s ≡ true → no_newline s ≡ true
no_newline-solid [] h = refl
no_newline-solid (c ∷ s) h = ground (arith, no_newline-solid s)

no_newline-spaces : (n : ℕ) → no_newline (spaces n) ≡ true
no_newline-spaces zero = refl
no_newline-spaces (suc n) = no_newline-spaces n

fields-spaces : (n : ℕ) (s : Bytes) → fields (spaces n ++ s) ≡ fields s
fields-spaces zero s = refl
fields-spaces (suc n) s = fields-spaces n s

-- A word ends at a space.
fields-word :
    (c : ℕ) (word s : Bytes)
    → solid (c ∷ word) ≡ true
    → fields ((c ∷ word) ++ (b' ' ∷ s)) ≡ (c ∷ word) ∷ fields s
fields-word c [] s h = ground arith
fields-word c (d ∷ word) s h =
    let first : is_space c ≡ false = ground arith in
    let second : is_space d ≡ false = ground arith in
    rw (first, fields) (rw (fields-word d word s (ground arith)) (rw second refl))

abbrev pub mem_line : ℕ → Bytes → Bytes
mem_line n word = codes "MemTotal: " ++ (spaces n ++ (word ++ codes " kB"))

fields-mem_line :
    (n c : ℕ) (word : Bytes)
    → solid (c ∷ word) ≡ true
    → fields (mem_line n (c ∷ word)) ≡ codes "MemTotal:" ∷ (c ∷ word) ∷ codes "kB" ∷ []
fields-mem_line n c word clean =
    ap (λ fs. codes "MemTotal:" ∷ fs)
      (fields-spaces n ((c ∷ word) ++ codes " kB") ∙ fields-word c word (codes "kB") clean)

no_newline-mem_line :
    (n : ℕ) (word : Bytes) → solid word ≡ true → no_newline (mem_line n word) ≡ true
no_newline-mem_line n word clean =
    no_newline-append (spaces n) (word ++ codes " kB") (no_newline-spaces n)
      (no_newline-append word (codes " kB") (no_newline-solid word clean) refl)

-- Some lines, each with its end, and then a text.
abbrev pub after_lines : List Bytes → Bytes → Bytes
after_lines [] text = text
after_lines (line ∷ lines) text = line ++ (b'\n' ∷ after_lines lines text)

-- Lines of other names.
abbrev pub AllOthers : List Bytes → Type 0
AllOthers [] = Unit
AllOthers (line ∷ lines) =
    (no_newline line ≡ true) × (has_prefix line (codes "MemTotal:") ≡ false) × AllOthers lines

mem_total_from-after_lines :
    (lines : List Bytes) (text : Bytes)
    → AllOthers lines
    → mem_total_from (split b'\n' (after_lines lines text)) ≡ mem_total_from (split b'\n' text)
mem_total_from-after_lines [] text others = refl
mem_total_from-after_lines (line ∷ lines) text (whole, other, others) =
    ap mem_total_from (split_line line (after_lines lines text) whole)
    ∙ rw other (mem_total_from-after_lines lines text others)

-- Where /proc/meminfo has, after any lines that do not begin with `MemTotal:`, the line `MemTotal:`,
-- one or more spaces, a number that `ParseUint` reads, and `kB`: the memory is that number divided
-- by 1024, whatever the file says further on.
pub parse_mem_total-mem_line :
    (lines : List Bytes) (n c : ℕ) (word rest : Bytes) (kb : ℕ)
    → AllOthers lines
    → solid (c ∷ word) ≡ true
    → parse_uint (c ∷ word) ≡ some kb
    → parse_mem_total (after_lines lines (mem_line n (c ∷ word) ++ (b'\n' ∷ rest))) ≡ kb / 1024
unfolding parse_mem_total
parse_mem_total-mem_line lines n c word rest kb others clean read =
    mem_total_from-after_lines lines (mem_line n (c ∷ word) ++ (b'\n' ∷ rest)) others
    ∙ ap mem_total_from
        (split_line (mem_line n (c ∷ word)) rest (no_newline-mem_line n (c ∷ word) clean))
    ∙ ap (λ fs. mem_of_fields fs (mem_total_from (split b'\n' rest)))
        (fields-mem_line n c word clean)
    ∙ rw (read, mem_of_fields) refl
