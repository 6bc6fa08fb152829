-- ===== src/Namemap/Mapping.antt =====
-- Whole mapping files, and what `namemap_get_name` answers after them.
use mathlib.Core.Path.{subst}
use ioapps.Base.{
  ℕ, zero, suc, ◌+◌, ◌-◌, ◌*◌, ◌<◌, ◌≤◌, ◌≡◌, ◌≢◌, refl, sym, ap, ◌∙◌, ◌==◌, if◌then◌else◌, Bool,
  true, false, List, [], ◌∷◌, ◌++◌, append_assoc, append-nil, All, none, some, length,
  length-append, arith,
}
use ioapps.Base.Run.{Run, ok, ◌>>=◌, >>=-ok}
use ioapps.HashTable.{HashTable, hash_table_insert}
use ioapps.HashTable.Index.{IsIndex, insert-IsIndex, insert_placed}
use ioapps.Namemap.{
  NamemapItem, max_string, cut_newline, is_comment, load_map, ht_ops_namemap, namemap_load_items,
}
use ioapps.Namemap.Load.{quoted, load_items-quoted}
use ioapps.Namemap.Files.{fgets-line, cut-line, cut-long, no_newline}
use ioapps.Namemap.Names.{
  ShortName, short_ops, short_ops-IsLawful, short_ops-IsPlacing, insert-short, strncmp_same_refl,
}

-- A pair of quoted names as a line of the mapping file.
abbrev pub map_line : NamemapItem → List ℕ
map_line pair = b'"' ∷ (pair.old_name ++ b'"' ∷ (b' ' ∷ quoted pair.new_name))

-- The names have no quote, newline or NUL, and the line is one that `cut_newline` takes.
pub record IsMapping (pair : NamemapItem) : Type 0 where
  pub old_plain : All (λ c. c ≢ b'"') pair.old_name
  pub new_plain : All (λ c. c ≢ b'"') pair.new_name
  pub text : All (λ c. (c ≢ b'\n') × (c ≢ 0)) (map_line pair)
  pub size : length (map_line pair) < max_string

abbrev pub map_text : List NamemapItem → List ℕ
map_text [] = []
map_text (pair ∷ pairs) = map_line pair ++ b'\n' ∷ map_text pairs

map_line-length :
    (pair : NamemapItem) → length (map_line pair) ≡ length pair.old_name + length pair.new_name + 5
map_line-length pair = omega (
  arith,
  length-append pair.old_name (b'"' ∷ (b' ' ∷ quoted pair.new_name)),
  length-append pair.new_name (b'"' ∷ []),
)

load_items-pair :
    (pair : NamemapItem)
    → IsMapping pair
    → namemap_load_items (map_line pair) max_string ≡ some (pair.old_name, pair.new_name)
load_items-pair pair h =
    load_items-quoted pair.old_name pair.new_name b' ' h.old_plain h.new_plain
      (omega (arith, h.size, map_line-length pair)) (omega (arith, h.size, map_line-length pair))

-- A round of `load_map` behind its `fgets`.
abbrev map_round : ℕ → HashTable NamemapItem → List ℕ × List ℕ → Run (Bool × HashTable NamemapItem)
map_round fuel ht_map got =
    if is_comment got.0 then load_map fuel ht_map got.1 else elim (cut_newline 0 got.0) [
      | none ↦ ok (false, ht_map)
      | some line ↦ elim (namemap_load_items line max_string) [
        | none ↦ ok (false, ht_map)
        | some names ↦
            hash_table_insert ht_ops_namemap ht_map names.0
              (record { old_name = names.0; new_name = names.1 })
            >>= λ ht. load_map fuel ht got.1
      ]
    ]

map_round-line :
    (fuel : ℕ) (ht_map : HashTable NamemapItem) (pair : NamemapItem) (rest : List ℕ)
    → IsMapping pair
    → map_round fuel ht_map (map_line pair ++ b'\n' ∷ [], rest)
      ≡ (hash_table_insert ht_ops_namemap ht_map pair.old_name pair >>= λ ht. load_map fuel ht rest)
map_round-line fuel ht_map pair rest h =
    rw (cut-line 0 (map_line pair) h.text (omega (arith, h.size)), load_items-pair pair h) refl

map-step :
    (fuel : ℕ) (ht_map : HashTable NamemapItem) (pair : NamemapItem) (rest : List ℕ)
    → IsMapping pair
    → load_map (suc fuel) ht_map (map_line pair ++ b'\n' ∷ rest)
      ≡ (hash_table_insert ht_ops_namemap ht_map pair.old_name pair >>= λ ht. load_map fuel ht rest)
unfolding load_map
map-step fuel ht_map pair rest h =
    ap (map_round fuel ht_map) (
      fgets-line (2 * max_string + 2 - 1) (map_line pair) rest (no_newline (map_line pair) h.text)
        (omega (arith, h.size)))
    ∙ map_round-line fuel ht_map pair rest h

insert-pair :
    (t : HashTable NamemapItem) (pair : NamemapItem) (items : List NamemapItem)
    → IsMapping pair
    → 0 < length t.entry
    → IsIndex short_ops t items
    → (t' : HashTable NamemapItem) × (hash_table_insert ht_ops_namemap t pair.old_name pair ≡ ok t')
      × (0 < length t'.entry)
      × IsIndex short_ops t' (items ++ pair ∷ [])
insert-pair t pair items h wide index =
    let key : ShortName = record {
      chars = pair.old_name;
      short = omega (arith, h.size, map_line-length pair);
    } in
    let (t', run, same) =
      insert_placed short_ops t key pair (short_ops-IsPlacing (length t.entry) wide) in
    (
      t',
      insert-short t key pair ∙ run,
      omega (arith, same, wide),
      insert-IsIndex short_ops short_ops-IsLawful t t' key pair items
          (strncmp_same_refl max_string pair.old_name) index run,
    )

-- The pairs of a file, each on a line of its own, are added to the table in their order.
pub load_map-lines :
    (pairs : List NamemapItem) (fuel : ℕ) (t : HashTable NamemapItem) (items : List NamemapItem)
    → All IsMapping pairs
    → length (map_text pairs) ≤ fuel
    → 0 < length t.entry
    → IsIndex short_ops t items
    → (t' : HashTable NamemapItem) × (load_map fuel t (map_text pairs) ≡ ok (true, t'))
      × IsIndex short_ops t' (items ++ pairs)
unfolding load_map
load_map-lines [] fuel t items h enough wide index =
    (t, refl, subst (IsIndex short_ops t) (sym (append-nil items)) index)
load_map-lines (pair ∷ pairs) zero t items h enough wide index = absurd (omega arith)
load_map-lines (pair ∷ pairs) (suc fuel) t items h enough wide index =
    let (t', run, wide', index') = insert-pair t pair items h.0 wide index in
    let less : length (map_text pairs) ≤ fuel =
      omega (arith, length-append (map_line pair) (b'\n' ∷ map_text pairs)) in
    let (last, rest, all) =
      load_map-lines pairs fuel t' (items ++ pair ∷ []) h.1 less wide' index' in
    (
      last,
      map-step fuel t pair (map_text pairs) h.0 ∙ >>=-ok _ run ∙ rest,
      subst (IsIndex short_ops last) (append_assoc items (pair ∷ []) pairs) all,
    )

-- A line of 512 to 1024 characters, no comment, ends `load_map` in an error, with the table as it
-- is, though `fgets` reads the line whole.
pub load_map-long :
    (fuel : ℕ) (t : HashTable NamemapItem) (c : ℕ) (line rest : List ℕ)
    → All (λ x. x ≢ b'\n') (c ∷ line)
    → (c == b'#') ≡ false
    → max_string ≤ length (c ∷ line)
    → length (c ∷ line) ≤ 2 * max_string
    → load_map (suc fuel) t (c ∷ (line ++ b'\n' ∷ rest)) ≡ ok (false, t)
unfolding load_map
load_map-long fuel t c line rest text plain long fits =
    ap (map_round fuel t) (fgets-line (2 * max_string + 2 - 1) (c ∷ line) rest text (omega arith))
    ∙ rw (plain, cut-long 0 (c ∷ line) (b'\n' ∷ []) text (omega arith)) refl
