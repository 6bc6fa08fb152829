-- ===== src/Namemap.antt =====
-- namemap.c: which files a replay ignores, and which it finds under another name.
-- A name is the C string that an array holds. `fgets` leaves a second NUL behind the one that takes
-- the place of a newline, so that a read one place behind the end of a line gives a NUL too.
pub mod Files
pub mod Laws
pub mod Load
pub mod Mapping
pub mod Names
mod Tests
use ioapps.Base.{
  ℕ, zero, suc, ◌+◌, ◌-◌, ◌*◌, ltb, leb, ◌==◌, if◌then◌else◌, Bool, true, false, ◌&&◌, ◌||◌, List,
  [], ◌∷◌, ◌++◌, Option, none, some, length,
}
use ioapps.Base.Run.{Run, ok, abort, ◌>>=◌}
use ioapps.HashTable.{
  Ops, HashTable, ht_hash_str, hash_table_init, hash_table_insert, hash_table_find,
}

abbrev pub max_string : ℕ
max_string = 512

abbrev pub hash_table_size : ℕ
hash_table_size = 1019

pub record NamemapItem : Type 0 where
  pub old_name : List ℕ
  pub new_name : List ℕ

-- The two globals of namemap.c.
pub record Namemap : Type 0 where
  pub ht_map : HashTable NamemapItem
  pub l_igns : List NamemapItem

-- `! strncmp(a, b, n)`
abbrev pub strncmp_same : ℕ → List ℕ → List ℕ → Bool
strncmp_same zero a b = true
strncmp_same (suc n) [] [] = true
strncmp_same (suc n) [] (y ∷ b) = false
strncmp_same (suc n) (x ∷ a) [] = false
strncmp_same (suc n) (x ∷ a) (y ∷ b) = (x == y) && strncmp_same n a b

-- `ht_ops_namemap`
abbrev pub ht_ops_namemap : Ops (List ℕ) NamemapItem
ht_ops_namemap = record {
  hash = ht_hash_str;
  compare = λ key item. strncmp_same max_string item.old_name key;
}

-- The loops of `namemap_load_item`, from the place `i` on: the characters that are copied, those from
-- the place on at which the loop stops, and that place.
unfoldable pub scan : ℕ → ℕ → ℕ → List ℕ → List ℕ × List ℕ × ℕ
scan stop size i [] = ([], [], i)
scan stop size i (c ∷ line) =
    let rest = scan stop size (suc i) line in
    if c == stop || leb size i then ([], c ∷ line, i) else (c ∷ rest.0, rest.1, rest.2)

abbrev pub is_alnum : ℕ → Bool
is_alnum c = (leb b'0' c && leb c b'9') || (leb b'A' c && leb c b'Z') || (leb b'a' c && leb c b'z')

-- What follows the loop for a quoted name, and for another.
abbrev pub end_quoted : List ℕ × List ℕ × ℕ → Option (List ℕ × List ℕ)
end_quoted (name, [], i) = none
end_quoted (name, c ∷ rest, i) = if leb max_string i then none else some (name, rest)

abbrev pub end_plain : List ℕ × List ℕ × ℕ → Option (List ℕ × List ℕ)
end_plain (name, rest, i) = if leb max_string i then none else some (name, rest)

-- The name, and the line from the returned pointer on.
unfoldable pub namemap_load_item : List ℕ → ℕ → Option (List ℕ × List ℕ)
unfolding scan
namemap_load_item [] size = none
namemap_load_item (first ∷ line) size =
    if first == b'"'
    then end_quoted (scan b'"' size 1 line)
    else if is_alnum first || first == b'/'
    then end_plain (scan b' ' size 0 (first ∷ line))
    else none

-- `c + 1`
abbrev pub next_char : List ℕ → List ℕ
next_char [] = []
next_char (c ∷ line) = line

abbrev pub whole : List ℕ × List ℕ → List ℕ → Option (List ℕ × List ℕ)
whole (new_name, []) old_name = some (old_name, new_name)
whole (new_name, c ∷ line) old_name = none

unfoldable pub namemap_load_items : List ℕ → ℕ → Option (List ℕ × List ℕ)
unfolding namemap_load_item
namemap_load_items line size = elim (namemap_load_item line size) [
  | none ↦ none
  | some first ↦ elim (namemap_load_item (next_char first.1) size) [
    | none ↦ none
    | some second ↦ whole second first.0
  ]
]

-- `fgets`: at most so many bytes, up to a newline.
unfoldable pub fgets_loop : ℕ → List ℕ → List ℕ × List ℕ
fgets_loop zero file = ([], file)
fgets_loop (suc n) [] = ([], [])
fgets_loop (suc n) (c ∷ file) =
    let rest = fgets_loop n file in if c == b'\n' then (c ∷ [], file) else (c ∷ rest.0, rest.1)

-- The loop that cuts a line at its newline, which it looks for in the first MAX_STRING places.
unfoldable pub cut_newline : ℕ → List ℕ → Option (List ℕ)
cut_newline i [] = none
cut_newline i (c ∷ line) =
    let rest = cut_newline (suc i) line in
    if leb max_string i || c == 0
    then none
    else if c == b'\n'
    then some []
    else elim rest [ none ↦ none | some cut ↦ some (c ∷ cut) ]

abbrev pub is_comment : List ℕ → Bool
is_comment [] = false
is_comment (c ∷ line) = c == b'#'

-- The loop over the lines of the ignore file. The result is whether it went through.
unfoldable pub load_igns : ℕ → List NamemapItem → List ℕ → Bool × List NamemapItem
unfolding fgets_loop cut_newline
load_igns fuel igns [] = (true, igns)
load_igns zero igns (c ∷ file) = (false, igns)
load_igns (suc fuel) igns (c ∷ file) =
    let got = fgets_loop (max_string - 1) (c ∷ file) in
    let skipped = load_igns fuel igns got.1 in
    if is_comment got.0 then skipped else elim (cut_newline 0 got.0) [
      | none ↦ (false, igns)
      | some line ↦ load_igns fuel (igns ++ record { old_name = line; new_name = [] } ∷ []) got.1
    ]

-- The loop over the lines of the mapping file.
unfoldable pub load_map : ℕ → HashTable NamemapItem → List ℕ → Run (Bool × HashTable NamemapItem)
unfolding fgets_loop cut_newline namemap_load_items
load_map fuel ht_map [] = ok (true, ht_map)
load_map zero ht_map (c ∷ file) = ok (false, ht_map)
load_map (suc fuel) ht_map (c ∷ file) =
    let got = fgets_loop (2 * max_string + 2 - 1) (c ∷ file) in
    let skipped = load_map fuel ht_map got.1 in
    if is_comment got.0 then skipped else elim (cut_newline 0 got.0) [
      | none ↦ ok (false, ht_map)
      | some line ↦ elim (namemap_load_items line max_string) [
        | none ↦ ok (false, ht_map)
        | some names ↦ (do
          ht ←
              hash_table_insert ht_ops_namemap ht_map names.0
                (record { old_name = names.0; new_name = names.1 })
          load_map fuel ht got.1)
      ]
    ]

-- A file name argument: NULL, of a file that does not open, or of a file with this content.
pub data FileArg : Type 0 where
  not_given : FileArg
  not_opened : FileArg
  opened : List ℕ → FileArg

abbrev pub map_file :
    FileArg → Bool × List NamemapItem → HashTable NamemapItem → Run (Bool × Namemap)
map_file (opened mfile) (true, igns) ht_map = do
  loaded ← load_map (length mfile) ht_map mfile
  ok (loaded.0, record { ht_map = loaded.1; l_igns = igns })
map_file _ (done, igns) ht_map = ok (done, record { ht_map = ht_map; l_igns = igns })

-- Both files are opened before one is read. The result is whether the call returns 0.
unfoldable pub namemap_init : FileArg → FileArg → Run (Bool × Namemap)
unfolding load_igns load_map
namemap_init not_opened mfile =
    ok (false, record { ht_map = hash_table_init hash_table_size; l_igns = [] })
namemap_init ifile not_opened =
    ok (false, record { ht_map = hash_table_init hash_table_size; l_igns = [] })
namemap_init not_given mfile = map_file mfile (true, []) (hash_table_init hash_table_size)
namemap_init (opened ifile) mfile =
    map_file mfile (load_igns (length ifile) [] ifile) (hash_table_init hash_table_size)

-- What `fnmatch` returns.
pub data Match : Type 0 where
  matched no_match match_error : Match

abbrev pub is_ignored : Match → Bool
is_ignored no_match = false
is_ignored _ = true

-- `fnmatch` is libc's; its arguments are the pattern and the name.
module _ (fnmatch : List ℕ → List ℕ → Match) where
  unfoldable pub in_igns : List ℕ → List NamemapItem → Bool
  in_igns name [] = false
  in_igns name (nm_item ∷ items) =
      if is_ignored (fnmatch nm_item.old_name name) then true else in_igns name items

  unfoldable pub namemap_get_name : Namemap → List ℕ → Run (Option (List ℕ))
  unfolding in_igns
  namemap_get_name nm name = if in_igns name nm.l_igns then ok none else (do
    item ← hash_table_find ht_ops_namemap nm.ht_map name
    elim item [ none ↦ ok (some name) | some nm_item ↦ ok (some nm_item.new_name) ])
