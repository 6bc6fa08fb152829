-- ===== src/Namemap/Laws.antt =====
-- The answers of `namemap_get_name` after `namemap_init`.

use ioapps.Base.{
  ℕ, ◌<◌, ◌≡◌, refl, ap, ◌∙◌, ◌||◌, if◌then◌else◌, Bool, true, false, Bool-cases, inl, inr, List,
  [], ◌∷◌, All, Option, none, some, length, arith,
}
use ioapps.Base.Run.{ok, >>=-ok}
use ioapps.Base.Int
use ioapps.HashTable.{HashTable, hash_table_init, find_in}
use ioapps.HashTable.Index.{IsIndex, init-IsIndex}
use ioapps.HashTable.IntKeys.{length-init}
use ioapps.Namemap.{
  NamemapItem, Namemap, Match, is_ignored, max_string, hash_table_size, opened, map_file,
  namemap_init, in_igns, namemap_get_name,
}
use ioapps.Namemap.Files.{IsPattern, ignore_text, pattern_items, load_igns-lines}
use ioapps.Namemap.Mapping.{IsMapping, map_text, load_map-lines}
use ioapps.Namemap.Names.{
  ShortName, short_ops, short_ops-IsPlacing, find-short, renamed, new_name_of, find_in-renamed,
}

-- Some pattern matches the name, or cannot be tried on it.
abbrev pub ignores : (List ℕ → List ℕ → Match) → List (List ℕ) → List ℕ → Bool
ignores fnmatch [] name = false
ignores fnmatch (pattern_ ∷ patterns) name =
    is_ignored (fnmatch pattern_ name) || ignores fnmatch patterns name

in_igns-patterns :
    (fnmatch : List ℕ → List ℕ → Match) (patterns : List (List ℕ)) (name : List ℕ)
    → in_igns fnmatch name (pattern_items patterns) ≡ ignores fnmatch patterns name
unfolding in_igns
in_igns-patterns fnmatch [] name = refl
in_igns-patterns fnmatch (line ∷ lines) name = ground (arith, in_igns-patterns fnmatch lines name)

answer-found :
    (name : List ℕ) (item : Option NamemapItem)
    → (elim item [ none ↦ ok (some name) | some nm_item ↦ ok (some nm_item.new_name) ])
      ≡ ok (some (new_name_of name item))
answer-found name none = refl
answer-found name (some item) = refl

get_name-loaded :
    (fnmatch : List ℕ → List ℕ → Match) (patterns : List (List ℕ)) (pairs : List NamemapItem)
    (t : HashTable NamemapItem) (q : ShortName)
    → IsIndex short_ops t pairs
    → namemap_get_name fnmatch (record { ht_map = t; l_igns = pattern_items patterns }) q.chars
      ≡ ok (if ignores fnmatch patterns q.chars then none else some (renamed pairs q.chars))
unfolding namemap_get_name
get_name-loaded fnmatch patterns pairs t q index =
    rw (in_igns-patterns fnmatch patterns q.chars)
      (elim (Bool-cases (ignores fnmatch patterns q.chars)) [
        | inl e ↦ rw e refl
        | inr e ↦ rw e (
            >>=-ok _ (find-short t q ∙ index q)
            ∙ answer-found q.chars (find_in short_ops q pairs)
            ∙ ap (λ n. ok (some n)) (find_in-renamed pairs q))
      ])

init-loaded :
    (patterns : List (List ℕ)) (pairs : List NamemapItem)
    → All IsPattern patterns
    → All IsMapping pairs
    → (t : HashTable NamemapItem) × (namemap_init
          (opened (ignore_text patterns))
          (opened (map_text pairs))
        ≡ ok (true, record { ht_map = t; l_igns = pattern_items patterns }))
      × IsIndex short_ops t pairs
unfolding namemap_init
init-loaded patterns pairs hi hm =
    let start : HashTable NamemapItem = hash_table_init hash_table_size in
    let wide : 0 < length start.entry =
      omega (arith, length-init {V = NamemapItem} (λ i. Int.pos 0) hash_table_size) in
    let (t, run, index) =
      load_map-lines pairs (length (map_text pairs)) start [] hm (omega arith) wide
        (init-IsIndex short_ops hash_table_size (short_ops-IsPlacing (length start.entry) wide)) in
    (
      t,
      ap (λ got. map_file (opened (map_text pairs)) got start)
            (load_igns-lines patterns (length (ignore_text patterns)) [] hi (omega arith))
          ∙ >>=-ok _ run,
      index,
    )

-- For any `fnmatch`, where the lines of the ignore file are patterns of up to 510 characters and those
-- of the mapping file pairs of quoted names, shorter than 512 with the quotes, and no line is a comment
-- or has a NUL, `namemap_init` succeeds, and `namemap_get_name` of a name shorter than 512
-- characters then answers NULL if a pattern matches it or cannot be tried, else the new name of the
-- first pair with that old name, else the name itself.
pub get_name-init :
    (fnmatch : List ℕ → List ℕ → Match) (patterns : List (List ℕ)) (pairs : List NamemapItem)
    (name : List ℕ)
    → All IsPattern patterns
    → All IsMapping pairs
    → length name < max_string
    → (nm : Namemap) × (namemap_init (opened (ignore_text patterns)) (opened (map_text pairs))
        ≡ ok (true, nm))
      × (namemap_get_name fnmatch nm name
          ≡ ok (if ignores fnmatch patterns name then none else some (renamed pairs name)))
get_name-init fnmatch patterns pairs name hi hm short =
    let (t, run, index) = init-loaded patterns pairs hi hm in
    (
      record { ht_map = t; l_igns = pattern_items patterns },
      run,
      get_name-loaded fnmatch patterns pairs t (record { chars = name; short = short }) index,
    )
