-- ===== src/Namemap/Tests.antt =====
-- The theorems on namemap.c at small files, with an `fnmatch` of no wildcards.
use mathlib.Core.Path.{refl}
use ioapps.Base.{
  Bool, ◌&&◌, ◌==◌, ℕ, ◌≡◌, if◌then◌else◌, true, false, List, [], ◌∷◌, ◌++◌, some, replicate, All,
  ◌≢◌, arith,
}
use ioapps.Base.Run.{ok}
use ioapps.Namemap.{
  NamemapItem, Namemap, Match, no_match, matched, max_string, opened, namemap_init,
  namemap_get_name, namemap_load_item, namemap_load_items, scan,
}
use ioapps.Namemap.Files.{IsPattern, ignore_text}
use ioapps.Namemap.Laws.{get_name-init}
use ioapps.Namemap.Load.{quoted, load_items-quoted}
use ioapps.Namemap.Mapping.{IsMapping, map_line, map_text}
use ioapps.Namemap.Names.{same_name}

abbrev fnmatch_plain : List ℕ → List ℕ → Match
fnmatch_plain line name = if same_name line name then matched else no_match

abbrev tmp : List ℕ
tmp = b'/' ∷ b't' ∷ []

abbrev old : List ℕ
old = b'/' ∷ b'a' ∷ []

abbrev new : List ℕ
new = b'/' ∷ b' ' ∷ b'b' ∷ []

abbrev pair : NamemapItem
pair = record { old_name = old; new_name = new }

abbrev free : ℕ → List ℕ → Bool
free x [] = true
free x (c ∷ line) = if c == x then false else free x line

free-All : (x : ℕ) (line : List ℕ) → free x line ≡ true → All (λ c. c ≢ x) line
free-All x [] h = tt
free-All x (c ∷ line) h = ((λ e. ground (arith, h)), free-All x line (ground (arith, h)))

text-All :
    (line : List ℕ) → free b'\n' line && free 0 line ≡ true → All (λ c. (c ≢ b'\n') × (c ≢ 0)) line
text-All [] h = tt
text-All (c ∷ line) h =
    (((λ e. ground (arith, h)), λ e. ground (arith, h)), text-All line (ground (arith, h)))

tmp-IsPattern : IsPattern tmp
tmp-IsPattern = record { text = text-All tmp refl; size = omega arith; plain = refl }

pair-IsMapping : IsMapping pair
pair-IsMapping = record {
  old_plain = free-All b'"' old refl;
  new_plain = free-All b'"' new refl;
  text = text-All (map_line pair) refl;
  size = omega arith;
}

get_name-init_example :
    (nm : Namemap) × (namemap_init (opened (ignore_text (tmp ∷ []))) (opened (map_text (pair ∷ [])))
      ≡ ok (true, nm))
    × (namemap_get_name fnmatch_plain nm old ≡ ok (some new))
get_name-init_example =
    get_name-init fnmatch_plain (tmp ∷ []) (pair ∷ []) old (tmp-IsPattern, tt) (pair-IsMapping, tt)
      (omega arith)

load_items-quoted_example :
    namemap_load_items (b'"' ∷ (old ++ b'"' ∷ (b' ' ∷ quoted new))) max_string ≡ some (old, new)
load_items-quoted_example =
    load_items-quoted old new b' ' pair-IsMapping.old_plain pair-IsMapping.new_plain (omega arith)
      (omega arith)

load_run :
    namemap_load_item (b'/' ∷ b'a' ∷ b' ' ∷ b'x' ∷ []) max_string ≡ some (old, b' ' ∷ b'x' ∷ [])
unfolding namemap_load_item scan
load_run = refl

abbrev long_line : List ℕ
long_line = replicate 600 b'a'
