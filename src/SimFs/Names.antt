-- ===== src/SimFs/Names.antt =====
-- simfs.c: `simfs_absolute_name` on absolute paths, where `..` is a part of its own.
use mathlib.Core.Option.{map}
use ioapps.Base.{
  ℕ, zero, suc, ◌≤◌, ◌<◌, ◌≡◌, ◌⊎◌, refl, sym, ap, ◌∙◌, ◌==◌, ==_refl, inl, inr, true, false, List,
  [], ◌∷◌, ◌++◌, append-nil, append_assoc, All, All-append, Option, none, some, length,
  length-append, arith, lt→ltb,
}
use ioapps.Base.Run.{ok}
use ioapps.Parsing.{codes, same}
use ioapps.Parsing.Flags.{Lacks}
use ioapps.Trie.Paths.{path_of, IsKey, path_of-append}
use ioapps.SimFs.{
  Disk, put_before, strstr, before_last, cut_parent, cut_parents, cut_dots, simfs_absolute_name,
}

abbrev pub slash : ℕ
slash = b'/'

abbrev pub parent : List ℕ
parent = codes ".."

-- The first character is no dot.
abbrev pub NoDot : List ℕ → Type 0
NoDot [] = Unit {0}
NoDot (c ∷ k) = (c == b'.') ≡ false

-- A key of a path that does not begin with a dot.
abbrev pub IsPlain : List ℕ → Type 0
IsPlain k = IsKey slash k × NoDot k

abbrev pub IsPart : List ℕ → Type 0
IsPart k = (k ≡ parent) ⊎ IsPlain k

abbrev pub drop_last : List (List ℕ) → List (List ℕ)
drop_last [] = []
drop_last (k ∷ []) = []
drop_last (k ∷ j ∷ ks) = k ∷ drop_last (j ∷ ks)

-- The way that the parts lead, from where the first ones have led; the root is its own parent.
abbrev pub climb : List (List ℕ) → List (List ℕ) → List (List ℕ)
climb way [] = way
climb way (k ∷ ks) = elim (same k parent) [
  | true ↦ climb (drop_last way) ks
  | false ↦ climb (way ++ k ∷ []) ks
]

-- More text in front of what is found.
abbrev put : List ℕ → List ℕ × List ℕ → List ℕ × List ℕ
put front (before, behind) = (front ++ before, behind)

map-map-put :
    (c : ℕ) (front : List ℕ) (o : Option (List ℕ × List ℕ))
    → map (put_before c) (map (put front) o) ≡ map (put (c ∷ front)) o
map-map-put c front none = refl
map-map-put c front (some (before, behind)) = refl

map-put-put :
    (front next : List ℕ) (o : Option (List ℕ × List ℕ))
    → map (put front) (map (put next) o) ≡ map (put (front ++ next)) o
map-put-put front next none = refl
map-put-put front next (some (before, behind)) =
    ap (λ z. some (z, behind)) (sym (append_assoc front next before))

map-put-nil : (o : Option (List ℕ × List ℕ)) → map (put []) o ≡ o
map-put-nil none = refl
map-put-nil (some (before, behind)) = refl

-- A search passes over characters other than a slash.
strstr-Lacks :
    (pat k rest : List ℕ)
    → Lacks slash k
    → strstr (slash ∷ pat) (k ++ rest) ≡ map (put k) (strstr (slash ∷ pat) rest)
strstr-Lacks pat [] rest h = sym (map-put-nil (strstr (slash ∷ pat) rest))
strstr-Lacks pat (c ∷ k) rest (e, h) =
    let other : (slash == c) ≡ false = ground arith in
    rw (strstr, other)
      (ap (map (put_before c)) (strstr-Lacks pat k rest h)
        ∙ map-map-put c k (strstr (slash ∷ pat) rest))

-- A search for a slash and a dot, with more or less behind it, passes over a plain part.
strstr-IsPlain :
    (pat k rest : List ℕ)
    → IsPlain k
    → strstr (slash ∷ b'.' ∷ pat) (slash ∷ k ++ rest)
      ≡ map (put (slash ∷ k)) (strstr (slash ∷ b'.' ∷ pat) rest)
strstr-IsPlain pat [] rest (key, dot) = absurd (key.0.0 refl)
strstr-IsPlain pat (c ∷ k) rest (key, dot) =
    let other : (b'.' == c) ≡ false = ground arith in
    rw (strstr, other)
      (ap (map (put_before slash)) (strstr-Lacks (b'.' ∷ pat) (c ∷ k) rest key.0.1)
        ∙ map-map-put slash (c ∷ k) (strstr (slash ∷ b'.' ∷ pat) rest))

-- A search over plain parts, with something behind them.
strstr-path_of :
    (pat rest : List ℕ) (ks : List (List ℕ))
    → All IsPlain ks
    → strstr (slash ∷ b'.' ∷ pat) (path_of slash ks ++ rest)
      ≡ map (put (path_of slash ks)) (strstr (slash ∷ b'.' ∷ pat) rest)
strstr-path_of pat rest [] h = sym (map-put-nil (strstr (slash ∷ b'.' ∷ pat) rest))
strstr-path_of pat rest (k ∷ ks) (plain, h) =
    ap (λ z. strstr (slash ∷ b'.' ∷ pat) (slash ∷ z)) (append_assoc k (path_of slash ks) rest)
    ∙ strstr-IsPlain pat k (path_of slash ks ++ rest) plain
    ∙ ap (map (put (slash ∷ k))) (strstr-path_of pat rest ks h)
    ∙ map-put-put (slash ∷ k) (path_of slash ks) (strstr (slash ∷ b'.' ∷ pat) rest)

pub strstr-IsPath :
    (pat : List ℕ) (ks : List (List ℕ))
    → All IsPlain ks
    → strstr (slash ∷ b'.' ∷ pat) (path_of slash ks) ≡ none
strstr-IsPath pat ks h =
    ap (strstr (slash ∷ b'.' ∷ pat)) (sym (append-nil (path_of slash ks)))
    ∙ strstr-path_of pat [] ks h

strstr-parent :
    (rest : List ℕ) (way : List (List ℕ))
    → All IsPlain way
    → strstr (slash ∷ parent) (path_of slash way ++ slash ∷ (parent ++ rest))
      ≡ some (path_of slash way, rest)
strstr-parent rest way h =
    strstr-path_of (b'.' ∷ []) (slash ∷ (parent ++ rest)) way h
    ∙ ap (λ z. some (z, rest)) (append-nil (path_of slash way))

before_last-Lacks : (c : ℕ) (s : List ℕ) → Lacks c s → before_last c s ≡ none
before_last-Lacks c [] h = refl
before_last-Lacks c (x ∷ s) (ne, h) = rw (before_last-Lacks c s h, ne) refl

before_last-append :
    (c : ℕ) (s part : List ℕ) → Lacks c part → before_last c (s ++ c ∷ part) ≡ some s
before_last-append c [] part h = rw (before_last-Lacks c part h, ==_refl c) refl
before_last-append c (x ∷ s) part h = rw (before_last-append c s part h) refl

before_last-behind :
    (c : ℕ) (s t b : List ℕ) → before_last c t ≡ some b → before_last c (s ++ t) ≡ some (s ++ b)
before_last-behind c [] t b e = e
before_last-behind c (x ∷ s) t b e = rw (before_last-behind c s t b e) refl

path_of-drop_last :
    (k : List ℕ) (ks : List (List ℕ))
    → All IsPlain (k ∷ ks)
    → before_last slash (path_of slash (k ∷ ks)) ≡ some (path_of slash (drop_last (k ∷ ks)))
path_of-drop_last k [] (plain, h) =
    ap (before_last slash) (ap (λ z. slash ∷ z) (append-nil k))
    ∙ before_last-append slash [] k plain.0.0.1
path_of-drop_last k (j ∷ ks) (plain, h) =
    before_last-behind slash (slash ∷ k) _ _ (path_of-drop_last j ks h)

drop_last-IsPlain : (ks : List (List ℕ)) → All IsPlain ks → All IsPlain (drop_last ks)
drop_last-IsPlain [] h = tt
drop_last-IsPlain (k ∷ []) h = tt
drop_last-IsPlain (k ∷ j ∷ ks) (plain, h) = (plain, drop_last-IsPlain (j ∷ ks) h)

cut_parent-path_of :
    (rest : List ℕ) (way : List (List ℕ))
    → All IsPlain way
    → cut_parent (path_of slash way, rest) ≡ ok (path_of slash (drop_last way) ++ rest)
cut_parent-path_of rest [] h = refl
cut_parent-path_of rest (k ∷ ks) h = rw (cut_parent, path_of-drop_last k ks h) refl

climb-parent : (way ks : List (List ℕ)) → climb way (parent ∷ ks) ≡ climb (drop_last way) ks
climb-parent way ks = refl

climb-plain :
    (way ks : List (List ℕ)) (k : List ℕ)
    → IsPlain k
    → climb way (k ∷ ks) ≡ climb (way ++ k ∷ []) ks
climb-plain way ks [] (key, dot) = absurd (key.0.0 refl)
climb-plain way ks (c ∷ k) (key, dot) = rw (climb, dot) refl

pub climb-IsPlain :
    (way ks : List (List ℕ)) → All IsPlain way → All IsPart ks → All IsPlain (climb way ks)
climb-IsPlain way [] h parts = h
climb-IsPlain way (k ∷ ks) h (inl up, parts) =
    rw up (climb-IsPlain (drop_last way) ks (drop_last-IsPlain way h) parts)
climb-IsPlain way (k ∷ ks) h (inr plain, parts) =
    rw (climb-plain way ks k plain)
      (climb-IsPlain (way ++ k ∷ []) ks (All-append IsPlain way (k ∷ []) h (plain, tt)) parts)

cut_parents-found :
    (fuel : ℕ) (buff : List ℕ) (found : List ℕ × List ℕ) (buff' : List ℕ)
    → strstr (slash ∷ parent) buff ≡ some found
    → cut_parent found ≡ ok buff'
    → cut_parents (suc fuel) buff ≡ cut_parents fuel buff'
unfolding cut_parents
cut_parents-found fuel buff found buff' e cut = rw (cut_parents, e, cut) refl

cut_parents-done :
    (fuel : ℕ) (buff : List ℕ)
    → strstr (slash ∷ parent) buff ≡ none
    → cut_parents fuel buff ≡ ok buff
unfolding cut_parents
cut_parents-done zero buff e = refl
cut_parents-done (suc fuel) buff e = rw (cut_parents, e) refl

-- The loop follows the parts, given as much fuel as there are parts.
cut_parents-climb :
    (fuel : ℕ) (way ks : List (List ℕ))
    → length ks ≤ fuel
    → All IsPlain way
    → All IsPart ks
    → cut_parents fuel (path_of slash way ++ path_of slash ks) ≡ ok (path_of slash (climb way ks))
cut_parents-climb fuel way [] enough h parts =
    ap (cut_parents fuel) (append-nil (path_of slash way))
    ∙ cut_parents-done fuel _ (strstr-IsPath (b'.' ∷ []) way h)
cut_parents-climb zero way (k ∷ ks) enough h parts = absurd (omega arith)
cut_parents-climb (suc fuel) way (k ∷ ks) enough h (inl up, parts) = rw up (
    cut_parents-found fuel _ _ _ (strstr-parent (path_of slash ks) way h)
      (cut_parent-path_of (path_of slash ks) way h)
    ∙ cut_parents-climb fuel (drop_last way) ks (omega arith) (drop_last-IsPlain way h) parts)
cut_parents-climb (suc fuel) way (k ∷ ks) enough h (inr plain, parts) =
    ap (cut_parents (suc fuel)) (
      sym (path_of-append slash way (k ∷ ks))
      ∙ ap (path_of slash) (sym (append_assoc way (k ∷ []) ks))
      ∙ path_of-append slash (way ++ k ∷ []) ks)
    ∙ cut_parents-climb (suc fuel) (way ++ k ∷ []) ks (omega arith)
        (All-append IsPlain way (k ∷ []) h (plain, tt)) parts
    ∙ ap (λ z. ok (path_of slash z)) (sym (climb-plain way ks k plain))

cut_dots-done :
    (fuel : ℕ) (buff : List ℕ) → strstr (slash ∷ b'.' ∷ []) buff ≡ none → cut_dots fuel buff ≡ buff
unfolding cut_dots
cut_dots-done zero buff e = refl
cut_dots-done (suc fuel) buff e = rw (cut_dots, e) refl

length-path_of : (ks : List (List ℕ)) → length ks ≤ length (path_of slash ks)
length-path_of [] = omega arith
length-path_of (k ∷ ks) =
    let rest = length-path_of ks in let both = length-append k (path_of slash ks) in omega arith

-- A text shorter than the buffer that has one slash before each of its parts, one part or more, each
-- `..` or a name that does not begin with a dot: the result of `simfs_absolute_name` is the text of
-- the path to which the parts lead, with one slash before each part, where the way up from the root
-- stays at the root. Where the parts lead to the root itself, the result is the empty text, and not
-- a slash.
pub absolute_name-climb :
    (disk : Disk) (size : ℕ) (k : List ℕ) (ks : List (List ℕ))
    → length (path_of slash (k ∷ ks)) < size
    → All IsPart (k ∷ ks)
    → simfs_absolute_name disk (path_of slash (k ∷ ks)) size
      ≡ ok (path_of slash (climb [] (k ∷ ks)))
unfolding simfs_absolute_name
absolute_name-climb disk size k ks fits parts =
    let name = path_of slash (k ∷ ks) in
    rw
      (
        lt→ltb (length name) size fits,
        cut_parents-climb (length name) [] (k ∷ ks) (length-path_of (k ∷ ks)) tt parts,
      )
      (ap ok (
        cut_dots-done _ _
          (strstr-IsPath [] (climb [] (k ∷ ks)) (climb-IsPlain [] (k ∷ ks) tt parts))))
