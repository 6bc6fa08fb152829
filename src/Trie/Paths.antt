-- ===== src/Trie/Paths.antt =====
-- adt/fs_trie.c: the text of a path, as the functions of the trie read it.
use ioapps.Base.{
  ℕ, suc, ◌≡◌, refl, sym, ap, ◌∙◌, ◌==◌, ==_refl, append-nil, append_assoc, Bool-cases, inl, inr,
  true, false, List, [], ◌∷◌, ◌++◌, All, All-append, length-append, ◌+◌, arith, none, some, length,
}
use ioapps.Parsing.{same, strtok_parts, strtok_all, emit}
use ioapps.Parsing.Flags.{Lacks, IsName, name-first, parts-delim}
use ioapps.Trie.Insert.{behind_last, common, c_str}

-- The delimiter and the key, for each key.
abbrev pub path_of : ℕ → List (List ℕ) → List ℕ
path_of delim [] = []
path_of delim (k ∷ ks) = delim ∷ k ++ path_of delim ks

-- A key of a path: it has a character, none is the delimiter, and none ends the string.
abbrev pub IsKey : ℕ → List ℕ → Type 0
IsKey delim k = IsName delim k × Lacks 0 k

abbrev pub IsPath : ℕ → List (List ℕ) → Type 0
IsPath delim ks = All (IsKey delim) ks

strtok_parts-path_of :
    (delim : ℕ) (ks : List (List ℕ))
    → IsPath delim ks
    → strtok_parts delim (path_of delim ks) ≡ ([], ks)
unfolding strtok_parts
strtok_parts-path_of delim [] h = refl
strtok_parts-path_of delim (k ∷ ks) ((name, _), h) =
    parts-delim delim (k ++ path_of delim ks)
    ∙ ap (λ z. ([], z))
        (name-first delim k (path_of delim ks) ks name (strtok_parts-path_of delim ks h))

pub strtok_all-path_of :
    (delim : ℕ) (ks : List (List ℕ)) → IsPath delim ks → strtok_all delim (path_of delim ks) ≡ ks
unfolding strtok_all
strtok_all-path_of delim ks h = ap emit (strtok_parts-path_of delim ks h)

behind_last-Lacks : (c : ℕ) (s : List ℕ) → Lacks c s → behind_last c s ≡ none
behind_last-Lacks c [] h = refl
behind_last-Lacks c (x ∷ s) (ne, h) = rw (behind_last-Lacks c s h, ne) refl

pub behind_last-append :
    (c : ℕ) (s part : List ℕ) → Lacks c part → behind_last c (s ++ c ∷ part) ≡ some part
behind_last-append c [] part h = rw (behind_last-Lacks c part h, ==_refl c) refl
behind_last-append c (x ∷ s) part h = rw (behind_last-append c s part h) refl

pub same_refl : (a : List ℕ) → same a a ≡ true
same_refl [] = refl
same_refl (x ∷ a) = rw (==_refl x, same_refl a) refl

pub same-append : (a : List ℕ) (c : ℕ) (b : List ℕ) → same a (a ++ c ∷ b) ≡ false
same-append [] c b = refl
same-append (x ∷ a) c b = rw (==_refl x, same-append a c b) refl

pub common-append : (a b : List ℕ) → common a (a ++ b) ≡ length a
common-append [] b = refl
common-append (x ∷ a) b = rw (==_refl x, common-append a b) refl

pub c_str-append : (a b : List ℕ) → Lacks 0 a → c_str (a ++ b) ≡ a ++ c_str b
c_str-append [] b h = refl
c_str-append (x ∷ a) b (ne, h) = rw (ne, c_str-append a b h) refl

pub path_of-append :
    (delim : ℕ) (ks js : List (List ℕ))
    → path_of delim (ks ++ js) ≡ path_of delim ks ++ path_of delim js
path_of-append delim [] js = refl
path_of-append delim (k ∷ ks) js =
    ap (λ z. delim ∷ z)
      (ap (λ z. k ++ z) (path_of-append delim ks js)
        ∙ sym (append_assoc k (path_of delim ks) (path_of delim js)))

pub length-path_of-snoc :
    (delim : ℕ) (ks : List (List ℕ)) (k : List ℕ)
    → length (path_of delim (ks ++ k ∷ [])) ≡ length (path_of delim ks) + suc (length k)
length-path_of-snoc delim ks k =
    ap length
      (path_of-append delim ks (k ∷ []) ∙ ap (λ z. path_of delim ks ++ delim ∷ z) (append-nil k))
    ∙ length-append (path_of delim ks) (delim ∷ k)

pub path_of-Lacks :
    (delim : ℕ) (ks : List (List ℕ))
    → (delim == 0) ≡ false
    → IsPath delim ks
    → Lacks 0 (path_of delim ks)
path_of-Lacks delim [] some_delim h = tt
path_of-Lacks delim (k ∷ ks) some_delim ((_, lacks), h) = (
  some_delim,
  All-append (λ x. (x == 0) ≡ false) k (path_of delim ks) lacks
      (path_of-Lacks delim ks some_delim h),
)

pub same-eq : (a b : List ℕ) → same a b ≡ true → a ≡ b
same-eq [] [] h = refl
same-eq [] (y ∷ b) h = cc
same-eq (x ∷ a) [] h = cc
same-eq (x ∷ a) (y ∷ b) h = ground (arith, same-eq a b)

pub same-swap : (a b : List ℕ) → same a b ≡ false → same b a ≡ false
same-swap a b h = elim (Bool-cases (same b a)) [
  | inl s ↦ let e = same-eq b a s in let yes = same_refl a in cc
  | inr s ↦ s
]

pub same_comm : (a b : List ℕ) → same a b ≡ same b a
same_comm [] [] = refl
same_comm [] (y ∷ b) = refl
same_comm (x ∷ a) [] = refl
same_comm (x ∷ a) (y ∷ b) = let rest = same_comm a b in ground arith
