-- ===== src/Parsing/Flags.antt =====
-- `strtok` on names with a delimiter between each two.
use ioapps.Base.{
  ℕ, ◌≡◌, ◌≢◌, refl, sym, ap, ◌∙◌, ◌==◌, ==_refl, append-nil, false, List, [], ◌∷◌, ◌++◌, All,
}
use ioapps.Parsing.{emit, strtok_parts, strtok_all}

-- The names with a delimiter between each two.
abbrev pub joined : ℕ → List (List ℕ) → List ℕ
joined delim [] = []
joined delim (s ∷ []) = s
joined delim (s ∷ t ∷ names) = s ++ delim ∷ joined delim (t ∷ names)

abbrev pub Lacks : ℕ → List ℕ → Type 0
Lacks c s = All (λ x. (x == c) ≡ false) s

-- A name has a character, and none is the delimiter.
abbrev pub IsName : ℕ → List ℕ → Type 0
IsName delim s = (s ≢ []) × Lacks delim s

parts-name :
    (delim : ℕ) (s rest : List ℕ)
    → Lacks delim s
    → strtok_parts delim (s ++ rest)
      ≡ (s ++ (strtok_parts delim rest).0, (strtok_parts delim rest).1)
unfolding strtok_parts
parts-name delim [] rest h = refl
parts-name delim (x ∷ s) rest (ne, h) = rw ne (ap (λ r. (x ∷ r.0, r.1)) (parts-name delim s rest h))

emit-some : (s : List ℕ) (parts : List (List ℕ)) → s ≢ [] → emit (s, parts) ≡ s ∷ parts
emit-some [] parts h = absurd (h refl)
emit-some (x ∷ s) parts h = refl

pub parts-delim :
    (delim : ℕ) (str : List ℕ) → strtok_parts delim (delim ∷ str) ≡ ([], strtok_all delim str)
unfolding strtok_parts strtok_all
parts-delim delim str = rw (==_refl delim) refl

-- A name with something behind it that begins no longer token.
pub name-first :
    (delim : ℕ) (s rest : List ℕ) (parts : List (List ℕ))
    → IsName delim s
    → strtok_parts delim rest ≡ ([], parts)
    → strtok_all delim (s ++ rest) ≡ s ∷ parts
unfolding strtok_all
name-first delim s rest parts (some_char, lacks) e =
    ap emit (
      parts-name delim s rest lacks
      ∙ ap (λ r. (s ++ r.0, r.1)) e
      ∙ ap (λ z. (z, parts)) (append-nil s))
    ∙ emit-some s parts some_char

pub strtok_all-joined :
    (delim : ℕ) (names : List (List ℕ))
    → All (IsName delim) names
    → strtok_all delim (joined delim names) ≡ names
unfolding strtok_all strtok_parts
strtok_all-joined delim [] h = refl
strtok_all-joined delim (s ∷ []) (n, h) =
    ap (strtok_all delim) (sym (append-nil s)) ∙ name-first delim s [] [] n refl
strtok_all-joined delim (s ∷ t ∷ names) (n, h) = name-first delim s _ _ n (
    parts-delim delim (joined delim (t ∷ names))
    ∙ ap (λ z. ([], z)) (strtok_all-joined delim (t ∷ names) h))
