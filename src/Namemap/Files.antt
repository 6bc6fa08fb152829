-- ===== src/Namemap/Files.antt =====
-- Whole ignore and mapping files, line after line.
use ioapps.Base.{
  ℕ, zero, suc, ◌+◌, ◌<◌, ◌≤◌, ◌≡◌, ◌≢◌, refl, sym, ap, ◌-◌, ◌∙◌, if◌then◌else◌, Bool, true, false,
  List, [], ◌∷◌, ◌++◌, append_assoc, append-nil, All, none, some, length, length-append, arith,
}
use ioapps.Namemap.{NamemapItem, max_string, fgets_loop, cut_newline, is_comment, load_igns}

pub fgets-line :
    (n : ℕ) (line rest : List ℕ)
    → All (λ c. c ≢ b'\n') line
    → length line < n
    → fgets_loop n (line ++ b'\n' ∷ rest) ≡ (line ++ b'\n' ∷ [], rest)
unfolding fgets_loop
fgets-line zero line rest h lt = absurd (omega arith)
fgets-line (suc n) [] rest h lt = refl
fgets-line (suc n) (c ∷ line) rest h lt =
    rw (fgets-line n line rest h.1 (omega arith)) (ground (arith, h.0))

pub cut-line :
    (i : ℕ) (line : List ℕ)
    → All (λ c. (c ≢ b'\n') × (c ≢ 0)) line
    → i + length line < max_string
    → cut_newline i (line ++ b'\n' ∷ []) ≡ some line
unfolding cut_newline
cut-line i [] h lt = ground arith
cut-line i (c ∷ line) h lt =
    rw (cut-line (suc i) line h.1 (omega arith)) (ground (arith, h.0.0, h.0.1))

pub no_newline : (line : List ℕ) → All (λ c. (c ≢ b'\n') × (c ≢ 0)) line → All (λ c. c ≢ b'\n') line
no_newline [] h = tt
no_newline (c ∷ line) h = (h.0.0, no_newline line h.1)

-- A pattern as a line of the ignore file: `fgets` reads it whole, and it is no comment.
pub record IsPattern (line : List ℕ) : Type 0 where
  pub text : All (λ c. (c ≢ b'\n') × (c ≢ 0)) line
  pub size : length line + 1 < max_string
  pub plain : is_comment line ≡ false

abbrev pub pattern_item : List ℕ → NamemapItem
pattern_item line = record { old_name = line; new_name = [] }

abbrev pub ignore_text : List (List ℕ) → List ℕ
ignore_text [] = []
ignore_text (line ∷ lines) = line ++ b'\n' ∷ ignore_text lines

-- A round of `load_igns` and of `load_map` behind its `fgets`.
abbrev igns_round : ℕ → List NamemapItem → List ℕ × List ℕ → Bool × List NamemapItem
igns_round fuel igns got =
    if is_comment got.0 then load_igns fuel igns got.1 else elim (cut_newline 0 got.0) [
      | none ↦ (false, igns)
      | some line ↦ load_igns fuel (igns ++ pattern_item line ∷ []) got.1
    ]

igns_round-line :
    (fuel : ℕ) (igns : List NamemapItem) (line rest : List ℕ)
    → IsPattern line
    → is_comment (line ++ b'\n' ∷ []) ≡ false
    → igns_round fuel igns (line ++ b'\n' ∷ [], rest)
      ≡ load_igns fuel (igns ++ pattern_item line ∷ []) rest
igns_round-line fuel igns line rest h plain =
    rw (plain, cut-line 0 line h.text (omega (arith, h.size))) refl

igns-step :
    (fuel : ℕ) (igns : List NamemapItem) (line rest : List ℕ)
    → IsPattern line
    → load_igns (suc fuel) igns (line ++ b'\n' ∷ rest)
      ≡ load_igns fuel (igns ++ pattern_item line ∷ []) rest
unfolding load_igns
igns-step fuel igns [] rest h = refl
igns-step fuel igns (c ∷ line) rest h =
    ap (igns_round fuel igns) (
      fgets-line (max_string - 1) (c ∷ line) rest (no_newline (c ∷ line) h.text)
        (omega (arith, h.size)))
    ∙ igns_round-line fuel igns (c ∷ line) rest h h.plain

abbrev pub pattern_items : List (List ℕ) → List NamemapItem
pattern_items [] = []
pattern_items (line ∷ lines) = pattern_item line ∷ pattern_items lines

-- The patterns of a file, each on a line of its own, are appended in their order.
pub load_igns-lines :
    (lines : List (List ℕ)) (fuel : ℕ) (igns : List NamemapItem)
    → All IsPattern lines
    → length (ignore_text lines) ≤ fuel
    → load_igns fuel igns (ignore_text lines) ≡ (true, igns ++ pattern_items lines)
unfolding load_igns
load_igns-lines [] fuel igns h enough = ap (λ t. (true, t)) (sym (append-nil igns))
load_igns-lines (line ∷ lines) zero igns h enough =
    absurd (omega (arith, length-append line (b'\n' ∷ ignore_text lines)))
load_igns-lines (line ∷ lines) (suc fuel) igns h enough =
    igns-step fuel igns line (ignore_text lines) h.0
    ∙ load_igns-lines lines fuel (igns ++ pattern_item line ∷ []) h.1
        (omega (arith, length-append line (b'\n' ∷ ignore_text lines)))
    ∙ ap (λ t. (true, t)) (append_assoc igns (pattern_item line ∷ []) (pattern_items lines))

fgets-end :
    (n : ℕ) (line : List ℕ)
    → All (λ c. c ≢ b'\n') line
    → length line < n
    → fgets_loop n line ≡ (line, [])
unfolding fgets_loop
fgets-end zero line h lt = absurd (omega arith)
fgets-end (suc n) [] h lt = refl
fgets-end (suc n) (c ∷ line) h lt = rw (fgets-end n line h.1 (omega arith)) (ground (arith, h.0))

cut-end : (i : ℕ) (line : List ℕ) → All (λ c. c ≢ b'\n') line → cut_newline i line ≡ none
unfolding cut_newline
cut-end i [] h = refl
cut-end i (c ∷ line) h = rw (cut-end (suc i) line h.1) (ground (arith, h.0))

pub cut-long :
    (i : ℕ) (line rest : List ℕ)
    → All (λ c. c ≢ b'\n') line
    → max_string ≤ i + length line
    → cut_newline i (line ++ rest) ≡ none
unfolding cut_newline
cut-long i [] [] h long = refl
cut-long i [] (c ∷ rest) h long = ground arith
cut-long i (c ∷ line) rest h long =
    rw (cut-long (suc i) line rest h.1 (omega arith)) (ground (arith, h.0))

igns-end :
    (fuel : ℕ) (igns : List NamemapItem) (c : ℕ) (line : List ℕ)
    → IsPattern (c ∷ line)
    → load_igns (suc fuel) igns (c ∷ line) ≡ (false, igns)
unfolding load_igns
igns-end fuel igns c line h =
    ap (igns_round fuel igns)
      (fgets-end (max_string - 1) (c ∷ line) (no_newline (c ∷ line) h.text) (omega (arith, h.size)))
    ∙ rw (h.plain, cut-end 0 (c ∷ line) (no_newline (c ∷ line) h.text)) refl

-- An ignore file of patterns of up to 510 characters, no comments, whose last line has no newline
-- behind it, ends in an error, with the patterns before that line loaded.
pub load_igns-unterminated :
    (lines : List (List ℕ)) (c : ℕ) (line : List ℕ) (fuel : ℕ) (igns : List NamemapItem)
    → All IsPattern lines
    → IsPattern (c ∷ line)
    → length (ignore_text lines ++ c ∷ line) ≤ fuel
    → load_igns fuel igns (ignore_text lines ++ c ∷ line) ≡ (false, igns ++ pattern_items lines)
unfolding load_igns
load_igns-unterminated [] c line zero igns h last enough = absurd (omega arith)
load_igns-unterminated [] c line (suc fuel) igns h last enough =
    igns-end fuel igns c line last ∙ ap (λ t. (false, t)) (sym (append-nil igns))
load_igns-unterminated (first ∷ lines) c line zero igns h last enough =
    absurd (omega (arith, length-append (ignore_text (first ∷ lines)) (c ∷ line)))
load_igns-unterminated (first ∷ lines) c line (suc fuel) igns h last enough =
    ap (load_igns (suc fuel) igns) (append_assoc first (b'\n' ∷ ignore_text lines) (c ∷ line))
    ∙ igns-step fuel igns first (ignore_text lines ++ c ∷ line) h.0
    ∙ load_igns-unterminated lines c line fuel (igns ++ pattern_item first ∷ []) h.1 last (
        omega (
          arith,
          length-append (ignore_text (first ∷ lines)) (c ∷ line),
          length-append first (b'\n' ∷ ignore_text lines),
          length-append (ignore_text lines) (c ∷ line),
        ))
    ∙ ap (λ t. (false, t)) (append_assoc igns (pattern_item first ∷ []) (pattern_items lines))
