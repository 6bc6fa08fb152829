-- ===== src/Namemap/Load.antt =====
-- One line of the mapping file.
use ioapps.Base.{
  Bool-cases, inl, inr, ◌||◌, ℕ, suc, ◌+◌, ◌<◌, ◌≡◌, ◌≢◌, refl, ap, ◌∙◌, ◌==◌, List, [], ◌∷◌, ◌++◌,
  All, none, some, length, arith,
}
use ioapps.Namemap.{
  scan, max_string, namemap_load_item, namemap_load_items, end_quoted, end_plain, is_alnum,
}

-- A scan that meets its stop character, or the end, in time.
scan-append :
    (stop size i : ℕ) (name rest : List ℕ)
    → All (λ c. c ≢ stop) name
    → i + length name < size
    → scan stop size i (name ++ stop ∷ rest) ≡ (name, stop ∷ rest, i + length name)
unfolding scan
scan-append stop size i [] rest h lt = ground arith
scan-append stop size i (c ∷ name) rest h lt =
    rw (scan-append stop size (suc i) name rest h.1 (omega arith)) (ground (arith, h.0))

scan-end :
    (stop size i : ℕ) (name : List ℕ)
    → All (λ c. c ≢ stop) name
    → i + length name < size
    → scan stop size i name ≡ (name, [], i + length name)
unfolding scan
scan-end stop size i [] h lt = ground arith
scan-end stop size i (c ∷ name) h lt =
    rw (scan-end stop size (suc i) name h.1 (omega arith)) (ground (arith, h.0))

abbrev pub quoted : List ℕ → List ℕ
quoted name = b'"' ∷ (name ++ b'"' ∷ [])

load_item-quoted :
    (name rest : List ℕ)
    → All (λ c. c ≢ b'"') name
    → length name + 1 < max_string
    → namemap_load_item (b'"' ∷ (name ++ b'"' ∷ rest)) max_string ≡ some (name, rest)
unfolding namemap_load_item
load_item-quoted name rest h lt =
    ap end_quoted (scan-append b'"' max_string 1 name rest h (omega arith)) ∙ ground arith

-- A line of two quoted names with a character between them is loaded as these names, if each is
-- shorter than 511 characters and none has a quote.
pub load_items-quoted :
    (old_name new_name : List ℕ) (between : ℕ)
    → All (λ c. c ≢ b'"') old_name
    → All (λ c. c ≢ b'"') new_name
    → length old_name + 1 < max_string
    → length new_name + 1 < max_string
    → namemap_load_items (b'"' ∷ (old_name ++ b'"' ∷ (between ∷ quoted new_name))) max_string
      ≡ some (old_name, new_name)
unfolding namemap_load_items
load_items-quoted old_name new_name between ho hn lo ln =
    rw
      (
        namemap_load_items,
        load_item-quoted old_name (between ∷ quoted new_name) ho lo,
        load_item-quoted new_name [] hn ln,
      )
      refl

scan-count :
    (stop size i : ℕ) (line : List ℕ)
    → (scan stop size i line).2 ≡ i + length (scan stop size i line).0
unfolding scan
scan-count stop size i [] = omega arith
scan-count stop size i (c ∷ line) = ground (arith, scan-count stop size (suc i) line)

end_plain-lt :
    (name rest : List ℕ) (i : ℕ) (got : List ℕ × List ℕ)
    → i ≡ length name
    → end_plain (name, rest, i) ≡ some got
    → length got.0 < max_string
end_plain-lt name rest i got same e = ground (arith, e)

end_quoted-lt :
    (name rest : List ℕ) (i : ℕ) (got : List ℕ × List ℕ)
    → i ≡ 1 + length name
    → end_quoted (name, rest, i) ≡ some got
    → length got.0 + 1 < max_string
end_quoted-lt name [] i got same e = cc
end_quoted-lt name (c ∷ rest) i got same e = ground (arith, e)

-- On any line, a name that `namemap_load_item` finds fits an array of 512 with its NUL.
pub load_item-lt :
    (line : List ℕ) (got : List ℕ × List ℕ)
    → namemap_load_item line max_string ≡ some got
    → length got.0 < max_string
unfolding namemap_load_item
load_item-lt [] got e = cc
load_item-lt (first ∷ line) got e = elim (Bool-cases (first == b'"')) [
  | inl q ↦
      let run : end_quoted (scan b'"' max_string 1 line) ≡ some got =
        rw (namemap_load_item, q) at e in
      omega (arith, end_quoted-lt _ _ _ got (scan-count b'"' max_string 1 line) run)
  | inr q ↦ elim (Bool-cases (is_alnum first || first == b'/')) [
    | inl p ↦
        let run : end_plain (scan b' ' max_string 0 (first ∷ line)) ≡ some got =
          rw (namemap_load_item, q, p) at e in
        end_plain-lt _ _ _ got (omega (arith, scan-count b' ' max_string 0 (first ∷ line))) run
    | inr p ↦ let run : none ≡ some got = rw (namemap_load_item, q, p) at e in cc
  ]
]
