-- ===== src/SimFs/Existing.antt =====
-- simfs.c: `existing` after `simfs_populate`.
use mathlib.Core.Path.{subst}
use ioapps.Base.{
  if◌then◌else◌, ◌+◌, ℕ, ◌≤◌, ◌<◌, ◌≡◌, ◌≢◌, sym, ap, ◌∙◌, Bool-cases, inl, inr, true, false, List,
  [], ◌∷◌, ◌++◌, append-nil, length, length-append, take, take-length, arith,
}
use ioapps.Parsing.{same}
use ioapps.Trie.Paths.{path_of, IsKey, IsPath, path_of-append, same_refl, same-eq}
use ioapps.Trie.Inserting.{All-behind}
use ioapps.Trie.Reading.{some-length}
use ioapps.SimFs.{added_slash, Fs, Disk, Missing, ends_in_slash}
use ioapps.SimFs.Names.{slash}
use ioapps.SimFs.Scan.{Stands, scan, scan-way}

same-length : (a b : List ℕ) → length b < length a → same a b ≡ false
same-length a b h = elim (Bool-cases (same a b)) [
  | inr other ↦ other
  | inl equal ↦ let long = ap length (same-eq a b equal) in absurd (omega arith)
]

snoc-cancel : (a b : List ℕ) (c : ℕ) → a ++ c ∷ [] ≡ b ++ c ∷ [] → a ≡ b
snoc-cancel a b c e =
    let same_length : length a ≡ length b =
      let long = length-append a (c ∷ []) in
      let other = length-append b (c ∷ []) in let both = ap length e in omega arith in
    sym (take-length a (c ∷ []))
    ∙ ap (take (length a)) e
    ∙ ap (λ n. take n (b ++ c ∷ [])) same_length
    ∙ take-length b (c ∷ [])

-- A text for a path that is no longer than the path's own text is that text.
Stands-exact :
    (e : List ℕ) (way : List (List ℕ))
    → Stands e way
    → length e ≤ length (path_of slash way)
    → e ≡ path_of slash way
Stands-exact e way h short = elim (Bool-cases (ends_in_slash e)) [
  | inr loose ↦
      snoc-cancel e (path_of slash way) slash
        (ap (λ b. e ++ (if b then [] else slash ∷ [])) (sym loose) ∙ h)
  | inl closed ↦
      let whole : e ≡ path_of slash way ++ slash ∷ [] =
        sym (append-nil e) ∙ ap (λ b. e ++ (if b then [] else slash ∷ [])) (sym closed) ∙ h in
      let long = ap length whole in
      let parts = length-append (path_of slash way) (slash ∷ []) in absurd (omega arith)
]

Stands-short :
    (e : List ℕ) (way : List (List ℕ)) → Stands e way → length e ≤ length (path_of slash way) + 1
Stands-short e way h =
    let both = ap length h in
    let left = length-append e (added_slash e) in
    let right = length-append (path_of slash way) (slash ∷ []) in omega arith

-- `existing` is the whole path exactly where the scan came to its end; else something is missing.
pub existing-whole :
    (disk : Disk) (fs : Fs) (ks way : List (List ℕ)) (s : List ℕ) (parts : List (List ℕ))
    (m : Missing)
    → IsPath slash ks
    → ks ≡ way ++ s ∷ parts
    → Stands m.existing (scan disk way fs (s ∷ parts)).way
    → length m.missing + length m.existing ≡ length (path_of slash ks)
    → (same (path_of slash ks) m.existing ≡ (scan disk way fs (s ∷ parts)).all)
      × ((scan disk way fs (s ∷ parts)).all ≡ false → m.missing ≢ [])
existing-whole disk fs ks way s parts m path split stands sums =
    elim (scan-way disk (s ∷ parts) way fs) [
      | inl (all, there) ↦
          let whole : Stands m.existing ks = subst (Stands m.existing) (there ∙ sym split) stands in
          let exact = Stands-exact m.existing ks whole (omega arith) in
          (
            ap (same (path_of slash ks)) exact ∙ same_refl (path_of slash ks) ∙ sym all,
            λ less. absurd (let wrong : true ≡ false = sym all ∙ less in cc),
          )
      | inr (less, (t, rest, cut)) ↦
          let done = (scan disk way fs (s ∷ parts)).way in
          let whole : ks ≡ done ++ t ∷ rest = split ∙ cut in
          let key =
            (All-behind (IsKey slash) done (t ∷ rest) (subst (IsPath slash) whole path)).0 in
          let (j, some_char) = some-length t key.0.0 in
          let name =
            ap length (ap (path_of slash) whole ∙ path_of-append slash done (t ∷ rest))
            ∙ length-append (path_of slash done) (path_of slash (t ∷ rest)) in
          let tail = length-append t (path_of slash rest) in
          let short = Stands-short m.existing done stands in
          (
            same-length (path_of slash ks) m.existing (omega arith) ∙ sym less,
            λ h gone. let none_left = ap length gone in absurd (omega arith),
          )
    ]
