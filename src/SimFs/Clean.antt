-- ===== src/SimFs/Clean.antt =====
-- simfs.c: the fuel of the loops of `simfs_absolute_name` is enough, whatever the name.
use mathlib.Core.Option.{map, some-injective}
use ioapps.Base.{
  ltb, ℕ, zero, suc, ◌+◌, ◌≤◌, ◌<◌, ◌≡◌, refl, sym, ap, ◌∙◌, ◌==◌, if◌then◌else◌, Bool, true, false,
  Option-cases, inl, inr, List, [], ◌∷◌, ◌++◌, none, some, length, length-append, arith,
}
use ioapps.Base.Run.{Run, check, ok, abort, >>=-eq-ok, ◌>>=◌, ok-injective}
use ioapps.Parsing.{codes}
use ioapps.Trie.Children.{some-of-map}
use ioapps.SimFs.{
  is_absolute, in_directory, Disk, strips, put_before, strstr, before_last, cut_parent, cut_parents,
  cut_dot, cut_dots, simfs_absolute_name,
}

strips-length :
    (pat s behind : List ℕ) → strips pat s ≡ some behind → length s ≡ length pat + length behind
strips-length [] s behind e = ground arith
strips-length (x ∷ pat) [] behind e = cc
strips-length (x ∷ pat) (c ∷ s) behind e = ground (arith, strips-length pat s behind)

strstr-here :
    (pat s rest : List ℕ) (c : ℕ)
    → strips pat (c ∷ s) ≡ some rest
    → strstr pat (c ∷ s) ≡ some ([], rest)
strstr-here pat s rest c e = rw (strstr, e) refl

strstr-later :
    (pat s : List ℕ) (c : ℕ)
    → strips pat (c ∷ s) ≡ none
    → strstr pat (c ∷ s) ≡ map (put_before c) (strstr pat s)
strstr-later pat s c e = rw (strstr, e) refl

-- A text that is found stands between what is before it and what is behind it.
strstr-length :
    (x : ℕ) (pat s before behind : List ℕ)
    → strstr (x ∷ pat) s ≡ some (before, behind)
    → length s ≡ length before + suc (length pat) + length behind
strstr-length x pat [] before behind e = cc
strstr-length x pat (c ∷ s) before behind e = elim (Option-cases (strips (x ∷ pat) (c ∷ s))) [
  | inr (rest, here) ↦
      let eq = some-injective _ _ (sym (strstr-here (x ∷ pat) s rest c here) ∙ e) in
      let at_start = ap (λ z. length z.0) eq in
      let same_rest = ap (λ z. length z.1) eq in
      let long = strips-length (x ∷ pat) (c ∷ s) rest here in omega arith
  | inl later ↦
      let (found, there, eq) =
        some-of-map (put_before c) (strstr (x ∷ pat) s) (before, behind)
          (sym (strstr-later (x ∷ pat) s c later) ∙ e) in
      let front = ap (λ z. length z.0) eq in
      let back = ap (λ z. length z.1) eq in
      let long = strstr-length x pat s found.0 found.1 there in omega arith
]

cut_dot-shorter :
    (s before behind : List ℕ)
    → strstr (codes "/.") s ≡ some (before, behind)
    → length (cut_dot (before, behind)) < length s
cut_dot-shorter s [] [] e = let l = strstr-length b'/' (b'.' ∷ []) s [] [] e in omega arith
cut_dot-shorter s [] (c ∷ behind) e =
    let l = strstr-length b'/' (b'.' ∷ []) s [] (c ∷ behind) e in omega arith
cut_dot-shorter s (c ∷ before) behind e =
    let l = strstr-length b'/' (b'.' ∷ []) s (c ∷ before) behind e in
    let both = length-append (c ∷ before) behind in omega arith

-- The name that the second loop leaves has no slash with a dot behind it, if the fuel is its length.
cut_dots-clean :
    (fuel : ℕ) (s : List ℕ) → length s ≤ fuel → strstr (codes "/.") (cut_dots fuel s) ≡ none
unfolding cut_dots
cut_dots-clean zero [] h = refl
cut_dots-clean zero (c ∷ s) h = absurd (omega arith)
cut_dots-clean (suc fuel) s h = elim (Option-cases (strstr (codes "/.") s)) [
  | inl e ↦ rw (cut_dots, e) e
  | inr (found, e) ↦
      let less = cut_dot-shorter s found.0 found.1 e in
      rw (cut_dots, e) (cut_dots-clean fuel (cut_dot found) (omega arith))
]

before_last-later :
    (c x : ℕ) (s b : List ℕ) → before_last c s ≡ some b → before_last c (x ∷ s) ≡ some (x ∷ b)
before_last-later c x s b e = rw (before_last, e) refl

before_last-here :
    (c x : ℕ) (s : List ℕ)
    → before_last c s ≡ none
    → before_last c (x ∷ s) ≡ (if x == c then some [] else none)
before_last-here c x s e = rw (before_last, e) refl

if-empty : (b : Bool) (s : List ℕ) → (if b then some [] else none) ≡ some s → s ≡ []
if-empty true s e = sym (some-injective _ _ e)
if-empty false s e = cc

before_last-length :
    (c : ℕ) (s before : List ℕ) → before_last c s ≡ some before → length before < length s
before_last-length c [] before e = cc
before_last-length c (x ∷ s) before e = elim (Option-cases (before_last c s)) [
  | inr (b, there) ↦
      let eq : x ∷ b ≡ before = some-injective _ _ (sym (before_last-later c x s b there) ∙ e) in
      let long = ap length eq in let rest = before_last-length c s b there in omega arith
  | inl gone ↦
      let long = ap length (if-empty (x == c) before (sym (before_last-here c x s gone) ∙ e)) in
      omega arith
]

cut_parent-none :
    (c : ℕ) (before behind : List ℕ)
    → before_last b'/' (c ∷ before) ≡ none
    → cut_parent (c ∷ before, behind) ≡ abort
cut_parent-none c before behind e = rw (cut_parent, e) refl

cut_parent-some :
    (c : ℕ) (before behind directory : List ℕ)
    → before_last b'/' (c ∷ before) ≡ some directory
    → cut_parent (c ∷ before, behind) ≡ ok (directory ++ behind)
cut_parent-some c before behind directory e = rw (cut_parent, e) refl

cut_parent-shorter :
    (s before behind cut : List ℕ)
    → strstr (codes "/..") s ≡ some (before, behind)
    → cut_parent (before, behind) ≡ ok cut
    → length cut < length s
cut_parent-shorter s [] behind cut e went =
    let l = strstr-length b'/' (b'.' ∷ b'.' ∷ []) s [] behind e in
    let long = ap length (ok-injective went) in omega arith
cut_parent-shorter s (c ∷ before) behind cut e went =
    elim (Option-cases (before_last b'/' (c ∷ before))) [
      | inl gone ↦ let stopped = sym (cut_parent-none c before behind gone) ∙ went in cc
      | inr (directory, there) ↦
          let l = strstr-length b'/' (b'.' ∷ b'.' ∷ []) s (c ∷ before) behind e in
          let less = before_last-length b'/' (c ∷ before) directory there in
          let both = length-append directory behind in
          let long =
            ap length
              (ok-injective (sym (cut_parent-some c before behind directory there) ∙ went)) in
          omega arith
    ]

cut_parents-step :
    (fuel : ℕ) (s : List ℕ) (found : List ℕ × List ℕ)
    → strstr (codes "/..") s ≡ some found
    → cut_parents (suc fuel) s ≡ (cut_parent found >>= cut_parents fuel)
unfolding cut_parents
cut_parents-step fuel s found e = rw (cut_parents, e) refl

-- The same of the first loop, where it does not stop the program.
cut_parents-clean :
    (fuel : ℕ) (s r : List ℕ)
    → length s ≤ fuel
    → cut_parents fuel s ≡ ok r
    → strstr (codes "/..") r ≡ none
unfolding cut_parents
cut_parents-clean zero [] r h e = ap (strstr (codes "/..")) (sym (ok-injective e))
cut_parents-clean zero (c ∷ s) r h e = absurd (omega arith)
cut_parents-clean (suc fuel) s r h e = elim (Option-cases (strstr (codes "/..") s)) [
  | inl gone ↦
      let kept : ok s ≡ ok r = sym (rw (cut_parents, gone) refl) ∙ e in
      ap (strstr (codes "/..")) (sym (ok-injective kept)) ∙ gone
  | inr (found, there) ↦
      let (cut, went, rest) =
        >>=-eq-ok (cut_parent found) (cut_parents fuel)
          (sym (cut_parents-step fuel s found there) ∙ e) in
      let less = cut_parent-shorter s found.0 found.1 cut there went in
      cut_parents-clean fuel cut r (omega arith) rest
]

-- Whatever the name: unless the program stops, no slash in the result has a dot behind it.
absolute_name-clean :
    (disk : Disk) (name r : List ℕ) (size : ℕ)
    → simfs_absolute_name disk name size ≡ ok r
    → strstr (codes "/.") r ≡ none
unfolding simfs_absolute_name
absolute_name-clean disk name r size e =
    let start : Run (List ℕ) = if is_absolute name then ok name else in_directory disk name size in
    let polish : List ℕ → Run (List ℕ) =
      λ buff. cut_parents (length buff) buff >>= λ b. ok (cut_dots (length b) b) in
    let (u, fits, rest) = >>=-eq-ok (check (ltb (length name) size)) (λ t. start >>= polish) e in
    let (buff, started, loops) = >>=-eq-ok start polish rest in
    let (cut, climbed, last) =
      >>=-eq-ok (cut_parents (length buff) buff) (λ b. ok (cut_dots (length b) b)) loops in
    ap (strstr (codes "/.")) (sym (ok-injective last))
    ∙ cut_dots-clean (length cut) cut (omega arith)
