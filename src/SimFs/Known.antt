-- ===== src/SimFs/Known.antt =====
-- simfs.c: which paths are known, in the tree or on the disk, and what a scan of the disk adds.
use mathlib.Core.Path.{subst}
use ioapps.Base.{
  ℕ, ◌≡◌, refl, sym, ap, ◌∙◌, ◌||◌, ◌&&◌, not, Bool, Bool-cases, inl, inr, true, false, List, [],
  ◌∷◌, ◌++◌, append-nil, append_assoc, All-append,
}
use ioapps.Trie.Paths.{path_of, IsKey, IsPath, same_refl}
use ioapps.Trie.Insert.{trie_insert}
use ioapps.Trie.Lookup.{leads}
use ioapps.Trie.Having.{has, has-below_missing, trie_delete-has}
use ioapps.Trie.Deleting.{trie_delete-Distinct, trie_delete-delim}
use ioapps.SimFs.{Fs, Disk, add_physical, simfs_new_trie_node}
use ioapps.SimFs.Names.{slash}
use ioapps.SimFs.Scan.{
  IsFs, scan, scan-found, scan-missing, add_physical-IsFs, add_physical-has, insert-IsFs,
  insert-has,
}
use ioapps.SimFs.Calls.{without_path, with_path}

-- Whether each path, from the given one on, is in the tree or on the disk.
abbrev pub known : Disk → Fs → List (List ℕ) → List (List ℕ) → Bool
known disk fs way [] = true
known disk fs way (s ∷ parts) =
    let longer = way ++ s ∷ [] in
    (has fs.children longer || disk.exists (path_of slash longer)) && known disk fs longer parts

leads_refl : (ks : List (List ℕ)) → leads ks ks ≡ true
leads_refl [] = refl
leads_refl (k ∷ ks) = rw (same_refl k) (leads_refl ks)

leads-longer : (ks js : List (List ℕ)) (j : List ℕ) → leads (ks ++ j ∷ js) ks ≡ false
leads-longer [] js j = refl
leads-longer (k ∷ ks) js j = rw (same_refl k) (leads-longer ks js j)

pub or-true : (b : Bool) → (b || true) ≡ true
or-true true = refl
or-true false = refl

pub or-false : (b : Bool) → (b || false) ≡ b
or-false true = refl
or-false false = refl

-- A path with a part more has a first part.
snoc-cons :
    (way : List (List ℕ)) (s : List ℕ)
    → (k : List ℕ) × (ks : List (List ℕ)) × (way ++ s ∷ [] ≡ k ∷ ks)
snoc-cons [] s = (s, [], refl)
snoc-cons (k ∷ ks) s = (k, ks ++ s ∷ [], refl)

longer-IsFs :
    (disk : Disk) (fs : Fs) (way : List (List ℕ)) (s : List ℕ)
    → IsFs fs
    → IsPath slash (way ++ s ∷ [])
    → IsFs (add_physical disk (path_of slash (way ++ s ∷ [])) fs)
longer-IsFs disk fs way s h path =
    let (k, ks, eq) = snoc-cons way s in
    subst (λ z. IsPath slash z → IsFs (add_physical disk (path_of slash z) fs)) (sym eq)
      (add_physical-IsFs disk fs k ks h) path

longer-has :
    (disk : Disk) (fs : Fs) (way : List (List ℕ)) (s : List ℕ) (qs : List (List ℕ))
    → IsFs fs
    → IsPath slash (way ++ s ∷ [])
    → has (add_physical disk (path_of slash (way ++ s ∷ [])) fs).children qs
      ≡ (has fs.children qs || leads qs (way ++ s ∷ []))
longer-has disk fs way s qs h path =
    let (k, ks, eq) = snoc-cons way s in
    subst
      (λ z.
        IsPath slash z
        → has (add_physical disk (path_of slash z) fs).children qs
          ≡ (has fs.children qs || leads qs z))
      (sym eq) (add_physical-has disk fs k ks qs h) path

pub scan-IsFs :
    (disk : Disk) (parts way : List (List ℕ)) (fs : Fs)
    → IsFs fs
    → IsPath slash way
    → IsPath slash parts
    → IsFs (scan disk way fs parts).fs
unfolding scan
scan-IsFs disk [] way fs h path parts = h
scan-IsFs disk (s ∷ parts) way fs h path (key, keys) =
    let path' = All-append (IsKey slash) way (s ∷ []) path (key, tt) in
    elim (Bool-cases (disk.exists (path_of slash (way ++ s ∷ [])))) [
      | inl e ↦
          rw (scan-found disk way fs s parts e)
            (scan-IsFs disk parts (way ++ s ∷ []) _ (longer-IsFs disk fs way s h path') path' keys)
      | inr e ↦ rw (scan-missing disk way fs s parts e) h
    ]

still-missing :
    (fs : Fs) (way parts : List (List ℕ))
    → has fs.children (way ++ parts) ≡ false
    → (has fs.children (way ++ parts) || leads (way ++ parts) way)
      ≡ (elim parts [ [] ↦ true | _ ↦ false ])
still-missing fs way [] h = rw (append-nil way, leads_refl way) (or-true (has fs.children way))
still-missing fs way (p ∷ parts) h = rw (h, leads-longer way parts p) refl

-- A scan that comes to the end leaves the path in the tree; one that does not leaves it out.
pub scan-has :
    (disk : Disk) (parts way : List (List ℕ)) (fs : Fs)
    → IsFs fs
    → IsPath slash way
    → IsPath slash parts
    → has fs.children (way ++ parts) ≡ (elim parts [ [] ↦ true | _ ↦ false ])
    → has (scan disk way fs parts).fs.children (way ++ parts) ≡ (scan disk way fs parts).all
unfolding scan
scan-has disk [] way fs h path keys old = old
scan-has disk (s ∷ parts) way fs h path (key, keys) old =
    let path' = All-append (IsKey slash) way (s ∷ []) path (key, tt) in
    let added = longer-has disk fs way s (way ++ s ∷ parts) h path' in
    elim (Bool-cases (disk.exists (path_of slash (way ++ s ∷ [])))) [
      | inr e ↦ rw (scan-missing disk way fs s parts e) old
      | inl e ↦ rw (scan-found disk way fs s parts e) (
          ap
            (has
              (scan disk (way ++ s ∷ []) (add_physical disk (path_of slash (way ++ s ∷ [])) fs)
                parts).fs.children)
            (sym (append_assoc way (s ∷ []) parts))
          ∙ scan-has disk parts (way ++ s ∷ []) _ (longer-IsFs disk fs way s h path') path' keys (
              longer-has disk fs way s ((way ++ s ∷ []) ++ parts) h path'
              ∙ still-missing fs (way ++ s ∷ []) parts
                  (ap (has fs.children) (append_assoc way (s ∷ []) parts) ∙ old)))
    ]

-- The answer of the scan, below a path that the tree lacks.
scan-known :
    (disk : Disk) (parts way : List (List ℕ)) (fs fs' : Fs)
    → has fs'.children way ≡ false
    → (scan disk way fs parts).all ≡ known disk fs' way parts
unfolding scan
scan-known disk [] way fs fs' h = refl
scan-known disk (s ∷ parts) way fs fs' h =
    let gone = has-below_missing fs'.children way (s ∷ []) h in
    elim (Bool-cases (disk.exists (path_of slash (way ++ s ∷ [])))) [
      | inl e ↦
          rw (scan-found disk way fs s parts e, gone, e)
            (scan-known disk parts (way ++ s ∷ []) _ fs' gone)
      | inr e ↦ rw (scan-missing disk way fs s parts e, gone, e) refl
    ]

scan-known_next :
    (disk : Disk) (parts way : List (List ℕ)) (s : List ℕ) (fs : Fs)
    → has fs.children (way ++ s ∷ []) ≡ false
    → (scan disk way fs (s ∷ parts)).all ≡ known disk fs way (s ∷ parts)
unfolding scan
scan-known_next disk parts way s fs gone =
    elim (Bool-cases (disk.exists (path_of slash (way ++ s ∷ [])))) [
      | inl e ↦
          rw (scan-found disk way fs s parts e, gone, e)
            (scan-known disk parts (way ++ s ∷ []) _ fs gone)
      | inr e ↦ rw (scan-missing disk way fs s parts e, gone, e) refl
    ]

has-prefix :
    (fs : Fs) (way parts : List (List ℕ))
    → has fs.children (way ++ parts) ≡ true
    → has fs.children way ≡ true
has-prefix fs way parts h = elim (Bool-cases (has fs.children way)) [
  | inl e ↦ e
  | inr e ↦ let gone = has-below_missing fs.children way parts e in cc
]

-- The part that the tree has is known.
known-through :
    (disk : Disk) (fs : Fs) (way ms rest : List (List ℕ))
    → has fs.children (way ++ ms) ≡ true
    → known disk fs way (ms ++ rest) ≡ known disk fs (way ++ ms) rest
known-through disk fs way [] rest h = ap (λ z. known disk fs z rest) (sym (append-nil way))
known-through disk fs way (m ∷ ms) rest h =
    let h' = ap (has fs.children) (append_assoc way (m ∷ []) ms) ∙ h in
    rw (has-prefix fs (way ++ m ∷ []) ms h') (
      known-through disk fs (way ++ m ∷ []) ms rest h'
      ∙ ap (λ z. known disk fs z rest) (append_assoc way (m ∷ []) ms))

pub known-there :
    (disk : Disk) (fs : Fs) (ks : List (List ℕ))
    → has fs.children ks ≡ true
    → known disk fs [] ks ≡ true
known-there disk fs ks h =
    ap (known disk fs []) (sym (append-nil ks)) ∙ known-through disk fs [] ks [] h

pub scan-known_all :
    (disk : Disk) (fs : Fs) (way parts : List (List ℕ)) (s : List ℕ)
    → has fs.children way ≡ true
    → has fs.children (way ++ s ∷ []) ≡ false
    → (scan disk way fs (s ∷ parts)).all ≡ known disk fs [] (way ++ s ∷ parts)
scan-known_all disk fs way parts s there gone =
    scan-known_next disk parts way s fs gone ∙ sym (known-through disk fs [] way (s ∷ parts) there)

-- What a deletion and an insertion of a path do to a tree.
pub without_path-IsFs : (fs : Fs) (name : List ℕ) → IsFs fs → IsFs (without_path fs name)
without_path-IsFs fs name (e, d) = (trie_delete-delim fs name ∙ e, trie_delete-Distinct fs name d)

pub without_path-has :
    (fs : Fs) (k : List ℕ) (ks : List (List ℕ))
    → IsFs fs
    → IsPath slash (k ∷ ks)
    → has (without_path fs (path_of slash (k ∷ ks))).children (k ∷ ks) ≡ false
without_path-has fs k ks (e, d) path =
    subst
      (λ c.
        IsPath c (k ∷ ks)
        → has (without_path fs (path_of c (k ∷ ks))).children (k ∷ ks)
          ≡ (not (leads (k ∷ ks) (k ∷ ks)) && has fs.children (k ∷ ks)))
      e (λ p. trie_delete-has fs k ks (k ∷ ks) p d) path
    ∙ ap (λ b. not b && has fs.children (k ∷ ks)) (leads_refl (k ∷ ks))

pub with_path-IsFs :
    (fs : Fs) (k : List ℕ) (ks : List (List ℕ))
    → IsFs fs
    → IsPath slash (k ∷ ks)
    → IsFs (with_path fs (path_of slash (k ∷ ks)))
unfolding trie_insert
with_path-IsFs fs k ks h path = insert-IsFs fs simfs_new_trie_node k ks h path

pub with_path-has :
    (fs : Fs) (k : List ℕ) (ks : List (List ℕ))
    → IsFs fs
    → IsPath slash (k ∷ ks)
    → has (with_path fs (path_of slash (k ∷ ks))).children (k ∷ ks) ≡ true
unfolding trie_insert
with_path-has fs k ks h path =
    insert-has fs simfs_new_trie_node k ks (k ∷ ks) h path
    ∙ ap (λ b. has fs.children (k ∷ ks) || b) (leads_refl (k ∷ ks))
    ∙ or-true (has fs.children (k ∷ ks))
