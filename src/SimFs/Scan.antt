-- ===== src/SimFs/Scan.antt =====
-- simfs.c: what `simfs_populate` adds to the tree, below a path that the tree has.
use mathlib.Core.Path.{subst}
use ioapps.Base.{
  ℕ, ◌+◌, ◌≤◌, ◌≡◌, ◌≢◌, ◌⊎◌, refl, sym, ap, ◌∙◌, ◌==◌, if◌then◌else◌, le→leb, ◌||◌, Bool,
  Bool-cases, inl, inr, true, false, List, [], ◌∷◌, ◌++◌, append-nil, append_assoc, length,
  length-append, arith,
}
use ioapps.Base.Run.{ok}
use ioapps.Parsing.Flags.{Lacks}
use ioapps.Trie.Paths.{path_of, IsKey, IsPath, path_of-append, length-path_of-snoc}
use ioapps.Trie.Insert.{trie_insert2}
use ioapps.Trie.Inserting.{trie_insert2-Splits}
use ioapps.Trie.Lookup.{leads}
use ioapps.Trie.Having.{
  has, trie_insert2-has, change_value-has, change_value-Distinct, change_value-delim,
}
use ioapps.Trie.Distinct.{Distinct}
use ioapps.Trie.Pointers.{trie_insert2-find}
use ioapps.SimFs.{
  Simfs, Fs, Disk, Populated, simfs_new_trie_node_phys, added_slash, ends_in_slash, add_physical,
  populate_loop,
}
use ioapps.SimFs.Names.{slash}

-- A tree whose paths have slashes, and whose siblings have different names.
abbrev pub IsFs : Fs → Type 0
IsFs fs = (fs.delim ≡ slash) × Distinct fs.children

pub insert-IsFs :
    (fs : Fs) (v : Simfs) (k : List ℕ) (ks : List (List ℕ))
    → IsFs fs
    → IsPath slash (k ∷ ks)
    → IsFs (trie_insert2 fs (path_of slash (k ∷ ks)) v).0
insert-IsFs fs v k ks (e, d) =
    subst
      (λ c. (c == 0) ≡ false → IsPath c (k ∷ ks) → IsFs (trie_insert2 fs (path_of c (k ∷ ks)) v).0)
      e
      (λ some_delim path. (
        ap {A = Fs × List ℕ} (λ z. z.0.delim) (trie_insert2-Splits fs v k ks some_delim path).made
            ∙ e,
        (trie_insert2-find fs v k ks some_delim path d).1,
      ))
      refl

pub insert-has :
    (fs : Fs) (v : Simfs) (k : List ℕ) (ks qs : List (List ℕ))
    → IsFs fs
    → IsPath slash (k ∷ ks)
    → has (trie_insert2 fs (path_of slash (k ∷ ks)) v).0.children qs
      ≡ (has fs.children qs || leads qs (k ∷ ks))
insert-has fs v k ks qs (e, d) =
    subst
      (λ c.
        (c == 0) ≡ false
        → IsPath c (k ∷ ks)
        → has (trie_insert2 fs (path_of c (k ∷ ks)) v).0.children qs
          ≡ (has fs.children qs || leads qs (k ∷ ks)))
      e (trie_insert2-has fs v k ks qs) refl

-- The spec of the loop: the parts are taken as long as the disk has them.
pub record Scanned : Type 0 where
  pub all : Bool
  pub way : List (List ℕ)
  pub fs : Fs

unfoldable pub scan : Disk → List (List ℕ) → Fs → List (List ℕ) → Scanned
scan disk way fs [] = record { all = true; way = way; fs = fs }
scan disk way fs (s ∷ parts) =
    let longer = way ++ s ∷ [] in
    let rest = scan disk longer (add_physical disk (path_of slash longer) fs) parts in
    if disk.exists (path_of slash longer) then rest else record { all = false; way = way; fs = fs }

-- A text that stands for a path: with the slash behind it that may be missing.
abbrev pub Stands : List ℕ → List (List ℕ) → Type 0
Stands existing way = existing ++ added_slash existing ≡ path_of slash way ++ slash ∷ []

ends_in_slash-Lacks : (k : List ℕ) → Lacks slash k → ends_in_slash k ≡ false
ends_in_slash-Lacks [] h = refl
ends_in_slash-Lacks (c ∷ []) (e, h) = e
ends_in_slash-Lacks (c ∷ d ∷ k) (e, h) = ends_in_slash-Lacks (d ∷ k) h

pub ends_in_slash-append :
    (front k : List ℕ) → k ≢ [] → ends_in_slash (front ++ k) ≡ ends_in_slash k
ends_in_slash-append front [] h = absurd (h refl)
ends_in_slash-append [] (c ∷ k) h = refl
ends_in_slash-append (x ∷ []) (c ∷ k) h = refl
ends_in_slash-append (x ∷ y ∷ front) (c ∷ k) h = ends_in_slash-append (y ∷ front) (c ∷ k) h

-- The text of a path stands for it.
path_of-Stands :
    (way : List (List ℕ)) (s : List ℕ)
    → IsKey slash s
    → Stands (path_of slash (way ++ s ∷ [])) (way ++ s ∷ [])
path_of-Stands way s key =
    let text : path_of slash (way ++ s ∷ []) ≡ path_of slash way ++ slash ∷ s =
      path_of-append slash way (s ∷ []) ∙ ap (λ z. path_of slash way ++ slash ∷ z) (append-nil s) in
    let split : path_of slash way ++ slash ∷ s ≡ (path_of slash way ++ slash ∷ []) ++ s =
      sym (append_assoc (path_of slash way) (slash ∷ []) s) in
    let no_slash : ends_in_slash (path_of slash (way ++ s ∷ [])) ≡ false =
      ap ends_in_slash (text ∙ split)
      ∙ ends_in_slash-append (path_of slash way ++ slash ∷ []) s key.0.0
      ∙ ends_in_slash-Lacks s key.0.1 in
    rw no_slash refl

longer-Stands :
    (existing s : List ℕ) (way : List (List ℕ))
    → Stands existing way
    → existing ++ added_slash existing ++ s ≡ path_of slash (way ++ s ∷ [])
longer-Stands existing s way h =
    ap (λ z. z ++ s) h
    ∙ append_assoc (path_of slash way) (slash ∷ []) s
    ∙ sym (
        path_of-append slash way (s ∷ []) ∙ ap (λ z. path_of slash way ++ slash ∷ z) (append-nil s))

pub add_physical-IsFs :
    (disk : Disk) (fs : Fs) (k : List ℕ) (ks : List (List ℕ))
    → IsFs fs
    → IsPath slash (k ∷ ks)
    → IsFs (add_physical disk (path_of slash (k ∷ ks)) fs)
add_physical-IsFs disk fs k ks h path =
    let (e, d) = insert-IsFs fs simfs_new_trie_node_phys k ks h path in
    let made = trie_insert2 fs (path_of slash (k ∷ ks)) simfs_new_trie_node_phys in
    (change_value-delim made.0 made.1 _ ∙ e, change_value-Distinct made.0 made.1 _ d)

pub add_physical-has :
    (disk : Disk) (fs : Fs) (k : List ℕ) (ks qs : List (List ℕ))
    → IsFs fs
    → IsPath slash (k ∷ ks)
    → has (add_physical disk (path_of slash (k ∷ ks)) fs).children qs
      ≡ (has fs.children qs || leads qs (k ∷ ks))
add_physical-has disk fs k ks qs h path =
    let made = trie_insert2 fs (path_of slash (k ∷ ks)) simfs_new_trie_node_phys in
    change_value-has made.0 made.1 _ qs ∙ insert-has fs simfs_new_trie_node_phys k ks qs h path

pub scan-found :
    (disk : Disk) (way : List (List ℕ)) (fs : Fs) (s : List ℕ) (parts : List (List ℕ))
    → disk.exists (path_of slash (way ++ s ∷ [])) ≡ true
    → scan disk way fs (s ∷ parts)
      ≡ scan disk (way ++ s ∷ []) (add_physical disk (path_of slash (way ++ s ∷ [])) fs) parts
unfolding scan
scan-found disk way fs s parts e = rw (scan, e) refl

pub scan-missing :
    (disk : Disk) (way : List (List ℕ)) (fs : Fs) (s : List ℕ) (parts : List (List ℕ))
    → disk.exists (path_of slash (way ++ s ∷ [])) ≡ false
    → scan disk way fs (s ∷ parts) ≡ record { all = false; way = way; fs = fs }
unfolding scan
scan-missing disk way fs s parts e = rw (scan, e) refl

-- What the loop leaves, with a text for the path that it has come to.
abbrev pub populated : Scanned → List ℕ → ℕ → Populated
populated s existing mis_off = record {
  rv = s.all;
  existing = existing;
  mis_off = mis_off;
  fs = s.fs;
}

loop-found :
    (disk : Disk) (room off : ℕ) (s existing : List ℕ) (parts : List (List ℕ)) (fs : Fs)
    → length (existing ++ added_slash existing ++ s) ≤ room
    → disk.exists (existing ++ added_slash existing ++ s) ≡ true
    → populate_loop disk room (s ∷ parts) existing off fs
      ≡ populate_loop disk room parts
          (existing ++ added_slash existing ++ s)
          (off + (length (added_slash existing) + length s))
          (add_physical disk (existing ++ added_slash existing ++ s) fs)
unfolding populate_loop
loop-found disk room off s existing parts fs fits e = rw (populate_loop, le→leb _ room fits, e) refl

loop-missing :
    (disk : Disk) (room off : ℕ) (s existing : List ℕ) (parts : List (List ℕ)) (fs : Fs)
    → length (existing ++ added_slash existing ++ s) ≤ room
    → disk.exists (existing ++ added_slash existing ++ s) ≡ false
    → populate_loop disk room (s ∷ parts) existing off fs
      ≡ ok (record { rv = false; existing = existing; mis_off = off; fs = fs })
unfolding populate_loop
loop-missing disk room off s existing parts fs fits e =
    rw (populate_loop, le→leb _ room fits, e) refl

-- The loop ends, fills no more than its room, and does what the scan says.
pub populate_loop-scan :
    (disk : Disk) (room off : ℕ) (parts way : List (List ℕ)) (existing : List ℕ) (fs : Fs)
    → IsPath slash parts
    → Stands existing way
    → length (path_of slash way) + length (path_of slash parts) ≤ room
    → length existing ≤ room
    → (e : List ℕ) × (m : ℕ) × (populate_loop disk room parts existing off fs
        ≡ ok (populated (scan disk way fs parts) e m))
      × Stands e (scan disk way fs parts).way
      × (m + length existing ≡ off + length e)
      × (length e ≤ room)
unfolding populate_loop scan
populate_loop-scan disk room off [] way existing fs path stands fits short =
    (existing, off, refl, stands, refl, short)
populate_loop-scan disk room off (s ∷ parts) way existing fs (key, path) stands fits short =
    let longer = existing ++ added_slash existing ++ s in
    let way' = way ++ s ∷ [] in
    let text : longer ≡ path_of slash way' = longer-Stands existing s way stands in
    let measure = length-path_of-snoc slash way s in
    let tail = length-append s (path_of slash parts) in
    let long : length longer ≡ length (path_of slash way') = ap length text in
    let sum : length longer ≡ length existing + (length (added_slash existing) + length s) =
      let outer = length-append (existing ++ added_slash existing) s in
      let inner = length-append existing (added_slash existing) in omega arith in
    elim (Bool-cases (disk.exists (path_of slash way'))) [
      | inr e ↦
          let loop =
            loop-missing disk room off s existing parts fs (omega arith)
              (ap disk.exists text ∙ e) in
          rw (loop, scan-missing disk way fs s parts e) (existing, off, refl, stands, refl, short)
      | inl e ↦
          let loop =
            loop-found disk room off s existing parts fs (omega arith) (ap disk.exists text ∙ e) in
          let (e', m, run, stands', sums, room_left) =
            populate_loop-scan disk room (off + (length (added_slash existing) + length s)) parts
              way' (path_of slash way') (add_physical disk (path_of slash way') fs) path
              (path_of-Stands way s key) (omega arith) (omega arith) in
          rw
            (
              loop
                  ∙ ap
                      (λ z.
                        populate_loop disk room parts z
                          (off + (length (added_slash existing) + length s))
                          (add_physical disk z fs))
                      text,
              scan-found disk way fs s parts e,
            )
            (e', m, run, stands', omega arith, room_left)
    ]

-- How far the scan comes.
pub scan-way :
    (disk : Disk) (parts way : List (List ℕ)) (fs : Fs)
    → ((scan disk way fs parts).all ≡ true) × ((scan disk way fs parts).way ≡ way ++ parts)
      ⊎ ((scan disk way fs parts).all ≡ false)
        × ((s : List ℕ) × (rest : List (List ℕ)) × (way ++ parts
              ≡ (scan disk way fs parts).way ++ s ∷ rest))
unfolding scan
scan-way disk [] way fs = inl (refl, sym (append-nil way))
scan-way disk (s ∷ parts) way fs =
    let whole = append_assoc way (s ∷ []) parts in
    elim (Bool-cases (disk.exists (path_of slash (way ++ s ∷ [])))) [
      | inr e ↦ rw (scan-missing disk way fs s parts e) (inr (refl, (s, parts, refl)))
      | inl e ↦
          let fs' = add_physical disk (path_of slash (way ++ s ∷ [])) fs in
          rw (scan-found disk way fs s parts e) (elim (scan-way disk parts (way ++ s ∷ []) fs') [
            | inl (all, there) ↦ inl (all, there ∙ whole)
            | inr (less, (t, rest, split)) ↦ inr (less, (t, rest, sym whole ∙ split))
          ])
    ]
