-- ===== src/SimFs/Seek.antt =====
-- simfs.c: what the operations find first: the path in the tree, or the part of it that is there and what
-- `simfs_populate` makes of the rest.
use mathlib.Core.Path.{subst}
use ioapps.Base.{
  ◌+◌, ℕ, ◌≤◌, ◌≡◌, ◌≢◌, ◌⊎◌, refl, sym, ap, ◌∙◌, ◌==◌, le→leb, inl, inr, true, false, List, [],
  ◌∷◌, ◌++◌, append-nil, append_assoc, length, length-append, length-drop, take, drop, drop-length,
  arith, some,
}
use ioapps.Base.Run.{ok}
use ioapps.Parsing.{same, strtok_all, emit}
use ioapps.Parsing.Flags.{parts-delim}
use ioapps.Trie.{Pointer, find_from}
use ioapps.Trie.Paths.{
  path_of, IsKey, IsPath, path_of-append, strtok_all-path_of, same_refl, same-append, same_comm,
  common-append,
}
use ioapps.Trie.Insert.{c_str, common, trie_longest_prefix}
use ioapps.Trie.Longest.{mark, Ends, trie_longest_prefix-IsLongest}
use ioapps.Trie.Deleting.{found-value}
use ioapps.Trie.Having.{has, has-value, is_some, has-snoc_missing}
use ioapps.Trie.Inserting.{All-behind}
use ioapps.SimFs.{Fs, Disk, Populated, Missing, ends_in_slash, populate_loop, simfs_populate}
use ioapps.SimFs.Names.{slash}
use ioapps.SimFs.Scan.{Stands, scan, populated, populate_loop-scan, ends_in_slash-append}
use ioapps.SimFs.Calls.{prefix_in, populate}

-- The path is in the tree.
pub record Hit (fs : Fs) (ks : List (List ℕ)) : Type 0 where
  pub there : has fs.children ks ≡ true
  pub node : find_from fs.children ks ≡ some (prefix_in fs (path_of slash ks)).node
  pub whole : (prefix_in fs (path_of slash ks)).buff ≡ path_of slash ks

-- The path is not in the tree: the part that is, and the rest.
pub record Miss (fs : Fs) (ks : List (List ℕ)) : Type 0 where
  pub way : List (List ℕ)
  pub next : List ℕ
  pub parts : List (List ℕ)
  pub split : ks ≡ way ++ next ∷ parts
  pub there : has fs.children way ≡ true
  pub not_there : has fs.children (way ++ next ∷ []) ≡ false
  pub stands : (prefix_in fs (path_of slash ks)).buff ≡ mark slash (path_of slash ks ++ 0 ∷ []) way

found-has :
    (fs : Fs) (ks : List (List ℕ)) (p : Pointer)
    → find_from fs.children ks ≡ some p
    → has fs.children ks ≡ true
found-has fs ks p e =
    let (v, there) = found-value fs.root fs.children ks p e in
    sym (has-value fs.root fs.children ks) ∙ ap is_some there

seek-Ends :
    (fs : Fs) (ks ms rest : List (List ℕ))
    → fs.delim ≡ slash
    → ks ≡ ms ++ rest
    → find_from fs.children ms ≡ some (prefix_in fs (path_of slash ks)).node
    → Ends fs
        (path_of slash ks ++ 0 ∷ [])
        (path_of slash ks)
        ms
        rest
        (trie_longest_prefix fs (path_of slash ks) (path_of slash ks ++ 0 ∷ []))
    → Hit fs ks ⊎ Miss fs ks
seek-Ends fs ks ms [] d eq found ends =
    let all : ks ≡ ms = eq ∙ append-nil ms in
    let node : find_from fs.children ks ≡ some (prefix_in fs (path_of slash ks)).node =
      ap (find_from fs.children) all ∙ found in
    inl (record { there = found-has fs ks _ node; node = node; whole = ends })
seek-Ends fs ks ms (s ∷ parts) d eq found (missing, marked) = inr (record {
  way = ms;
  next = s;
  parts = parts;
  split = eq;
  there = found-has fs ms _ found;
  not_there = has-snoc_missing fs.children ms s _ found missing;
  stands = marked ∙ ap (λ c. mark c (path_of slash ks ++ 0 ∷ []) ms) d;
})

pub seek :
    (fs : Fs) (k : List ℕ) (ks : List (List ℕ))
    → fs.delim ≡ slash
    → IsPath slash (k ∷ ks)
    → Hit fs (k ∷ ks) ⊎ Miss fs (k ∷ ks)
seek fs k ks d path =
    let buff = path_of slash (k ∷ ks) ++ 0 ∷ [] in
    let (ms, rest, eq, found, ends) =
      subst
        (λ c.
          (c == 0) ≡ false
          → IsPath c (k ∷ ks)
          → (ms : List (List ℕ)) × (rest : List (List ℕ)) × (k ∷ ks ≡ ms ++ rest)
            × (find_from fs.children ms ≡ some (trie_longest_prefix fs (path_of c (k ∷ ks)) buff).0)
            × Ends fs buff (path_of c (k ∷ ks)) ms rest
                (trie_longest_prefix fs (path_of c (k ∷ ks)) buff))
        d (trie_longest_prefix-IsLongest fs buff k ks) refl path in
    seek-Ends fs (k ∷ ks) ms rest d eq found ends

pub Hit-same :
    (fs : Fs) (ks : List (List ℕ))
    → Hit fs ks
    → same (path_of slash ks) (prefix_in fs (path_of slash ks)).buff ≡ true
Hit-same fs ks h = ap (same (path_of slash ks)) h.whole ∙ same_refl (path_of slash ks)

slash-first : (text : List ℕ) → strtok_all slash (slash ∷ text) ≡ strtok_all slash text
unfolding strtok_all
slash-first text = ap emit (parts-delim slash text)

same-longer : (a b : List ℕ) → b ≢ [] → same (a ++ b) a ≡ false
same-longer a [] h = absurd (h refl)
same-longer a (c ∷ b) h = same_comm (a ++ c ∷ b) a ∙ same-append a c b

append-not_nil : (a b : List ℕ) → a ≢ [] → a ++ b ≢ []
append-not_nil [] b h = absurd (h refl)
append-not_nil (x ∷ a) b h = λ e. cc

slash-Stands :
    (front : List ℕ) (way : List (List ℕ))
    → front ≡ path_of slash way
    → Stands (front ++ slash ∷ []) way
slash-Stands front way e =
    let last : ends_in_slash (front ++ slash ∷ []) ≡ true =
      ends_in_slash-append front (slash ∷ []) (λ e. cc) in
    rw last (append-nil (front ++ slash ∷ []) ∙ ap (λ z. z ++ slash ∷ []) e)

-- The mark in a copy of the text: the part that was found, with the slash behind it.
mark-name :
    (way parts : List (List ℕ)) (s : List ℕ)
    → s ≢ []
    → (tail : List ℕ) × (path_of slash (way ++ s ∷ parts)
        ≡ mark slash (path_of slash (way ++ s ∷ parts) ++ 0 ∷ []) way ++ tail)
      × (strtok_all slash tail ≡ strtok_all slash (s ++ path_of slash parts))
      × Stands (mark slash (path_of slash (way ++ s ∷ parts) ++ 0 ∷ []) way) way
      × (tail ≢ [])
mark-name [] parts s some_char =
    (path_of slash (s ∷ parts), refl, slash-first (s ++ path_of slash parts), refl, λ e. cc)
mark-name (m ∷ ms) parts s some_char =
    let front = path_of slash (m ∷ ms) in
    let tail = s ++ path_of slash parts in
    let text : path_of slash (m ∷ ms ++ s ∷ parts) ≡ front ++ slash ∷ tail =
      path_of-append slash (m ∷ ms) (s ∷ parts) in
    let marked : mark slash (path_of slash (m ∷ ms ++ s ∷ parts) ++ 0 ∷ []) (m ∷ ms)
        ≡ front ++ slash ∷ [] =
      ap (λ z. front ++ c_str (take 1 (drop (length front) (z ++ 0 ∷ [])))) text
      ∙ ap (λ z. front ++ c_str (take 1 (drop (length front) z)))
          (append_assoc front (slash ∷ tail) (0 ∷ []))
      ∙ ap (λ z. front ++ c_str (take 1 z)) (drop-length front (slash ∷ (tail ++ 0 ∷ []))) in
    (
      tail,
      text ∙ sym (append_assoc front (slash ∷ []) tail) ∙ ap (λ z. z ++ tail) (sym marked),
      refl,
      subst (λ z. Stands z (m ∷ ms)) (sym marked) (slash-Stands front (m ∷ ms) refl),
      append-not_nil s (path_of slash parts) some_char,
    )

populate-run :
    (disk : Disk) (room : ℕ) (existing missing : List ℕ) (fs : Fs) (parts : List (List ℕ))
    (p : Populated)
    → strtok_all slash missing ≡ parts
    → populate_loop disk room parts existing 0 fs ≡ ok p
    → p.mis_off ≤ length missing
    → simfs_populate disk room existing missing fs
      ≡ ok
          (record { rv = p.rv; existing = p.existing; missing = drop p.mis_off missing; fs = p.fs })
unfolding simfs_populate
populate-run disk room existing missing fs parts p tokens run fits =
    rw (tokens, run, le→leb p.mis_off (length missing) fits) refl

-- What is looked for on the disk, where the path is not in the tree.
pub Miss-scan :
    (disk : Disk) (fs : Fs) (ks : List (List ℕ))
    → IsPath slash ks
    → (h : Miss fs ks)
    → (same (path_of slash ks) (prefix_in fs (path_of slash ks)).buff ≡ false)
      × ((m : Missing) × (populate disk (prefix_in fs (path_of slash ks)) fs ≡ ok m)
          × (m.rv ≡ (scan disk h.way fs (h.next ∷ h.parts)).all)
          × (m.fs ≡ (scan disk h.way fs (h.next ∷ h.parts)).fs)
          × Stands m.existing (scan disk h.way fs (h.next ∷ h.parts)).way
          × (length m.missing + length m.existing ≡ length (path_of slash ks)))
Miss-scan disk fs ks path h =
    let name = path_of slash ks in
    let b = (prefix_in fs name).buff in
    let path_sp : IsPath slash (h.next ∷ h.parts) =
      All-behind (IsKey slash) h.way (h.next ∷ h.parts) (subst (IsPath slash) h.split path) in
    let (tail, text, tokens, stands, some_tail) = mark-name h.way h.parts h.next path_sp.0.0.0 in
    let be = h.stands ∙ ap (λ z. mark slash (path_of slash z ++ 0 ∷ []) h.way) h.split in
    let nt : name ≡ b ++ tail = ap (path_of slash) h.split ∙ text ∙ ap (λ z. z ++ tail) (sym be) in
    let parts : strtok_all slash tail ≡ h.next ∷ h.parts =
      tokens
      ∙ sym (slash-first (h.next ++ path_of slash h.parts))
      ∙ strtok_all-path_of slash (h.next ∷ h.parts) path_sp in
    let whole = ap length nt ∙ length-append b tail in
    let two =
      ap length (ap (path_of slash) h.split ∙ path_of-append slash h.way (h.next ∷ h.parts))
      ∙ length-append (path_of slash h.way) (path_of slash (h.next ∷ h.parts)) in
    let missing : drop (common b name) name ≡ tail =
      ap (λ n. drop n name) (ap (common b) nt ∙ common-append b tail)
      ∙ ap (drop (length b)) nt
      ∙ drop-length b tail in
    let (e, m, run, stood, sums, room_left) =
      populate_loop-scan disk (length name) 0 (h.next ∷ h.parts) h.way b fs path_sp
        (subst (λ z. Stands z h.way) (sym be) stands) (omega arith) (omega arith) in
    let scanned = scan disk h.way fs (h.next ∷ h.parts) in
    (
      ap (λ z. same z b) nt ∙ same-longer b tail some_tail,
      (
        record { rv = scanned.all; existing = e; missing = drop m tail; fs = scanned.fs },
        ap (λ z. simfs_populate disk (length name) b z fs) missing
            ∙ populate-run disk (length name) b tail fs (h.next ∷ h.parts) (populated scanned e m)
                parts run (omega arith),
        refl,
        refl,
        stood,
        (let rest = length-drop m tail in omega arith),
      ),
    )
