-- ===== src/SimFs/Making.antt =====
-- simfs.c: what is in the tree after `simfs_mkdir` and `simfs_creat`.
use mathlib.Core.Path.{subst}
use ioapps.Base.{
  ℕ, ◌≡◌, ◌≢◌, refl, sym, ap, ◌∙◌, ◌==◌, ◌&&◌, not, ◌||◌, Bool, Bool-cases, inl, inr, true, false,
  List, [], ◌∷◌, some, length, drop, drop-length, append-nil,
}
use ioapps.Base.Int.{ℤ}
use ioapps.Base.Run.{Run, ok}
use ioapps.Trace.{MkdirOp, OpenOp}
use ioapps.Parsing.{same, strtok_all, strtok_parts}
use ioapps.Trie.Insert.{common, trie_insert}
use ioapps.Trie.Paths.{path_of, IsPath, common-append, same_refl}
use ioapps.Trie.Having.{has, change_value-has, change_value-Distinct, change_value-delim}
use ioapps.SimFs.{Fs, Disk, Missing, populate_loop, simfs_populate, simfs_new_trie_node}
use ioapps.SimFs.Names.{slash}
use ioapps.SimFs.Scan.{IsFs}
use ioapps.SimFs.Seek.{Hit, seek}
use ioapps.SimFs.Known.{
  known, or-true, or-false, known-there, without_path-IsFs, without_path-has, with_path-IsFs,
  with_path-has,
}
use ioapps.SimFs.Outcomes.{Names, Names-IsPath, find_prefix-Names, Miss-Looked}
use ioapps.SimFs.Calls.{
  Answer, prefix_in, populate, without_path, with_path, created_in, make_missing, would_succ,
  without_first, without_last, mkdir_in, simfs_mkdir, has_bits, call_failed, creat_there,
  creat_missing, creat_in, simfs_creat,
}

-- What an operation leaves: some result, and a tree that has the path or not.
abbrev pub Leaves : Run Answer → List (List ℕ) → Bool → Type 0
Leaves call ks there =
    (rv : ℤ) × (fs' : Fs) × (call ≡ ok (some rv, fs')) × IsFs fs' × (has fs'.children ks ≡ there)

not-not : (b : Bool) → not (not b) ≡ b
not-not true = refl
not-not false = refl

created_in-IsFs :
    (fs : Fs) (k : List ℕ) (ks : List (List ℕ))
    → IsFs fs
    → IsPath slash (k ∷ ks)
    → IsFs (created_in fs (path_of slash (k ∷ ks)))
created_in-IsFs fs k ks h path =
    let (e, d) = with_path-IsFs fs k ks h path in
    let made = trie_insert fs (path_of slash (k ∷ ks)) simfs_new_trie_node in
    (change_value-delim made.0 made.1 _ ∙ e, change_value-Distinct made.0 made.1 _ d)

created_in-has :
    (fs : Fs) (k : List ℕ) (ks : List (List ℕ))
    → IsFs fs
    → IsPath slash (k ∷ ks)
    → has (created_in fs (path_of slash (k ∷ ks))).children (k ∷ ks) ≡ true
created_in-has fs k ks h path =
    let made = trie_insert fs (path_of slash (k ∷ ks)) simfs_new_trie_node in
    change_value-has made.0 made.1 _ (k ∷ ks) ∙ with_path-has fs k ks h path

make_missing-Leaves :
    (lost succ : Bool) (fs : Fs) (k : List ℕ) (ks : List (List ℕ))
    → IsFs fs
    → IsPath slash (k ∷ ks)
    → has fs.children (k ∷ ks) ≡ false
    → Leaves (ok (make_missing lost succ (path_of slash (k ∷ ks)) fs)) (k ∷ ks) (not lost)
make_missing-Leaves true true fs k ks good path gone = (
  _,
  without_path fs (path_of slash (k ∷ ks)),
  refl,
  without_path-IsFs fs _ good,
  without_path-has fs k ks good path,
)
make_missing-Leaves true false fs k ks good path gone = (_, fs, refl, good, gone)
make_missing-Leaves false succ fs k ks good path gone = (
  _,
  created_in fs (path_of slash (k ∷ ks)),
  refl,
  created_in-IsFs fs k ks good path,
  created_in-has fs k ks good path,
)

-- A path that is in the tree is left as it is by `simfs_populate`.
Hit-populate :
    (disk : Disk) (fs : Fs) (ks : List (List ℕ)) (h : Hit fs ks)
    → populate disk (prefix_in fs (path_of slash ks)) fs
      ≡ ok (record { rv = true; existing = path_of slash ks; missing = []; fs = fs })
unfolding simfs_populate populate_loop strtok_all strtok_parts
Hit-populate disk fs ks h =
    let name = path_of slash ks in
    let whole_common : common name name ≡ length name =
      ap (common name) (sym (append-nil name)) ∙ common-append name [] in
    let nothing : drop (common name name) name ≡ [] =
      ap (λ n. drop n name) whole_common
      ∙ ap (drop (length name)) (sym (append-nil name))
      ∙ drop-length name [] in
    ap (λ b. simfs_populate disk (length name) b (drop (common b name) name) fs) h.whole
    ∙ ap (λ z. simfs_populate disk (length name) name z fs) nothing

-- What is known then, whichever way the path was found.
abbrev Populates : Disk → Fs → List (List ℕ) → Missing → Type 0
Populates disk fs ks m =
    (populate disk (prefix_in fs (path_of slash ks)) fs ≡ ok m)
    × (m.rv ≡ known disk fs [] ks)
    × IsFs m.fs
    × (has m.fs.children ks ≡ m.rv)
    × (same (path_of slash ks) m.existing ≡ m.rv)
    × (m.rv ≡ false → m.missing ≢ [])

populate-Populates :
    (disk : Disk) (fs : Fs) (k : List ℕ) (ks : List (List ℕ))
    → IsFs fs
    → IsPath slash (k ∷ ks)
    → (m : Missing) × Populates disk fs (k ∷ ks) m
populate-Populates disk fs k ks good path = elim (seek fs k ks good.0 path) [
  | inl h ↦ (
    record { rv = true; existing = path_of slash (k ∷ ks); missing = []; fs = fs },
    (
      Hit-populate disk fs (k ∷ ks) h,
      sym (known-there disk fs (k ∷ ks) h.there),
      good,
      h.there,
      same_refl (path_of slash (k ∷ ks)),
      λ wrong. cc,
    ),
  )
  | inr h ↦
      let (differ, gone, m, looked) = Miss-Looked disk fs (k ∷ ks) good path h in
      (m, (looked.run, looked.answer, looked.good, looked.there, looked.exact, looked.left))
]

without_last-ok : (s : List ℕ) → s ≢ [] → (r : List ℕ) × (without_last s ≡ ok r)
without_last-ok [] h = absurd (h refl)
without_last-ok (c ∷ s) h = (_, refl)

mkdir_in-Leaves :
    (disk : Disk) (retval : ℕ) (fs : Fs) (k : List ℕ) (ks : List (List ℕ)) (m : Missing)
    → IsPath slash (k ∷ ks)
    → Populates disk fs (k ∷ ks) m
    → Leaves (mkdir_in retval (path_of slash (k ∷ ks)) m) (k ∷ ks) (m.rv || (retval == 0))
mkdir_in-Leaves disk retval fs k ks m path (run, answer, good, there, exact, left) =
    elim (Bool-cases m.rv) [
      | inl r ↦ rw (mkdir_in, exact, r) (_, m.fs, refl, good, there ∙ r)
      | inr r ↦
          let (missing, some_left) = without_last-ok m.missing (left r) in
          let succ = would_succ (without_first missing) in
          let call = ok (make_missing (not (retval == 0)) succ (path_of slash (k ∷ ks)) m.fs) in
          rw (mkdir_in, exact, r, some_left)
            (subst (Leaves call (k ∷ ks)) (not-not (retval == 0))
              (make_missing-Leaves (not (retval == 0)) succ m.fs k ks good path (there ∙ r)))
    ]

-- A name shorter than 512 characters that has one slash before each of its parts, where each part is
-- `..` or a name that does not begin with a dot, and that leads to a path of one part or more; and a
-- tree with the slash as delimiter, whose siblings have different names: `simfs_mkdir` does not
-- abort, leaves again such a tree, and afterwards the path is in the tree exactly where it was known
-- or the call succeeded in the trace.
pub simfs_mkdir-Leaves :
    (disk : Disk) (op : MkdirOp) (fs : Fs) (k : List ℕ) (ks : List (List ℕ))
    → Names op.name (k ∷ ks)
    → IsFs fs
    → Leaves (simfs_mkdir disk op fs) (k ∷ ks) (known disk fs [] (k ∷ ks) || (op.retval == 0))
unfolding simfs_mkdir
simfs_mkdir-Leaves disk op fs k ks names good =
    let path = Names-IsPath op.name (k ∷ ks) names in
    let (m, found) = populate-Populates disk fs k ks good path in
    rw (find_prefix-Names disk fs op.name k ks names, found.0, sym found.1)
      (mkdir_in-Leaves disk op.retval fs k ks m path found)

creat_there-Leaves :
    (op : OpenOp) (fs : Fs) (k : List ℕ) (ks : List (List ℕ))
    → IsFs fs
    → IsPath slash (k ∷ ks)
    → has fs.children (k ∷ ks) ≡ true
    → Leaves
        (ok (creat_there op (path_of slash (k ∷ ks)) fs))
        (k ∷ ks)
        (not (call_failed op.retval) || has_bits op.flags 64)
creat_there-Leaves op fs k ks good path there =
    let name = path_of slash (k ∷ ks) in
    elim (Bool-cases (has_bits op.flags 64)) [
      | inl c ↦ elim (Bool-cases (has_bits op.flags 128)) [
        | inl x ↦
            rw (creat_there, c, x)
              (_, fs, refl, good, there ∙ sym (or-true (not (call_failed op.retval))))
        | inr x ↦
            rw (creat_there, c, x)
              (_, fs, refl, good, there ∙ sym (or-true (not (call_failed op.retval))))
      ]
      | inr c ↦ elim (Bool-cases (call_failed op.retval)) [
        | inl lost ↦
            rw (creat_there, c, lost)
              (
                _,
                without_path fs name,
                refl,
                without_path-IsFs fs name good,
                without_path-has fs k ks good path,
              )
        | inr made ↦ rw (creat_there, c, made) (_, fs, refl, good, there)
      ]
    ]

creat_missing-Leaves :
    (op : OpenOp) (k : List ℕ) (ks : List (List ℕ)) (m : Missing)
    → IsFs m.fs
    → IsPath slash (k ∷ ks)
    → has m.fs.children (k ∷ ks) ≡ false
    → Leaves
        (ok (creat_missing op (path_of slash (k ∷ ks)) m))
        (k ∷ ks)
        (not (call_failed op.retval))
creat_missing-Leaves op k ks m good path gone =
    let name = path_of slash (k ∷ ks) in
    elim (Bool-cases (has_bits op.flags 64)) [
      | inl c ↦
          rw (creat_missing, c)
            (make_missing-Leaves (call_failed op.retval) (would_succ (without_first m.missing)) m.fs
              k ks good path gone)
      | inr c ↦ elim (Bool-cases (call_failed op.retval)) [
        | inl lost ↦ rw (creat_missing, c, lost) (_, m.fs, refl, good, gone)
        | inr made ↦
            rw (creat_missing, c, made)
              (
                _,
                with_path m.fs name,
                refl,
                with_path-IsFs m.fs k ks good path,
                with_path-has m.fs k ks good path,
              )
      ]
    ]

-- A name shorter than 512 characters that has one slash before each of its parts, where each part is
-- `..` or a name that does not begin with a dot, and that leads to a path of one part or more; and a
-- tree with the slash as delimiter, whose siblings have different names: `simfs_creat` does not
-- abort, leaves again such a tree, and afterwards the path is in the tree exactly where the call did
-- not fail in the trace, or was known and had O_CREAT.
pub simfs_creat-Leaves :
    (disk : Disk) (op : OpenOp) (fs : Fs) (k : List ℕ) (ks : List (List ℕ))
    → Names op.name (k ∷ ks)
    → IsFs fs
    → Leaves
        (simfs_creat disk op fs)
        (k ∷ ks)
        (not (call_failed op.retval) || (known disk fs [] (k ∷ ks) && has_bits op.flags 64))
unfolding simfs_creat
simfs_creat-Leaves disk op fs k ks names good =
    let path = Names-IsPath op.name (k ∷ ks) names in
    let (m, found) = populate-Populates disk fs k ks good path in
    let (run, answer, good', there, exact, left) = found in
    elim (Bool-cases m.rv) [
      | inl r ↦
          rw (find_prefix-Names disk fs op.name k ks names, run, sym answer, creat_in, exact, r)
            (creat_there-Leaves op m.fs k ks good' path (there ∙ r))
      | inr r ↦
          rw
            (
              find_prefix-Names disk fs op.name k ks names,
              run,
              sym answer,
              creat_in,
              exact,
              r,
              or-false (not (call_failed op.retval)),
            )
            (creat_missing-Leaves op k ks m good' path (there ∙ r))
    ]
