-- ===== src/SimFs/Checking.antt =====
-- simfs.c: what `simfs_stat` and `simfs_access` answer and leave.

use mathlib.Core.Option.{bind}
use ioapps.Base.{
  ℕ, ◌≡◌, refl, sym, ap, ◌∙◌, ◌==◌, if◌then◌else◌, not, Bool, Bool-cases, Option-cases, inl, inr,
  true, false, List, [], ◌∷◌, Option, none, some,
}
use ioapps.Base.Int.{ℤ, pos}
use ioapps.Base.Run.{Run, ok}
use ioapps.Trace.{AccessOp, StatOp}
use ioapps.Trie.{value_at}
use ioapps.Trie.Paths.{path_of, IsPath}
use ioapps.Trie.Lookup.{find_value, find_from-value}
use ioapps.Trie.Deleting.{found-value}
use ioapps.Trie.Having.{has, has-value, is_some}
use ioapps.SimFs.{Fs, Disk, Missing, physical_at, simfs_enoent, simfs_eent}
use ioapps.SimFs.Names.{slash}
use ioapps.SimFs.Scan.{IsFs}
use ioapps.SimFs.Seek.{Hit, seek, Hit-same}
use ioapps.SimFs.Known.{
  known, known-there, without_path-IsFs, without_path-has, with_path-IsFs, with_path-has,
}
use ioapps.SimFs.Calls.{
  Answer, prefix_in, without_path, with_path, check_there, check_missing, check_file, simfs_access,
  simfs_stat,
}
use ioapps.SimFs.Outcomes.{Names, Names-IsPath, find_prefix-Names, Miss-Looked}

-- A path that is in the tree and not on the disk.
abbrev pub is_virtual : Fs → List (List ℕ) → Bool
is_virtual fs ks = elim (find_value fs.root fs.children ks) [
  | none ↦ false
  | some v ↦ not v.physical
]

Hit-physical :
    (fs : Fs) (ks : List (List ℕ))
    → Hit fs ks
    → not (physical_at fs (prefix_in fs (path_of slash ks)).node) ≡ is_virtual fs ks
unfolding bind
Hit-physical fs ks h =
    let p = (prefix_in fs (path_of slash ks)).node in
    let value : value_at fs.root fs.children p ≡ find_value fs.root fs.children ks =
      ap (λ o. bind o (value_at fs.root fs.children)) (sym h.node)
      ∙ find_from-value fs.root fs.children ks in
    let (v, there) = found-value fs.root fs.children ks p h.node in
    rw (physical_at, is_virtual, value, there) refl

-- The result of stat and access: whether the trace's outcome is what is known.
abbrev pub check_result : Option ℤ → Bool → ℕ → Option ℤ
check_result not_there found retval =
    if retval == 0
    then if found then some (pos 0) else not_there
    else some (if found then simfs_eent else pos 0)

-- What an operation on a path promises: that it answers with the result, and that it leaves a tree which
-- has the path or not.
abbrev pub Gives : Run Answer → Option ℤ → List (List ℕ) → Bool → Type 0
Gives call result ks there =
    (fs' : Fs) × (call ≡ ok (result, fs')) × IsFs fs' × (has fs'.children ks ≡ there)

check-there :
    (not_there : Option ℤ) (retval : ℕ) (fs : Fs) (k : List ℕ) (ks : List (List ℕ))
    → IsFs fs
    → IsPath slash (k ∷ ks)
    → (h : Hit fs (k ∷ ks))
    → Gives
        (ok (check_there retval (prefix_in fs (path_of slash (k ∷ ks))) fs))
        (check_result not_there true retval)
        (k ∷ ks)
        (if retval == 0 then true else is_virtual fs (k ∷ ks))
check-there not_there retval fs k ks good path h =
    let name = path_of slash (k ∷ ks) in
    let f = prefix_in fs name in
    elim (Bool-cases (retval == 0)) [
      | inl z ↦ rw (check_there, z) (fs, refl, good, h.there)
      | inr z ↦ elim (Bool-cases (physical_at fs f.node)) [
        | inl p ↦
            rw (check_there, z, p, sym (Hit-physical fs (k ∷ ks) h))
              (
                without_path fs name,
                refl,
                without_path-IsFs fs name good,
                without_path-has fs k ks good path ∙ ap not (sym p),
              )
        | inr p ↦
            rw (check_there, z, p, sym (Hit-physical fs (k ∷ ks) h))
              (fs, refl, good, h.there ∙ ap not (sym p))
      ]
    ]

check-missing :
    (not_there : Option ℤ) (retval : ℕ) (k : List ℕ) (ks : List (List ℕ)) (m : Missing)
    → IsPath slash (k ∷ ks)
    → IsFs m.fs
    → has m.fs.children (k ∷ ks) ≡ m.rv
    → Gives
        (ok (check_missing not_there retval (path_of slash (k ∷ ks)) m))
        (check_result not_there m.rv retval)
        (k ∷ ks)
        (if retval == 0 then true else false)
check-missing not_there retval k ks m path good there =
    let name = path_of slash (k ∷ ks) in
    elim (Bool-cases (retval == 0)) [
      | inl z ↦ elim (Bool-cases m.rv) [
        | inl r ↦ rw (check_missing, z, r) (m.fs, refl, good, there ∙ r)
        | inr r ↦
            rw (check_missing, z, r)
              (
                with_path m.fs name,
                refl,
                with_path-IsFs m.fs k ks good path,
                with_path-has m.fs k ks good path,
              )
      ]
      | inr z ↦ elim (Bool-cases m.rv) [
        | inl r ↦
            rw (check_missing, z, r)
              (
                without_path m.fs name,
                refl,
                without_path-IsFs m.fs name good,
                without_path-has m.fs k ks good path,
              )
        | inr r ↦ rw (check_missing, z, r) (m.fs, refl, good, there ∙ r)
      ]
    ]

missing-virtual :
    (fs : Fs) (ks : List (List ℕ)) → has fs.children ks ≡ false → is_virtual fs ks ≡ false
missing-virtual fs ks h = elim (Option-cases (find_value fs.root fs.children ks)) [
  | inl e ↦ rw (is_virtual, e) refl
  | inr (v, e) ↦
      let wrong : true ≡ false = sym (ap is_some e) ∙ has-value fs.root fs.children ks ∙ h in cc
]

check_file-Gives :
    (disk : Disk) (not_there : Option ℤ) (retval : ℕ) (fs : Fs) (k : List ℕ) (ks : List (List ℕ))
    → IsPath slash (k ∷ ks)
    → IsFs fs
    → Gives
        (check_file disk not_there retval fs (prefix_in fs (path_of slash (k ∷ ks))))
        (check_result not_there (known disk fs [] (k ∷ ks)) retval)
        (k ∷ ks)
        (if retval == 0 then true else is_virtual fs (k ∷ ks))
check_file-Gives disk not_there retval fs k ks path good = elim (seek fs k ks good.0 path) [
  | inl h ↦
      rw (check_file, Hit-same fs (k ∷ ks) h, known-there disk fs (k ∷ ks) h.there)
        (check-there not_there retval fs k ks good path h)
  | inr h ↦
      let (differ, gone, m, looked) = Miss-Looked disk fs (k ∷ ks) good path h in
      rw (check_file, differ, looked.run, sym looked.answer, missing-virtual fs (k ∷ ks) gone)
        (check-missing not_there retval k ks m path looked.good looked.there)
]

-- A name shorter than 512 characters that has one slash before each of its parts, where each part is
-- `..` or a name that does not begin with a dot, and that leads to a path of one part or more; and a
-- tree with the slash as delimiter, whose siblings have different names: `simfs_stat` does not
-- abort. It answers 0 where the call succeeded in the trace and the path is known, each part in the
-- tree or on the disk, or where the call failed and the path is not known; SIMFS_ENOENT and
-- SIMFS_EENT in the other two cases. The tree left is again such a tree. It has the path if the call
-- succeeded in the trace; else it has it only if it was there before and its node is not marked as
-- one of the disk.
pub simfs_stat-Gives :
    (disk : Disk) (op : StatOp) (fs : Fs) (k : List ℕ) (ks : List (List ℕ))
    → Names op.name (k ∷ ks)
    → IsFs fs
    → Gives
        (simfs_stat disk op fs)
        (check_result (some simfs_enoent) (known disk fs [] (k ∷ ks)) op.retval)
        (k ∷ ks)
        (if op.retval == 0 then true else is_virtual fs (k ∷ ks))
unfolding simfs_stat
simfs_stat-Gives disk op fs k ks names good = rw (find_prefix-Names disk fs op.name k ks names) (
    check_file-Gives disk (some simfs_enoent) op.retval fs k ks
      (Names-IsPath op.name (k ∷ ks) names) good)

-- A name shorter than 512 characters that has one slash before each of its parts, where each part is
-- `..` or a name that does not begin with a dot, and that leads to a path of one part or more; and a
-- tree with the slash as delimiter, whose siblings have different names: `simfs_access` does not
-- abort. It answers 0 where the call succeeded in the trace and the path is known, each part in the
-- tree or on the disk, or where the call failed and the path is not known; SIMFS_EENT where it
-- failed and the path is known; and where it succeeded and the path is not known, a variable that
-- has not been assigned. The tree left is again such a tree. It has the path if the call succeeded
-- in the trace; else it has it only if it was there before and its node is not marked as one of the
-- disk.
pub simfs_access-Gives :
    (disk : Disk) (op : AccessOp) (fs : Fs) (k : List ℕ) (ks : List (List ℕ))
    → Names op.name (k ∷ ks)
    → IsFs fs
    → Gives
        (simfs_access disk op fs)
        (check_result none (known disk fs [] (k ∷ ks)) op.retval)
        (k ∷ ks)
        (if op.retval == 0 then true else is_virtual fs (k ∷ ks))
unfolding simfs_access
simfs_access-Gives disk op fs k ks names good =
    rw (find_prefix-Names disk fs op.name k ks names)
      (check_file-Gives disk none op.retval fs k ks (Names-IsPath op.name (k ∷ ks) names) good)
