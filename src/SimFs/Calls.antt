-- ===== src/SimFs/Calls.antt =====
-- simfs.c: the operations of the trace on the simulated file system.

use Prim.Native.Nat.{bit_and}
use ioapps.Base.{
  ℕ, ◌-◌, ◌^◌, ◌==◌, if◌then◌else◌, not, Bool, true, List, [], ◌∷◌, ◌++◌, Option, none, some,
  length, take, drop,
}
use ioapps.Base.Int.{ℤ, pos}
use ioapps.Base.Run.{Run, ok, abort, ◌>>=◌}
use ioapps.Trace.{AccessOp, StatOp, MkdirOp, UnlinkOp, RmdirOp, OpenOp}
use ioapps.Parsing.{same, strccount}
use ioapps.Trie.{Pointer, trie_find, trie_delete, change_value, children_at, trie_is_leaf, max_line}
use ioapps.Trie.Insert.{c_str, common, trie_longest_prefix, trie_insert}
use ioapps.SimFs.{
  Fs, Disk, Missing, simfs_new_trie_node, simfs_absolute_name, simfs_populate, ends_in_slash,
  physical_at, simfs_phys, simfs_virt, simfs_enoent, simfs_eent,
}

-- The result of an operation and the tree afterwards; a result that is never assigned is `none`.
abbrev pub Answer : Type 0
Answer = Option ℤ × Fs

-- What each operation finds first: the polished name, the node of its longest prefix, and what `buff`
-- holds then.
pub record Found : Type 0 where
  pub name : List ℕ
  pub node : Pointer
  pub buff : List ℕ

abbrev pub prefix_in : Fs → List ℕ → Found
prefix_in fs name =
    let (node, buff) = trie_longest_prefix fs name (name ++ 0 ∷ []) in
    record { name = name; node = node; buff = c_str buff }

abbrev pub find_prefix : Disk → List ℕ → Fs → Run Found
find_prefix disk name fs = simfs_absolute_name disk name max_line >>= λ name. ok (prefix_in fs name)

-- The common part is skipped, and the rest looked for on the disk.
abbrev pub populate : Disk → Found → Fs → Run Missing
populate disk f fs =
    simfs_populate disk (length f.name) f.buff (drop (common f.buff f.name) f.name) fs

abbrev pub without_path : Fs → List ℕ → Fs
without_path fs name = (trie_delete fs name).1

abbrev pub with_path : Fs → List ℕ → Fs
with_path fs name = (trie_insert fs name simfs_new_trie_node).0

-- `trie_insert` and `created = 1`
abbrev pub created_in : Fs → List ℕ → Fs
created_in fs name =
    let (fs', n) = trie_insert fs name simfs_new_trie_node in
    change_value fs' n (λ v. record v { created = true })

-- `simfs_access` and `simfs_stat`, which differ in the result where the file is missing.
abbrev pub check_there : ℕ → Found → Fs → Answer
check_there retval f fs =
    if retval == 0
    then (some (pos 0), fs)
    else if physical_at fs f.node
    then (some simfs_eent, without_path fs f.name)
    else (some simfs_eent, fs)

abbrev pub check_missing : Option ℤ → ℕ → List ℕ → Missing → Answer
check_missing not_there retval name m =
    if not (retval == 0)
    then if m.rv then (some simfs_eent, without_path m.fs name) else (some (pos 0), m.fs)
    else if m.rv
    then (some (pos 0), m.fs)
    else (not_there, with_path m.fs name)

abbrev pub check_file : Disk → Option ℤ → ℕ → Fs → Found → Run Answer
check_file disk not_there retval fs f =
    if same f.name f.buff
    then ok (check_there retval f fs)
    else populate disk f fs >>= λ m. ok (check_missing not_there retval f.name m)

unfoldable pub simfs_access : Disk → AccessOp → Fs → Run Answer
simfs_access disk access_op fs =
    find_prefix disk access_op.name fs >>= check_file disk none access_op.retval fs

unfoldable pub simfs_stat : Disk → StatOp → Fs → Run Answer
simfs_stat disk stat_op fs =
    find_prefix disk stat_op.name fs >>= check_file disk (some simfs_enoent) stat_op.retval fs

-- Without a slash at the end; an empty string is read in front of its start.
abbrev pub without_last : List ℕ → Run (List ℕ)
without_last [] = abort
without_last (c ∷ s) = ok (if ends_in_slash (c ∷ s) then take (length s) (c ∷ s) else c ∷ s)

-- Without a slash at the start.
abbrev pub without_first : List ℕ → List ℕ
without_first [] = []
without_first (c ∷ s) = if c == b'/' then s else c ∷ s

-- Only the last part of the path is missing.
abbrev pub would_succ : List ℕ → Bool
would_succ missing = strccount missing b'/' == 0

-- What `simfs_mkdir` and `simfs_creat` do where the path is missing.
abbrev pub make_missing : Bool → Bool → List ℕ → Fs → Answer
make_missing failed succ name fs =
    if failed
    then if succ then (some simfs_eent, without_path fs name) else (some (pos 0), fs)
    else (some (if succ then pos 0 else simfs_enoent), created_in fs name)

abbrev pub mkdir_in : ℕ → List ℕ → Missing → Run Answer
mkdir_in retval name m =
    if same name m.existing
    then ok (some (if not (retval == 0) then pos 0 else simfs_eent), m.fs)
    else without_last m.missing >>= λ missing.
        ok (make_missing (not (retval == 0)) (would_succ (without_first missing)) name m.fs)

unfoldable pub simfs_mkdir : Disk → MkdirOp → Fs → Run Answer
simfs_mkdir disk mkdir_op fs = find_prefix disk mkdir_op.name fs >>= λ f.
    populate disk f fs >>= mkdir_in mkdir_op.retval f.name

abbrev pub unlink_there : ℕ → List ℕ → Fs → Answer
unlink_there retval name fs =
    (some (if retval == 0 then pos 0 else simfs_eent), without_path fs name)

abbrev pub unlink_missing : ℕ → List ℕ → Missing → Answer
unlink_missing retval name m =
    if not (retval == 0)
    then if m.rv then (some simfs_eent, without_path m.fs name) else (some (pos 0), m.fs)
    else (some simfs_enoent, without_path (with_path m.fs name) name)

abbrev pub unlink_in : Disk → ℕ → Fs → Found → Run Answer
unlink_in disk retval fs f =
    if same f.name f.buff
    then ok (unlink_there retval f.name fs)
    else populate disk f fs >>= λ m. ok (unlink_missing retval f.name m)

unfoldable pub simfs_unlink : Disk → UnlinkOp → Fs → Run Answer
simfs_unlink disk unlink_op fs =
    find_prefix disk unlink_op.name fs >>= unlink_in disk unlink_op.retval fs

unfoldable pub simfs_rmdir : Disk → RmdirOp → Fs → Run Answer
simfs_rmdir disk rmdir_op fs =
    simfs_unlink disk
      (record { name = rmdir_op.name; retval = rmdir_op.retval; info = rmdir_op.info }) fs

abbrev pub has_bits : ℕ → ℕ → Bool
has_bits flags bits = not (bit_and flags bits == 0)

-- `open_op->retval == -1`
abbrev pub call_failed : ℕ → Bool
call_failed retval = retval == 2 ^ 32 - 1

abbrev pub creat_there : OpenOp → List ℕ → Fs → Answer
creat_there open_op name fs =
    if has_bits open_op.flags 64
    then if has_bits open_op.flags 128
      then (some (if call_failed open_op.retval then pos 0 else simfs_eent), fs)
      else (some (pos 0), fs)
    else if call_failed open_op.retval
    then (some simfs_eent, without_path fs name)
    else (some (pos 0), fs)

abbrev pub creat_missing : OpenOp → List ℕ → Missing → Answer
creat_missing open_op name m =
    if not (has_bits open_op.flags 64)
    then if call_failed open_op.retval
      then (some (pos 0), m.fs)
      else (some simfs_enoent, with_path m.fs name)
    else make_missing (call_failed open_op.retval) (would_succ (without_first m.missing)) name m.fs

abbrev pub creat_in : OpenOp → List ℕ → Missing → Answer
creat_in open_op name m =
    if same name m.existing then creat_there open_op name m.fs else creat_missing open_op name m

unfoldable pub simfs_creat : Disk → OpenOp → Fs → Run Answer
simfs_creat disk open_op fs = find_prefix disk open_op.name fs >>= λ f.
    populate disk f fs >>= λ m. ok (creat_in open_op f.name m)

unfoldable pub simfs_has_file : Fs → List ℕ → ℤ
simfs_has_file fs name =
    let f = prefix_in fs name in
    if same name f.buff
    then if physical_at fs f.node then simfs_phys else simfs_virt
    else simfs_enoent

abbrev pub simfs_is_file : Fs → Pointer → Bool
simfs_is_file fs n = trie_is_leaf (children_at fs.children n)

unfoldable pub simfs_find : Disk → Fs → List ℕ → Run (Option Pointer)
simfs_find disk fs name = simfs_absolute_name disk name max_line >>= λ name. ok (trie_find fs name)
