-- ===== src/Replicate/Tables.antt =====
-- The tables of the processes: `replicate_clone`, `replicate_missing_ht`, and the lookup with which
-- every operation on a descriptor begins.
use ioapps.Base.{ℕ, zero, suc, if◌then◌else◌, List, [], ◌∷◌, ◌++◌, Option, none, some, length}
use ioapps.Base.Int.{ℤ}
use ioapps.Base.Run.{ok}
use ioapps.Fdmap.{FdMap, FdItem, FdUsage}
use ioapps.Fdmap.Clone.{ht_ops_fditem, duplicate_process_ht}
use ioapps.Fdmap.Processes.{ht_ops_fdmapping, get_process_ht, new_process_ht}
use ioapps.Fdmap.Usage.{increase_fd_usage}
use ioapps.HashTable.{HashTable, hash_table_insert, hash_table_find, hash_table_remove}
use ioapps.Replicate.World.{
  M, ret, ◌>>=◌, ◌>>◌, skip, crash, lift, gets, get_table, set_table, set_usage, set_processes,
  int32, has_flag,
}
use ioapps.Trace

-- `CLONE_FILES` of sched.h.
abbrev pub clone_files : ℕ
clone_files = 0x400

-- The place of a table in the store, from its pointer.
abbrev pub place_of : Option ℕ → Option ℕ
place_of none = none
place_of (some zero) = none
place_of (some (suc i)) = some i

-- The pointer that a table's place has.
abbrev pub pointer_of : Option ℕ → ℕ
pointer_of none = 0
pointer_of (some i) = suc i

module _ {S : Type 0} where
  -- `get_process_ht(fd_mappings, pid)`
  unfoldable pub get_ht : ℤ → M S (Option ℕ)
  get_ht pid = do
    processes ← gets (λ w. w.fd_mappings)
    found ← lift (get_process_ht processes pid)
    ret (place_of found)

  -- A new table, and the pointer to it.
  unfoldable pub add_table : HashTable FdItem → M S ℕ
  add_table t w = ok (suc (length w.tables), record w { tables = w.tables ++ t ∷ [] })

  unfoldable pub set_copied : List (Option FdMap) → HashTable FdUsage → M S (Unit {0})
  set_copied maps usage_map w = ok (tt, record w { maps = maps; usage_map = usage_map })

  -- `h_it->ht  = duplicate_process_ht(...)`
  unfoldable pub copy_table : Option ℕ → M S ℕ
  copy_table none = crash
  copy_table (some i) = do
    h ← get_table i
    maps ← gets (λ w. w.maps)
    usage_map ← gets (λ w. w.usage_map)
    copied ← lift (duplicate_process_ht maps h usage_map)
    set_copied copied.maps copied.usage_map
    add_table copied.ht

  unfoldable pub insert_process : ℤ → ℕ → M S (Unit {0})
  insert_process pid ht = do
    processes ← gets (λ w. w.fd_mappings)
    processes ← lift (hash_table_insert ht_ops_fdmapping processes pid (new_process_ht ht pid))
    set_processes processes

  -- `replicate_clone` of a child `pid` of `parent`.
  unfoldable pub clone_process : ℤ → ℤ → ℕ → M S (Unit {0})
  clone_process pid parent mode = do
    known ← get_ht pid
    elim known [
      | some i ↦ skip
      | none ↦ do
        own ← get_ht parent
        ht ← (if has_flag mode clone_files then ret (pointer_of own) else copy_table own)
        insert_process pid ht
    ]

  unfoldable pub replicate_clone : Trace.CloneOp → M S (Unit {0})
  replicate_clone op = clone_process (int32 op.retval) (int32 op.info.pid) op.mode

  unfoldable pub replicate_missing_ht : ℤ → M S (Option ℕ)
  replicate_missing_ht pid = do
    fix ← gets (λ w. w.global_fix_missing)
    if fix
        then (do
          parent ← gets (λ w. w.global_parent_pid)
          clone_process pid parent clone_files
          get_ht pid)
        else ret none

  -- The table of a process, or of one that is missing.
  unfoldable pub process_ht : ℤ → M S (Option ℕ)
  process_ht pid = do
    ht ← get_ht pid
    elim ht [ some i ↦ ret (some i) | none ↦ replicate_missing_ht pid ]

  -- `hash_table_find`, `hash_table_insert` and `hash_table_remove` on the table at a place.
  unfoldable pub find_fd : ℕ → ℤ → M S (Option FdItem)
  find_fd i fd = do t ← get_table i; lift (hash_table_find ht_ops_fditem t fd)

  unfoldable pub insert_fd : ℕ → ℤ → FdItem → M S (Unit {0})
  insert_fd i fd item = do
    t ← get_table i
    t ← lift (hash_table_insert ht_ops_fditem t fd item)
    set_table i t

  unfoldable pub remove_fd : ℕ → ℤ → M S (Unit {0})
  remove_fd i fd = do
    t ← get_table i
    t ← lift (hash_table_remove ht_ops_fditem t fd)
    set_table i t

  unfoldable pub increase_usage : ℤ → M S (Unit {0})
  increase_usage fd = do t ← gets (λ w. w.usage_map); t ← lift (increase_fd_usage t fd); set_usage t
