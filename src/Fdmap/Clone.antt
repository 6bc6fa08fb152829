-- ===== src/Fdmap/Clone.antt =====
-- `duplicate_process_ht`: what a clone or fork does to the descriptors of a process.
pub mod Laws
use ioapps.Base.{Option, none, some, ℕ, zero, suc, List, [], ◌∷◌, ◌++◌, length}
use ioapps.Base.Int.{ℤ}
use ioapps.Base.Run.{Run, ok, abort, ◌>>=◌}
use ioapps.HashTable.{Ops, HashTable, hash_table_init, hash_table_insert, hash_table_apply}
use ioapps.HashTable.IntKeys.{int_ops}
use ioapps.Fdmap.{FdMap, FdItem, FdUsage}
use ioapps.Fdmap.Usage.{increase_fd_usage}

abbrev pub item_fd : FdItem → ℤ
item_fd item = item.old_fd

-- `ht_ops_fditem`
abbrev pub ht_ops_fditem : Ops ℤ FdItem
ht_ops_fditem = int_ops item_fd

-- The map behind a pointer; a place that was never allocated, or is free again, is undefined
-- behaviour.
abbrev pub load : List (Option FdMap) → ℕ → Run FdMap
load [] pointer = abort
load (none ∷ maps) zero = abort
load (some m ∷ maps) zero = ok m
load (m ∷ maps) (suc pointer) = load maps pointer

-- The maps in the order of allocation, `none` where one was freed, the new table and the usages, while the loops run.
pub record Cloning : Type 0 where
  pub maps : List (Option FdMap)
  pub ht : HashTable FdItem
  pub usage_map : HashTable FdUsage

-- The body of the loops; the new map is the next place of the store.
unfoldable pub duplicate_item : FdItem → Cloning → Run Cloning
duplicate_item fd_it_old s = do
  m ← load s.maps fd_it_old.fd_map
  ht ←
      hash_table_insert ht_ops_fditem s.ht fd_it_old.old_fd
        (record { old_fd = fd_it_old.old_fd; fd_map = length s.maps })
  usage_map ← increase_fd_usage s.usage_map m.my_fd
  ok (record { maps = s.maps ++ some m ∷ []; ht = ht; usage_map = usage_map })

unfoldable pub duplicate_process_ht :
    List (Option FdMap) → HashTable FdItem → HashTable FdUsage → Run Cloning
unfolding duplicate_item
duplicate_process_ht maps h usage_map =
    hash_table_apply (λ s fd_it_old. s >>= duplicate_item fd_it_old)
      (ok (record { maps = maps; ht = hash_table_init (length h.entry); usage_map = usage_map })) h
