-- ===== src/Fdmap/Processes.antt =====
-- The table of processes: which table of descriptors belongs to a process id.
pub mod Lookup
use ioapps.Base.{ℕ, if◌then◌else◌, Bool, true, false, Option, none, some}
use ioapps.Base.Int.{ℤ, ◌==ℤ◌}
use ioapps.Base.Run.{Run, ok, abort, ◌>>=◌}
use ioapps.HashTable.{Ops, HashTable, hash_table_find, hash_table_insert, hash_table_remove}
use ioapps.HashTable.IntKeys.{int_ops}
use ioapps.Fdmap.{ProcessHashItem}

abbrev pub item_pid : ProcessHashItem → ℤ
item_pid item = item.pid

-- `ht_ops_fdmapping`
abbrev pub ht_ops_fdmapping : Ops ℤ ProcessHashItem
ht_ops_fdmapping = int_ops item_pid

unfoldable pub get_process_ht : HashTable ProcessHashItem → ℤ → Run (Option ℕ)
get_process_ht fd_mappings pid = do
  process_ht_item ← hash_table_find ht_ops_fdmapping fd_mappings pid
  elim process_ht_item [
    | none ↦ ok none
    | some p_item ↦ if pid ==ℤ p_item.pid then ok (some p_item.ht) else ok none
  ]

-- `ht` is the table that the function allocates and initializes.
unfoldable pub new_process_ht : ℕ → ℤ → ProcessHashItem
new_process_ht ht pid = record { ht = ht; pid = pid }

unfoldable pub delete_process_ht : HashTable ProcessHashItem → ℤ → Run (HashTable ProcessHashItem)
delete_process_ht fd_mappings pid = do
  process_ht_item ← hash_table_find ht_ops_fdmapping fd_mappings pid
  elim process_ht_item [
    | none ↦ ok fd_mappings
    | some p_item ↦ hash_table_remove ht_ops_fdmapping fd_mappings pid
  ]
