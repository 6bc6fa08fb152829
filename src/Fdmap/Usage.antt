-- ===== src/Fdmap/Usage.antt =====
-- How many processes use a file descriptor: the tables of `fd_usage_t`.
pub mod Counts
use ioapps.Base.{ℕ, if◌then◌else◌, Bool, true, false, Option, none, some}
use ioapps.Base.Int.{ℤ, pos, minus_one, ◌==ℤ◌, ◌+ℤ◌}
use ioapps.Base.Run.{Run, ok, abort, ◌>>=◌}
use ioapps.HashTable.{
  Ops, HashTable, hash_table_insert, hash_table_find, hash_table_remove, hash_table_update,
}
use ioapps.HashTable.IntKeys.{int_ops}
use ioapps.Fdmap.{FdUsage}

abbrev pub my_fd : FdUsage → ℤ
my_fd item = item.my_fd

-- The operations of a usage table: `ht_hash_int` and `ht_compare_fd_usage`.
abbrev pub usage_ops : Ops ℤ FdUsage
usage_ops = int_ops my_fd

abbrev pub add_usage : ℤ → FdUsage → FdUsage
add_usage d u = record u { usage = u.usage +ℤ d }

unfoldable pub increase_fd_usage : HashTable FdUsage → ℤ → Run (HashTable FdUsage)
increase_fd_usage ht fd = do
  item ← hash_table_find usage_ops ht fd
  elim item [
    | none ↦ hash_table_insert usage_ops ht fd (record { my_fd = fd; usage = pos 1 })
    | some fd_usage ↦ hash_table_update usage_ops ht fd (add_usage (pos 1))
  ]

-- The result is 1, as true, or 0.
unfoldable pub decrease_fd_usage : HashTable FdUsage → ℤ → Run (Bool × HashTable FdUsage)
decrease_fd_usage ht fd = do
  item ← hash_table_find usage_ops ht fd
  elim item [
    | none ↦ abort
    | some fd_usage ↦ do
      ht ← hash_table_update usage_ops ht fd (add_usage minus_one)
      if fd_usage.usage +ℤ minus_one ==ℤ pos 0
          then (do ht ← hash_table_remove usage_ops ht fd; ok (true, ht))
          else ok (false, ht)
  ]
