-- ===== src/Fdmap/Tests.antt =====
-- The theorems on parents and usages at concrete arrays and tables.
use mathlib.Core.List.{flatten}
use mathlib.Core.Path.{refl, sym, ◌∙◌, subst}
use ioapps.Base.{
  Option, none, some, ℕ, ◌≡◌, ◌==◌, ◌≢◌, true, length, if◌then◌else◌, ◌+◌, List, [], ◌∷◌, replicate,
  arith,
}
use ioapps.Base.Int.{ℤ, pos, minus_one, ◌==ℤ◌}
use ioapps.Base.Run.{ok, ok-injective}
use ioapps.HashTable.{
  HashTable, hash_table_init, hash_table_insert, hash_table_find, chain_of, find_in, ht_hash_int,
}
use ioapps.Fdmap.Clone.{ht_ops_fditem, Cloning, duplicate_process_ht}
use ioapps.Fdmap.Clone.Laws.{Entry, items, clones, counted, duplicate_process_ht_lem}
use ioapps.Fdmap.{FdItem, FdMap, FdUsage, ProcessHashItem}
use ioapps.Fdmap.Processes.{ht_ops_fdmapping, new_process_ht}
use ioapps.Fdmap.Processes.Lookup.{
  IsProcesses, assigned, insert_process-IsProcesses, init-IsProcesses,
}
use ioapps.Fdmap.Parents.{insert_parent_fd, delete_parent_fd, new_parents}
use ioapps.Fdmap.Parents.Laws.{
  Holds, insert_parent_fd-Holds, delete_parent_fd-Holds, new_parents-Holds,
}
use ioapps.Fdmap.Parents.Search.{occurs}
use ioapps.Fdmap.Usage.{increase_fd_usage, decrease_fd_usage}
use ioapps.Fdmap.Usage.Counts.{
  IsCounting, updated, increase_fd_usage-IsCounting, decrease_fd_usage-IsCounting, init-IsCounting,
}

-- A map whose descriptor was opened as 3 and made 7 by dup.
abbrev shared : FdMap
shared = record {
  my_fd = pos 3;
  type = 0;
  cur_pos = 0;
  tv_sec = 0;
  tv_usec = 0;
  name = [];
  created = 0;
  parent_fds = pos 3 ∷ pos 7 ∷ replicate 18 minus_one;
  last_par_index = pos 1;
}

shared-Holds : Holds shared (pos 3 ∷ pos 7 ∷ [])
shared-Holds = record { spare = 18; layout = refl; size = refl; last = refl; used = refl }

fourth_differs : pos 4 ≢ minus_one
fourth_differs = λ e. cc

insert_parent_fd-Holds_example :
    (m' : FdMap) × (insert_parent_fd shared (pos 4) ≡ ok m') × Holds m' (pos 3 ∷ pos 7 ∷ pos 4 ∷ [])
insert_parent_fd-Holds_example =
    insert_parent_fd-Holds shared (pos 4) (pos 3 ∷ pos 7 ∷ []) shared-Holds fourth_differs refl
      (omega arith)

delete_parent_fd-Holds_example :
    (m' : FdMap) × (live' : List ℤ) × (delete_parent_fd shared (pos 3) ≡ ok (length live' == 0, m'))
    × Holds m' live'
    × ((x : ℤ) → occurs x (pos 3 ∷ pos 7 ∷ []) ≡ (if pos 3 ==ℤ x then 1 else 0) + occurs x live')
delete_parent_fd-Holds_example =
    delete_parent_fd-Holds shared (pos 3) (pos 3 ∷ pos 7 ∷ []) shared-Holds (omega arith)

new_parents_example : Holds (new_parents shared) []
new_parents_example = new_parents-Holds shared

init-IsCounting_example : IsCounting (hash_table_init 5) (λ n. 0)
init-IsCounting_example = init-IsCounting 5 (omega arith)

abbrev used_table : HashTable FdUsage
used_table = record {
  entry = [] ∷ [] ∷ (record { my_fd = pos 2; usage = pos 1 } ∷ []) ∷ [] ∷ [] ∷ [];
}

abbrev used_counts : ℕ → ℕ
used_counts = updated (λ n. 0) 2 1

used_run : increase_fd_usage (hash_table_init 5) (pos 2) ≡ ok used_table
unfolding increase_fd_usage hash_table_init hash_table_insert hash_table_find chain_of find_in
    ht_hash_int
used_run = refl

used_table-IsCounting : IsCounting used_table used_counts
used_table-IsCounting =
    let (t, run, count) =
      increase_fd_usage-IsCounting (hash_table_init 5) (λ n. 0) 2
        (init-IsCounting 5 (omega arith)) in
    subst (λ t. IsCounting t used_counts) (ok-injective (sym run ∙ used_run)) count

decrease_fd_usage-IsCounting_example :
    (t' : HashTable FdUsage) × (decrease_fd_usage used_table (pos 2) ≡ ok (true, t'))
    × IsCounting t' (updated used_counts 2 0)
decrease_fd_usage-IsCounting_example =
    decrease_fd_usage-IsCounting used_table used_counts 2 0 used_table-IsCounting refl

-- Process 7 with the table 40.
abbrev process_table : HashTable ProcessHashItem
process_table = record { entry = [] ∷ [] ∷ (record { ht = 40; pid = pos 7 } ∷ []) ∷ [] ∷ [] ∷ [] }

abbrev process_map : ℕ → Option ℕ
process_map = assigned (λ n. none) 7 (some 40)

process_run :
    hash_table_insert ht_ops_fdmapping (hash_table_init 5) (pos 7) (new_process_ht 40 (pos 7))
    ≡ ok process_table
unfolding hash_table_init hash_table_insert chain_of ht_hash_int new_process_ht
process_run = refl

process_table-IsProcesses : IsProcesses process_table process_map
process_table-IsProcesses =
    let (t, run, rest) =
      insert_process-IsProcesses (hash_table_init 5) (λ n. none) 7 40
        (init-IsProcesses 5 (omega arith)) refl in
    subst (λ t. IsProcesses t process_map) (ok-injective (sym run ∙ process_run)) rest

-- Descriptors 3 and 7 that share one map, in which the descriptor is 2.
abbrev two_map : FdMap
two_map = record shared { my_fd = pos 2 }

abbrev open_table : HashTable FdItem
open_table = record {
  entry =
      []
      ∷ []
      ∷ (record { old_fd = pos 7; fd_map = 0 } ∷ [])
      ∷ (record { old_fd = pos 3; fd_map = 0 } ∷ [])
      ∷ []
      ∷ [];
}

abbrev open_entries : List Entry
open_entries =
    record { fd = 7; pointer = 0; map = two_map; my_fd = 2 }
    ∷ record { fd = 3; pointer = 0; map = two_map; my_fd = 2 }
    ∷ []

open_listed : flatten open_table.entry ≡ items open_entries
unfolding flatten
open_listed = refl

duplicate_process_ht_example :
    (s : Cloning) × (duplicate_process_ht (some two_map ∷ []) open_table used_table ≡ ok s)
    × (s.maps ≡ some two_map ∷ some two_map ∷ some two_map ∷ [])
    × ((fd : ℕ)
        → hash_table_find ht_ops_fditem s.ht (pos fd)
          ≡ ok (find_in ht_ops_fditem (pos fd) (clones 1 open_entries)))
    × IsCounting s.usage_map (counted used_counts open_entries)
duplicate_process_ht_example =
    duplicate_process_ht_lem (some two_map ∷ []) open_table used_table used_counts open_entries
      open_listed (omega arith)
      (record { stored = refl; named = refl }, (record { stored = refl; named = refl }, tt))
      used_table-IsCounting
