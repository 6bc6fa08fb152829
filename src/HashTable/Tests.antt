-- ===== src/HashTable/Tests.antt =====
-- The table's theorems at a table of four chains in which 1 and 5 share one.

use mathlib.Core.Option.{or_else}
use mathlib.Core.Path.{◌≡◌, refl}
use ioapps.Base.{ℕ, ◌+◌, [], ◌∷◌, none, some}
use ioapps.Base.Int.{ℤ, pos}
use ioapps.Base.Run.{ok}
use ioapps.HashTable.{
  Ops, HashTable, ht_hash_int, hash_table_init, hash_table_insert, hash_table_find,
  hash_table_remove, hash_table_update, chain_of, find_in, remove_in, update_in,
}
use ioapps.HashTable.Laws.{IsUnique, find-insert, find-remove, insert-IsUnique}
use ioapps.HashTable.IntKeys.{int_ops, int_ops-IsLawful, init-IsUnique}

record Pair : Type 0 where
  left : ℤ
  right : ℕ

abbrev key : Pair → ℤ
key p = p.left

abbrev pair : ℕ → ℕ → Pair
pair a b = record { left = pos a; right = b }

abbrev ops : Ops ℤ Pair
ops = int_ops key

abbrev empty : HashTable Pair
empty = record { entry = [] ∷ [] ∷ [] ∷ [] ∷ [] }

abbrev one : HashTable Pair
one = record { entry = [] ∷ (pair 1 7 ∷ []) ∷ [] ∷ [] ∷ [] }

abbrev two : HashTable Pair
two = record { entry = [] ∷ (pair 1 7 ∷ pair 5 8 ∷ []) ∷ [] ∷ [] ∷ [] }

abbrev raised : Pair → Pair
raised p = record p { right = p.right + 1 }

insert_run : hash_table_insert ops one (pos 5) (pair 5 8) ≡ ok two
unfolding hash_table_insert ht_hash_int chain_of
insert_run = refl

find_one : hash_table_find ops one (pos 5) ≡ ok none
unfolding hash_table_find ht_hash_int chain_of find_in
find_one = refl

find_two : hash_table_find ops two (pos 5) ≡ ok (some (pair 5 8))
unfolding hash_table_find ht_hash_int chain_of find_in
find_two = refl

find_first : hash_table_find ops two (pos 1) ≡ ok (some (pair 1 7))
unfolding hash_table_find ht_hash_int chain_of find_in
find_first = refl

remove_run :
    hash_table_remove ops two (pos 1) ≡ ok (record { entry = [] ∷ (pair 5 8 ∷ []) ∷ [] ∷ [] ∷ [] })
unfolding hash_table_remove ht_hash_int chain_of remove_in
remove_run = refl

update_run :
    hash_table_update ops two (pos 5) raised
    ≡ ok (record { entry = [] ∷ (pair 1 7 ∷ pair 5 9 ∷ []) ∷ [] ∷ [] ∷ [] })
unfolding hash_table_update ht_hash_int chain_of update_in
update_run = refl

init_run : hash_table_init 4 ≡ empty
unfolding hash_table_init
init_run = refl

empty-IsUnique : IsUnique ops empty
unfolding hash_table_init
empty-IsUnique = init-IsUnique key 4

insert_first : hash_table_insert ops empty (pos 1) (pair 1 7) ≡ ok one
unfolding hash_table_insert ht_hash_int chain_of
insert_first = refl

find_empty : hash_table_find ops empty (pos 1) ≡ ok none
unfolding hash_table_find ht_hash_int chain_of find_in
find_empty = refl

find-insert_example : hash_table_find ops two (pos 5) ≡ ok (some (pair 5 8))
unfolding or_else
find-insert_example =
    find-insert ops (int_ops-IsLawful key) one two (pos 5) (pos 5) (pair 5 8) none refl insert_run
      find_one

two-IsUnique : IsUnique ops two
two-IsUnique =
    insert-IsUnique ops (int_ops-IsLawful key) one two (pos 5) (pair 5 8)
      (insert-IsUnique ops (int_ops-IsLawful key) empty one (pos 1) (pair 1 7) empty-IsUnique refl
        find_empty insert_first)
      refl find_one insert_run

find-remove_example :
    hash_table_find ops (record { entry = [] ∷ (pair 5 8 ∷ []) ∷ [] ∷ [] ∷ [] }) (pos 5)
    ≡ ok (some (pair 5 8))
find-remove_example =
    find-remove ops (int_ops-IsLawful key) two _ (pos 1) (pos 5) (some (pair 5 8)) (some (pair 1 7))
      two-IsUnique remove_run find_first find_two
