-- ===== src/HashTable.antt =====
-- adt/hash_table.c: a chained hash table, generic in what the items are.
-- A chain is the list of the items that hang in it, in the order of their `next` pointers.
pub mod Chain
pub mod Laws
pub mod IntKeys
pub mod Walk
pub mod Index
pub mod NatKeys
pub mod Maps
mod Tests
use ioapps.Base.{
  ℕ, zero, suc, ◌+◌, ◌-◌, ◌*◌, ◌^◌, ◌%◌, ◌<◌, ◌≡◌, ltb, if◌then◌else◌, Bool, List, [], ◌∷◌, ◌++◌,
  length, get_or, set, replicate, Option, none, some,
}
use ioapps.Base.Int.{ℤ, pos, negsuc}
use ioapps.Base.Run.{Run, ok, abort, ◌>>=◌, ◌>>◌, check}

-- `hash_table_operations_t`: `hash` gets the number of chains too, `compare` a key and an item. Its
-- `remove_callback`, which `hash_table_remove` calls on a removed item, is left out.
pub record Ops (K V : Type 0) : Type 0 where
  pub hash : ℕ → K → Run ℕ
  pub compare : K → V → Bool

-- `entry`; `entries` is its length, which no function changes after `hash_table_init`.
pub record HashTable (V : Type 0) : Type 0 where
  pub entry : List (List V)

-- `ht_hash_int`: the key is asserted to be at least 0, and `% 0` is undefined.
unfoldable pub ht_hash_int : ℕ → ℤ → Run ℕ
ht_hash_int zero key = abort
ht_hash_int (suc n) (pos key) = ok (key % suc n)
ht_hash_int (suc n) (negsuc key) = abort

-- A `char` as it is added to an unsigned long: the bytes from 128 on are negative.
abbrev pub char_long : ℕ → ℕ
char_long c = if ltb c 128 then c else 2 ^ 64 - 256 + c

-- The loop of `ht_hash_str`, which wraps around at 64 bits.
unfoldable pub hash_str_loop : ℕ → List ℕ → ℕ
hash_str_loop index [] = index
hash_str_loop index (c ∷ str) =
    hash_str_loop ((char_long c + index * 64 + index * 65536 + (2 ^ 64 - index)) % 2 ^ 64) str

unfoldable pub ht_hash_str : ℕ → List ℕ → Run ℕ
unfolding hash_str_loop
ht_hash_str zero key = abort
ht_hash_str (suc n) key = ok (hash_str_loop 4357 key % suc n)

unfoldable pub hash_table_init : {V : Type 0} → ℕ → HashTable V
hash_table_init m = record { entry = replicate m [] }

module _ {K V : Type 0} (op : Ops K V) where
  -- `chain = h->op->hash(h, key); assert(chain < h->entries);`
  unfoldable pub chain_of : HashTable V → K → Run ℕ
  chain_of h key = do
    chain ← op.hash (length h.entry) key
    check (ltb chain (length h.entry))
    ok chain

  -- The loop of `hash_table_find` over a chain.
  unfoldable pub find_in : K → List V → Option V
  find_in key [] = none
  find_in key (cur ∷ items) = if op.compare key cur then some cur else find_in key items

  -- The chain without the item that `find_in` returns.
  unfoldable pub remove_in : K → List V → List V
  remove_in key [] = []
  remove_in key (cur ∷ items) = if op.compare key cur then items else cur ∷ remove_in key items

  unfoldable pub hash_table_insert : HashTable V → K → V → Run (HashTable V)
  unfolding chain_of
  hash_table_insert h key item = do
    chain ← chain_of h key
    ok (record { entry = set h.entry chain (get_or h.entry chain [] ++ item ∷ []) })

  unfoldable pub hash_table_find : HashTable V → K → Run (Option V)
  unfolding chain_of find_in
  hash_table_find h key = do chain ← chain_of h key; ok (find_in key (get_or h.entry chain []))

  unfoldable pub hash_table_remove : HashTable V → K → Run (HashTable V)
  unfolding chain_of remove_in
  hash_table_remove h key = do
    chain ← chain_of h key
    ok (record { entry = set h.entry chain (remove_in key (get_or h.entry chain [])) })

  -- A write through the pointer that `hash_table_find` returned.
  unfoldable pub update_in : K → (V → V) → List V → List V
  update_in key f [] = []
  update_in key f (cur ∷ items) =
      if op.compare key cur then f cur ∷ items else cur ∷ update_in key f items

  unfoldable pub hash_table_update : HashTable V → K → (V → V) → Run (HashTable V)
  unfolding chain_of update_in
  hash_table_update h key f = do
    chain ← chain_of h key
    ok (record { entry = set h.entry chain (update_in key f (get_or h.entry chain [])) })

-- The two loops of `hash_table_apply`, and of the others that walk over a table.
module _ {S V : Type 0} (function : S → V → S) where
  unfoldable pub apply_chain : S → List V → S
  apply_chain s [] = s
  apply_chain s (cur ∷ items) = apply_chain (function s cur) items

  unfoldable pub apply_entries : S → List (List V) → S
  unfolding apply_chain
  apply_entries s [] = s
  apply_entries s (chain ∷ entries) = apply_entries (apply_chain s chain) entries

  unfoldable pub hash_table_apply : S → HashTable V → S
  unfolding apply_entries
  hash_table_apply s h = apply_entries s h.entry
