-- ===== src/HashTable/IntKeys.antt =====
-- Tables that `ht_hash_int` places by an int key of the item: those of fdmap.c.
use ioapps.Base.{
  ℕ, zero, suc, ◌%◌, ◌<◌, ◌≡◌, refl, sym, ap, ◌∙◌, lt→ltb, true, List, [], Option, none, length,
  replicate, get_or-replicate, length-replicate, length-set, arith,
}
use ioapps.Base.Int.{ℤ, pos, negsuc, ◌==ℤ◌, ==ℤ_iff}
use ioapps.Base.Run.{ok, abort, >>=-ok}
use ioapps.HashTable.{
  Ops, HashTable, ht_hash_int, hash_table_init, hash_table_insert, hash_table_find,
  hash_table_remove, hash_table_update, chain_of,
}
use ioapps.HashTable.Chain.{IsLawful, count}
use ioapps.HashTable.Laws.{IsUnique}

-- `ht_hash_int` and a compare function that tests a field of the item.
abbrev pub int_ops : {V : Type 0} → (V → ℤ) → Ops ℤ V
int_ops key = record { hash = ht_hash_int; compare = λ k v. key v ==ℤ k }

module _ {V : Type 0} (key : V → ℤ) where
  compare_congr :
      (a b : ℤ) (v w : V)
      → (key v ==ℤ a) ≡ true
      → (key v ==ℤ b) ≡ true
      → (key w ==ℤ a) ≡ (key w ==ℤ b)
  compare_congr a b v w p q = ap (λ k. key w ==ℤ k) (sym ((==ℤ_iff _ a).0 p) ∙ (==ℤ_iff _ b).0 q)

  hash_congr :
      (n : ℕ) (a b : ℤ) (v : V)
      → (key v ==ℤ a) ≡ true
      → (key v ==ℤ b) ≡ true
      → ht_hash_int n a ≡ ht_hash_int n b
  hash_congr n a b v p q = ap (ht_hash_int n) (sym ((==ℤ_iff _ a).0 p) ∙ (==ℤ_iff _ b).0 q)

  pub int_ops-IsLawful : IsLawful (int_ops key)
  int_ops-IsLawful = record { compare_congr = compare_congr; hash_congr = hash_congr }

  hash_pos : (m n : ℕ) → 0 < m → ht_hash_int m (pos n) ≡ ok (n % m)
  unfolding ht_hash_int
  hash_pos zero n h = absurd (omega arith)
  hash_pos (suc m) n h = refl

  -- With a chain or more, no operation under a key from 0 on stops the program.
  chain_ok :
      (h : HashTable V) (n : ℕ)
      → 0 < length h.entry
      → chain_of (int_ops key) h (pos n) ≡ ok (n % length h.entry)
  unfolding chain_of
  chain_ok h n lt =
      rw
        (hash_pos (length h.entry) n lt, lt→ltb (n % length h.entry) (length h.entry) (omega arith))

  pub find_ok :
      (h : HashTable V) (n : ℕ)
      → 0 < length h.entry
      → (old : Option V) × (hash_table_find (int_ops key) h (pos n) ≡ ok old)
  unfolding hash_table_find
  find_ok h n lt = (_, >>=-ok _ (chain_ok h n lt))

  pub insert_ok :
      (h : HashTable V) (n : ℕ) (v : V)
      → 0 < length h.entry
      → (h' : HashTable V) × (hash_table_insert (int_ops key) h (pos n) v ≡ ok h')
        × (length h'.entry ≡ length h.entry)
  unfolding hash_table_insert
  insert_ok h n v lt = (_, >>=-ok _ (chain_ok h n lt), length-set h.entry _ _)

  pub remove_ok :
      (h : HashTable V) (n : ℕ)
      → 0 < length h.entry
      → (h' : HashTable V) × (hash_table_remove (int_ops key) h (pos n) ≡ ok h')
        × (length h'.entry ≡ length h.entry)
  unfolding hash_table_remove
  remove_ok h n lt = (_, >>=-ok _ (chain_ok h n lt), length-set h.entry _ _)

  pub update_ok :
      (h : HashTable V) (n : ℕ) (f : V → V)
      → 0 < length h.entry
      → (h' : HashTable V) × (hash_table_update (int_ops key) h (pos n) f ≡ ok h')
        × (length h'.entry ≡ length h.entry)
  unfolding hash_table_update
  update_ok h n f lt = (_, >>=-ok _ (chain_ok h n lt), length-set h.entry _ _)

  -- A key below 0 fails the assertion of `ht_hash_int`.
  pub find_negative : (h : HashTable V) (n : ℕ) → hash_table_find (int_ops key) h (negsuc n) ≡ abort
  unfolding hash_table_find ht_hash_int
  find_negative h n = ground arith

  pub length-init : (m : ℕ) → length (hash_table_init {V = V} m).entry ≡ m
  unfolding hash_table_init
  length-init m = length-replicate m []

  pub init-IsUnique : (m : ℕ) → IsUnique (int_ops key) (hash_table_init m)
  unfolding hash_table_init count
  init-IsUnique m q i = rw (get_or-replicate {A = List V} m i []) (omega arith)

  pub init-find :
      (m n : ℕ) → 0 < m → hash_table_find (int_ops key) (hash_table_init m) (pos n) ≡ ok none
  unfolding hash_table_find hash_table_init
  init-find m n lt = rw (
    chain_ok (hash_table_init m) n (rw (length-replicate {A = List V} m []) lt),
    get_or-replicate {A = List V} m (n % length (replicate {A = List V} m [])) [],
  )
