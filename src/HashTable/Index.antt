-- ===== src/HashTable/Index.antt =====
-- A table to which items were added one after another, against the list of these items.

use ioapps.Base.{
  sym, ◌≡◌, refl, ap, ◌∙◌, lt→ltb, ◌<◌, true, ℕ, List, [], ◌∷◌, ◌++◌, length, length-set,
  get_or-replicate,
}
use ioapps.Base.Run.{ok, >>=-ok}
use ioapps.HashTable.{
  Ops, HashTable, chain_of, find_in, hash_table_find, hash_table_init, hash_table_insert,
}
use ioapps.HashTable.Chain.{IsLawful, find_in-append}
use ioapps.HashTable.Laws.{find-insert}

module _ {K V : Type 0} (op : Ops K V) where
  -- Every key finds what a search of the whole list finds.
  abbrev pub IsIndex : HashTable V → List V → Type 0
  IsIndex h items = (q : K) → hash_table_find op h q ≡ ok (find_in op q items)

  pub insert-IsIndex :
      IsLawful op
      → (h h' : HashTable V) (k : K) (v : V) (items : List V) → op.compare k v ≡ true
      → IsIndex h items
      → hash_table_insert op h k v ≡ ok h'
      → IsIndex h' (items ++ v ∷ [])
  unfolding find_in
  insert-IsIndex laws h h' k v items match index ins q =
      find-insert op laws h h' k q v _ match ins (index q)
      ∙ ap ok (sym (find_in-append op q items (v ∷ [])))

  -- The hash function gives every key a chain of a table of this width.
  abbrev pub IsPlacing : ℕ → Type 0
  IsPlacing n = (k : K) → (i : ℕ) × (op.hash n k ≡ ok i) × (i < n)

  chain_placed :
      (h : HashTable V) (k : K) → IsPlacing (length h.entry) → (i : ℕ) × (chain_of op h k ≡ ok i)
  unfolding chain_of
  chain_placed h k places =
      let (i, e, lt) = places k in (i, rw (e, lt→ltb i (length h.entry) lt) refl)

  pub insert_placed :
      (h : HashTable V) (k : K) (v : V)
      → IsPlacing (length h.entry)
      → (h' : HashTable V) × (hash_table_insert op h k v ≡ ok h')
        × (length h'.entry ≡ length h.entry)
  unfolding hash_table_insert
  insert_placed h k v places =
      let (i, e) = chain_placed h k places in (_, >>=-ok _ e, length-set h.entry i _)

  pub init-IsIndex :
      (m : ℕ)
      → IsPlacing (length (hash_table_init {V = V} m).entry)
      → IsIndex (hash_table_init m) []
  unfolding hash_table_init hash_table_find find_in
  init-IsIndex m places q =
      let (i, e) = chain_placed (hash_table_init m) q places in
      >>=-ok _ e ∙ ap (λ c. ok (find_in op q c)) (get_or-replicate {A = List V} m i [])
