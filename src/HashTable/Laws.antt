-- ===== src/HashTable/Laws.antt =====
-- What a table answers to `hash_table_find` after each operation, and when it stops the program.
use mathlib.Core.Option.{or_else}
use mathlib.Core.Path.{subst}
use ioapps.Base.{
  ℕ, ◌≤◌, ◌<◌, ◌≡◌, sym, ap, ◌∙◌, ◌⊎◌, inl, inr, if◌then◌else◌, true, false, Bool-cases, List, [],
  ◌∷◌, ◌++◌, Option, none, some, length, get_or, set, length-set, get_or-set, ◌==◌, arith,
}
use ioapps.Base.Run.{ok, ◌>>=◌, Run-cases, >>=-eq-ok, ok-injective}
use ioapps.HashTable.{
  Ops, HashTable, chain_of, find_in, remove_in, update_in, hash_table_insert, hash_table_find,
  hash_table_remove, hash_table_update,
}
use ioapps.HashTable.Chain.{
  IsLawful, count, find_in-append, compare-find_in, count-eq-zero, count-append, count-remove_in_le,
  find_in-remove_in, remove_in-absent, find_in-update_in, count_congr, count-update_in,
}

module _ {K V : Type 0} (op : Ops K V) where
  chain_of-lt : (h : HashTable V) (k : K) {i : ℕ} → chain_of op h k ≡ ok i → i < length h.entry
  unfolding chain_of
  chain_of-lt h k e = elim (Run-cases (op.hash (length h.entry) k)) [
    | inl (j, r) ↦ ground (arith, r)
    | inr r ↦ absurd (ground (arith, r))
  ]

  -- Only the number of chains and the key decide the chain.
  chain_of-set :
      (h : HashTable V) (k : K) (i : ℕ) (c : List V)
      → chain_of op (record { entry = set h.entry i c }) k ≡ chain_of op h k
  unfolding chain_of
  chain_of-set h k i c = rw (length-set h.entry i c)

  chain_of_congr :
      IsLawful op
      → (h : HashTable V) (a b : K) (v : V) → op.compare a v ≡ true
      → op.compare b v ≡ true
      → chain_of op h a ≡ chain_of op h b
  unfolding chain_of
  chain_of_congr laws h a b v p q = rw (laws.hash_congr (length h.entry) a b v p q)

  -- `hash_table_find` of `q` in a table whose chain `i` became `c`.
  find-set :
      (h : HashTable V) (q : K) {i j : ℕ} (c : List V)
      → i < length h.entry
      → chain_of op h q ≡ ok j
      → hash_table_find op (record { entry = set h.entry i c }) q
        ≡ ok (if j == i then find_in op q c else find_in op q (get_or h.entry j []))
  unfolding hash_table_find
  find-set h q {i} {j} c lt e =
      rw (chain_of-set h q i c, e, get_or-set h.entry i j c [] lt) (ground arith)

  -- What an operation that turns the chain `c` of `k` into `g c` means for a lookup of `q`: the same
  -- chain is searched, or the answer is the old one and no item that `k` matches is matched by `q`.
  abbrev Seen : HashTable V → K → K → (List V → List V) → Option V → List V → Type 0
  Seen h' k q g old c =
      ((hash_table_find op h' q ≡ ok (find_in op q (g c))) × (old ≡ find_in op q c))
      ⊎ ((hash_table_find op h' q ≡ ok old)
          × ((v : V) → op.compare k v ≡ true → op.compare q v ≡ false))

  find-other :
      IsLawful op
      → (h : HashTable V) (k q : K) {i j : ℕ} → chain_of op h k ≡ ok i
      → chain_of op h q ≡ ok j
      → (j == i) ≡ false
      → (v : V) → op.compare k v ≡ true
      → op.compare q v ≡ false
  find-other laws h k q {i} {j} ek eq d v p = elim (Bool-cases (op.compare q v)) [
    | inl m ↦ absurd (ground (arith, chain_of_congr laws h k q v p m))
    | inr m ↦ m
  ]

  find_lem :
      (h : HashTable V) (k : K) {i : ℕ}
      → chain_of op h k ≡ ok i
      → hash_table_find op h k ≡ ok (find_in op k (get_or h.entry i []))
  unfolding hash_table_find
  find_lem h k e = rw e

  see_at :
      IsLawful op
      → (h h' : HashTable V) (k q : K) (g : List V → List V) (old : Option V) (i j : ℕ)
      → chain_of op h k ≡ ok i
      → chain_of op h q ≡ ok j
      → ok (record { entry = set h.entry i (g (get_or h.entry i [])) }) ≡ ok h'
      → ok (find_in op q (get_or h.entry j [])) ≡ ok old
      → Seen h' k q g old (get_or h.entry i [])
  see_at laws h h' k q g old i j ek eq made read =
      let moved = find-set h q (g (get_or h.entry i [])) (chain_of-lt h k ek) eq in
      elim (Bool-cases (j == i)) [
        | inl s ↦ inl (ground (arith, moved), ground arith)
        | inr d ↦ inr (ground (arith, moved), find-other laws h k q ek eq d)
      ]

  find_inv :
      (h : HashTable V) (q : K) (old : Option V)
      → hash_table_find op h q ≡ ok old
      → (j : ℕ) × (chain_of op h q ≡ ok j) × (ok (find_in op q (get_or h.entry j [])) ≡ ok old)
  unfolding hash_table_find
  find_inv h q old e = >>=-eq-ok (chain_of op h q) _ e

  see :
      IsLawful op
      → (h h' : HashTable V) (k q : K) (g : List V → List V) (old : Option V)
      → (chain_of op h k >>= λ i. ok (record { entry = set h.entry i (g (get_or h.entry i [])) }))
        ≡ ok h'
      → hash_table_find op h q ≡ ok old
      → (i : ℕ) × (hash_table_find op h k ≡ ok (find_in op k (get_or h.entry i [])))
        × Seen h' k q g old (get_or h.entry i [])
  see laws h h' k q g old run found =
      let (i, ek, made) = >>=-eq-ok (chain_of op h k) _ run in
      let (j, eq, read) = find_inv h q old found in
      (i, find_lem h k ek, see_at laws h h' k q g old i j ek eq made read)

  -- No key matches two items of a chain.
  abbrev pub IsUnique : HashTable V → Type 0
  IsUnique h = (q : K) (i : ℕ) → count op q (get_or h.entry i []) ≤ 1

  -- In a table with a lawful hash and compare function, after an insertion of an item under a key
  -- that matches it, every key finds what it found before, or else the new item if it matches it.
  pub find-insert :
      IsLawful op
      → (h h' : HashTable V) (k q : K) (v : V) (old : Option V) → op.compare k v ≡ true
      → hash_table_insert op h k v ≡ ok h'
      → hash_table_find op h q ≡ ok old
      → hash_table_find op h' q ≡ ok (or_else old (if op.compare q v then some v else none))
  unfolding hash_table_insert or_else find_in
  find-insert laws h h' k q v old match ins found =
      let (i, own, seen) = see laws h h' k q (λ c. c ++ v ∷ []) old ins found in
      elim seen [
        | inl (now, before) ↦
            now ∙ ap ok (rw before (find_in-append op q (get_or h.entry i []) (v ∷ [])))
        | inr (now, other) ↦ rw (now, other v match) (ground arith)
      ]

  -- In a table with a lawful hash and compare function in which no key matches two items of a chain,
  -- after `hash_table_remove` of a key a key finds what it found before, unless it matches the item
  -- that the removed key had found: then it finds nothing. Where the removed key had found nothing,
  -- every answer stays.
  pub find-remove :
      IsLawful op
      → (h h' : HashTable V) (k q : K) (old gone : Option V) → IsUnique h
      → hash_table_remove op h k ≡ ok h'
      → hash_table_find op h k ≡ ok gone
      → hash_table_find op h q ≡ ok old
      → hash_table_find op h' q
        ≡ ok (elim gone [ none ↦ old | some v ↦ if op.compare q v then none else old ])
  unfolding hash_table_remove
  find-remove laws h h' k q old none unique rem own found =
      let (i, mine, seen) = see laws h h' k q (remove_in op k) old rem found in
      let c = get_or h.entry i [] in
      let miss : find_in op k c ≡ none = ok-injective (sym mine ∙ own) in
      elim seen [
        | inl (now, before) ↦
            now ∙ ap ok (rw before (ap (find_in op q) (remove_in-absent op k c miss)))
        | inr (now, other) ↦ now
      ]
  find-remove laws h h' k q old (some v) unique rem own found =
      let (i, mine, seen) = see laws h h' k q (remove_in op k) old rem found in
      let c = get_or h.entry i [] in
      let hit : find_in op k c ≡ some v = ok-injective (sym mine ∙ own) in
      elim seen [
        | inl (now, before) ↦
            now ∙ ap ok (rw before (find_in-remove_in op laws k q c v (unique q i) hit))
        | inr (now, other) ↦ rw (now, other v (compare-find_in op k c v hit))
      ]

  -- In a table with a lawful hash and compare function, after a write through the item that a key
  -- found, which the key still matches, every key that matches it finds the new item, and every
  -- other key what it found before.
  pub find-update :
      IsLawful op
      → (h h' : HashTable V) (k q : K) (f : V → V) (old : Option V) (v : V)
      → op.compare k (f v) ≡ true
      → hash_table_update op h k f ≡ ok h'
      → hash_table_find op h k ≡ ok (some v)
      → hash_table_find op h q ≡ ok old
      → hash_table_find op h' q ≡ ok (if op.compare q v then some (f v) else old)
  unfolding hash_table_update
  find-update laws h h' k q f old v same up own found =
      let (i, mine, seen) = see laws h h' k q (update_in op k f) old up found in
      let c = get_or h.entry i [] in
      let hit : find_in op k c ≡ some v = ok-injective (sym mine ∙ own) in
      elim seen [
        | inl (now, before) ↦ now ∙ ap ok (rw before (find_in-update_in op laws k q f c v same hit))
        | inr (now, other) ↦ rw (now, other v (compare-find_in op k c v hit))
      ]

  -- A new chain that matches no key more often keeps the table free of doubles.
  IsUnique-set :
      (h h' : HashTable V) (k : K) (g : List V → List V)
      → IsUnique h
      → (chain_of op h k >>= λ i. ok (record { entry = set h.entry i (g (get_or h.entry i [])) }))
        ≡ ok h'
      → ((i : ℕ) (q : K)
          → hash_table_find op h k ≡ ok (find_in op k (get_or h.entry i []))
          → count op q (g (get_or h.entry i [])) ≤ 1)
      → IsUnique h'
  IsUnique-set h h' k g unique run bound =
      let (i, ek, made) = >>=-eq-ok (chain_of op h k) _ run in
      let lt = chain_of-lt h k ek in
      λ q j.
        subst (λ (t : HashTable V). count op q (get_or t.entry j []) ≤ 1) (ok-injective made)
          (rw (get_or-set h.entry i j (g (get_or h.entry i [])) [] lt)
            (ground (arith, unique q j, bound i q (find_lem h k ek))))

  -- In a table with a lawful hash and compare function, an insertion under a key that found nothing,
  -- of an item that the key matches, keeps the chains such that no key matches two items of one.
  pub insert-IsUnique :
      IsLawful op
      → (h h' : HashTable V) (k : K) (v : V) → IsUnique h
      → op.compare k v ≡ true
      → hash_table_find op h k ≡ ok none
      → hash_table_insert op h k v ≡ ok h'
      → IsUnique h'
  unfolding hash_table_insert count
  insert-IsUnique laws h h' k v unique match own ins =
      IsUnique-set h h' k (λ c. c ++ v ∷ []) unique ins
        λ i q found. ground (
          arith,
          count-append op q (get_or h.entry i []) (v ∷ []),
          unique q i,
          count_congr op laws k q v (get_or h.entry i []),
          count-eq-zero op k (get_or h.entry i []) (ok-injective (sym found ∙ own)),
        )

  -- A removal keeps the chains such that no key matches two items of one.
  pub remove-IsUnique :
      (h h' : HashTable V) (k : K) → IsUnique h → hash_table_remove op h k ≡ ok h' → IsUnique h'
  unfolding hash_table_remove
  remove-IsUnique h h' k unique rem =
      IsUnique-set h h' k (remove_in op k) unique rem
        λ i q found. omega (arith, unique q i, count-remove_in_le op k q (get_or h.entry i []))

  -- So does a write after which the item still matches the key that found it.
  pub update-IsUnique :
      IsLawful op
      → (h h' : HashTable V) (k : K) (f : V → V) → IsUnique h
      → ((v : V) → op.compare k v ≡ true → op.compare k (f v) ≡ true)
      → hash_table_update op h k f ≡ ok h'
      → IsUnique h'
  unfolding hash_table_update
  update-IsUnique laws h h' k f unique keeps up =
      IsUnique-set h h' k (update_in op k f) unique up λ i q found.
        omega (arith, unique q i, count-update_in op laws k q f (get_or h.entry i []) keeps)
