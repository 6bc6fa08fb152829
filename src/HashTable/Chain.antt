-- ===== src/HashTable/Chain.antt =====
-- One chain: what finding, removing and updating do to it.
use mathlib.Core.Option.{or_else}
use ioapps.Base.{
  ℕ, ◌+◌, ◌≤◌, ◌≡◌, refl, if◌then◌else◌, true, List, [], ◌∷◌, ◌++◌, none, some, arith,
}
use ioapps.HashTable.{Ops, find_in, remove_in, update_in}

-- What the compare and hash functions of a table owe each other: keys that match one item match the
-- same items, and have the same hash.
pub record IsLawful {K V : Type 0} (op : Ops K V) : Type 0 where
  pub compare_congr :
      (a b : K) (v w : V)
      → op.compare a v ≡ true
      → op.compare b v ≡ true
      → op.compare a w ≡ op.compare b w
  pub hash_congr :
      (n : ℕ) (a b : K) (v : V)
      → op.compare a v ≡ true
      → op.compare b v ≡ true
      → op.hash n a ≡ op.hash n b

-- The number of items that a key matches.
unfoldable pub count : {K V : Type 0} → Ops K V → K → List V → ℕ
count op key [] = 0
count op key (v ∷ vs) = (if op.compare key v then 1 else 0) + count op key vs

module _ {K V : Type 0} (op : Ops K V) where
  pub find_in-append :
      (q : K) (xs ys : List V)
      → find_in op q (xs ++ ys) ≡ or_else (find_in op q xs) (find_in op q ys)
  unfolding find_in or_else
  find_in-append q [] ys = refl
  find_in-append q (x ∷ xs) ys = rw (find_in-append q xs ys) (ground arith)

  pub compare-find_in :
      (q : K) (xs : List V) (v : V) → find_in op q xs ≡ some v → op.compare q v ≡ true
  unfolding find_in
  compare-find_in q [] v e = cc
  compare-find_in q (x ∷ xs) v e = ground (arith, compare-find_in q xs v)

  pub find_in-eq-none : (q : K) (xs : List V) → count op q xs ≡ 0 → find_in op q xs ≡ none
  unfolding find_in count
  find_in-eq-none q [] h = refl
  find_in-eq-none q (x ∷ xs) h = ground (arith, find_in-eq-none q xs)

  pub count-eq-zero : (q : K) (xs : List V) → find_in op q xs ≡ none → count op q xs ≡ 0
  unfolding find_in count
  count-eq-zero q [] h = refl
  count-eq-zero q (x ∷ xs) h = ground (arith, count-eq-zero q xs)

  pub count-append :
      (q : K) (xs ys : List V) → count op q (xs ++ ys) ≡ count op q xs + count op q ys
  unfolding count
  count-append q [] ys = omega arith
  count-append q (x ∷ xs) ys = omega (arith, count-append q xs ys)

  pub count-remove_in_le : (k q : K) (xs : List V) → count op q (remove_in op k xs) ≤ count op q xs
  unfolding count remove_in
  count-remove_in_le k q [] = omega arith
  count-remove_in_le k q (x ∷ xs) = ground (arith, count-remove_in_le k q xs)

  -- Removing what `k` found, seen from a key that matches it and from one that does not.
  pub find_in-remove_in :
      IsLawful op
      → (k q : K) (xs : List V) (v : V) → count op q xs ≤ 1
      → find_in op k xs ≡ some v
      → find_in op q (remove_in op k xs) ≡ (if op.compare q v then none else find_in op q xs)
  unfolding find_in remove_in count
  find_in-remove_in laws k q [] v once e = cc
  find_in-remove_in laws k q (x ∷ xs) v once e = ground (
    arith,
    find_in-remove_in laws k q xs v,
    find_in-eq-none q xs,
    laws.compare_congr k q v x,
    compare-find_in k xs v,
  )

  pub remove_in-absent : (k : K) (xs : List V) → find_in op k xs ≡ none → remove_in op k xs ≡ xs
  unfolding find_in remove_in
  remove_in-absent k [] e = refl
  remove_in-absent k (x ∷ xs) e = ground (arith, remove_in-absent k xs)

  pub find_in-update_in :
      IsLawful op
      → (k q : K) (f : V → V) (xs : List V) (v : V) → op.compare k (f v) ≡ true
      → find_in op k xs ≡ some v
      → find_in op q (update_in op k f xs)
        ≡ (if op.compare q v then some (f v) else find_in op q xs)
  unfolding find_in update_in
  find_in-update_in laws k q f [] v same e = cc
  find_in-update_in laws k q f (x ∷ xs) v same e = ground (
    arith,
    find_in-update_in laws k q f xs v,
    compare-find_in k xs v,
    laws.compare_congr k q v x,
    laws.compare_congr k q v (f v),
    laws.compare_congr k q (f v) v,
  )

  pub count_congr :
      IsLawful op
      → (a b : K) (v : V) (xs : List V) → op.compare a v ≡ true
      → op.compare b v ≡ true
      → count op a xs ≡ count op b xs
  unfolding count
  count_congr laws a b v [] p q = refl
  count_congr laws a b v (x ∷ xs) p q =
      ground (arith, count_congr laws a b v xs, laws.compare_congr a b v x)

  pub count-update_in :
      IsLawful op
      → (k q : K) (f : V → V) (xs : List V)
      → ((v : V) → op.compare k v ≡ true → op.compare k (f v) ≡ true)
      → count op q (update_in op k f xs) ≡ count op q xs
  unfolding count update_in
  count-update_in laws k q f [] keeps = refl
  count-update_in laws k q f (x ∷ xs) keeps = ground (
    arith,
    count-update_in laws k q f xs keeps,
    keeps x,
    laws.compare_congr k q x (f x),
    laws.compare_congr k q (f x) x,
  )
