-- ===== src/HashTable/Maps.antt =====
-- A table under int keys as a partial function from the keys that `ht_hash_int` takes.
use mathlib.Core.Option.{or_else}
use ioapps.Base.{
  ℕ, ◌<◌, ◌≡◌, refl, sym, ap, ◌∙◌, ◌==◌, ==_iff, if◌then◌else◌, Bool, true, Bool-cases, inl, inr,
  Option, none, some, length, arith,
}
use ioapps.Base.Int.{ℤ, pos, ◌==ℤ◌, ==ℤ_iff}
use ioapps.Base.Run.{ok}
use ioapps.HashTable.{
  HashTable, hash_table_init, hash_table_find, hash_table_insert, hash_table_remove,
}
use ioapps.HashTable.IntKeys.{
  int_ops, int_ops-IsLawful, insert_ok, remove_ok, length-init, init-IsUnique, init-find,
}
use ioapps.HashTable.Laws.{IsUnique, find-insert, find-remove, insert-IsUnique, remove-IsUnique}

-- `g` with `p` for the key `n`.
abbrev pub assigned : {V : Type 0} → (ℕ → Option V) → ℕ → Option V → ℕ → Option V
assigned g n p m = if n == m then p else g m

or_else-none : {V : Type 0} (p : Option V) → or_else p none ≡ p
unfolding or_else
or_else-none none = refl
or_else-none (some v) = refl

some-injective : {V : Type 0} {a b : V} → some a ≡ some b → a ≡ b
some-injective e = cc

module _ {V : Type 0} (key : V → ℤ) where
  -- The table has a chain, no doubles, and for each key what `g` says.
  pub record IsMap (t : HashTable V) (g : ℕ → Option V) : Type 0 where
    pub width : 0 < length t.entry
    pub unique : IsUnique (int_ops key) t
    pub reads : (n : ℕ) → hash_table_find (int_ops key) t (pos n) ≡ ok (g n)
    pub keyed : (n : ℕ) (v : V) → g n ≡ some v → key v ≡ pos n

  pub init-IsMap : (m : ℕ) → 0 < m → IsMap (hash_table_init m) (λ n. none)
  init-IsMap m lt = record {
    width = omega (arith, length-init key m);
    unique = init-IsUnique key m;
    reads = λ n. init-find key m n lt;
    keyed = λ n v e. cc;
  }

  compare-key : (v : V) (n m : ℕ) → key v ≡ pos n → (key v ==ℤ pos m) ≡ (n == m)
  compare-key v n m e = ap (λ k. k ==ℤ pos m) e

  assigned-keyed :
      (g : ℕ → Option V) (n : ℕ) (p : Option V)
      → ((m : ℕ) (v : V) → g m ≡ some v → key v ≡ pos m)
      → ((v : V) → p ≡ some v → key v ≡ pos n)
      → (m : ℕ) (v : V) → assigned g n p m ≡ some v
      → key v ≡ pos m
  assigned-keyed g n p old new m v e = elim (Bool-cases (n == m)) [
    | inl q ↦ new v (sym (ap (λ b. if b then p else g m) q) ∙ e) ∙ ap pos ((==_iff n m).0 q)
    | inr q ↦ old m v (sym (ap (λ b. if b then p else g m) q) ∙ e)
  ]

  added :
      (g : ℕ → Option V) (n m : ℕ) (v : V)
      → g n ≡ none
      → or_else (g m) (if n == m then some v else none) ≡ assigned g n (some v) m
  unfolding or_else
  added g n m v z = elim (Bool-cases (n == m)) [
    | inl q ↦ rw (q, sym (ap g ((==_iff n m).0 q)) ∙ z) refl
    | inr q ↦ rw q (or_else-none (g m))
  ]

  -- An insertion under a key from 0 on that has no item.
  pub insert-IsMap :
      (t : HashTable V) (g : ℕ → Option V) (n : ℕ) (v : V)
      → IsMap t g
      → g n ≡ none
      → key v ≡ pos n
      → (t' : HashTable V) × (hash_table_insert (int_ops key) t (pos n) v ≡ ok t')
        × IsMap t' (assigned g n (some v))
  insert-IsMap t g n v h z own =
      let (t', run, same) = insert_ok key t n v h.width in
      let laws = int_ops-IsLawful key in
      let match : (key v ==ℤ pos n) ≡ true = (==ℤ_iff (key v) (pos n)).1 own in
      (
        t',
        run,
        record {
          width = omega (arith, same, h.width);
          unique =
              insert-IsUnique (int_ops key) laws t t' (pos n) v h.unique match (h.reads n ∙ ap ok z)
                run;
          reads = λ m.
              find-insert (int_ops key) laws t t' (pos n) (pos m) v (g m) match run (h.reads m)
              ∙ ap (λ b. ok (or_else (g m) (if b then some v else none))) (compare-key v n m own)
              ∙ ap ok (added g n m v z);
          keyed =
              assigned-keyed g n (some v) h.keyed (λ u e. ap key (some-injective (sym e)) ∙ own);
        },
      )

  -- What a removal leaves, for each answer before it.
  taken :
      (g : ℕ → Option V) (n m : ℕ) (p : Option V)
      → g n ≡ p
      → ((v : V) → p ≡ some v → key v ≡ pos n)
      → elim p [ none ↦ g m | some v ↦ if key v ==ℤ pos m then none else g m ] ≡ assigned g n none m
  taken g n m none z own = elim (Bool-cases (n == m)) [
    | inl q ↦ rw q (sym (ap g ((==_iff n m).0 q)) ∙ z)
    | inr q ↦ rw q refl
  ]
  taken g n m (some v) z own =
      ap (λ (b : Bool). if b then none else g m) (compare-key v n m (own v refl))

  -- A removal of a key from 0 on, whether it has an item or not.
  pub remove-IsMap :
      (t : HashTable V) (g : ℕ → Option V) (n : ℕ)
      → IsMap t g
      → (t' : HashTable V) × (hash_table_remove (int_ops key) t (pos n) ≡ ok t')
        × IsMap t' (assigned g n none)
  remove-IsMap t g n h =
      let (t', run, same) = remove_ok key t n h.width in
      (
        t',
        run,
        record {
          width = omega (arith, same, h.width);
          unique = remove-IsUnique (int_ops key) t t' (pos n) h.unique run;
          reads = λ m.
              find-remove (int_ops key) (int_ops-IsLawful key) t t' (pos n) (pos m) (g m) (g n)
                h.unique run (h.reads n) (h.reads m)
              ∙ ap ok (taken g n m (g n) refl (h.keyed n));
          keyed = assigned-keyed g n none h.keyed (λ v e. cc);
        },
      )
