-- ===== src/HashTable/NatKeys.antt =====
-- Tables under int keys, seen from the keys that `ht_hash_int` takes: those from 0 on.
use ioapps.Base.{
  ℕ, zero, suc, ◌<◌, ◌≡◌, refl, sym, ap, ◌∙◌, fun_ext, true, List, [], ◌∷◌, Option, get_or, arith,
}
use ioapps.Base.Int.{ℤ, pos, ◌==ℤ◌, ==ℤ_iff}
use ioapps.Base.Run.{ok, ◌>>=◌}
use ioapps.HashTable.{
  Ops, HashTable, ht_hash_int, chain_of, find_in, hash_table_find, hash_table_insert,
}
use ioapps.HashTable.Chain.{IsLawful}
use ioapps.HashTable.Index.{IsPlacing}
use ioapps.HashTable.IntKeys.{int_ops}

module _ {V : Type 0} (key : V → ℤ) where
  abbrev pub nat_ops : Ops ℕ V
  nat_ops = record { hash = λ n k. ht_hash_int n (pos k); compare = λ k v. key v ==ℤ pos k }

  same_key : (a b : ℕ) (v : V) → (key v ==ℤ pos a) ≡ true → (key v ==ℤ pos b) ≡ true → pos a ≡ pos b
  same_key a b v p q = sym ((==ℤ_iff (key v) (pos a)).0 p) ∙ (==ℤ_iff (key v) (pos b)).0 q

  pub nat_ops-IsLawful : IsLawful nat_ops
  nat_ops-IsLawful = record {
    compare_congr = λ a b v w p q. ap (λ k. key w ==ℤ k) (same_key a b v p q);
    hash_congr = λ n a b v p q. ap (ht_hash_int n) (same_key a b v p q);
  }

  place : (n k : ℕ) → 0 < n → (i : ℕ) × (ht_hash_int n (pos k) ≡ ok i) × (i < n)
  unfolding ht_hash_int
  place zero k h = absurd (omega arith)
  place (suc n) k h = (_, refl, omega arith)

  pub nat_ops-IsPlacing : (n : ℕ) → 0 < n → IsPlacing nat_ops n
  nat_ops-IsPlacing n h k = place n k h

  pub insert-nat :
      (t : HashTable V) (k : ℕ) (v : V)
      → hash_table_insert (int_ops key) t (pos k) v ≡ hash_table_insert nat_ops t k v
  unfolding hash_table_insert chain_of
  insert-nat t k v = refl

  pub find_in-nat :
      (k : ℕ) (items : List V) → find_in (int_ops key) (pos k) items ≡ find_in nat_ops k items
  unfolding find_in
  find_in-nat k [] = refl
  find_in-nat k (v ∷ items) = rw (find_in-nat k items) refl

  pub find-nat :
      (t : HashTable V) (k : ℕ)
      → hash_table_find (int_ops key) t (pos k) ≡ hash_table_find nat_ops t k
  unfolding hash_table_find chain_of
  find-nat t k =
      ap
        (λ (f : List V → Option V).
          chain_of nat_ops t k >>= λ chain. ok (f (get_or t.entry chain [])))
        (fun_ext (find_in-nat k))
