-- ===== src/Namemap/Names.antt =====
-- Comparing names that fit their arrays, and the mapping table for such names.
use ioapps.Base.{
  Bool-cases, inl, inr, get_or, fun_ext, ℕ, zero, suc, ◌<◌, ◌≡◌, refl, sym, ap, ◌∙◌, ◌==◌, ◌&&◌,
  Bool, true, false, if◌then◌else◌, List, [], ◌∷◌, Option, none, some, length, arith,
}
use ioapps.Base.Run.{ok, ◌>>=◌}
use ioapps.HashTable.{
  Ops, HashTable, ht_hash_str, hash_table_insert, hash_table_find, chain_of, find_in,
}
use ioapps.HashTable.Chain.{IsLawful}
use ioapps.HashTable.Index.{IsPlacing}
use ioapps.Namemap.{NamemapItem, strncmp_same, ht_ops_namemap, max_string}

-- A name that fits an array with its NUL.
pub record ShortName : Type 0 where
  pub chars : List ℕ
  pub short : length chars < max_string

strncmp_same-eq : (n : ℕ) (a b : List ℕ) → length b < n → strncmp_same n a b ≡ true → a ≡ b
strncmp_same-eq zero a b lt e = absurd (omega arith)
strncmp_same-eq (suc n) [] [] lt e = refl
strncmp_same-eq (suc n) [] (y ∷ b) lt e = cc
strncmp_same-eq (suc n) (x ∷ a) [] lt e = cc
strncmp_same-eq (suc n) (x ∷ a) (y ∷ b) lt e =
    let head : x ≡ y = ground (arith, e) in
    let tail = strncmp_same-eq n a b (omega arith) (ground (arith, e)) in rw (head, tail) refl

pub strncmp_same_refl : (n : ℕ) (a : List ℕ) → strncmp_same n a a ≡ true
strncmp_same_refl zero a = refl
strncmp_same_refl (suc n) [] = refl
strncmp_same_refl (suc n) (x ∷ a) = ground (arith, strncmp_same_refl n a)

-- `ht_ops_namemap` with keys that are short.
abbrev pub short_ops : Ops ShortName NamemapItem
short_ops = record {
  hash = λ n key. ht_hash_str n key.chars;
  compare = λ key item. strncmp_same max_string item.old_name key.chars;
}

same_chars :
    (a b : ShortName) (v : NamemapItem)
    → short_ops.compare a v ≡ true
    → short_ops.compare b v ≡ true
    → a.chars ≡ b.chars
same_chars a b v p q =
    sym (strncmp_same-eq max_string v.old_name a.chars a.short p)
    ∙ strncmp_same-eq max_string v.old_name b.chars b.short q

pub short_ops-IsLawful : IsLawful short_ops
short_ops-IsLawful = record {
  compare_congr = λ a b v w p q. ap (strncmp_same max_string w.old_name) (same_chars a b v p q);
  hash_congr = λ n a b v p q. ap (ht_hash_str n) (same_chars a b v p q);
}

hash_lt : (n : ℕ) (k : List ℕ) → 0 < n → (i : ℕ) × (ht_hash_str n k ≡ ok i) × (i < n)
unfolding ht_hash_str
hash_lt zero k h = absurd (omega arith)
hash_lt (suc n) k h = (_, refl, omega arith)

pub short_ops-IsPlacing : (n : ℕ) → 0 < n → IsPlacing short_ops n
short_ops-IsPlacing n h k = hash_lt n k.chars h

find_in-short :
    (q : ShortName) (items : List NamemapItem)
    → find_in ht_ops_namemap q.chars items ≡ find_in short_ops q items
unfolding find_in
find_in-short q [] = refl
find_in-short q (item ∷ items) = rw (find_in-short q items) refl

-- The operations do not see the difference.
pub find-short :
    (t : HashTable NamemapItem) (q : ShortName)
    → hash_table_find ht_ops_namemap t q.chars ≡ hash_table_find short_ops t q
unfolding hash_table_find chain_of
find-short t q =
    ap
      (λ (f : List NamemapItem → Option NamemapItem).
        chain_of short_ops t q >>= λ chain. ok (f (get_or t.entry chain [])))
      (fun_ext (find_in-short q))

pub insert-short :
    (t : HashTable NamemapItem) (q : ShortName) (v : NamemapItem)
    → hash_table_insert ht_ops_namemap t q.chars v ≡ hash_table_insert short_ops t q v
unfolding hash_table_insert chain_of
insert-short t q v = refl

-- The same characters, in arrays of any size.
abbrev pub same_name : List ℕ → List ℕ → Bool
same_name [] [] = true
same_name [] (y ∷ b) = false
same_name (x ∷ a) [] = false
same_name (x ∷ a) (y ∷ b) = (x == y) && same_name a b

strncmp_same-short : (n : ℕ) (a b : List ℕ) → length b < n → strncmp_same n a b ≡ same_name a b
strncmp_same-short zero a b lt = absurd (omega arith)
strncmp_same-short (suc n) [] [] lt = refl
strncmp_same-short (suc n) [] (y ∷ b) lt = refl
strncmp_same-short (suc n) (x ∷ a) [] lt = refl
strncmp_same-short (suc n) (x ∷ a) (y ∷ b) lt =
    ap (λ t. (x == y) && t) (strncmp_same-short n a b (omega arith))

-- The name under which a file is found: the new name of the first pair with this old name, or its
-- own if there is none.
abbrev pub renamed : List NamemapItem → List ℕ → List ℕ
renamed [] name = name
renamed (pair ∷ pairs) name =
    if same_name pair.old_name name then pair.new_name else renamed pairs name

abbrev pub new_name_of : List ℕ → Option NamemapItem → List ℕ
new_name_of name none = name
new_name_of name (some item) = item.new_name

pub find_in-renamed :
    (pairs : List NamemapItem) (q : ShortName)
    → new_name_of q.chars (find_in short_ops q pairs) ≡ renamed pairs q.chars
unfolding find_in
find_in-renamed [] q = refl
find_in-renamed (pair ∷ pairs) q = elim (Bool-cases (same_name pair.old_name q.chars)) [
  | inl e ↦ rw (strncmp_same-short max_string pair.old_name q.chars q.short, e) refl
  | inr e ↦
      rw (strncmp_same-short max_string pair.old_name q.chars q.short, e) (find_in-renamed pairs q)
]
