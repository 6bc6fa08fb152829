-- ===== src/Fdmap/Processes/Lookup.antt =====
-- The table of processes as a function from process ids to tables.
use mathlib.Core.Option.{or_else}
use ioapps.Base.{
  ℕ, ◌<◌, ◌≡◌, refl, sym, ap, ◌∙◌, ◌==◌, if◌then◌else◌, true, Bool-cases, inl, inr, Option, none,
  some, length, arith,
}
use ioapps.Base.Int.{pos}
use ioapps.Base.Run.{ok, >>=-ok}
use ioapps.HashTable.{HashTable, hash_table_init, hash_table_find, hash_table_insert}
use ioapps.HashTable.Laws.{IsUnique, find-insert, find-remove, insert-IsUnique, remove-IsUnique}
use ioapps.HashTable.IntKeys.{
  int_ops-IsLawful, insert_ok, remove_ok, length-init, init-IsUnique, init-find,
}
use ioapps.Fdmap.{ProcessHashItem}
use ioapps.Fdmap.Processes.{
  item_pid, ht_ops_fdmapping, get_process_ht, new_process_ht, delete_process_ht,
}

abbrev entry_of : ℕ → Option ℕ → Option ProcessHashItem
entry_of n none = none
entry_of n (some ht) = some (record { ht = ht; pid = pos n })

-- The table has a chain, no doubles, and for each process id an item with the table of `g`, or none.
pub record IsProcesses (t : HashTable ProcessHashItem) (g : ℕ → Option ℕ) : Type 0 where
  pub width : 0 < length t.entry
  pub unique : IsUnique ht_ops_fdmapping t
  pub reads : (n : ℕ) → hash_table_find ht_ops_fdmapping t (pos n) ≡ ok (entry_of n (g n))

-- `g` with `p` for the process id `n`.
abbrev pub assigned : (ℕ → Option ℕ) → ℕ → Option ℕ → ℕ → Option ℕ
assigned g n p m = if n == m then p else g m

get-entry :
    (t : HashTable ProcessHashItem) (n : ℕ) (p : Option ℕ)
    → hash_table_find ht_ops_fdmapping t (pos n) ≡ ok (entry_of n p)
    → get_process_ht t (pos n) ≡ ok p
unfolding get_process_ht
get-entry t n none e = >>=-ok _ e
get-entry t n (some ht) e = >>=-ok _ e ∙ ground arith

-- In a table that stands for `g`, `get_process_ht` of a process id from 0 on goes through and answers
-- what `g` says.
pub get_process_ht-IsProcesses :
    (t : HashTable ProcessHashItem) (g : ℕ → Option ℕ) (n : ℕ)
    → IsProcesses t g
    → get_process_ht t (pos n) ≡ ok (g n)
get_process_ht-IsProcesses t g n h = get-entry t n (g n) (h.reads n)

entry-new :
    (n m : ℕ) (ht : ℕ) (p : Option ℕ)
    → (n ≡ m → p ≡ none)
    → or_else (entry_of m p) (if n == m then some (record { ht = ht; pid = pos n }) else none)
      ≡ entry_of m (if n == m then some ht else p)
unfolding or_else
entry-new n m ht none h = elim (Bool-cases (n == m)) [
  | inl e ↦ ground (arith, e)
  | inr e ↦ rw e refl
]
entry-new n m ht (some p) h = elim (Bool-cases (n == m)) [
  | inl e ↦ absurd (ground (arith, h, e))
  | inr e ↦ rw e refl
]

-- In a table that stands for `g`, an insertion of a new item for a process id from 0 on that has none
-- goes through, and the new table stands for `g` with the new item's table for that process id.
pub insert_process-IsProcesses :
    (t : HashTable ProcessHashItem) (g : ℕ → Option ℕ) (n ht : ℕ)
    → IsProcesses t g
    → g n ≡ none
    → (t' : HashTable ProcessHashItem) × (hash_table_insert ht_ops_fdmapping t
          (pos n)
          (new_process_ht ht (pos n))
        ≡ ok t')
      × IsProcesses t' (assigned g n (some ht))
unfolding new_process_ht
insert_process-IsProcesses t g n ht h z =
    let item : ProcessHashItem = record { ht = ht; pid = pos n } in
    let (t', run, wide) = insert_ok item_pid t n item h.width in
    let laws = int_ops-IsLawful item_pid in
    let match : (n == n) ≡ true = ground arith in
    (
      t',
      run,
      record {
        width = omega (arith, wide, h.width);
        unique =
            insert-IsUnique ht_ops_fdmapping laws t t' (pos n) item h.unique match
              (h.reads n ∙ ap (λ p. ok (entry_of n p)) z) run;
        reads = λ m.
            find-insert ht_ops_fdmapping laws t t' (pos n) (pos m) item _ match run (h.reads m)
            ∙ ap ok (entry-new n m ht (g m) (λ e. ap g (sym e) ∙ z));
      },
    )

entry-gone :
    (n m : ℕ) (p : Option ℕ)
    → (if n == m then none else entry_of m p) ≡ entry_of m (if n == m then none else p)
entry-gone n m p = elim (Bool-cases (n == m)) [ inl e ↦ rw e refl | inr e ↦ rw e refl ]

entry-kept :
    (g : ℕ → Option ℕ) (n m : ℕ) → g n ≡ none → entry_of m (g m) ≡ entry_of m (assigned g n none m)
entry-kept g n m z = elim (Bool-cases (n == m)) [
  | inl e ↦ rw e (
      let same : n ≡ m = ground (arith, e) in
      ap (λ k. entry_of m (g k)) (sym same) ∙ ap (entry_of m) z)
  | inr e ↦ rw e refl
]

delete_at :
    (t : HashTable ProcessHashItem) (g : ℕ → Option ℕ) (n : ℕ) (p : Option ℕ)
    → IsProcesses t g
    → g n ≡ p
    → (t' : HashTable ProcessHashItem) × (delete_process_ht t (pos n) ≡ ok t')
      × IsProcesses t' (assigned g n none)
unfolding delete_process_ht
delete_at t g n none h z = (
  t,
  >>=-ok _ (h.reads n ∙ ap (λ p. ok (entry_of n p)) z),
  record {
    width = h.width;
    unique = h.unique;
    reads = λ m. h.reads m ∙ ap ok (entry-kept g n m z);
  },
)
delete_at t g n (some ht) h z =
    let (t', run, wide) = remove_ok item_pid t n h.width in
    let own = h.reads n ∙ ap (λ p. ok (entry_of n p)) z in
    (
      t',
      >>=-ok _ own ∙ run,
      record {
        width = omega (arith, wide, h.width);
        unique = remove-IsUnique ht_ops_fdmapping t t' (pos n) h.unique run;
        reads = λ m.
            find-remove ht_ops_fdmapping (int_ops-IsLawful item_pid) t t' (pos n) (pos m) _ _
              h.unique run own (h.reads m)
            ∙ ap ok (entry-gone n m (g m));
      },
    )

-- In a table that stands for `g`, `delete_process_ht` of any process id from 0 on goes through, and
-- the new table stands for `g` without that process id.
pub delete_process_ht-IsProcesses :
    (t : HashTable ProcessHashItem) (g : ℕ → Option ℕ) (n : ℕ)
    → IsProcesses t g
    → (t' : HashTable ProcessHashItem) × (delete_process_ht t (pos n) ≡ ok t')
      × IsProcesses t' (assigned g n none)
delete_process_ht-IsProcesses t g n h = delete_at t g n (g n) h refl

-- A new table has no process.
pub init-IsProcesses : (m : ℕ) → 0 < m → IsProcesses (hash_table_init m) (λ n. none)
init-IsProcesses m lt = record {
  width = omega (arith, length-init item_pid m);
  unique = init-IsUnique item_pid m;
  reads = λ n. init-find item_pid m n lt;
}
