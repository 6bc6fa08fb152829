-- ===== src/Fdmap/Usage/Counts.antt =====
-- A usage table as a function from descriptors to counts.
use mathlib.Core.Option.{or_else}
use ioapps.Base.{
  ℕ, zero, suc, ◌==◌, ◌<◌, ◌≡◌, refl, sym, ap, ◌∙◌, if◌then◌else◌, Bool, true, false, Option, none,
  some, length, arith, inl, inr, Bool-cases,
}
use ioapps.Base.Int.{ℤ, pos, minus_one, ◌==ℤ◌, ◌+ℤ◌}
use ioapps.Base.Run.{Run, ok, abort, ◌>>=◌, >>=-ok}
use ioapps.HashTable.{
  HashTable, hash_table_init, hash_table_insert, hash_table_find, hash_table_remove,
  hash_table_update,
}
use ioapps.HashTable.Laws.{
  IsUnique, find-insert, find-remove, find-update, insert-IsUnique, remove-IsUnique,
  update-IsUnique,
}
use ioapps.HashTable.IntKeys.{
  int_ops-IsLawful, insert_ok, remove_ok, update_ok, length-init, init-IsUnique, init-find,
}
use ioapps.Fdmap.{FdUsage}
use ioapps.Fdmap.Usage.{my_fd, usage_ops, increase_fd_usage, decrease_fd_usage, add_usage}

-- What a table answers for a descriptor that is used so often.
abbrev pub answer : ℕ → ℕ → Option FdUsage
answer n zero = none
answer n (suc c) = some (record { my_fd = pos n; usage = pos (suc c) })

abbrev pub Answers : HashTable FdUsage → (ℕ → ℕ) → Type 0
Answers t f = (n : ℕ) → hash_table_find usage_ops t (pos n) ≡ ok (answer n (f n))

-- The table has a chain, no doubles, and for each descriptor the usage that `f` gives it: no item
-- where that is 0.
pub record IsCounting (t : HashTable FdUsage) (f : ℕ → ℕ) : Type 0 where
  pub width : 0 < length t.entry
  pub unique : IsUnique usage_ops t
  pub reads : Answers t f

-- `f` with `c` for the descriptor `n`.
abbrev pub updated : (ℕ → ℕ) → ℕ → ℕ → ℕ → ℕ
updated f n c m = if n == m then c else f m

-- The item of `fd`, with this usage.
abbrev entry_of : ℕ → ℤ → FdUsage
entry_of n e = record { my_fd = pos n; usage = e }

match_entry : (n m : ℕ) (e : ℤ) → usage_ops.compare (pos m) (entry_of n e) ≡ (n == m)
match_entry n m e = refl

answer-first :
    (n m k : ℕ)
    → (n ≡ m → k ≡ 0)
    → or_else (answer m k) (if n == m then some (entry_of n (pos 1)) else none)
      ≡ answer m (if n == m then 1 else k)
unfolding or_else
answer-first n m zero h = ground arith
answer-first n m (suc k) h = elim (Bool-cases (n == m)) [
  | inl e ↦ absurd (ground (arith, h))
  | inr e ↦ rw e refl
]

-- Inserting the first use.
put_first :
    (t : HashTable FdUsage) (f : ℕ → ℕ) (n : ℕ)
    → IsCounting t f
    → f n ≡ 0
    → (t' : HashTable FdUsage) × (hash_table_insert usage_ops t (pos n) (entry_of n (pos 1))
        ≡ ok t')
      × IsCounting t' (updated f n 1)
put_first t f n h z =
    let (t', run, wide) = insert_ok my_fd t n (entry_of n (pos 1)) h.width in
    let laws = int_ops-IsLawful my_fd in
    let match : (n == n) ≡ true = ground arith in
    (
      t',
      run,
      record {
        width = omega (arith, wide, h.width);
        unique =
            insert-IsUnique usage_ops laws t t' (pos n) _ h.unique match
              (h.reads n ∙ ap (λ c. ok (answer n c)) z) run;
        reads = λ m.
            find-insert usage_ops laws t t' (pos n) (pos m) _ _ match run (h.reads m)
            ∙ ap ok (answer-first n m (f m) (λ e. ap f (sym e) ∙ z));
      },
    )

-- Writing the usage of an item that is there.
write_usage :
    (t : HashTable FdUsage) (f : ℕ → ℕ) (n c : ℕ) (e : ℤ) (g : FdUsage → FdUsage)
    → IsCounting t f
    → f n ≡ suc c
    → ((v : FdUsage) → (g v).my_fd ≡ v.my_fd)
    → g (entry_of n (pos (suc c))) ≡ entry_of n e
    → (t' : HashTable FdUsage) × (hash_table_update usage_ops t (pos n) g ≡ ok t')
      × (0 < length t'.entry)
      × IsUnique usage_ops t'
      × ((m : ℕ)
          → hash_table_find usage_ops t' (pos m)
            ≡ ok (if n == m then some (entry_of n e) else answer m (f m)))
write_usage t f n c e g h z keeps made =
    let (t', run, wide) = update_ok my_fd t n g h.width in
    let laws = int_ops-IsLawful my_fd in
    let match : (n == n) ≡ true = ground arith in
    let own = h.reads n ∙ ap (λ c. ok (answer n c)) z in
    (
      t',
      run,
      omega (arith, wide, h.width),
      update-IsUnique usage_ops laws t t' (pos n) g h.unique
          (λ v p. ap (λ k. k ==ℤ pos n) (keeps v) ∙ p) run,
      λ m.
          find-update usage_ops laws t t' (pos n) (pos m) g _ _
            (ap (λ v. v.my_fd ==ℤ pos n) made ∙ match) run own (h.reads m)
          ∙ ap (λ v. ok (if n == m then some v else answer m (f m))) made,
    )

answer-later :
    (n m c k : ℕ)
    → (if n == m then some (entry_of n (pos (suc c))) else answer m k)
      ≡ answer m (if n == m then suc c else k)
answer-later n m c k = elim (Bool-cases (n == m)) [ inl e ↦ ground (arith, e) | inr e ↦ rw e refl ]

write_usage-IsCounting :
    (t : HashTable FdUsage) (f : ℕ → ℕ) (n c d : ℕ) (g : FdUsage → FdUsage)
    → IsCounting t f
    → f n ≡ suc c
    → ((v : FdUsage) → (g v).my_fd ≡ v.my_fd)
    → g (entry_of n (pos (suc c))) ≡ entry_of n (pos (suc d))
    → (t' : HashTable FdUsage) × (hash_table_update usage_ops t (pos n) g ≡ ok t')
      × IsCounting t' (updated f n (suc d))
write_usage-IsCounting t f n c d g h z keeps made =
    let (t', run, wide, unique, reads) = write_usage t f n c (pos (suc d)) g h z keeps made in
    (
      t',
      run,
      record {
        width = wide;
        unique = unique;
        reads = λ m. reads m ∙ ap ok (answer-later n m d (f m));
      },
    )

answer-gone :
    (n m k : ℕ) (e : ℤ)
    → (if n == m then none else (if n == m then some (entry_of n e) else answer m k))
      ≡ answer m (if n == m then 0 else k)
answer-gone n m k e = elim (Bool-cases (n == m)) [ inl q ↦ rw q refl | inr q ↦ rw q refl ]

-- Taking out the item of the last use.
drop_last :
    (t : HashTable FdUsage) (f : ℕ → ℕ) (n : ℕ) (e : ℤ)
    → 0 < length t.entry
    → IsUnique usage_ops t
    → ((m : ℕ)
        → hash_table_find usage_ops t (pos m)
          ≡ ok (if n == m then some (entry_of n e) else answer m (f m)))
    → (t' : HashTable FdUsage) × (hash_table_remove usage_ops t (pos n) ≡ ok t')
      × IsCounting t' (updated f n 0)
drop_last t f n e wide unique reads =
    let (t', run, same) = remove_ok my_fd t n wide in
    let match : (n == n) ≡ true = ground arith in
    let own : hash_table_find usage_ops t (pos n) ≡ ok (some (entry_of n e)) =
      reads n ∙ ap (λ b. ok (if b then some (entry_of n e) else answer n (f n))) match in
    (
      t',
      run,
      record {
        width = omega (arith, same, wide);
        unique = remove-IsUnique usage_ops t t' (pos n) unique run;
        reads = λ m.
            find-remove usage_ops (int_ops-IsLawful my_fd) t t' (pos n) (pos m) _ _ unique run own
              (reads m)
            ∙ ap ok (answer-gone n m (f m) e);
      },
    )

increase-found :
    (t : HashTable FdUsage) (n : ℕ) (item : Option FdUsage)
    → hash_table_find usage_ops t (pos n) ≡ ok item
    → increase_fd_usage t (pos n) ≡ elim item [
      | none ↦ hash_table_insert usage_ops t (pos n) (entry_of n (pos 1))
      | some u ↦ hash_table_update usage_ops t (pos n) (add_usage (pos 1))
    ]
unfolding increase_fd_usage
increase-found t n item e = >>=-ok _ e

add_one : (c : ℕ) → pos c +ℤ pos 1 ≡ pos (suc c)
unfolding ◌+ℤ◌
add_one c = ground arith

sub_one : (c : ℕ) → pos (suc c) +ℤ minus_one ≡ pos c
unfolding ◌+ℤ◌
sub_one c = ground arith

increase_at :
    (t : HashTable FdUsage) (f : ℕ → ℕ) (n c : ℕ)
    → IsCounting t f
    → f n ≡ c
    → (t' : HashTable FdUsage) × (increase_fd_usage t (pos n) ≡ ok t')
      × IsCounting t' (updated f n (suc c))
increase_at t f n zero h z =
    let (t', run, count) = put_first t f n h z in
    (t', increase-found t n _ (h.reads n ∙ ap (λ c. ok (answer n c)) z) ∙ run, count)
increase_at t f n (suc c) h z =
    let (t', run, count) =
      write_usage-IsCounting t f n c (suc c) (add_usage (pos 1)) h z (λ v. refl)
        (ap (entry_of n) (add_one (suc c))) in
    (t', increase-found t n _ (h.reads n ∙ ap (λ c. ok (answer n c)) z) ∙ run, count)

-- On a table that counts `f`, `increase_fd_usage` of a descriptor from 0 on goes through, and the
-- new table counts `f` with one more for that descriptor.
pub increase_fd_usage-IsCounting :
    (t : HashTable FdUsage) (f : ℕ → ℕ) (n : ℕ)
    → IsCounting t f
    → (t' : HashTable FdUsage) × (increase_fd_usage t (pos n) ≡ ok t')
      × IsCounting t' (updated f n (suc (f n)))
increase_fd_usage-IsCounting t f n h = increase_at t f n (f n) h refl

abbrev last_use : HashTable FdUsage → ℕ → Bool → Run (Bool × HashTable FdUsage)
last_use t n b =
    if b then (hash_table_remove usage_ops t (pos n) >>= λ t'. ok (true, t')) else ok (false, t)

decrease-found :
    (t : HashTable FdUsage) (n : ℕ) (item : Option FdUsage)
    → hash_table_find usage_ops t (pos n) ≡ ok item
    → decrease_fd_usage t (pos n) ≡ elim item [
      | none ↦ abort
      | some u ↦ hash_table_update usage_ops t (pos n) (add_usage minus_one) >>= λ t'.
          last_use t' n (u.usage +ℤ minus_one ==ℤ pos 0)
    ]
unfolding decrease_fd_usage
decrease-found t n item e = >>=-ok _ e

decrease_at :
    (t : HashTable FdUsage) (f : ℕ → ℕ) (n c : ℕ)
    → IsCounting t f
    → f n ≡ suc c
    → (t' : HashTable FdUsage) × (decrease_fd_usage t (pos n) ≡ ok (c == 0, t'))
      × IsCounting t' (updated f n c)
decrease_at t f n zero h z =
    let (t', run, wide, unique, reads) =
      write_usage t f n zero (pos 0) (add_usage minus_one) h z (λ v. refl)
        (ap (entry_of n) (sub_one zero)) in
    let (t'', gone, count) = drop_last t' f n (pos 0) wide unique reads in
    (
      t'',
      decrease-found t n _ (h.reads n ∙ ap (λ c. ok (answer n c)) z)
          ∙ >>=-ok _ run
          ∙ ap (λ z. last_use t' n (z ==ℤ pos 0)) (sub_one zero)
          ∙ >>=-ok _ gone,
      count,
    )
decrease_at t f n (suc c) h z =
    let (t', run, count) =
      write_usage-IsCounting t f n (suc c) c (add_usage minus_one) h z (λ v. refl)
        (ap (entry_of n) (sub_one (suc c))) in
    (
      t',
      decrease-found t n _ (h.reads n ∙ ap (λ c. ok (answer n c)) z)
          ∙ >>=-ok _ run
          ∙ ap (λ z. last_use t' n (z ==ℤ pos 0)) (sub_one (suc c))
          ∙ ground arith,
      count,
    )

-- On a table that counts `f`, `decrease_fd_usage` of a used descriptor goes through, answers whether
-- that was its last use, and the new table counts `f` with one less for that descriptor.
pub decrease_fd_usage-IsCounting :
    (t : HashTable FdUsage) (f : ℕ → ℕ) (n c : ℕ)
    → IsCounting t f
    → f n ≡ suc c
    → (t' : HashTable FdUsage) × (decrease_fd_usage t (pos n) ≡ ok (c == 0, t'))
      × IsCounting t' (updated f n c)
decrease_fd_usage-IsCounting t f n c h e = decrease_at t f n c h e

-- On a table that counts `f`, `decrease_fd_usage` of an unused descriptor fails its assertion.
pub decrease_fd_usage_unused :
    (t : HashTable FdUsage) (f : ℕ → ℕ) (n : ℕ)
    → IsCounting t f
    → f n ≡ 0
    → decrease_fd_usage t (pos n) ≡ abort
decrease_fd_usage_unused t f n h z = decrease-found t n _ (h.reads n ∙ ap (λ c. ok (answer n c)) z)

-- A new table counts no use of any descriptor.
pub init-IsCounting : (m : ℕ) → 0 < m → IsCounting (hash_table_init m) (λ n. 0)
init-IsCounting m lt = record {
  width = omega (arith, length-init my_fd m);
  unique = init-IsUnique my_fd m;
  reads = λ n. init-find my_fd m n lt;
}
