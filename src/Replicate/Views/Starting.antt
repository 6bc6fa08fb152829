-- ===== src/Replicate/Views/Starting.antt =====
-- `replicate_init`: the tables that a replay begins with.
use ioapps.Base.{ℕ, ◌≡◌, refl, ap, ◌∙◌, Bool, List, [], ◌∷◌, replicate, Option, none, some, arith}
use ioapps.Base.Int.{pos, minus_one, ◌+ℤ◌}
use ioapps.Base.Run.{ok}
use ioapps.Fdmap.{FdMap, FdUsage, ProcessHashItem}
use ioapps.Fdmap.Clone.{load}
use ioapps.Fdmap.Parents.{new_parents, find_place, insert_parent_fd}
use ioapps.Fdmap.Processes.Lookup.{init-IsProcesses, insert_process-IsProcesses}
use ioapps.Fdmap.Usage.{usage_ops, increase_fd_usage}
use ioapps.HashTable.{
  HashTable, hash_table_init, hash_table_insert, hash_table_find, hash_table_update, update_in,
  chain_of, find_in, ht_hash_int,
}
use ioapps.Namemap.{Namemap, hash_table_size}
use ioapps.Parsing.{codes}
use ioapps.Replicate.Files.{ft_spec, new_fd_map}
use ioapps.Replicate.Loop.{
  start_world, stdin_name, stdout_name, stderr_name, add_standard, init_tables,
}
use ioapps.Replicate.Tables.{add_table, insert_process, find_fd, insert_fd, increase_usage}
use ioapps.Replicate.Views.{>>=-runs}
use ioapps.Replicate.World.{
  Env, World, after, ret, ◌>>=◌, lift, gets, new_map, get_table, set_table, set_usage,
  set_processes,
}

-- The descriptor finds a map of that name for itself, of the type that no operation is made on.
abbrev pub FindsStandard : {S : Type 0} → World S → ℕ → List ℕ → Type 0
FindsStandard w fd name =
    (p : ℕ) × (m : FdMap) × (find_fd 0 (pos fd) w
      ≡ ok (some (record { old_fd = pos fd; fd_map = p }), w))
    × (load w.maps p ≡ ok m)
    × (m.my_fd ≡ pos fd)
    × (m.name ≡ name)
    × (m.type ≡ ft_spec)
    × (m.parent_fds ≡ pos fd ∷ replicate 19 minus_one)

-- How often a descriptor of the replay is used, or none where that is not counted.
abbrev pub UsageIs : {S : Type 0} → World S → ℕ → Option FdUsage → Type 0
UsageIs w fd u = hash_table_find usage_ops w.usage_map (pos fd) ≡ ok u

-- Descriptor 0 is not found, 1 and 2 are stdout and stderr, and 1 counts the use of 0.
unfoldable pub LacksStdin : {S : Type 0} → World S → Type 0
LacksStdin w =
    (find_fd 0 (pos 0) w ≡ ok (none, w))
    × FindsStandard w 1 (codes "stdout")
    × FindsStandard w 2 (codes "stderr")
    × UsageIs w 0 none
    × UsageIs w 1 (some (record { my_fd = pos 1; usage = pos 2 }))
    × UsageIs w 2 (some (record { my_fd = pos 2; usage = pos 1 }))

module _ {S : Type 0} (env : Env S) (names : Namemap) (fix : Bool) (state : S) where
  -- The first process and its table, before it has descriptors.
  abbrev first_world : ℕ → HashTable ProcessHashItem → World S
  first_world pid t = record (start_world names (pos pid) fix state) {
    tables = hash_table_init hash_table_size ∷ [];
    fd_mappings = t;
  }

  insert_process-first :
      (pid : ℕ)
      → (t : HashTable ProcessHashItem) × (insert_process
            (pos pid)
            1
            (record (start_world names (pos pid) fix state) {
              tables = hash_table_init hash_table_size ∷ [];
            })
          ≡ ok (tt, first_world pid t))
  unfolding insert_process gets lift set_processes ◌>>=◌
  insert_process-first pid =
      let (t, run, h) =
        insert_process-IsProcesses (hash_table_init hash_table_size) (λ n. none) pid 1
          (init-IsProcesses hash_table_size (omega arith)) refl in
      (
        t,
        ap
            (λ r. after set_processes (
              lift r (record (start_world names (pos pid) fix state) {
                tables = hash_table_init hash_table_size ∷ [];
              })))
            run,
      )

  add_standards :
      (pid : ℕ) (t : HashTable ProcessHashItem)
      → (w : World S) × ((add_standard env 0 (pos 0) stdin_name (pos 1) >>= λ u.
              add_standard env 0 (pos 1) stdout_name (pos 1) >>= λ u.
              add_standard env 0 (pos 2) stderr_name (pos 2))
            (first_world pid t)
          ≡ ok (tt, w))
        × LacksStdin w
  unfolding add_standard lift gets ret ◌>>=◌ new_map insert_parent_fd find_place new_fd_map
      new_parents insert_fd get_table set_table increase_usage LacksStdin increase_fd_usage
      set_usage hash_table_init hash_table_insert hash_table_find hash_table_update update_in
      chain_of find_in ht_hash_int ◌+ℤ◌ find_fd
  add_standards pid t = (
    _,
    refl,
    (
      refl,
      (1, _, refl, refl, refl, refl, refl, refl),
      (2, _, refl, refl, refl, refl, refl, refl),
      refl,
      refl,
      refl,
    ),
  )

  -- For any first process id from 0 on, `init_tables`, what `replicate_init` does to the tables of a replay
  -- that has none, goes through and leaves them so that descriptor 0 of the process is not found, though it is
  -- stdin. 1 and 2 find maps with my_fd 1 and 2, named "stdout" and "stderr", of type FT_SPEC and with themselves
  -- as only parent. No use of 0 is counted, two uses of 1 are, and one of 2.
  pub init_tables-stdin :
      (pid : ℕ)
      → (w : World S) × (init_tables env (pos pid) (start_world names (pos pid) fix state)
          ≡ ok (tt, w))
        × LacksStdin w
  unfolding init_tables add_table
  init_tables-stdin pid =
      let (t, inserted) = insert_process-first pid in
      let (w, added, wrong) = add_standards pid t in
      (w, >>=-runs _ _ refl ∙ >>=-runs _ _ inserted ∙ added, wrong)
