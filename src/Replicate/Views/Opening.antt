-- ===== src/Replicate/Views/Opening.antt =====
-- `replicate_open` of a file that the trace opened, in a replay with ACT_REPLICATE.
use mathlib.Core.Path.{subst}
use ioapps.Base.{
  ℕ, suc, ◌<◌, ◌^◌, ◌≡◌, refl, ap, ◌∙◌, ◌==◌, if◌then◌else◌, take, not, ◌&&◌, true, false, List, [],
  ◌∷◌, ◌++◌, Option, none, some, length, replicate, lt→ltb,
}
use ioapps.Base.Int.{ℤ, pos, minus_one, ◌==ℤ◌, ◌+ℤ◌}
use ioapps.Base.Run.{Run, ok}
use ioapps.Fdmap.{FdMap, FdItem, FdUsage, max_parent_ids}
use ioapps.Fdmap.Parents.{new_parents, find_place, insert_parent_fd}
use ioapps.Fdmap.Usage.Counts.{updated}
use ioapps.HashTable.{HashTable}
use ioapps.Namemap.{namemap_get_name}
use ioapps.Replicate.Files.{
  mode_undef, new_fd_map, o_ignore, o_creat, o_directory, s_ifdir, s_ifreg, opened_map, get_name,
  add_fd, open_file, open_in, replicate_open,
}
use ioapps.Replicate.Views.{
  InView, called, assigned_in, int32-small, >>=-runs, chosen-runs, process_ht-runs, find_fd-runs,
  insert_fd-runs, increase_usage-runs,
}
use ioapps.Replicate.World.{
  Env, World, Call, open_call, ret, ◌>>=◌, lift, gets, sys, new_map, has_flag, act_replicate,
}
use ioapps.Trace

-- The map with its first parent.
abbrev pub with_parent : FdMap → ℕ → FdMap
with_parent m fd = record m { parent_fds = pos fd ∷ replicate 19 minus_one; last_par_index = pos 0 }

-- The map has the array of `new_fd_item`.
abbrev pub HasNoParent : FdMap → Type 0
HasNoParent m = (m.parent_fds ≡ replicate max_parent_ids minus_one) × (m.last_par_index ≡ minus_one)

insert_parent_fd-first :
    (m : FdMap) (fd : ℕ) → HasNoParent m → insert_parent_fd m (pos fd) ≡ ok (with_parent m fd)
unfolding insert_parent_fd find_place ◌+ℤ◌
insert_parent_fd-first m fd (parents, last) = rw (parents, last) refl

-- The call of an `open` under a name.
abbrev pub call_of : Trace.OpenOp → List ℕ → Call
call_of op name = open_call name op.flags (if op.mode == mode_undef then none else some op.mode)

abbrev pub with_map :
    {S : Type 0} → World S → FdMap → ℕ → List (HashTable FdItem) → HashTable FdUsage → World S
with_map w m fd tables usage_map = record w {
  maps = w.maps ++ some (with_parent m fd) ∷ [];
  tables = tables;
  usage_map = usage_map;
}

module _ {S : Type 0} (env : Env S) (w : World S) {procs : ℕ → Option ℕ}
    {fds : ℕ → ℕ → Option FdItem} {uses : ℕ → ℕ} (v : InView w procs fds uses) where
  -- A descriptor that the table does not have.
  pub add_fd-runs :
      (i fd k : ℕ) (m : FdMap)
      → i < length w.tables
      → fds i fd ≡ none
      → HasNoParent m
      → (tables : List (HashTable FdItem)) × (usage_map : HashTable FdUsage) × (add_fd env i
            (pos fd)
            m
            (pos k)
            w
          ≡ ok (tt, with_map w m fd tables usage_map))
        × InView
            (with_map w m fd tables usage_map)
            procs
            (assigned_in fds i fd (some (record { old_fd = pos fd; fd_map = length w.maps })))
            (updated uses k (suc (uses k)))
  unfolding add_fd new_map lift
  add_fd-runs i fd k m here new blank =
      let item : FdItem = record { old_fd = pos fd; fd_map = length w.maps } in
      let w1 : World S = record w { maps = w.maps ++ some (with_parent m fd) ∷ [] } in
      let (tables, inserted, v1, same) = insert_fd-runs w1 v i fd item here new refl in
      let w2 : World S = record w1 { tables = tables } in
      let (usage_map, increased, v2) = increase_usage-runs w2 v1 k in
      (
        tables,
        usage_map,
        >>=-runs _ _ (ap (λ r. lift r w) (insert_parent_fd-first m fd blank))
            ∙ >>=-runs _ _ refl
            ∙ >>=-runs _ _ inserted
            ∙ increased,
        v2,
      )

-- The map of a file that the trace opened as a descriptor and the replay as k.
abbrev pub file_map : Trace.OpenOp → List ℕ → ℕ → FdMap
file_map op name k = record {
  my_fd = pos k;
  type = if has_flag op.flags o_directory then s_ifdir else s_ifreg;
  cur_pos = 0;
  tv_sec = op.info.tv_sec;
  tv_usec = op.info.tv_usec;
  name = take 511 name;
  created = if has_flag op.flags o_creat then o_creat else 0;
  parent_fds = pos op.retval ∷ replicate 19 minus_one;
  last_par_index = pos 0;
}

file_map-opened :
    (op : Trace.OpenOp) (name : List ℕ) (k : ℕ)
    → has_flag op.flags o_ignore ≡ false
    → with_parent (opened_map op op.flags name (pos k)) op.retval ≡ file_map op name k
unfolding new_fd_map new_parents
file_map-opened op name k kept = rw kept refl

-- The world after an `open` that went through.
abbrev pub opened_world :
    {S : Type 0}
    → World S
    → Trace.OpenOp
    → List ℕ
    → ℕ
    → List (HashTable FdItem)
    → HashTable FdUsage
    → World S
opened_world w op name k tables usage_map = record (called w (call_of op name)) {
  maps = w.maps ++ some (file_map op name k) ∷ [];
  tables = tables;
  usage_map = usage_map;
}

-- An `open` that succeeded in the trace, of a process with a table that does not have the descriptor.
module _ {S : Type 0} (env : Env S) (w : World S) {procs : ℕ → Option ℕ}
    {fds : ℕ → ℕ → Option FdItem} {uses : ℕ → ℕ} (v : InView w procs fds uses) (op : Trace.OpenOp)
    (op_mask i : ℕ) (name : List ℕ) (mode : has_flag op_mask act_replicate ≡ true)
    (small_pid : op.info.pid < 2 ^ 31) (small_fd : op.retval < 2 ^ 31)
    (process : procs op.info.pid ≡ some (suc i)) (new : fds i op.retval ≡ none)
    (names : namemap_get_name env.fnmatch w.names op.name ≡ ok (some name))
    (kept : has_flag op.flags o_ignore ≡ false) where
  get_name-runs : get_name env op.name w ≡ ok (some name, w)
  unfolding get_name gets lift ◌>>=◌
  get_name-runs = ap (λ r. lift r w) names

  open_file-calls :
      open_file env op op.flags name op_mask w
      ≡ ok (env.kernel w.calls (call_of op name), called w (call_of op name))
  unfolding open_file sys
  open_file-calls =
      chosen-runs _ _ w (ap (λ b. b && not (has_flag op.flags o_ignore)) mode ∙ ap not kept)

  -- What follows the call's answer.
  abbrev answered : ℤ → ℤ → Run (Unit {0} × World S)
  answered fd r =
      (if r ==ℤ minus_one then ret tt else add_fd env i fd (opened_map op op.flags name r) r)
        (called w (call_of op name))

  open_in-calls :
      (r : ℤ)
      → env.kernel w.calls (call_of op name) ≡ r
      → open_in env i op op_mask w ≡ answered (pos op.retval) r
  unfolding open_in
  open_in-calls r answers = rw (lt→ltb op.retval (2 ^ 31) small_fd) (
      >>=-runs _ _ get_name-runs
      ∙ >>=-runs _ _
          (find_fd-runs w v i op.retval (v.ranged op.info.pid i process) ∙ ap (λ p. ok (p, w)) new)
      ∙ >>=-runs _ _ (open_file-calls ∙ ap (λ r. ok (r, called w (call_of op name))) answers)
      ∙ ap (λ fd. answered fd r) (int32-small op.retval small_fd))

  replicate_open-calls :
      (r : ℤ)
      → env.kernel w.calls (call_of op name) ≡ r
      → replicate_open env op op_mask w ≡ answered (pos op.retval) r
  unfolding replicate_open
  replicate_open-calls r answers =
      rw (lt→ltb op.retval (2 ^ 31) small_fd, lt→ltb op.info.pid (2 ^ 31) small_pid)
        (>>=-runs _ _ (process_ht-runs w v op.info.pid i process) ∙ open_in-calls r answers)

  -- The `open` goes through, with a map behind those of the world before.
  abbrev Opens : ℕ → FdMap → Type 0
  Opens k m =
      (tables : List (HashTable FdItem)) × (usage_map : HashTable FdUsage) × (replicate_open env op
          op_mask w
        ≡ ok (
          tt,
          record (called w (call_of op name)) {
            maps = w.maps ++ some m ∷ [];
            tables = tables;
            usage_map = usage_map;
          },
        ))
      × InView
          (record (called w (call_of op name)) {
            maps = w.maps ++ some m ∷ [];
            tables = tables;
            usage_map = usage_map;
          })
          procs
          (assigned_in fds i op.retval
            (some (record { old_fd = pos op.retval; fd_map = length w.maps })))
          (updated uses k (suc (uses k)))

  replicate_open-Opens :
      (k : ℕ)
      → env.kernel w.calls (call_of op name) ≡ pos k
      → Opens k (with_parent (opened_map op op.flags name (pos k)) op.retval)
  unfolding new_fd_map new_parents
  replicate_open-Opens k answers =
      let (tables, usage_map, run, v') =
        add_fd-runs env (called w (call_of op name)) v i op.retval k
          (opened_map op op.flags name (pos k)) (v.ranged op.info.pid i process) new (refl, refl) in
      (tables, usage_map, replicate_open-calls (pos k) answers ∙ run, v')

  -- In a replay with ACT_REPLICATE, an `open` that gave a descriptor in the trace, by a process whose
  -- table does not have that descriptor, of a name that is not ignored: where the kernel opens the file
  -- as k, `replicate_open` goes through. It makes the one call `open` under the mapped name, and appends a
  -- map with my_fd k, the first 511 characters of the mapped name, position 0, the time of the operation, whether
  -- O_CREAT was given, the type of a directory with O_DIRECTORY and of a regular file without, and the
  -- descriptor as its only parent. The tables stand for what they did with the descriptor assigned to that
  -- map and one more use of k.
  pub replicate_open-Views :
      (k : ℕ)
      → env.kernel w.calls (call_of op name) ≡ pos k
      → (tables : List (HashTable FdItem)) × (usage_map : HashTable FdUsage) × (replicate_open env
            op op_mask w
          ≡ ok (tt, opened_world w op name k tables usage_map))
        × InView
            (opened_world w op name k tables usage_map)
            procs
            (assigned_in fds i op.retval
              (some (record { old_fd = pos op.retval; fd_map = length w.maps })))
            (updated uses k (suc (uses k)))
  replicate_open-Views k answers =
      subst (Opens k) (file_map-opened op name k kept) (replicate_open-Opens k answers)

  pub replicate_open-refused :
      env.kernel w.calls (call_of op name) ≡ minus_one
      → replicate_open env op op_mask w ≡ ok (tt, called w (call_of op name))
  unfolding ret
  replicate_open-refused answers = replicate_open-calls minus_one answers
