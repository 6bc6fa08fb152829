-- ===== src/Replicate/Loop.antt =====
-- `replicate_init` and the loop of `replicate`.
use ioapps.Base.{ℕ, ◌==◌, if◌then◌else◌, ◌||◌, Bool, true, false, List, [], ◌∷◌, none}
use ioapps.Base.Int.{ℤ, pos, minus_one, ◌==ℤ◌}
use ioapps.Base.Run.{Run, ok, abort}
use ioapps.Base.Run
use ioapps.Fdmap.Parents.{insert_parent_fd}
use ioapps.HashTable.{hash_table_init}
use ioapps.Namemap.{Namemap, FileArg, namemap_init, hash_table_size}
use ioapps.Replicate.Files.{new_fd_map, ft_spec, replicate_open, replicate_close}
use ioapps.Replicate.Names.{
  replicate_unlink, replicate_mkdir, replicate_rmdir, replicate_access, replicate_stat,
}
use ioapps.Replicate.Special.{replicate_pipe, replicate_socket, replicate_dup}
use ioapps.Replicate.Tables.{add_table, insert_process, insert_fd, increase_usage, replicate_clone}
use ioapps.Replicate.Transfer.{
  replicate_read, replicate_write, replicate_pread, replicate_pwrite, replicate_lseek,
  replicate_llseek, replicate_sendfile,
}
use ioapps.Replicate.World.{
  Env, World, open_call, M, ret, ◌>>=◌, ◌>>◌, crash, lift, new_map, sys, int32, has_flag,
  bit_fix_missing,
}
use ioapps.Trace
use ioapps.Trace.{Op, Item}

-- The globals before a replay. `INT_MAX` and 100000001 are where the counters start.
abbrev pub start_world : {S : Type 0} → Namemap → ℤ → Bool → S → World S
start_world names pid fix state = record {
  maps = [];
  tables = [];
  fd_mappings = hash_table_init hash_table_size;
  usage_map = hash_table_init hash_table_size;
  names = names;
  global_parent_pid = pid;
  global_fix_missing = fix;
  pipe_fd = pos 2147483647;
  socket_fd = pos 100000001;
  calls = [];
  sim_state = state;
}

abbrev pub dev_null : List ℕ
dev_null = b'/' ∷ b'd' ∷ b'e' ∷ b'v' ∷ b'/' ∷ b'n' ∷ b'u' ∷ b'l' ∷ b'l' ∷ []

abbrev pub dev_zero : List ℕ
dev_zero = b'/' ∷ b'd' ∷ b'e' ∷ b'v' ∷ b'/' ∷ b'z' ∷ b'e' ∷ b'r' ∷ b'o' ∷ []

abbrev pub stdin_name : List ℕ
stdin_name = b's' ∷ b't' ∷ b'd' ∷ b'i' ∷ b'n' ∷ []

abbrev pub stdout_name : List ℕ
stdout_name = b's' ∷ b't' ∷ b'd' ∷ b'o' ∷ b'u' ∷ b't' ∷ []

abbrev pub stderr_name : List ℕ
stderr_name = b's' ∷ b't' ∷ b'd' ∷ b'e' ∷ b'r' ∷ b'r' ∷ []

-- The casts of `replicate`: one goes wrong where the item is not of the structure that its type
-- character says.
unfoldable pub cast : ℕ → Op → Bool
cast c (Op.write o) = c == Trace.op_write
cast c (Op.read o) = c == Trace.op_read
cast c (Op.pwrite o) = c == Trace.op_pwrite
cast c (Op.pread o) = c == Trace.op_pread
cast c (Op.open_file o) = c == Trace.op_open
cast c (Op.close o) = c == Trace.op_close
cast c (Op.unlink o) = c == Trace.op_unlink
cast c (Op.lseek o) = c == Trace.op_lseek
cast c (Op.llseek o) = c == Trace.op_llseek
cast c (Op.clone o) = c == Trace.op_clone
cast c (Op.mkdir o) = c == Trace.op_mkdir
cast c (Op.rmdir o) = c == Trace.op_rmdir
cast c (Op.dup o) = c == Trace.op_dup || (c == Trace.op_dup2 || c == Trace.op_dup3)
cast c (Op.pipe o) = c == Trace.op_pipe
cast c (Op.access o) = c == Trace.op_access
cast c (Op.stat o) = c == Trace.op_stat
cast c (Op.socket o) = c == Trace.op_socket
cast c (Op.sendfile o) = c == Trace.op_sendfile

-- `x##_it->o.info.pid`
abbrev pub pid_of : Op → ℕ
pid_of (Op.write o) = o.info.pid
pid_of (Op.read o) = o.info.pid
pid_of (Op.pwrite o) = o.info.pid
pid_of (Op.pread o) = o.info.pid
pid_of (Op.open_file o) = o.info.pid
pid_of (Op.close o) = o.info.pid
pid_of (Op.unlink o) = o.info.pid
pid_of (Op.lseek o) = o.info.pid
pid_of (Op.llseek o) = o.info.pid
pid_of (Op.clone o) = o.info.pid
pid_of (Op.mkdir o) = o.info.pid
pid_of (Op.rmdir o) = o.info.pid
pid_of (Op.dup o) = o.info.pid
pid_of (Op.pipe o) = o.info.pid
pid_of (Op.access o) = o.info.pid
pid_of (Op.stat o) = o.info.pid
pid_of (Op.socket o) = o.info.pid
pid_of (Op.sendfile o) = o.info.pid

-- The characters that the `switch` of `replicate` knows.
abbrev pub op_chars : List ℕ
op_chars =
    Trace.op_write ∷ Trace.op_read ∷ Trace.op_pwrite ∷ Trace.op_pread ∷ Trace.op_open
    ∷ Trace.op_close ∷ Trace.op_unlink ∷ Trace.op_lseek ∷ Trace.op_llseek ∷ Trace.op_clone
    ∷ Trace.op_mkdir ∷ Trace.op_rmdir ∷ Trace.op_dup ∷ Trace.op_dup2 ∷ Trace.op_dup3 ∷ Trace.op_pipe
    ∷ Trace.op_access ∷ Trace.op_stat ∷ Trace.op_socket ∷ Trace.op_sendfile ∷ []

unfoldable pub is_known : ℕ → List ℕ → Bool
is_known c [] = false
is_known c (x ∷ xs) = c == x || is_known c xs

module _ {S : Type 0} (env : Env S) where
  -- A standard descriptor `fd`, put into the table under the key `key`.
  unfoldable pub add_standard : ℕ → ℤ → List ℕ → ℤ → M S (Unit {0})
  add_standard i fd name key = do
    fd_map ←
        lift (insert_parent_fd (record new_fd_map { my_fd = fd; name = name; type = ft_spec }) fd)
    p ← new_map fd_map
    insert_fd i key (record { old_fd = fd; fd_map = p })
    increase_usage key

  -- The table of the first process. The key of stdin is STDOUT_FILENO.
  unfoldable pub init_tables : ℤ → M S (Unit {0})
  init_tables pid = do
    ht ← add_table (hash_table_init hash_table_size)
    insert_process pid ht
    add_standard 0 (pos 0) stdin_name (pos 1)
    add_standard 0 (pos 1) stdout_name (pos 1)
    add_standard 0 (pos 2) stderr_name (pos 2)

  -- The result is whether the calls went well; only the first is tested, twice.
  unfoldable pub open_devices : M S Bool
  open_devices = do
    devnull ← sys env (open_call dev_null 1 none)
    if devnull ==ℤ minus_one
        then ret false
        else (do devzero ← sys env (open_call dev_zero 0 none); ret true)

  -- `replicate_init`, after `namemap_init`.
  unfoldable pub init_process : ℤ → M S Bool
  init_process pid = do init_tables pid; open_devices

  -- `replicate_*` of an operation.
  unfoldable pub replicate_op : Op → ℕ → M S (Unit {0})
  replicate_op (Op.write o) op_mask = replicate_write env o op_mask
  replicate_op (Op.read o) op_mask = replicate_read env o op_mask
  replicate_op (Op.pwrite o) op_mask = replicate_pwrite env o op_mask
  replicate_op (Op.pread o) op_mask = replicate_pread env o op_mask
  replicate_op (Op.open_file o) op_mask = replicate_open env o op_mask
  replicate_op (Op.close o) op_mask = replicate_close env o op_mask
  replicate_op (Op.unlink o) op_mask = replicate_unlink env o op_mask
  replicate_op (Op.lseek o) op_mask = replicate_lseek env o op_mask
  replicate_op (Op.llseek o) op_mask = replicate_llseek env o op_mask
  replicate_op (Op.clone o) op_mask = replicate_clone o
  replicate_op (Op.mkdir o) op_mask = replicate_mkdir env o op_mask
  replicate_op (Op.rmdir o) op_mask = replicate_rmdir env o op_mask
  replicate_op (Op.dup o) op_mask = replicate_dup env o op_mask
  replicate_op (Op.pipe o) op_mask = replicate_pipe env o
  replicate_op (Op.access o) op_mask = replicate_access env o op_mask
  replicate_op (Op.stat o) op_mask = replicate_stat env o op_mask
  replicate_op (Op.socket o) op_mask = replicate_socket env o
  replicate_op (Op.sendfile o) op_mask = replicate_sendfile env o op_mask

  -- One round of the loop; the result is whether the operation is known.
  unfoldable pub replicate_item : Item → ℕ → M S Bool
  replicate_item it op_mask =
      if is_known it.type op_chars
      then (if cast it.type it.op then (do replicate_op it.op op_mask; ret true) else crash)
      else ret false

  unfoldable pub replicate_loop : List Item → ℕ → M S Bool
  replicate_loop [] op_mask = ret true
  replicate_loop (it ∷ items) op_mask = do
    known ← replicate_item it op_mask
    elim known [ true ↦ replicate_loop items op_mask | false ↦ ret false ]

  -- The world of an early return.
  abbrev pub no_world : S → World S
  no_world state =
      start_world (record { ht_map = hash_table_init hash_table_size; l_igns = [] }) (pos 0) true
        state

  -- From `replicate_init` on, with what `namemap_init` gave.
  unfoldable pub start_replay : Item → List Item → ℕ → S → Bool × Namemap → Run (Bool × World S)
  start_replay it items op_mask state (false, names) = ok (false, no_world state)
  start_replay it items op_mask state (true, names) =
      (init_process (int32 (pid_of it.op)) >>= λ ready.
      if ready then replicate_loop (it ∷ items) op_mask else ret false)
        (start_world names (int32 (pid_of it.op)) (has_flag op_mask bit_fix_missing) state)

  -- The result is whether the call returns 0. At the end of an empty trace `replicate_finish` destroys
  -- tables that `replicate_init` did not make.
  unfoldable pub replicate_trace : FileArg → FileArg → List Item → ℕ → S → Run (Bool × World S)
  replicate_trace ifile mfile [] op_mask state = abort
  replicate_trace ifile mfile (it ∷ items) op_mask state =
      if is_known it.type op_chars
      then Run.◌>>=◌ (namemap_init ifile mfile) (start_replay it items op_mask state)
      else ok (false, no_world state)
