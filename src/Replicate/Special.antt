-- ===== src/Replicate/Special.antt =====
-- Descriptors that are no files, and those that share a map: `replicate_pipe`, `replicate_socket` and
-- `replicate_dup`.
use ioapps.Base.{ℕ, if◌then◌else◌, Bool, true, false, Option, none, some}
use ioapps.Base.Int.{ℤ, pos, minus_one, ◌==ℤ◌, ◌-ℤ◌}
use ioapps.Base.Run.{ok}
use ioapps.Fdmap.{FdItem}
use ioapps.Fdmap.Parents.{insert_parent_fd}
use ioapps.Replicate.Files.{
  new_fd_map, s_ififo, s_ifsock, add_fd, replicate_get_fd_map, replicate_close,
}
use ioapps.Replicate.Tables.{process_ht, find_fd, insert_fd, increase_usage}
use ioapps.Replicate.World.{Env, M, ret, ◌>>=◌, ◌>>◌, skip, crash, lift, load_map, store_map, int32}
use ioapps.Trace

abbrev pub is_none : Option FdItem → Bool
is_none none = true
is_none (some item) = false

-- `get_pipe_fd` and `get_socket_fd`, whose counters fall.
unfoldable pub get_pipe_fd : {S : Type 0} → M S ℤ
get_pipe_fd w = let fd = w.pipe_fd -ℤ pos 1 in ok (fd, record w { pipe_fd = fd })

unfoldable pub get_socket_fd : {S : Type 0} → M S ℤ
get_socket_fd w = let fd = w.socket_fd -ℤ pos 1 in ok (fd, record w { socket_fd = fd })

module _ {S : Type 0} (env : Env S) where
  -- One end of a pipe; the usage is that of the descriptor in the trace.
  unfoldable pub add_pipe : ℕ → ℤ → M S (Unit {0})
  add_pipe i fd = do
    my_fd ← get_pipe_fd
    add_fd env i fd (record new_fd_map { my_fd = my_fd; type = s_ififo }) fd

  unfoldable pub replicate_pipe : Trace.PipeOp → M S (Unit {0})
  replicate_pipe op = if int32 op.retval ==ℤ minus_one then skip else (do
    ht ← process_ht (int32 op.info.pid)
    elim ht [
      | none ↦ skip
      | some i ↦ do
        first ← find_fd i (int32 op.fd1)
        second ← (if is_none first then find_fd i (int32 op.fd2) else ret first)
        if is_none second then (do add_pipe i (int32 op.fd1); add_pipe i (int32 op.fd2)) else skip
    ])

  unfoldable pub replicate_socket : Trace.SocketOp → M S (Unit {0})
  replicate_socket op = if int32 op.retval ==ℤ minus_one then skip else (do
    ht ← process_ht (int32 op.info.pid)
    elim ht [
      | none ↦ skip
      | some i ↦ do
        found ← find_fd i (int32 op.retval)
        elim found [
          | some item ↦ skip
          | none ↦ do
            my_fd ← get_socket_fd
            add_fd env i (int32 op.retval)
                (record new_fd_map {
                  my_fd = my_fd;
                  type = s_ifsock;
                  tv_sec = op.info.tv_sec;
                  tv_usec = op.info.tv_usec;
                })
                my_fd
        ]
    ])

  -- The `close` of the new descriptor that `replicate_dup` makes up. Its start is not set.
  abbrev pub dup_close : Trace.DupOp → Trace.CloseOp
  dup_close op = record { fd = op.retval; retval = 0; info = op.info }

  -- The new descriptor gets the map at `p`, which is read again through the item of the old one: the
  -- close may have freed that item.
  unfoldable pub share_map : ℕ → Trace.DupOp → ℕ → M S (Unit {0})
  share_map i op p = do
    still ← find_fd i (int32 op.old_fd)
    if is_none still then crash else skip
    fd_map ← load_map p
    fd_map ← lift (insert_parent_fd fd_map (int32 op.retval))
    store_map p fd_map
    insert_fd i (int32 op.retval) (record { old_fd = int32 op.retval; fd_map = p })
    increase_usage fd_map.my_fd

  -- The test before the close looks for the old descriptor, not for the new one.
  unfoldable pub replicate_dup : Trace.DupOp → ℕ → M S (Unit {0})
  replicate_dup op op_mask = if int32 op.retval ==ℤ minus_one then skip else (do
    ht ← process_ht (int32 op.info.pid)
    elim ht [
      | none ↦ skip
      | some i ↦ do
        found ← replicate_get_fd_map env i op.old_fd op.info op_mask
        elim found [
          | none ↦ skip
          | some item ↦ do
            opened ← find_fd i (int32 op.old_fd)
            if is_none opened then skip else replicate_close env (dup_close op) op_mask
            share_map i op item.fd_map
        ]
    ])
