-- ===== src/Simulate.antt =====
-- simulate.c: the files that a replay reads and writes, by name, on top of the simulated file system.
pub mod Offsets
mod Tests
use ioapps.Base.{
  ℕ, suc, ◌+◌, ◌-◌, ◌%◌, ◌^◌, ltb, ◌==◌, if◌then◌else◌, ◌&&◌, ◌||◌, not, Bool, true, false, List,
  [], ◌∷◌, ◌++◌, Option, none, some,
}
use ioapps.Base.Int.{ℤ, pos}
use ioapps.Base.Run.{Run, ok, abort, ◌>>=◌}
use ioapps.Trace
use ioapps.HashTable.{
  Ops, HashTable, ht_hash_str, hash_table_init, hash_table_insert, hash_table_find,
  hash_table_update,
}
use ioapps.Fdmap.{FdMap}
use ioapps.Namemap.{max_string, strncmp_same}
use ioapps.Trie.{Pointer, change_value}
use ioapps.SimFs.{Simfs, Fs, Disk, simfs_init}
use ioapps.SimFs.Calls.{
  Answer, simfs_find, simfs_access, simfs_stat, simfs_mkdir, simfs_rmdir, simfs_unlink, simfs_creat,
}
use ioapps.Replicate.World.{Simulator, int64, has_flag, act_simulate}

-- `rw_op_t`
pub record RwOp : Type 0 where
  pub offset : ℕ
  pub size : ℕ
  pub tv_sec : ℕ
  pub tv_usec : ℕ
  pub dur : ℕ

-- `sim_item_t`
pub record SimItem : Type 0 where
  pub name : List ℕ
  pub created : ℕ
  pub tv_sec : ℕ
  pub tv_usec : ℕ
  pub list : List RwOp

-- The global variables, and the last descriptor that `simulate_get_open_fd` gave out.
pub record Sim : Type 0 where
  pub map_read : HashTable SimItem
  pub map_write : HashTable SimItem
  pub fs : Fs
  pub fd : ℕ

abbrev pub ht_ops_sim : Ops (List ℕ) SimItem
ht_ops_sim = record {
  hash = ht_hash_str;
  compare = λ key item. strncmp_same max_string item.name key;
}

abbrev pub act_check : ℕ
act_check = 16

abbrev pub act_prepare : ℕ
act_prepare = 32

abbrev pub simulate_init : Sim
simulate_init = record {
  map_read = hash_table_init 1019;
  map_write = hash_table_init 1019;
  fs = simfs_init;
  fd = 999;
}

-- A new item for the file of a descriptor.
abbrev pub new_sim_item : FdMap → SimItem
new_sim_item m = record {
  name = m.name;
  created = m.created;
  tv_sec = m.tv_sec;
  tv_usec = m.tv_usec;
  list = [];
}

-- The table in which `simulate_get_sim_item` has the item.
abbrev pub simulate_get_sim_item : FdMap → HashTable SimItem → Run (HashTable SimItem)
simulate_get_sim_item m ht = hash_table_find ht_ops_sim ht m.name >>= λ found. elim found [
  | none ↦ hash_table_insert ht_ops_sim ht m.name (new_sim_item m)
  | some item ↦ ok ht
]

abbrev pub simulate_append_rw : RwOp → SimItem → SimItem
simulate_append_rw op item = record item { list = item.list ++ op ∷ [] }

-- `size` is what was read or written.
abbrev pub rw_op : ℕ → ℕ → Trace.OpInfo → RwOp
rw_op retval offset info = record {
  offset = offset;
  size = retval;
  tv_sec = info.tv_sec;
  tv_usec = info.tv_usec;
  dur = info.dur;
}

abbrev pub noted_in : FdMap → RwOp → HashTable SimItem → Run (HashTable SimItem)
noted_in m op ht = simulate_get_sim_item m ht >>= λ ht.
    hash_table_update ht_ops_sim ht m.name (simulate_append_rw op)

abbrev pub note_read : ℕ → FdMap → RwOp → Sim → Run Sim
note_read mode m op s =
    if has_flag mode act_simulate
    then (noted_in m op s.map_read >>= λ ht. ok (record s { map_read = ht }))
    else ok s

abbrev pub note_write : ℕ → FdMap → RwOp → Sim → Run Sim
note_write mode m op s =
    if has_flag mode act_simulate
    then (noted_in m op s.map_write >>= λ ht. ok (record s { map_write = ht }))
    else ok s

abbrev pub checks : ℕ → Bool
checks mode = has_flag mode act_check || has_flag mode act_prepare

-- `if (size < off) size = off`
abbrev pub at_least : ℕ → ℕ → ℕ
at_least size off = if ltb size off then off else size

abbrev pub grow_virt : ℕ → Simfs → Simfs
grow_virt off v = record v { virt_size = at_least v.virt_size off }

-- The size on the disk grows where the position is not behind it.
abbrev pub grow_phys : ℕ → ℕ → Simfs → Simfs
grow_phys cur_pos off v =
    if v.physical && not (ltb v.phys_size cur_pos)
    then record v { phys_size = at_least v.phys_size off }
    else v

-- With a check, the file's sizes are changed, or the call returns where it is missing.
abbrev pub checked : ℕ → (Simfs → Simfs) → Option Pointer → Sim → Option Sim
checked mode f found s =
    if checks mode
    then elim found [ none ↦ none | some p ↦ some (record s { fs = change_value s.fs p f }) ]
    else some s

abbrev pub on_sim_file : Disk → ℕ → (Simfs → Simfs) → FdMap → (Sim → Run Sim) → Sim → Run Sim
on_sim_file disk mode f m next s = simfs_find disk s.fs m.name >>= λ found.
    elim (checked mode f found s) [ none ↦ ok s | some s' ↦ next s' ]

-- An offset and a length in 64 bits.
abbrev pub end_at : ℕ → ℕ → ℕ
end_at offset size = (offset + size) % 2 ^ 64

unfoldable pub simulate_write : Disk → ℕ → FdMap → Trace.WriteOp → Sim → Run Sim
simulate_write disk mode m op s =
    let off = end_at m.cur_pos op.retval in
    on_sim_file disk mode (λ v. grow_phys m.cur_pos off (grow_virt off v)) m
      (note_write mode m (rw_op op.retval m.cur_pos op.info)) s

unfoldable pub simulate_read : Disk → ℕ → FdMap → Trace.ReadOp → Sim → Run Sim
simulate_read disk mode m op s =
    on_sim_file disk mode (grow_virt (end_at m.cur_pos op.retval)) m
      (note_read mode m (rw_op op.retval m.cur_pos op.info)) s

unfoldable pub simulate_pwrite : Disk → ℕ → FdMap → Trace.PwriteOp → Sim → Run Sim
simulate_pwrite disk mode m op s =
    on_sim_file disk mode (λ v. grow_phys m.cur_pos m.cur_pos (grow_virt m.cur_pos v)) m
      (note_write mode m (rw_op op.retval op.offset op.info)) s

unfoldable pub simulate_pread : Disk → ℕ → FdMap → Trace.PreadOp → Sim → Run Sim
simulate_pread disk mode m op s =
    on_sim_file disk mode (grow_virt m.cur_pos) m
      (note_read mode m (rw_op op.retval op.offset op.info)) s

-- `OFFSET_INVAL`
abbrev pub sent_from : Trace.SendfileOp → FdMap → ℕ
sent_from op m = if op.offset == 2 ^ 64 - 1 then m.cur_pos else op.offset

abbrev pub send_out : Disk → ℕ → FdMap → Trace.SendfileOp → Sim → Run Sim
send_out disk mode m op s =
    on_sim_file disk mode (grow_virt (end_at m.cur_pos op.retval)) m
      (note_write mode m (rw_op op.retval m.cur_pos op.info)) s

abbrev pub send_in : Disk → ℕ → Option FdMap → Trace.SendfileOp → (Sim → Run Sim) → Sim → Run Sim
send_in disk mode none op next s = next s
send_in disk mode (some m) op next s =
    on_sim_file disk mode (grow_virt (end_at (sent_from op m) op.retval)) m
      (λ s. note_read mode m (rw_op op.retval (sent_from op m) op.info) s >>= next) s

-- The name behind `out_fd_item` is read before the item is tested for NULL.
unfoldable pub simulate_sendfile :
    Disk → ℕ → Option FdMap → Option FdMap → Trace.SendfileOp → Sim → Run Sim
simulate_sendfile disk mode in_map none op s = abort
simulate_sendfile disk mode in_map (some out) op s = simfs_find disk s.fs out.name >>= λ found.
    send_in disk mode in_map op (send_out disk mode out op) s

-- An operation on the tree, in a mode that checks.
abbrev pub in_tree : ℕ → (Fs → Run Answer) → Sim → Run Sim
in_tree mode call s =
    if checks mode then (call s.fs >>= λ answer. ok (record s { fs = answer.1 })) else ok s

abbrev pub simulate_access : Disk → ℕ → Trace.AccessOp → Sim → Run Sim
simulate_access disk mode op s = in_tree mode (simfs_access disk op) s

abbrev pub simulate_stat : Disk → ℕ → Trace.StatOp → Sim → Run Sim
simulate_stat disk mode op s = in_tree mode (simfs_stat disk op) s

abbrev pub simulate_mkdir : Disk → ℕ → Trace.MkdirOp → Sim → Run Sim
simulate_mkdir disk mode op s = in_tree mode (simfs_mkdir disk op) s

abbrev pub simulate_rmdir : Disk → ℕ → Trace.RmdirOp → Sim → Run Sim
simulate_rmdir disk mode op s = in_tree mode (simfs_rmdir disk op) s

abbrev pub simulate_unlink : Disk → ℕ → Trace.UnlinkOp → Sim → Run Sim
simulate_unlink disk mode op s = in_tree mode (simfs_unlink disk op) s

abbrev pub simulate_creat : Disk → ℕ → Trace.OpenOp → Sim → Run Sim
simulate_creat disk mode op s = in_tree mode (simfs_creat disk op) s

abbrev pub simulate_get_open_fd : Sim → ℤ × Sim
simulate_get_open_fd s = (pos (suc s.fd), record s { fd = suc s.fd })

-- The loop of `simulate_get_max_offset`.
unfoldable pub max_from : ℕ → List RwOp → ℕ
max_from max_off [] = max_off
max_from max_off (op ∷ list) = max_from (at_least max_off (end_at op.offset op.size)) list

-- The largest end is an `uint64_t`, and the result an `int64_t`.
unfoldable pub simulate_get_max_offset : SimItem → ℤ
simulate_get_max_offset item = int64 (max_from 0 item.list)

-- The simulator that a replay calls, on a disk and with `sim_mode`.
abbrev pub simulator : Disk → ℕ → Simulator Sim
simulator disk mode = record {
  read = simulate_read disk mode;
  write = simulate_write disk mode;
  pread = simulate_pread disk mode;
  pwrite = simulate_pwrite disk mode;
  sendfile = simulate_sendfile disk mode;
  creat = simulate_creat disk mode;
  unlink = simulate_unlink disk mode;
  mkdir = simulate_mkdir disk mode;
  rmdir = simulate_rmdir disk mode;
  access = simulate_access disk mode;
  stat = simulate_stat disk mode;
  get_open_fd = simulate_get_open_fd;
}
