-- ===== src/Replicate/Transfer.antt =====
-- Reading, writing and seeking: `replicate_read`, `replicate_write`, `replicate_pread`,
-- `replicate_pwrite`, `replicate_lseek`, `replicate_llseek` and `replicate_sendfile`.
-- The branches are those of a 64-bit machine, without `SYS__llseek`, and of a source that does not
-- include linux/version.h, so that `LINUX_VERSION_CODE` is 0.
use ioapps.Base.{
  ℕ, ◌+◌, ◌-◌, ◌*◌, ◌%◌, ◌^◌, ltb, ◌==◌, if◌then◌else◌, not, ◌&&◌, Bool, false, none, some,
}
use ioapps.Base.Int.{ℤ, pos, negsuc, minus_one, ◌==ℤ◌}
use ioapps.Fdmap.{FdMap, FdItem}
use ioapps.Replicate.Files.{supported_type, replicate_get_fd_map}
use ioapps.Replicate.Tables.{process_ht}
use ioapps.Replicate.World.{
  Env, Call, read_call, write_call, pread_call, pwrite_call, lseek_call, sendfile_call, M, ret,
  ◌>>=◌, ◌>>◌, skip, crash, sys, simulate, load_map, store_map, int32, int64, word64, has_flag,
  act_simulate, act_replicate,
}
use ioapps.Trace

-- `MAX_DATA`, the size of `data_buffer`.
abbrev pub max_data : ℕ
max_data = 1024 * 1024 * 64

abbrev pub overruns : ℤ → Bool
overruns (pos n) = ltb max_data n
overruns (negsuc n) = false

-- `cur_pos + n` as an `uint64_t`.
abbrev pub advanced : FdMap → ℤ → FdMap
advanced m n = record m { cur_pos = (m.cur_pos + word64 n) % 2 ^ 64 }

module _ {S : Type 0} (env : Env S) where
  -- What the operations on one descriptor begin with.
  unfoldable pub on_fd : ℕ → Trace.OpInfo → ℕ → (FdItem → M S (Unit {0})) → M S (Unit {0})
  on_fd fd info op_mask body = do
    ht ← process_ht (int32 info.pid)
    elim ht [
      | none ↦ skip
      | some i ↦ do
        found ← replicate_get_fd_map env i fd info op_mask
        elim found [ none ↦ skip | some item ↦ body item ]
    ]

  -- A call with `data_buffer`: the allocated `data` is not used, whatever the size.
  unfoldable pub transfer : Call → M S ℤ
  transfer call = do retval ← sys env call; if overruns retval then crash else ret retval

  -- The call, or its simulation, and its result; a mask with neither fails an assertion.
  unfoldable pub act : ℕ → ℤ → M S (Unit {0}) → Call → M S ℤ
  act op_mask retval simulation call =
      if has_flag op_mask act_simulate
      then (do (if retval ==ℤ minus_one then skip else simulation); ret retval)
      else if has_flag op_mask act_replicate
      then transfer call
      else crash

  -- The operation on a map of a supported type.
  unfoldable pub on_file : FdItem → (FdMap → M S (Unit {0})) → M S (Unit {0})
  on_file item body = do
    fd_map ← load_map item.fd_map
    if supported_type fd_map.type then body fd_map else skip

  unfoldable pub replicate_read : Trace.ReadOp → ℕ → M S (Unit {0})
  replicate_read op op_mask = on_fd op.fd op.info op_mask λ item. on_file item λ fd_map. do
    retval ←
        act op_mask (int64 op.retval) (simulate (env.sim.read fd_map op))
          (read_call fd_map.my_fd op.size)
    store_map item.fd_map (advanced fd_map retval)

  unfoldable pub replicate_write : Trace.WriteOp → ℕ → M S (Unit {0})
  replicate_write op op_mask = on_fd op.fd op.info op_mask λ item. on_file item λ fd_map. do
    retval ←
        act op_mask (int64 op.retval) (simulate (env.sim.write fd_map op))
          (write_call fd_map.my_fd op.size)
    store_map item.fd_map (advanced fd_map retval)

  unfoldable pub replicate_pread : Trace.PreadOp → ℕ → M S (Unit {0})
  replicate_pread op op_mask = on_fd op.fd op.info op_mask λ item. on_file item λ fd_map. do
    retval ←
        act op_mask (int64 op.retval) (simulate (env.sim.pread fd_map op))
          (pread_call fd_map.my_fd op.size op.offset)
    skip

  unfoldable pub replicate_pwrite : Trace.PwriteOp → ℕ → M S (Unit {0})
  replicate_pwrite op op_mask = on_fd op.fd op.info op_mask λ item. on_file item λ fd_map. do
    retval ←
        act op_mask (int64 op.retval) (simulate (env.sim.pwrite fd_map op))
          (pwrite_call fd_map.my_fd op.size op.offset)
    skip

  -- The position of the map, in a simulation, unless the call failed where it had not in the trace.
  unfoldable pub seek_to : ℕ → ℤ → ℤ → ℕ → FdMap → ℕ → M S (Unit {0})
  seek_to op_mask retval expected result fd_map p =
      if (retval ==ℤ minus_one) && not (expected ==ℤ minus_one)
      then skip
      else if has_flag op_mask act_simulate
      then store_map p (record fd_map { cur_pos = result })
      else skip

  unfoldable pub replicate_lseek : Trace.LseekOp → ℕ → M S (Unit {0})
  replicate_lseek op op_mask = on_fd op.fd op.info op_mask λ item. on_file item λ fd_map. do
    retval ←
        (if has_flag op_mask act_replicate
          then sys env (lseek_call fd_map.my_fd op.offset op.flag)
          else ret (int64 op.retval))
    seek_to op_mask retval (int64 op.retval) (word64 retval) fd_map item.fd_map

  unfoldable pub replicate_llseek : Trace.LlseekOp → ℕ → M S (Unit {0})
  replicate_llseek op op_mask = on_fd op.fd op.info op_mask λ item. on_file item λ fd_map. do
    retval ←
        (if has_flag op_mask act_replicate
          then sys env (lseek_call fd_map.my_fd op.offset op.flag)
          else ret (int64 op.retval))
    seek_to op_mask retval (int64 op.retval) op.f_offset fd_map item.fd_map

  -- `OFFSET_INVAL`: the call had NULL for the offset.
  abbrev pub no_offset : Trace.SendfileOp → Bool
  no_offset op = op.offset == 2 ^ 64 - 1

  -- The maps of the two descriptors may be one.
  unfoldable pub advance : ℕ → ℤ → M S (Unit {0})
  advance p n = do m ← load_map p; store_map p (advanced m n)

  -- The call for each combination of ends that are files, or its simulation.
  unfoldable pub send : Trace.SendfileOp → ℕ → FdMap → FdMap → M S ℤ
  send op op_mask out_map in_map =
      let in_file = supported_type in_map.type in
      let out_file = supported_type out_map.type in
      if has_flag op_mask act_replicate
      then sys env (
          if in_file && out_file
          then sendfile_call out_map.my_fd in_map.my_fd op.offset op.size
          else if out_file
          then (if no_offset op
              then write_call out_map.my_fd op.size
              else pwrite_call out_map.my_fd op.size op.offset)
          else if no_offset op
          then read_call in_map.my_fd op.size
          else pread_call in_map.my_fd op.size op.offset)
      else if has_flag op_mask act_simulate
      then (do
        (if int64 op.retval ==ℤ minus_one
            then skip
            else simulate (
                env.sim.sendfile (if in_file then some in_map else none)
                  (if out_file then some out_map else none) op))
        ret (int64 op.retval))
      else ret (pos 0)

  unfoldable pub send_between : Trace.SendfileOp → ℕ → FdItem → FdItem → M S (Unit {0})
  send_between op op_mask out_item in_item = do
    out_map ← load_map out_item.fd_map
    in_map ← load_map in_item.fd_map
    if not (supported_type in_map.type) && not (supported_type out_map.type) then skip else (do
      retval ← send op op_mask out_map in_map
      if (retval ==ℤ minus_one) && not (retval ==ℤ int64 op.retval) then skip else (do
        (if no_offset op
            then advance in_item.fd_map
                (if retval ==ℤ int64 op.retval then int64 op.size else retval)
            else skip)
        advance out_item.fd_map retval))

  unfoldable pub replicate_sendfile : Trace.SendfileOp → ℕ → M S (Unit {0})
  replicate_sendfile op op_mask = do
    ht ← process_ht (int32 op.info.pid)
    elim ht [
      | none ↦ skip
      | some i ↦ do
        out_found ← replicate_get_fd_map env i op.out_fd op.info op_mask
        elim out_found [
          | none ↦ skip
          | some out_item ↦ do
            in_found ← replicate_get_fd_map env i op.in_fd op.info op_mask
            elim in_found [ none ↦ skip | some in_item ↦ send_between op op_mask out_item in_item ]
        ]
    ]
