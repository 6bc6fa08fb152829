-- ===== src/Replicate/Files.antt =====
-- Opening and closing: `replicate_open`, `replicate_close`, and the repair of a trace in which an
-- `open` is missing.
use ioapps.Base.{
  ℕ, zero, suc, ◌+◌, ◌-◌, ◌/◌, ◌%◌, ◌^◌, ltb, ◌==◌, if◌then◌else◌, not, ◌&&◌, ◌||◌, Bool, List, [],
  ◌∷◌, ◌++◌, Option, none, some, length, take, replicate,
}
use ioapps.Base.Int.{ℤ, pos, negsuc, minus_one, ◌==ℤ◌}
use ioapps.Base.Run.{ok}
use ioapps.Fdmap.{FdMap, FdItem}
use ioapps.Fdmap.Parents.{new_parents, insert_parent_fd, delete_parent_fd}
use ioapps.Fdmap.Usage.{decrease_fd_usage}
use ioapps.Namemap.{namemap_get_name}
use ioapps.Replicate.Tables.{process_ht, find_fd, insert_fd, remove_fd, increase_usage}
use ioapps.Replicate.World.{
  Env, open_call, close_call, M, ret, ◌>>=◌, ◌>>◌, skip, lift, gets, sys, simulate, load_map,
  store_map, free_map, new_map, set_usage, int32, has_flag, act_simulate, act_replicate,
}
use ioapps.Trace

-- The file types of sys/stat.h, and those of fdmap.h and replicate.h.
abbrev pub s_ififo : ℕ
s_ififo = 0x1000

abbrev pub s_ifdir : ℕ
s_ifdir = 0x4000

abbrev pub s_ifreg : ℕ
s_ifreg = 0x8000

abbrev pub s_ifsock : ℕ
s_ifsock = 0xc000

abbrev pub s_ifignore : ℕ
s_ifignore = 2 ^ 30 - 1

abbrev pub ft_spec : ℕ
ft_spec = 2 ^ 32 - 1

-- The flags of fcntl.h, and the two values of the program's own.
abbrev pub o_rdwr : ℕ
o_rdwr = 2

abbrev pub o_creat : ℕ
o_creat = 64

abbrev pub o_directory : ℕ
o_directory = 65536

abbrev pub o_ignore : ℕ
o_ignore = 2 ^ 31

abbrev pub mode_undef : ℕ
mode_undef = 2 ^ 32 - 666

abbrev pub supported_type : ℕ → Bool
supported_type type = type == s_ifdir || type == s_ifreg

-- The map of `new_fd_item`, with zero in the fields that it does not set.
abbrev pub blank_map : FdMap
blank_map = record {
  my_fd = pos 0;
  type = 0;
  cur_pos = 0;
  tv_sec = 0;
  tv_usec = 0;
  name = [];
  created = 0;
  parent_fds = [];
  last_par_index = pos 0;
}

unfoldable pub new_fd_map : FdMap
new_fd_map = new_parents blank_map

-- The decimal digits of a number with at most so many.
unfoldable pub digits : ℕ → ℕ → List ℕ
digits zero n = []
digits (suc k) n =
    let front = digits k (n / 10) in
    let digit = (b'0' + n % 10) ∷ [] in if ltb n 10 then digit else front ++ digit

abbrev pub pad : ℕ → List ℕ → List ℕ
pad n text = replicate (n - length text) b'0' ++ text

-- `%06d`
unfoldable pub six_digits : ℤ → List ℕ
six_digits (pos n) = pad 6 (digits 10 n)
six_digits (negsuc n) = b'-' ∷ pad 5 (digits 10 (suc n))

unfoldable pub replicate_get_missing_name : ℤ → ℤ → List ℕ
replicate_get_missing_name pid fd =
    b'U'
    ∷ b'N'
    ∷ b'K'
    ∷ b'N'
    ∷ b'O'
    ∷ b'W'
    ∷ b'N'
    ∷ b'_'
    ∷ b'F'
    ∷ b'I'
    ∷ b'L'
    ∷ b'E'
    ∷ b'_'
    ∷ (six_digits pid ++ b'_' ∷ six_digits fd)

-- The flags and the name that are used, from what `namemap_get_name` answers.
abbrev pub named : ℕ → List ℕ → Option (List ℕ) → ℕ × List ℕ
named flags name none = (if has_flag flags o_ignore then flags else flags + o_ignore, name)
named flags name (some other) = (flags, other)

abbrev pub type_of : ℕ → ℕ
type_of flags =
    if has_flag flags o_ignore
    then s_ifignore
    else if has_flag flags o_directory
    then s_ifdir
    else s_ifreg

-- The map of a descriptor that was opened as `my_fd`.
abbrev pub opened_map : Trace.OpenOp → ℕ → List ℕ → ℤ → FdMap
opened_map op flags name my_fd = record new_fd_map {
  my_fd = my_fd;
  type = type_of flags;
  cur_pos = 0;
  tv_sec = op.info.tv_sec;
  tv_usec = op.info.tv_usec;
  name = take 511 name;
  created = if has_flag flags o_creat then o_creat else 0;
}

module _ {S : Type 0} (env : Env S) where
  unfoldable pub get_name : List ℕ → M S (Option (List ℕ))
  get_name name = do names ← gets (λ w. w.names); lift (namemap_get_name env.fnmatch names name)

  -- A new descriptor of a process: its map with the descriptor as parent, its item, and its usage.
  unfoldable pub add_fd : ℕ → ℤ → FdMap → ℤ → M S (Unit {0})
  add_fd i fd fd_map used = do
    fd_map ← lift (insert_parent_fd fd_map fd)
    p ← new_map fd_map
    insert_fd i fd (record { old_fd = fd; fd_map = p })
    increase_usage used

  unfoldable pub get_open_fd : M S ℤ
  get_open_fd w =
      let got = env.sim.get_open_fd w.sim_state in ok (got.0, record w { sim_state = got.1 })

  -- The call that opens the file, or what stands for it.
  unfoldable pub open_file : Trace.OpenOp → ℕ → List ℕ → ℕ → M S ℤ
  open_file op flags name op_mask =
      if has_flag op_mask act_replicate && not (has_flag flags o_ignore)
      then sys env (open_call name flags (if op.mode == mode_undef then none else some op.mode))
      else (do
        (if has_flag op_mask act_simulate && not (has_flag flags o_ignore)
            then simulate (env.sim.creat (record op { name = name }))
            else skip)
        get_open_fd)

  -- An `open` that failed in the trace: it is called, with flags 0, and what it may open is closed.
  unfoldable pub open_failed : Trace.OpenOp → ℕ → M S (Unit {0})
  open_failed op op_mask = do
    name ← get_name op.name
    elim name [
      | none ↦ skip
      | some name ↦
          if has_flag op_mask act_replicate
          then (do
            retval ← sys env (open_call name 0 none)
            if retval ==ℤ minus_one then skip else (do closed ← sys env (close_call retval); skip))
          else if has_flag op_mask act_simulate
          then simulate (env.sim.creat (record op { name = name }))
          else skip
    ]

  -- An `open` that succeeded, in the table of its process.
  unfoldable pub open_in : ℕ → Trace.OpenOp → ℕ → M S (Unit {0})
  open_in i op op_mask = do
    answer ← get_name op.name
    let used = named op.flags op.name answer
    found ← find_fd i (int32 op.retval)
    elim found [
      | some item ↦ skip
      | none ↦ do
        retval ← open_file op used.0 used.1 op_mask
        if retval ==ℤ minus_one
            then skip
            else add_fd i (int32 op.retval) (opened_map op used.0 used.1 retval) retval
    ]

  unfoldable pub replicate_open : Trace.OpenOp → ℕ → M S (Unit {0})
  replicate_open op op_mask = if int32 op.retval ==ℤ minus_one then open_failed op op_mask else (do
    ht ← process_ht (int32 op.info.pid)
    elim ht [ none ↦ skip | some i ↦ open_in i op op_mask ])

  -- The `open` that is made up for a descriptor which the trace never opened. Its mode is whatever the
  -- memory held; without O_CREAT the kernel does not look at it, so it is taken to be missing.
  abbrev pub missing_open : ℕ → Trace.OpInfo → Trace.OpenOp
  missing_open fd info = record {
    name = replicate_get_missing_name (int32 info.pid) (int32 fd);
    flags = o_rdwr;
    mode = mode_undef;
    retval = fd;
    info = info;
  }

  unfoldable pub replicate_get_fd_map : ℕ → ℕ → Trace.OpInfo → ℕ → M S (Option FdItem)
  replicate_get_fd_map i fd info op_mask = do
    found ← find_fd i (int32 fd)
    elim found [
      | some item ↦ ret (some item)
      | none ↦ do
        fix ← gets (λ w. w.global_fix_missing)
        if fix
            then (do replicate_open (missing_open fd info) op_mask; find_fd i (int32 fd))
            else ret none
    ]

  -- Whether a descriptor's last user is gone, and the file is to be closed.
  unfoldable pub decrease_usage : ℤ → M S Bool
  decrease_usage my_fd = do
    t ← gets (λ w. w.usage_map)
    got ← lift (decrease_fd_usage t my_fd)
    set_usage got.1
    ret got.0

  unfoldable pub close_file : FdMap → ℕ → M S ℤ
  close_file fd_map op_mask = if not (supported_type fd_map.type) then ret (pos 0) else (do
    last ← decrease_usage fd_map.my_fd
    if last && has_flag op_mask act_replicate
        then sys env (close_call fd_map.my_fd)
        else ret (pos 0))

  -- The descriptor leaves the table, and the map if it was the last of its descriptors.
  unfoldable pub forget_fd : ℕ → ℤ → ℕ → M S (Unit {0})
  forget_fd i fd p = do
    fd_map ← load_map p
    got ← lift (delete_parent_fd fd_map fd)
    store_map p got.1
    remove_fd i fd
    if got.0 then free_map p else skip

  unfoldable pub close_in : ℕ → ℤ → FdItem → ℕ → M S (Unit {0})
  close_in i fd item op_mask = do
    fd_map ← load_map item.fd_map
    retval ← close_file fd_map op_mask
    if retval ==ℤ minus_one then skip else forget_fd i fd item.fd_map

  unfoldable pub replicate_close : Trace.CloseOp → ℕ → M S (Unit {0})
  replicate_close op op_mask = do
    ht ← process_ht (int32 op.info.pid)
    elim ht [
      | none ↦ skip
      | some i ↦ do
        found ← replicate_get_fd_map i op.fd op.info op_mask
        elim found [ none ↦ skip | some item ↦ close_in i (int32 op.fd) item op_mask ]
    ]
