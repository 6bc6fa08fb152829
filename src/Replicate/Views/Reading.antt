-- ===== src/Replicate/Views/Reading.antt =====
-- `replicate_read` of a descriptor that its process has, and an `open` with a `read` behind it.
use ioapps.Base.{
  ℕ, suc, ◌+◌, ◌-◌, ◌%◌, ◌<◌, ◌≤◌, ◌^◌, ◌≡◌, refl, ap, ◌∙◌, lt→ltb, le→ltb_false, true, false,
  arith, Bool-cases, inl, inr, ==_refl, List, [], ◌∷◌, ◌++◌, Option, none, some, length, set,
}
use ioapps.Base.Int.{ℤ, pos, minus_one}
use ioapps.Base.Run.{ok}
use ioapps.Fdmap.{FdMap, FdItem}
use ioapps.Fdmap.Clone.{load}
use ioapps.Namemap.{namemap_get_name}
use ioapps.Replicate.Files.{
  o_ignore, o_directory, supported_type, replicate_get_fd_map, replicate_open,
}
use ioapps.Replicate.Transfer.{advanced, max_data, on_fd, transfer, act, on_file, replicate_read}
use ioapps.Replicate.Views.{
  InView, assigned_in, called, >>=-runs, chosen-runs, other-runs, process_ht-runs, find_fd-runs,
}
use ioapps.Replicate.Views.Opening.{call_of, file_map, opened_world, replicate_open-Views}
use ioapps.Replicate.World.{
  Env, World, Call, read_call, M, ret, ◌>>=◌, crash, lift, sys, load_map, store_map, simulate,
  int64, word64, has_flag, act_simulate, act_replicate,
}
use ioapps.Trace

module _ {S : Type 0} (env : Env S) (w : World S) {procs : ℕ → Option ℕ}
    {fds : ℕ → ℕ → Option FdItem} {uses : ℕ → ℕ} (v : InView w procs fds uses) (op_mask i fd : ℕ)
    (info : Trace.OpInfo) (item : FdItem) (small_pid : info.pid < 2 ^ 31) (small_fd : fd < 2 ^ 31)
    (process : procs info.pid ≡ some (suc i)) (here : fds i fd ≡ some item) where
  -- The item that the process has for the descriptor.
  pub get_fd_map-runs : replicate_get_fd_map env i fd info op_mask w ≡ ok (some item, w)
  unfolding replicate_get_fd_map ret
  get_fd_map-runs = rw (lt→ltb fd (2 ^ 31) small_fd) (
      >>=-runs _ _ (find_fd-runs w v i fd (v.ranged info.pid i process) ∙ ap (λ p. ok (p, w)) here))

  pub on_fd-runs : (body : FdItem → M S (Unit {0})) → on_fd env fd info op_mask body w ≡ body item w
  unfolding on_fd
  on_fd-runs body =
      rw (lt→ltb info.pid (2 ^ 31) small_pid)
        (>>=-runs _ _ (process_ht-runs w v info.pid i process) ∙ >>=-runs _ _ get_fd_map-runs)

  pub on_file-runs :
      (m : FdMap) (body : FdItem → FdMap → M S (Unit {0}))
      → load w.maps item.fd_map ≡ ok m
      → supported_type m.type ≡ true
      → on_fd env fd info op_mask (λ item. on_file env item (body item)) w ≡ body item m w
  unfolding on_file load_map lift
  on_file-runs m body stored type =
      on_fd-runs (λ item. on_file env item (body item))
      ∙ >>=-runs _ _ (ap (λ r. lift r w) stored)
      ∙ chosen-runs _ _ w type

-- A call with `data_buffer` that does not overrun it.
act-calls :
    {S : Type 0} (env : Env S) (op_mask : ℕ) (retval : ℤ) (simulation : M S (Unit {0}))
    (call : Call) (w : World S) (n : ℕ)
    → has_flag op_mask act_simulate ≡ false
    → has_flag op_mask act_replicate ≡ true
    → env.kernel w.calls call ≡ pos n
    → n ≤ max_data
    → act env op_mask retval simulation call w ≡ ok (pos n, called w call)
unfolding act transfer sys ret ◌>>=◌
act-calls env op_mask retval simulation call w n dry mode answers fits =
    rw (dry, mode, answers)
      (other-runs crash (ret (pos n)) (called w call) (le→ltb_false max_data n fits))

-- A read of a descriptor that its process has for a file or a directory.
module _ {S : Type 0} (env : Env S) (w : World S) {procs : ℕ → Option ℕ}
    {fds : ℕ → ℕ → Option FdItem} {uses : ℕ → ℕ} (v : InView w procs fds uses) (op : Trace.ReadOp)
    (op_mask i : ℕ) (item : FdItem) (m : FdMap) (small_pid : op.info.pid < 2 ^ 31)
    (small_fd : op.fd < 2 ^ 31) (process : procs op.info.pid ≡ some (suc i))
    (here : fds i op.fd ≡ some item) (stored : load w.maps item.fd_map ≡ ok m)
    (type : supported_type m.type ≡ true) where
  -- The read ends as its call or its simulation does, and its result is added to the position.
  replicate_read-act :
      (r : ℤ) (u : World S)
      → act env op_mask
          (int64 op.retval)
          (simulate (env.sim.read m op))
          (read_call m.my_fd op.size)
          w
        ≡ ok (r, u)
      → replicate_read env op op_mask w
        ≡ ok (tt, record u { maps = set u.maps item.fd_map (some (advanced m r)) })
  unfolding replicate_read store_map
  replicate_read-act r u acts =
      on_file-runs env w v op_mask i op.fd op.info item small_pid small_fd process here m
        (λ item fd_map.
          act env op_mask (int64 op.retval) (simulate (env.sim.read fd_map op))
            (read_call fd_map.my_fd op.size)
          >>= λ retval. store_map item.fd_map (advanced fd_map retval))
        stored type
      ∙ >>=-runs _ _ acts

  pub replicate_read-calls :
      (n : ℕ)
      → has_flag op_mask act_simulate ≡ false
      → has_flag op_mask act_replicate ≡ true
      → env.kernel w.calls (read_call m.my_fd op.size) ≡ pos n
      → n ≤ max_data
      → replicate_read env op op_mask w
        ≡ ok (
          tt,
          record (called w (read_call m.my_fd op.size)) {
            maps = set w.maps item.fd_map (some (advanced m (pos n)));
          },
        )
  replicate_read-calls n dry mode answers fits =
      replicate_read-act (pos n) (called w (read_call m.my_fd op.size)) (
        act-calls env op_mask (int64 op.retval) (simulate (env.sim.read m op))
          (read_call m.my_fd op.size) w n dry mode answers fits)

  -- In a simulation, a `read` that failed in the trace, of a descriptor that its process has for a file or
  -- a directory: it makes no call and does not reach the simulator, but the position of the map becomes
  -- the one before it, wrapped around at 2^64.
  pub replicate_read-failed :
      has_flag op_mask act_simulate ≡ true
      → int64 op.retval ≡ minus_one
      → replicate_read env op op_mask w
        ≡ ok (
          tt,
          record w {
            maps =
                set w.maps item.fd_map
                  (some (record m { cur_pos = (m.cur_pos + (2 ^ 64 - 1)) % 2 ^ 64 }));
          },
        )
  unfolding act ret ◌>>=◌
  replicate_read-failed dry failed = replicate_read-act minus_one w (rw (dry, failed) refl)

load-last :
    (maps : List (Option FdMap)) (m : FdMap) → load (maps ++ some m ∷ []) (length maps) ≡ ok m
load-last [] m = refl
load-last (none ∷ maps) m = load-last maps m
load-last (some x ∷ maps) m = load-last maps m

load-set_last :
    (maps : List (Option FdMap)) (m m' : FdMap)
    → load (set (maps ++ some m ∷ []) (length maps) (some m')) (length maps) ≡ ok m'
load-set_last [] m m' = refl
load-set_last (none ∷ maps) m m' = load-set_last maps m m'
load-set_last (some x ∷ maps) m m' = load-set_last maps m m'

opened-supported :
    (op : Trace.OpenOp) (name : List ℕ) (k : ℕ) → supported_type (file_map op name k).type ≡ true
opened-supported op name k = elim (Bool-cases (has_flag op.flags o_directory)) [
  | inl e ↦ rw e refl
  | inr e ↦ rw e refl
]

small_position : (n : ℕ) → n ≤ max_data → (0 + word64 (pos n)) % 2 ^ 64 ≡ n
small_position n fits = omega (arith, fits)

assigned_in-same :
    (fds : ℕ → ℕ → Option FdItem) (i fd : ℕ) (p : Option FdItem) → assigned_in fds i fd p i fd ≡ p
assigned_in-same fds i fd p = rw (==_refl i, ==_refl fd) refl

module _ {S : Type 0} (env : Env S) (w : World S) {procs : ℕ → Option ℕ}
    {fds : ℕ → ℕ → Option FdItem} {uses : ℕ → ℕ} (v : InView w procs fds uses) (op : Trace.OpenOp)
    (size retval : ℕ) (op_mask i k n : ℕ) (name : List ℕ) where
  -- The read of the descriptor that the `open` gave.
  abbrev pub read_of : Trace.ReadOp
  read_of = record { fd = op.retval; size = size; retval = retval; info = op.info }

  -- In a replay with ACT_REPLICATE and without ACT_SIMULATE, an `open` of a name that is not ignored, by
  -- a process whose table does not have the descriptor, with a `read` of that descriptor behind it: where
  -- the kernel opens the file as k and reads n bytes, at most MAX_DATA, both go through. The calls are the
  -- `open` under the mapped name and a `read` of k of the recorded size, and the
  -- map of the file, with my_fd k and the mapped name, then has the position n.
  pub replicate_open-read :
      has_flag op_mask act_simulate ≡ false
      → has_flag op_mask act_replicate ≡ true
      → op.info.pid < 2 ^ 31
      → op.retval < 2 ^ 31
      → procs op.info.pid ≡ some (suc i)
      → fds i op.retval ≡ none
      → namemap_get_name env.fnmatch w.names op.name ≡ ok (some name)
      → has_flag op.flags o_ignore ≡ false
      → env.kernel w.calls (call_of op name) ≡ pos k
      → env.kernel (w.calls ++ call_of op name ∷ []) (read_call (pos k) size) ≡ pos n
      → n ≤ max_data
      → (w' : World S) × (w'' : World S) × (replicate_open env op op_mask w ≡ ok (tt, w'))
        × (replicate_read env read_of op_mask w' ≡ ok (tt, w''))
        × (w''.calls ≡ (w.calls ++ call_of op name ∷ []) ++ read_call (pos k) size ∷ [])
        × (load w''.maps (length w.maps) ≡ ok (record (file_map op name k) { cur_pos = n }))
  replicate_open-read dry mode small_pid small_fd process new names kept opens reads fits =
      let m = file_map op name k in
      let (tables, usage_map, run, v') =
        replicate_open-Views env w v op op_mask i name mode small_pid small_fd process new names
          kept k opens in
      let w' = opened_world w op name k tables usage_map in
      let item : FdItem = record { old_fd = pos op.retval; fd_map = length w.maps } in
      (
        w',
        _,
        run,
        replicate_read-calls env w' v' read_of op_mask i item m small_pid small_fd process
            (assigned_in-same fds i op.retval (some item)) (load-last w.maps m)
            (opened-supported op name k) n dry mode reads fits,
        refl,
        load-set_last w.maps m _ ∙ ap (λ p. ok (record m { cur_pos = p })) (small_position n fits),
      )
