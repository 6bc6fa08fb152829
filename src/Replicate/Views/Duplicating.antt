-- ===== src/Replicate/Views/Duplicating.antt =====
-- `replicate_dup` to a descriptor that its process does not have, where missing calls are repaired.
use ioapps.Base.{
  ℕ, suc, ◌<◌, ◌^◌, ◌≡◌, refl, ap, ◌∙◌, lt→ltb, true, false, List, Option, none, some, length,
}
use ioapps.Base.Int.{ℤ, pos, minus_one, ◌==ℤ◌}
use ioapps.Base.Run.{ok}
use ioapps.Fdmap.{FdMap, FdItem, max_parent_ids}
use ioapps.Fdmap.Clone.{load}
use ioapps.Fdmap.Parents.Laws.{Holds}
use ioapps.Fdmap.Parents.Search.{occurs}
use ioapps.Namemap.{namemap_get_name}
use ioapps.Replicate.Files.{
  replicate_get_missing_name, o_rdwr, missing_open, replicate_get_fd_map, replicate_close,
}
use ioapps.Replicate.Special.{dup_close, share_map, replicate_dup}
use ioapps.Replicate.Tables.{find_fd}
use ioapps.Replicate.Views.{
  InView, called, int32-small, >>=-runs, chosen-runs, process_ht-runs, find_fd-runs,
}
use ioapps.Replicate.Views.Opening.{replicate_open-refused}
use ioapps.Replicate.Views.Reading.{get_fd_map-runs}
use ioapps.Replicate.Views.Sharing.{Shares, share_map-runs}
use ioapps.Replicate.World.{Env, World, open_call, ret, gets, has_flag, act_replicate, int32}
use ioapps.Trace

-- A result from 0 on.
int32-not_minus_one : (x : ℕ) → x < 2 ^ 31 → (int32 x ==ℤ minus_one) ≡ false
int32-not_minus_one x small = ap (λ z. z ==ℤ minus_one) (int32-small x small)

module _ {S : Type 0} (env : Env S) (w : World S) {procs : ℕ → Option ℕ}
    {fds : ℕ → ℕ → Option FdItem} {uses : ℕ → ℕ} (v : InView w procs fds uses) (op_mask i : ℕ)
    (name : List ℕ) (mode : has_flag op_mask act_replicate ≡ true)
    (fix : w.global_fix_missing ≡ true) where
  -- The file that is made up for a descriptor, where the kernel does not open it.
  get_fd_map-refused :
      (fd : ℕ) (info : Trace.OpInfo)
      → info.pid < 2 ^ 31
      → fd < 2 ^ 31
      → procs info.pid ≡ some (suc i)
      → fds i fd ≡ none
      → namemap_get_name env.fnmatch w.names (missing_open env fd info).name ≡ ok (some name)
      → env.kernel w.calls (open_call name o_rdwr none) ≡ minus_one
      → replicate_get_fd_map env i fd info op_mask w
        ≡ ok (none, called w (open_call name o_rdwr none))
  unfolding replicate_get_fd_map gets
  get_fd_map-refused fd info small_pid small_fd process new names refused =
      let here = v.ranged info.pid i process in
      let w' : World S = called w (open_call name o_rdwr none) in
      rw (lt→ltb fd (2 ^ 31) small_fd) (
        >>=-runs _ _ (find_fd-runs w v i fd here ∙ ap (λ p. ok (p, w)) new)
        ∙ >>=-runs _ _ refl
        ∙ chosen-runs _ _ w fix
        ∙ >>=-runs _ _ (
            replicate_open-refused env w v (missing_open env fd info) op_mask i name mode small_pid
              small_fd process new names refl refused)
        ∙ ap (λ z. find_fd i z w') (int32-small fd small_fd)
        ∙ find_fd-runs w' v i fd here
        ∙ ap (λ p. ok (p, w')) new)

  close-refused :
      (op : Trace.CloseOp)
      → op.info.pid < 2 ^ 31
      → op.fd < 2 ^ 31
      → procs op.info.pid ≡ some (suc i)
      → fds i op.fd ≡ none
      → namemap_get_name env.fnmatch w.names (missing_open env op.fd op.info).name ≡ ok (some name)
      → env.kernel w.calls (open_call name o_rdwr none) ≡ minus_one
      → replicate_close env op op_mask w ≡ ok (tt, called w (open_call name o_rdwr none))
  unfolding replicate_close ret
  close-refused op small_pid small_fd process new names refused =
      rw (lt→ltb op.info.pid (2 ^ 31) small_pid) (
        >>=-runs _ _ (process_ht-runs w v op.info.pid i process)
        ∙ >>=-runs _ _
            (get_fd_map-refused op.fd op.info small_pid small_fd process new names refused))

  replicate_dup-refused :
      (op : Trace.DupOp) (item : FdItem)
      → op.info.pid < 2 ^ 31
      → op.old_fd < 2 ^ 31
      → op.retval < 2 ^ 31
      → procs op.info.pid ≡ some (suc i)
      → fds i op.old_fd ≡ some item
      → fds i op.retval ≡ none
      → namemap_get_name env.fnmatch w.names
          (replicate_get_missing_name (int32 op.info.pid) (int32 op.retval))
        ≡ ok (some name)
      → env.kernel w.calls (open_call name o_rdwr none) ≡ minus_one
      → replicate_dup env op op_mask w
        ≡ share_map env i op item.fd_map (called w (open_call name o_rdwr none))
  unfolding replicate_dup
  replicate_dup-refused op item small_pid small_old small_new process old new names refused =
      let here = v.ranged op.info.pid i process in
      rw (int32-not_minus_one op.retval small_new, lt→ltb op.info.pid (2 ^ 31) small_pid)
        (>>=-runs _ _ (process_ht-runs w v op.info.pid i process)
          ∙ >>=-runs _ _ (
              get_fd_map-runs env w v op_mask i op.old_fd op.info item small_pid small_old process
                old)
          ∙ >>=-runs _ _ (
              ap (λ fd. find_fd i fd w) (int32-small op.old_fd small_old)
              ∙ find_fd-runs w v i op.old_fd here
              ∙ ap (λ p. ok (p, w)) old)
          ∙ >>=-runs _ _
              (close-refused (dup_close env op) small_pid small_new process new names refused))

  -- In a replay with ACT_REPLICATE that repairs traces, a `dup` of a descriptor that the process has to one
  -- that it does not have: `replicate_dup` first opens a made-up file UNKNOWN_FILE_* for the new
  -- descriptor, under its mapped name. Where the kernel refuses that, it goes through with this `open` as
  -- its only call: the tables stand for what they did with the new descriptor assigned to the map of the
  -- old one and one more use of that map's my_fd, and the map has the new descriptor as a further parent
  -- and is else the same. Here the map has room for a parent, and the new descriptor is not one of its
  -- parents yet.
  pub replicate_dup-opens :
      (op : Trace.DupOp) (item : FdItem) (m : FdMap) (live : List ℤ) (k : ℕ)
      → op.info.pid < 2 ^ 31
      → op.old_fd < 2 ^ 31
      → op.retval < 2 ^ 31
      → procs op.info.pid ≡ some (suc i)
      → fds i op.old_fd ≡ some item
      → fds i op.retval ≡ none
      → namemap_get_name env.fnmatch w.names
          (replicate_get_missing_name (int32 op.info.pid) (int32 op.retval))
        ≡ ok (some name)
      → env.kernel w.calls (open_call name o_rdwr none) ≡ minus_one
      → load w.maps item.fd_map ≡ ok m
      → m.my_fd ≡ pos k
      → Holds m live
      → occurs (pos op.retval) live ≡ 0
      → length live < max_parent_ids
      → Shares
          (called w (open_call name o_rdwr none))
          procs
          fds
          uses
          i
          op.retval
          item.fd_map
          k
          m
          live
          (replicate_dup env op op_mask w)
  replicate_dup-opens op item m live k small_pid small_old small_new process old new names refused
        stored mine holds first room =
      let u : World S = called w (open_call name o_rdwr none) in
      let (m', tables, usage_map, run, views, same, parents) =
        share_map-runs env u v i item.fd_map k op item m live (v.ranged op.info.pid i process)
          small_old small_new old new stored mine holds first room in
      (
        m',
        tables,
        usage_map,
        replicate_dup-refused op item small_pid small_old small_new process old new names refused
            ∙ run,
        views,
        same,
        parents,
      )
