-- ===== src/Replicate/Views/Cloning.antt =====
-- `replicate_clone` with CLONE_FILES, and what the two processes see of each other.
use ioapps.Base.{
  ℕ, suc, ◌<◌, ◌^◌, ◌≡◌, sym, ap, ◌∙◌, ◌==◌, if◌then◌else◌, true, Bool-cases, inl, inr, Option,
  none, some, length,
}
use ioapps.Base.Int.{pos}
use ioapps.Base.Run.{ok}
use ioapps.Fdmap.{FdItem, ProcessHashItem}
use ioapps.Fdmap.Processes.Lookup.{assigned, get_process_ht-IsProcesses, insert_process-IsProcesses}
use ioapps.HashTable.{HashTable}
use ioapps.Replicate.Tables.{
  clone_files, place_of, get_ht, insert_process, clone_process, replicate_clone,
}
use ioapps.Replicate.Views.{InView, int32-small, >>=-runs, chosen-runs, get_ht-runs}
use ioapps.Replicate.World.{World, after, ret, ◌>>=◌, lift, gets, set_processes, int32, has_flag}
use ioapps.Trace

module _ {S : Type 0} (w : World S) {procs : ℕ → Option ℕ} {fds : ℕ → ℕ → Option FdItem}
    {uses : ℕ → ℕ} (v : InView w procs fds uses) where
  get_ht-missing : (pid : ℕ) → procs pid ≡ none → get_ht (pos pid) w ≡ ok (none, w)
  unfolding get_ht gets lift ret ◌>>=◌
  get_ht-missing pid new =
      ap (λ r. after (λ found. ret (place_of found)) (lift r w))
        (get_process_ht-IsProcesses w.fd_mappings procs pid v.processes ∙ ap ok new)

  ranged-assigned :
      (child parent i : ℕ)
      → procs parent ≡ some (suc i)
      → (n j : ℕ) → assigned procs child (some (suc i)) n ≡ some (suc j)
      → j < length w.tables
  ranged-assigned child parent i own n j e = elim (Bool-cases (child == n)) [
    | inl q ↦ v.ranged parent j (own ∙ sym (ap (λ b. if b then some (suc i) else procs n) q) ∙ e)
    | inr q ↦ v.ranged n j (sym (ap (λ b. if b then some (suc i) else procs n) q) ∙ e)
  ]

  insert_process-runs :
      (child parent i : ℕ)
      → procs parent ≡ some (suc i)
      → procs child ≡ none
      → (t : HashTable ProcessHashItem) × (insert_process (pos child) (suc i) w
          ≡ ok (tt, record w { fd_mappings = t }))
        × InView (record w { fd_mappings = t }) (assigned procs child (some (suc i))) fds uses
  unfolding insert_process gets lift set_processes ◌>>=◌
  insert_process-runs child parent i own new =
      let (t, run, h) =
        insert_process-IsProcesses w.fd_mappings procs child (suc i) v.processes new in
      (
        t,
        ap (λ r. after set_processes (lift r w)) run,
        record {
          processes = h;
          opened = v.opened;
          ranged = ranged-assigned child parent i own;
          used = v.used;
        },
      )

  clone_process-runs :
      (child parent i mode : ℕ)
      → has_flag mode clone_files ≡ true
      → procs parent ≡ some (suc i)
      → procs child ≡ none
      → clone_process (pos child) (pos parent) mode w ≡ insert_process (pos child) (suc i) w
  unfolding clone_process ret
  clone_process-runs child parent i mode shared own new =
      >>=-runs _ _ (get_ht-missing child new)
      ∙ >>=-runs _ _ (get_ht-runs w v parent i own)
      ∙ >>=-runs _ _ (chosen-runs _ _ w shared)

  -- A `clone` with CLONE_FILES of a process with a table, for a child that has none: `replicate_clone` goes
  -- through, changes no map and makes no call, and the child then has the table of its parent itself, so
  -- that each sees what the other opens and closes; all else the tables say is as before.
  pub replicate_clone-Views :
      (op : Trace.CloneOp) (i : ℕ)
      → has_flag op.mode clone_files ≡ true
      → op.retval < 2 ^ 31
      → op.info.pid < 2 ^ 31
      → procs op.info.pid ≡ some (suc i)
      → procs op.retval ≡ none
      → (t : HashTable ProcessHashItem) × (replicate_clone op w
          ≡ ok (tt, record w { fd_mappings = t }))
        × InView (record w { fd_mappings = t }) (assigned procs op.retval (some (suc i))) fds uses
  unfolding replicate_clone
  replicate_clone-Views op i shared small_child small_parent own new =
      let (t, run, v') = insert_process-runs op.retval op.info.pid i own new in
      (
        t,
        ap (λ child. clone_process child (int32 op.info.pid) op.mode w)
              (int32-small op.retval small_child)
            ∙ ap (λ parent. clone_process (pos op.retval) parent op.mode w)
                (int32-small op.info.pid small_parent)
            ∙ clone_process-runs op.retval op.info.pid i op.mode shared own new
            ∙ run,
        v',
      )
