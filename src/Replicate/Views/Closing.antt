-- ===== src/Replicate/Views/Closing.antt =====
-- `replicate_close` of a descriptor that its process has.
use ioapps.Base.{
  ℕ, zero, suc, ◌+◌, ◌<◌, ◌^◌, ◌≡◌, refl, ap, ◌∙◌, lt→ltb, ◌==◌, if◌then◌else◌, not, ◌&&◌, Bool,
  true, false, List, [], ◌∷◌, ◌++◌, Option, none, some, length, set,
}
use ioapps.Base.Int.{ℤ, pos, ◌==ℤ◌}
use ioapps.Base.Run.{ok}
use ioapps.Fdmap.{FdMap, FdItem, FdUsage}
use ioapps.Fdmap.Clone.{load}
use ioapps.Fdmap.Parents.Laws.{Holds, delete_parent_fd-Holds}
use ioapps.Fdmap.Parents.Search.{occurs}
use ioapps.Fdmap.Usage.Counts.{updated, decrease_fd_usage-IsCounting}
use ioapps.HashTable.{HashTable}
use ioapps.Replicate.Files.{
  supported_type, decrease_usage, close_file, forget_fd, close_in, replicate_close,
}
use ioapps.Replicate.Views.{
  InView, assigned_in, called, int32-small, >>=-runs, other-runs, process_ht-runs, remove_fd-runs,
}
use ioapps.Replicate.Views.Reading.{get_fd_map-runs}
use ioapps.Replicate.World.{
  Env, World, Call, close_call, M, after, ret, skip, ◌>>=◌, lift, gets, sys, load_map, store_map,
  free_map, set_usage, has_flag, act_replicate,
}
use ioapps.Trace

set_twice : {A : Type 0} (xs : List A) (i : ℕ) (v v' : A) → set (set xs i v) i v' ≡ set xs i v'
set_twice [] i v v' = refl
set_twice (x ∷ xs) zero v v' = refl
set_twice (x ∷ xs) (suc i) v v' = ap (λ t. x ∷ t) (set_twice xs i v v')

-- The calls after a `close`, which is made for the last use.
abbrev pub closing : {S : Type 0} → World S → ℕ → ℕ → ℕ → List Call
closing w op_mask k c =
    if c == 0 && has_flag op_mask act_replicate then w.calls ++ close_call (pos k) ∷ [] else w.calls

module _ {S : Type 0} (env : Env S) (w : World S) {procs : ℕ → Option ℕ}
    {fds : ℕ → ℕ → Option FdItem} {uses : ℕ → ℕ} (v : InView w procs fds uses)
    (op_mask k c : ℕ) where
  decrease_usage-runs :
      uses k ≡ suc c
      → (t : HashTable FdUsage) × (decrease_usage env (pos k) w
          ≡ ok (c == 0, record w { usage_map = t }))
        × InView (record w { usage_map = t }) procs fds (updated uses k c)
  unfolding decrease_usage gets lift set_usage ret ◌>>=◌
  decrease_usage-runs used =
      let (t, run, count) = decrease_fd_usage-IsCounting w.usage_map uses k c v.used used in
      (
        t,
        ap (λ r. after (λ got. set_usage got.1 >>= λ u. ret got.0) (lift r w)) run,
        record { processes = v.processes; opened = v.opened; ranged = v.ranged; used = count },
      )

  call_or_not :
      (b : Bool) (u : World S) (r : ℕ)
      → env.kernel u.calls (close_call (pos k)) ≡ pos r
      → (if b then sys env (close_call (pos k)) else ret (pos 0)) u
        ≡ ok (
          pos (if b then r else 0),
          record u { calls = if b then u.calls ++ close_call (pos k) ∷ [] else u.calls },
        )
  unfolding sys ret
  call_or_not true u r answers = ap (λ z. ok (z, called u (close_call (pos k)))) answers
  call_or_not false u r answers = refl

  -- `close_file` of a supported type.
  abbrev close_fd : ℤ → M S ℤ
  close_fd fd = do
    last ← decrease_usage env fd
    if last && has_flag op_mask act_replicate then sys env (close_call fd) else ret (pos 0)

  -- The call for a last use answers a number from 0 on, as the step without a call does.
  close_file-runs :
      (m : FdMap) (r : ℕ)
      → supported_type m.type ≡ true
      → m.my_fd ≡ pos k
      → uses k ≡ suc c
      → env.kernel w.calls (close_call (pos k)) ≡ pos r
      → (z : ℕ) × (t : HashTable FdUsage) × (close_file env m op_mask w
          ≡ ok (pos z, record w { usage_map = t; calls = closing w op_mask k c }))
        × InView (record w { usage_map = t }) procs fds (updated uses k c)
  unfolding close_file
  close_file-runs m r type own used answers =
      let (t, run, v') = decrease_usage-runs used in
      (
        if c == 0 && has_flag op_mask act_replicate then r else 0,
        t,
        other-runs _ _ w (ap not type)
            ∙ ap (λ fd. close_fd fd w) own
            ∙ >>=-runs _ _ run
            ∙ call_or_not (c == 0 && has_flag op_mask act_replicate) (record w { usage_map = t }) r
                answers,
        v',
      )

-- What is left of a map whose descriptor was closed.
pub record Left (m : FdMap) (live : List ℤ) (fd : ℤ) (slot : Option FdMap) : Type 0 where
  pub map : FdMap
  pub others : List ℤ
  pub holds : Holds map others
  pub gone : (x : ℤ) → occurs x live ≡ (if fd ==ℤ x then 1 else 0) + occurs x others
  pub kept : slot ≡ (if length others == 0 then none else some map)

module _ {S : Type 0} (env : Env S) (w : World S) {procs : ℕ → Option ℕ}
    {fds : ℕ → ℕ → Option FdItem} {uses : ℕ → ℕ} (v : InView w procs fds uses) where
  free_or_not :
      (b : Bool) (u : World S) (p : ℕ) (m : FdMap) (maps : List (Option FdMap))
      → u.maps ≡ set maps p (some m)
      → (if b then free_map p else skip) u
        ≡ ok (tt, record u { maps = set maps p (if b then none else some m) })
  unfolding free_map ret
  free_or_not true u p m maps e =
      ap (λ ms. ok (tt, record u { maps = ms }))
        (ap (λ ms. set ms p none) e ∙ set_twice maps p (some m) none)
  free_or_not false u p m maps e = ap (λ ms. ok (tt, record u { maps = ms })) e

  forget_fd-runs :
      (i fd p : ℕ) (m : FdMap) (live : List ℤ)
      → i < length w.tables
      → load w.maps p ≡ ok m
      → Holds m live
      → 0 < occurs (pos fd) live
      → (slot : Option FdMap) × (tables : List (HashTable FdItem)) × (forget_fd env i (pos fd) p w
          ≡ ok (tt, record w { maps = set w.maps p slot; tables = tables }))
        × InView (record w { tables = tables }) procs (assigned_in fds i fd none) uses
        × Left m live (pos fd) slot
  unfolding forget_fd load_map store_map lift
  forget_fd-runs i fd p m live here stored holds hit =
      let (m', live', deleted, holds', gone) = delete_parent_fd-Holds m (pos fd) live holds hit in
      let w1 : World S = record w { maps = set w.maps p (some m') } in
      let (tables, removed, v', same) = remove_fd-runs w1 v i fd here in
      (
        if length live' == 0 then none else some m',
        tables,
        >>=-runs _ _ (ap (λ r. lift r w) stored)
            ∙ >>=-runs _ _ (ap (λ r. lift r w) deleted)
            ∙ >>=-runs _ _ refl
            ∙ >>=-runs _ _ removed
            ∙ free_or_not (length live' == 0) (record w1 { tables = tables }) p m' w.maps refl,
        v',
        record { map = m'; others = live'; holds = holds'; gone = gone; kept = refl },
      )

-- The world after a `close` that went through.
abbrev pub closed_world :
    {S : Type 0}
    → World S
    → ℕ
    → ℕ
    → ℕ
    → ℕ
    → Option FdMap
    → List (HashTable FdItem)
    → HashTable FdUsage
    → World S
closed_world w op_mask k c p slot tables usage_map = record w {
  maps = set w.maps p slot;
  tables = tables;
  usage_map = usage_map;
  calls = closing w op_mask k c;
}

close_in-runs :
    {S : Type 0} (env : Env S) (w : World S) (i fd : ℕ) (item : FdItem) (op_mask : ℕ) (m : FdMap)
    (z : ℕ) (u : World S)
    → load w.maps item.fd_map ≡ ok m
    → close_file env m op_mask w ≡ ok (pos z, u)
    → close_in env i (pos fd) item op_mask w ≡ forget_fd env i (pos fd) item.fd_map u
unfolding close_in load_map lift
close_in-runs env w i fd item op_mask m z u stored closed =
    >>=-runs _ _ (ap (λ r. lift r w) stored) ∙ >>=-runs _ _ closed

module _ {S : Type 0} (env : Env S) (w : World S) {procs : ℕ → Option ℕ}
    {fds : ℕ → ℕ → Option FdItem} {uses : ℕ → ℕ} (v : InView w procs fds uses) where
  -- A `close` of a descriptor that its process has for a file or a directory opened as k, where k is used
  -- and the kernel does not refuse to close it: `replicate_close` goes through. It calls `close` of k if
  -- that was the last use and the replay has ACT_REPLICATE, and makes no other call; the tables then stand
  -- for what they did without the descriptor and with one use of k less; and the map loses the descriptor
  -- from its parents, and is freed if it was the only one.
  pub replicate_close-Views :
      (op : Trace.CloseOp) (op_mask i k c r : ℕ) (item : FdItem) (m : FdMap) (live : List ℤ)
      → op.info.pid < 2 ^ 31
      → op.fd < 2 ^ 31
      → procs op.info.pid ≡ some (suc i)
      → fds i op.fd ≡ some item
      → load w.maps item.fd_map ≡ ok m
      → supported_type m.type ≡ true
      → m.my_fd ≡ pos k
      → uses k ≡ suc c
      → Holds m live
      → 0 < occurs (pos op.fd) live
      → env.kernel w.calls (close_call (pos k)) ≡ pos r
      → (slot : Option FdMap) × (tables : List (HashTable FdItem)) × (usage_map : HashTable FdUsage)
        × (replicate_close env op op_mask w
            ≡ ok (tt, closed_world w op_mask k c item.fd_map slot tables usage_map))
        × InView
            (closed_world w op_mask k c item.fd_map slot tables usage_map)
            procs
            (assigned_in fds i op.fd none)
            (updated uses k c)
        × Left m live (pos op.fd) slot
  unfolding replicate_close
  replicate_close-Views op op_mask i k c r item m live small_pid small_fd process here stored type
        own used holds hit answers =
      let (z, usage_map, closed, v1) =
        close_file-runs env w v op_mask k c m r type own used answers in
      let w1 : World S = record w { usage_map = usage_map; calls = closing w op_mask k c } in
      let (slot, tables, forgotten, v2, left) =
        forget_fd-runs env w1 v1 i op.fd item.fd_map m live (v.ranged op.info.pid i process) stored
          holds hit in
      (
        slot,
        tables,
        usage_map,
        rw (lt→ltb op.info.pid (2 ^ 31) small_pid) (
            >>=-runs _ _ (process_ht-runs w v op.info.pid i process)
            ∙ >>=-runs _ _ (
                get_fd_map-runs env w v op_mask i op.fd op.info item small_pid small_fd process
                  here)
            ∙ ap (λ fd. close_in env i fd item op_mask w) (int32-small op.fd small_fd)
            ∙ close_in-runs env w i op.fd item op_mask m z w1 stored closed
            ∙ forgotten),
        v2,
        left,
      )
