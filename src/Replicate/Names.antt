-- ===== src/Replicate/Names.antt =====
-- The operations on a name: `replicate_unlink`, `replicate_mkdir`, `replicate_rmdir`,
-- `replicate_access` and `replicate_stat`.
use ioapps.Base.{ℕ, if◌then◌else◌, List, none, some}
use ioapps.Base.Run.{Run}
use ioapps.Replicate.Files.{get_name}
use ioapps.Replicate.World.{
  Env, Call, unlink_call, mkdir_call, rmdir_call, access_call, stat_call, M, ◌>>=◌, skip, sys,
  simulate, has_flag, act_simulate, act_replicate,
}
use ioapps.Trace

module _ {S : Type 0} (env : Env S) where
  -- The call under the name that the file has here, or its simulation; an ignored name is skipped.
  unfoldable pub on_name : List ℕ → ℕ → (List ℕ → Call) → (List ℕ → S → Run S) → M S (Unit {0})
  on_name name op_mask call simulation = do
    answer ← get_name env name
    elim answer [
      | none ↦ skip
      | some name ↦
          if has_flag op_mask act_replicate
          then (do retval ← sys env (call name); skip)
          else if has_flag op_mask act_simulate
          then simulate (simulation name)
          else skip
    ]

  -- The simulation of the first three gets the name that is in the trace.
  unfoldable pub replicate_unlink : Trace.UnlinkOp → ℕ → M S (Unit {0})
  replicate_unlink op op_mask = on_name op.name op_mask unlink_call (λ name. env.sim.unlink op)

  unfoldable pub replicate_mkdir : Trace.MkdirOp → ℕ → M S (Unit {0})
  replicate_mkdir op op_mask =
      on_name op.name op_mask (λ name. mkdir_call name op.mode) (λ name. env.sim.mkdir op)

  unfoldable pub replicate_rmdir : Trace.RmdirOp → ℕ → M S (Unit {0})
  replicate_rmdir op op_mask = on_name op.name op_mask rmdir_call (λ name. env.sim.rmdir op)

  unfoldable pub replicate_access : Trace.AccessOp → ℕ → M S (Unit {0})
  replicate_access op op_mask =
      on_name op.name op_mask (λ name. access_call name op.mode)
        (λ name. env.sim.access (record op { name = name }))

  unfoldable pub replicate_stat : Trace.StatOp → ℕ → M S (Unit {0})
  replicate_stat op op_mask =
      on_name op.name op_mask stat_call (λ name. env.sim.stat (record op { name = name }))
