-- ===== src/Replicate/Views/Sharing.antt =====
-- The second half of `replicate_dup`: a descriptor that shares the map of another.
use ioapps.Base.{
  ℕ, suc, ◌<◌, ◌^◌, ◌≡◌, refl, ap, ◌∙◌, ◌≢◌, lt→ltb, List, [], ◌∷◌, ◌++◌, Option, none, some,
  length, set,
}
use ioapps.Base.Int.{ℤ, pos, minus_one}
use ioapps.Base.Run.{Run, ok}
use ioapps.Fdmap.{FdMap, FdItem, FdUsage, max_parent_ids}
use ioapps.Fdmap.Clone.{load}
use ioapps.Fdmap.Parents.Laws.{Holds, insert_parent_fd-Holds}
use ioapps.Fdmap.Parents.Same.{SameFile, insert_parent_fd-SameFile}
use ioapps.Fdmap.Parents.Search.{occurs}
use ioapps.Fdmap.Usage.Counts.{updated}
use ioapps.HashTable.{HashTable}
use ioapps.Replicate.Special.{share_map}
use ioapps.Replicate.Tables.{increase_usage}
use ioapps.Replicate.Views.{
  InView, assigned_in, insert_fd-runs, increase_usage-runs, >>=-runs, find_fd-runs,
}
use ioapps.Replicate.World.{Env, World, ret, lift, load_map, store_map}
use ioapps.Trace

-- A map, tables and uses of a world after `share_map`.
abbrev pub shared_world :
    {S : Type 0} → World S → ℕ → FdMap → List (HashTable FdItem) → HashTable FdUsage → World S
shared_world w p m tables usage_map = record w {
  maps = set w.maps p (some m);
  tables = tables;
  usage_map = usage_map;
}

-- A run that makes the descriptor `fd` of the table `i` share the map `m`, the p-th, which is the
-- descriptor k of the replay and has the parents `live`.
abbrev pub Shares :
    {S : Type 0}
    → World S
    → (ℕ → Option ℕ)
    → (ℕ → ℕ → Option FdItem)
    → (ℕ → ℕ)
    → ℕ
    → ℕ
    → ℕ
    → ℕ
    → FdMap
    → List ℤ
    → Run (Unit {0} × World S)
    → Type 0
Shares w procs fds uses i fd p k m live run =
    (m' : FdMap) × (tables : List (HashTable FdItem)) × (usage_map : HashTable FdUsage) × (run
      ≡ ok (tt, shared_world w p m' tables usage_map))
    × InView (shared_world w p m' tables usage_map) procs
        (assigned_in fds i fd (some (record { old_fd = pos fd; fd_map = p })))
        (updated uses k (suc (uses k)))
    × SameFile m m'
    × Holds m' (live ++ pos fd ∷ [])

pos-not_minus_one : (x : ℕ) → pos x ≢ minus_one
pos-not_minus_one x e = cc

module _ {S : Type 0} (env : Env S) (w : World S) {procs : ℕ → Option ℕ}
    {fds : ℕ → ℕ → Option FdItem} {uses : ℕ → ℕ} (v : InView w procs fds uses) where
  pub share_map-runs :
      (i p k : ℕ) (op : Trace.DupOp) (item : FdItem) (m : FdMap) (live : List ℤ)
      → i < length w.tables
      → op.old_fd < 2 ^ 31
      → op.retval < 2 ^ 31
      → fds i op.old_fd ≡ some item
      → fds i op.retval ≡ none
      → load w.maps p ≡ ok m
      → m.my_fd ≡ pos k
      → Holds m live
      → occurs (pos op.retval) live ≡ 0
      → length live < max_parent_ids
      → Shares w procs fds uses i op.retval p k m live (share_map env i op p w)
  unfolding share_map load_map lift store_map ret
  share_map-runs i p k op item m live here small_old small_new old new stored mine holds first
        room =
      let fd = op.retval in
      let (m', put, holds') =
        insert_parent_fd-Holds m (pos fd) live holds (pos-not_minus_one fd) first room in
      let same = insert_parent_fd-SameFile m m' (pos fd) put in
      let w1 : World S = record w { maps = set w.maps p (some m') } in
      let (tables, inserted, v1, size) =
        insert_fd-runs w1 v i fd (record { old_fd = pos fd; fd_map = p }) here new refl in
      let w2 : World S = record w1 { tables = tables } in
      let (usage_map, increased, v2) = increase_usage-runs w2 v1 k in
      (
        m',
        tables,
        usage_map,
        rw (lt→ltb fd (2 ^ 31) small_new, lt→ltb op.old_fd (2 ^ 31) small_old)
            (>>=-runs _ _ (find_fd-runs w v i op.old_fd here ∙ ap (λ q. ok (q, w)) old)
              ∙ >>=-runs _ _ refl
              ∙ >>=-runs _ _ (ap (λ r. lift r w) stored)
              ∙ >>=-runs _ _ (ap (λ r. lift r w) put)
              ∙ >>=-runs _ _ refl
              ∙ >>=-runs _ _ inserted
              ∙ ap (λ z. increase_usage z w2) (ap (λ z. z.my_fd) same ∙ mine)
              ∙ increased),
        v2,
        same,
        holds',
      )
