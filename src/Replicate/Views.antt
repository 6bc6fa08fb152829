-- ===== src/Replicate/Views.antt =====
-- The tables of a replay as functions: which table a process has, what each table says of a
-- descriptor, and how often each descriptor of the replay is used. The helpers say what the steps of
-- Tables do to them.
pub mod Opening
pub mod Reading
pub mod Closing
pub mod Cloning
pub mod Sharing
pub mod Duplicating
pub mod Starting
use ioapps.Base.{
  ℕ, suc, ◌<◌, ◌^◌, ◌≡◌, refl, sym, ap, ◌∙◌, ltb, lt→ltb, ◌==◌, if◌then◌else◌, Bool, true, false,
  Bool-cases, inl, inr, ==_iff, List, [], ◌∷◌, ◌++◌, Option, none, some, length, get_or, set,
  length-set, get_or-set, arith,
}
use ioapps.Base.Int.{ℤ, pos}
use ioapps.Base.Run.{ok}
use ioapps.Fdmap.{FdItem, FdUsage, ProcessHashItem}
use ioapps.Fdmap.Clone.{item_fd, ht_ops_fditem}
use ioapps.Fdmap.Processes.{get_process_ht}
use ioapps.Fdmap.Processes.Lookup.{IsProcesses, get_process_ht-IsProcesses}
use ioapps.Fdmap.Usage.{increase_fd_usage}
use ioapps.Fdmap.Usage.Counts.{IsCounting, updated, increase_fd_usage-IsCounting}
use ioapps.HashTable.{HashTable}
use ioapps.HashTable.Maps.{IsMap, assigned, insert-IsMap, remove-IsMap}
use ioapps.Replicate.Tables.{
  place_of, get_ht, process_ht, find_fd, insert_fd, remove_fd, increase_usage,
}
use ioapps.Replicate.World.{
  World, Call, M, after, ◌>>=◌, ret, lift, gets, get_table, set_table, set_usage, int32,
}

abbrev pub no_table : HashTable FdItem
no_table = record { entry = [] }

-- `procs` gives the pointer of a process's table, `fds` what a table says of a descriptor, and `uses`
-- the uses of a descriptor of the replay.
pub record Views (fd_mappings : HashTable ProcessHashItem) (tables : List (HashTable FdItem))
    (usage_map : HashTable FdUsage) (procs : ℕ → Option ℕ) (fds : ℕ → ℕ → Option FdItem)
    (uses : ℕ → ℕ) : Type 0 where
  pub processes : IsProcesses fd_mappings procs
  pub opened : (i : ℕ) → i < length tables → IsMap item_fd (get_or tables i no_table) (fds i)
  pub ranged : (n i : ℕ) → procs n ≡ some (suc i) → i < length tables
  pub used : IsCounting usage_map uses

-- The tables of a world.
abbrev pub InView :
    {S : Type 0} → World S → (ℕ → Option ℕ) → (ℕ → ℕ → Option FdItem) → (ℕ → ℕ) → Type 0
InView w procs fds uses = Views w.fd_mappings w.tables w.usage_map procs fds uses

-- `fds` with `p` for the descriptor `fd` of the table `i`.
abbrev pub assigned_in : (ℕ → ℕ → Option FdItem) → ℕ → ℕ → Option FdItem → ℕ → ℕ → Option FdItem
assigned_in fds i fd p j = if j == i then assigned (fds i) fd p else fds j

pub int32-small : (x : ℕ) → x < 2 ^ 31 → int32 x ≡ pos x
int32-small x small = rw (lt→ltb x (2 ^ 31) small) refl

-- A world after a call.
abbrev pub called : {S : Type 0} → World S → Call → World S
called w call = record w { calls = w.calls ++ call ∷ [] }

module _ {S A B : Type 0} where
  -- A step that goes through, and the rest behind it.
  pub >>=-runs :
      (m : M S A) (f : A → M S B) {w w' : World S} {a : A} → m w ≡ ok (a, w') → (m >>= f) w ≡ f a w'
  unfolding ◌>>=◌
  >>=-runs m f run = ap (after f) run

module _ {S A : Type 0} where
  pub other-runs : {b : Bool} (m n : M S A) (w : World S) → b ≡ false → (if b then m else n) w ≡ n w
  other-runs m n w off = ap (λ b. (if b then m else n) w) off

  pub chosen-runs : {b : Bool} (m n : M S A) (w : World S) → b ≡ true → (if b then m else n) w ≡ m w
  chosen-runs m n w on = ap (λ b. (if b then m else n) w) on

IsMap-if :
    {t u : HashTable FdItem} {g h : ℕ → Option FdItem} (b : Bool)
    → IsMap item_fd t g
    → IsMap item_fd u h
    → IsMap item_fd (if b then t else u) (if b then g else h)
IsMap-if true here rest = here
IsMap-if false here rest = rest

module _ {S : Type 0} (w : World S) {procs : ℕ → Option ℕ} {fds : ℕ → ℕ → Option FdItem}
    {uses : ℕ → ℕ} (v : InView w procs fds uses) where
  pub get_ht-runs : (pid i : ℕ) → procs pid ≡ some (suc i) → get_ht (pos pid) w ≡ ok (some i, w)
  unfolding get_ht gets lift ret ◌>>=◌
  get_ht-runs pid i here =
      ap (λ r. after (λ found. ret (place_of found)) (lift r w))
        (get_process_ht-IsProcesses w.fd_mappings procs pid v.processes ∙ ap ok here)

  pub process_ht-runs :
      (pid i : ℕ) → procs pid ≡ some (suc i) → process_ht (pos pid) w ≡ ok (some i, w)
  unfolding process_ht ret
  process_ht-runs pid i here = >>=-runs _ _ (get_ht-runs pid i here)

  pub find_fd-runs : (i fd : ℕ) → i < length w.tables → find_fd i (pos fd) w ≡ ok (fds i fd, w)
  unfolding find_fd get_table lift ◌>>=◌
  find_fd-runs i fd here = ap (λ r. lift r w) ((v.opened i here).reads fd)

  -- A change of one table.
  set_table-Views :
      (i : ℕ) (t : HashTable FdItem) (g : ℕ → Option FdItem)
      → i < length w.tables
      → IsMap item_fd t g
      → InView
          (record w { tables = set w.tables i t })
          procs
          (λ j. if j == i then g else fds j)
          uses
  set_table-Views i t g here h = record {
    processes = v.processes;
    opened = λ j lt.
        rw (get_or-set w.tables i j t no_table here)
          (IsMap-if (j == i) h (v.opened j (omega (arith, lt, length-set w.tables i t))));
    ranged = λ n j e. omega (arith, v.ranged n j e, length-set w.tables i t);
    used = v.used;
  }

  -- What a step that writes one table leaves.
  abbrev pub Writes : M S (Unit {0}) → (ℕ → ℕ → Option FdItem) → Type 0
  Writes m fds' =
      (tables : List (HashTable FdItem)) × (m w ≡ ok (tt, record w { tables = tables }))
      × InView (record w { tables = tables }) procs fds' uses
      × (length tables ≡ length w.tables)

  pub insert_fd-runs :
      (i fd : ℕ) (item : FdItem)
      → i < length w.tables
      → fds i fd ≡ none
      → item.old_fd ≡ pos fd
      → Writes (insert_fd i (pos fd) item) (assigned_in fds i fd (some item))
  unfolding insert_fd get_table lift set_table ◌>>=◌
  insert_fd-runs i fd item here new own =
      let (t, run, h) =
        insert-IsMap item_fd (get_or w.tables i no_table) (fds i) fd item (v.opened i here) new
          own in
      (
        set w.tables i t,
        ap (λ r. after (set_table i) (lift r w)) run,
        set_table-Views i t (assigned (fds i) fd (some item)) here h,
        length-set w.tables i t,
      )

  pub remove_fd-runs :
      (i fd : ℕ) → i < length w.tables → Writes (remove_fd i (pos fd)) (assigned_in fds i fd none)
  unfolding remove_fd get_table lift set_table ◌>>=◌
  remove_fd-runs i fd here =
      let (t, run, h) =
        remove-IsMap item_fd (get_or w.tables i no_table) (fds i) fd (v.opened i here) in
      (
        set w.tables i t,
        ap (λ r. after (set_table i) (lift r w)) run,
        set_table-Views i t (assigned (fds i) fd none) here h,
        length-set w.tables i t,
      )

  pub increase_usage-runs :
      (k : ℕ)
      → (t : HashTable FdUsage) × (increase_usage (pos k) w ≡ ok (tt, record w { usage_map = t }))
        × InView (record w { usage_map = t }) procs fds (updated uses k (suc (uses k)))
  unfolding increase_usage gets lift set_usage ◌>>=◌
  increase_usage-runs k =
      let (t, run, count) = increase_fd_usage-IsCounting w.usage_map uses k v.used in
      (
        t,
        ap (λ r. after set_usage (lift r w)) run,
        record { processes = v.processes; opened = v.opened; ranged = v.ranged; used = count },
      )
