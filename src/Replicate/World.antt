-- ===== src/Replicate/World.antt =====
-- The state of a replay: the globals of replicate.c, the store behind its pointers, the system calls
-- that replicate.c made (not those of the simulator), and the simulator that runs beside.
use ioapps.Base.{
  ℕ, ◌-◌, ◌/◌, ◌%◌, ◌^◌, ltb, ◌==◌, if◌then◌else◌, Bool, List, [], ◌∷◌, ◌++◌, Option, none, some,
  length, get_or, set,
}
use ioapps.Base.Int.{ℤ, pos, negsuc}
use ioapps.Base.Run.{Run, ok, abort}
use ioapps.Base.Run
use ioapps.Fdmap.{FdMap, FdItem, FdUsage, ProcessHashItem}
use ioapps.Fdmap.Clone.{load}
use ioapps.HashTable.{HashTable}
use ioapps.Namemap.{Namemap, Match}
use ioapps.Trace

-- A system call with its arguments; the mode of an `open` may be missing.
pub data Call : Type 0 where
  open_call : List ℕ → ℕ → Option ℕ → Call
  close_call : ℤ → Call
  read_call write_call : ℤ → ℕ → Call
  pread_call pwrite_call : ℤ → ℕ → ℕ → Call
  lseek_call : ℤ → ℕ → ℕ → Call
  sendfile_call : ℤ → ℤ → ℕ → ℕ → Call
  unlink_call rmdir_call stat_call : List ℕ → Call
  mkdir_call access_call : List ℕ → ℕ → Call

-- The functions of simulate.c that a replay calls, over the state `S` of the simulator. The `sendfile`
-- gets NULL for an end that is no file.
pub record Simulator (S : Type 0) : Type 0 where
  pub read : FdMap → Trace.ReadOp → S → Run S
  pub write : FdMap → Trace.WriteOp → S → Run S
  pub pread : FdMap → Trace.PreadOp → S → Run S
  pub pwrite : FdMap → Trace.PwriteOp → S → Run S
  pub sendfile : Option FdMap → Option FdMap → Trace.SendfileOp → S → Run S
  pub creat : Trace.OpenOp → S → Run S
  pub unlink : Trace.UnlinkOp → S → Run S
  pub mkdir : Trace.MkdirOp → S → Run S
  pub rmdir : Trace.RmdirOp → S → Run S
  pub access : Trace.AccessOp → S → Run S
  pub stat : Trace.StatOp → S → Run S
  pub get_open_fd : S → ℤ × S

-- What the replay does not decide: `fnmatch` of libc, and what the kernel answers to a call after the
-- calls before it.
pub record Env (S : Type 0) : Type 0 where
  pub fnmatch : List ℕ → List ℕ → Match
  pub kernel : List Call → Call → ℤ
  pub sim : Simulator S

-- A pointer to an `fd_map_t` is its place in `maps`; a pointer to the table of a process is one more
-- than its place in `tables`, and NULL is 0.
pub record World (S : Type 0) : Type 0 where
  pub maps : List (Option FdMap)
  pub tables : List (HashTable FdItem)
  pub fd_mappings : HashTable ProcessHashItem
  pub usage_map : HashTable FdUsage
  pub names : Namemap
  pub global_parent_pid : ℤ
  pub global_fix_missing : Bool
  pub pipe_fd : ℤ
  pub socket_fd : ℤ
  pub calls : List Call
  pub sim_state : S

-- A step may end the program, see `Run`.
abbrev pub M : Type 0 → Type 0 → Type 0
M S A = World S → Run (A × World S)

module _ {S : Type 0} where
  unfoldable pub ret : {A : Type 0} → A → M S A
  ret a w = ok (a, w)

  abbrev pub after : {A B : Type 0} → (A → M S B) → Run (A × World S) → Run (B × World S)
  after f abort = abort
  after f (ok (a, w)) = f a w

  infixl 5 ◌>>=◌ ◌>>◌
  unfoldable pub ◌>>=◌ : {A B : Type 0} → M S A → (A → M S B) → M S B
  ◌>>=◌ m f w = after f (m w)

  abbrev pub ◌>>◌ : {B : Type 0} → M S (Unit {0}) → M S B → M S B
  m >> k = m >>= λ u. k

  abbrev pub skip : M S (Unit {0})
  skip = ret tt

  -- Undefined behaviour.
  unfoldable pub crash : {A : Type 0} → M S A
  crash w = abort

  -- A call of a function that does not see the world.
  unfoldable pub lift : {A : Type 0} → Run A → M S A
  lift abort w = abort
  lift (ok a) w = ok (a, w)

  unfoldable pub gets : {A : Type 0} → (World S → A) → M S A
  gets f w = ok (f w, w)

  -- What follows changes parts of the world, and leaves the others.
  unfoldable pub load_map : ℕ → M S FdMap
  load_map p w = lift (load w.maps p) w

  unfoldable pub store_map : ℕ → FdMap → M S (Unit {0})
  store_map p m w = ok (tt, record w { maps = set w.maps p (some m) })

  unfoldable pub free_map : ℕ → M S (Unit {0})
  free_map p w = ok (tt, record w { maps = set w.maps p none })

  unfoldable pub new_map : FdMap → M S ℕ
  new_map m w = ok (length w.maps, record w { maps = w.maps ++ some m ∷ [] })

  unfoldable pub get_table : ℕ → M S (HashTable FdItem)
  get_table i w = ok (get_or w.tables i (record { entry = [] }), w)

  unfoldable pub set_table : ℕ → HashTable FdItem → M S (Unit {0})
  set_table i t w = ok (tt, record w { tables = set w.tables i t })

  unfoldable pub set_usage : HashTable FdUsage → M S (Unit {0})
  set_usage t w = ok (tt, record w { usage_map = t })

  unfoldable pub set_processes : HashTable ProcessHashItem → M S (Unit {0})
  set_processes t w = ok (tt, record w { fd_mappings = t })

  -- A call of the simulator.
  unfoldable pub simulate : (S → Run S) → M S (Unit {0})
  simulate f w = Run.◌>>=◌ (f w.sim_state) (λ s. ok (tt, record w { sim_state = s }))

-- A system call.
unfoldable pub sys : {S : Type 0} → Env S → Call → M S ℤ
sys env call w = ok (env.kernel w.calls call, record w { calls = w.calls ++ call ∷ [] })

-- The integer that a field of 32 or 64 bits holds, and back.
abbrev pub int32 : ℕ → ℤ
int32 x = if ltb x (2 ^ 31) then pos x else negsuc (2 ^ 32 - 1 - x)

abbrev pub int64 : ℕ → ℤ
int64 x = if ltb x (2 ^ 63) then pos x else negsuc (2 ^ 64 - 1 - x)

abbrev pub word64 : ℤ → ℕ
word64 (pos n) = n % 2 ^ 64
word64 (negsuc n) = 2 ^ 64 - 1 - n % 2 ^ 64

-- `x & bit`, for one bit.
abbrev pub has_flag : ℕ → ℕ → Bool
has_flag x bit = x / bit % 2 == 1

abbrev pub act_simulate : ℕ
act_simulate = 2

abbrev pub act_replicate : ℕ
act_replicate = 4

abbrev pub bit_fix_missing : ℕ
bit_fix_missing = 128
