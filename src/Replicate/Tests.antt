-- ===== src/Replicate/Tests.antt =====
-- Runs of replays on small worlds.
use mathlib.Core.Path.{subst}
use ioapps.Base.{
  ℕ, zero, suc, ◌<◌, ◌-◌, ◌^◌, ◌==◌, if◌then◌else◌, ◌≡◌, ◌≢◌, refl, sym, ap, ◌∙◌, true, Bool-cases,
  inl, inr, List, [], ◌∷◌, Option, none, some, get_or, arith,
}
use ioapps.Base.Int.{pos, minus_one, ◌+ℤ◌}
use ioapps.Base.Run.{Run, ok, abort, ok-injective}
use ioapps.HashTable.{
  HashTable, hash_table_init, hash_table_insert, hash_table_find, chain_of, find_in, ht_hash_int,
  ht_hash_str, hash_str_loop,
}
use ioapps.Fdmap.{FdItem, FdMap, FdUsage, ProcessHashItem}
use ioapps.Fdmap.Clone.{item_fd}
use ioapps.Fdmap.Processes.Lookup
use ioapps.Fdmap.Processes.Lookup.{IsProcesses, insert_process-IsProcesses, init-IsProcesses}
use ioapps.Fdmap.Usage.Counts.{updated, init-IsCounting}
use ioapps.HashTable.Maps.{IsMap, init-IsMap}
use ioapps.Replicate.Views.{InView, assigned_in, no_table}
use ioapps.Replicate.Views.Opening.{with_parent, file_map, opened_world, replicate_open-Views}
use ioapps.Replicate.Views.Reading.{read_of, replicate_open-read, replicate_read-failed}
use ioapps.Replicate.Views.Closing.{closed_world, Left, replicate_close-Views}
use ioapps.Replicate.Views.Cloning.{replicate_clone-Views}
use ioapps.Replicate.Views.Duplicating.{replicate_dup-opens}
use ioapps.Replicate.Views.Sharing.{Shares}
use ioapps.Replicate.Views.Starting.{LacksStdin, init_tables-stdin}
use ioapps.Replicate.Special.{replicate_dup}
use ioapps.Fdmap.Parents.Laws.{Holds}
use ioapps.Fdmap.Clone.{load}
use ioapps.Fdmap.Parents.{new_parents, find_place, insert_parent_fd}
use ioapps.Fdmap.Processes.{ht_ops_fdmapping, new_process_ht, get_process_ht}
use ioapps.Fdmap.Usage.{increase_fd_usage}
use ioapps.Namemap.{Match, Namemap, in_igns, namemap_get_name}
use ioapps.Replicate.Files.{
  mode_undef, opened_map, replicate_close, new_fd_map, digits, six_digits,
  replicate_get_missing_name, get_name, add_fd, get_open_fd, open_file, open_in, replicate_open,
}
use ioapps.Replicate.Loop.{init_tables, start_world, replicate_loop}
use ioapps.Replicate.Tables.{
  clone_files, replicate_clone, get_ht, process_ht, find_fd, insert_fd, increase_usage,
}
use ioapps.Replicate.Transfer.{replicate_read}
use ioapps.Replicate.World.{
  Simulator, Env, World, ret, ◌>>=◌, lift, gets, new_map, get_table, set_table, set_usage,
  act_simulate, act_replicate, open_call, read_call, sys,
}
use ioapps.Trace
use ioapps.Trace.{Op, Item}

-- A simulator that only hands out descriptors.
abbrev counter : Simulator ℕ
counter = record {
  read = λ m op s. ok s;
  write = λ m op s. ok s;
  pread = λ m op s. ok s;
  pwrite = λ m op s. ok s;
  sendfile = λ i o op s. ok s;
  creat = λ op s. ok s;
  unlink = λ op s. ok s;
  mkdir = λ op s. ok s;
  rmdir = λ op s. ok s;
  access = λ op s. ok s;
  stat = λ op s. ok s;
  get_open_fd = λ s. (pos s, s);
}

-- Every call answers 9.
abbrev nine : Env ℕ
nine = record { fnmatch = λ p s. Match.no_match; kernel = λ before call. pos 9; sim = counter }

abbrev no_names : Namemap
no_names = record { ht_map = hash_table_init 5; l_igns = [] }

-- Process 7 with an empty table, and no descriptor.
abbrev one_process : World ℕ
one_process = record (start_world no_names (pos 7) true 40) {
  tables = record { entry = [] ∷ [] ∷ [] ∷ [] ∷ [] ∷ [] } ∷ [];
  fd_mappings = record { entry = [] ∷ [] ∷ (record { ht = 1; pid = pos 7 } ∷ []) ∷ [] ∷ [] ∷ [] };
  usage_map = record { entry = [] ∷ [] ∷ [] ∷ [] ∷ [] ∷ [] };
}

abbrev by_seven : Trace.OpInfo
by_seven = record { pid = 7; dur = 0; tv_sec = 0; tv_usec = 0 }

abbrev world_of : {A : Type 0} → Run (A × World ℕ) → World ℕ
world_of abort = one_process
world_of (ok (a, w)) = w

-- A read of descriptor 3, which the trace never opened.
abbrev one_read : List Item
one_read =
    record { type = b'r'; op = Op.read (record { fd = 3; size = 10; retval = 5; info = by_seven }) }
    ∷ []

simulated : World ℕ
simulated = world_of (replicate_loop nine one_read act_simulate one_process)

-- The descriptors of the worlds below: none, or one.
abbrev no_fds : ℕ → ℕ → Option FdItem
no_fds i fd = none

abbrev seven : ℕ → Option ℕ
seven = Lookup.assigned (λ n. none) 7 (some 1)

insert_seven :
    hash_table_insert ht_ops_fdmapping (hash_table_init 5) (pos 7) (new_process_ht 1 (pos 7))
    ≡ ok one_process.fd_mappings
unfolding hash_table_init hash_table_insert chain_of ht_hash_int new_process_ht
insert_seven = refl

seven-IsProcesses : IsProcesses one_process.fd_mappings seven
seven-IsProcesses =
    let (t, run, rest) =
      insert_process-IsProcesses (hash_table_init 5) (λ n. none) 7 1
        (init-IsProcesses 5 (omega arith)) refl in
    subst (λ t. IsProcesses t seven) (ok-injective (sym run ∙ insert_seven)) rest

one_table : (i : ℕ) → i < 1 → IsMap item_fd (get_or one_process.tables i no_table) (no_fds i)
unfolding hash_table_init
one_table zero lt = init-IsMap item_fd 5 (omega arith)
one_table (suc i) lt = absurd (omega arith)

first_table : (i : ℕ) → some 1 ≡ some (suc i) → i < 1
first_table zero e = omega arith
first_table (suc i) e = cc

no_some : (i : ℕ) → some (suc i) ≢ none
no_some i e = cc

only_seven : (n i : ℕ) → seven n ≡ some (suc i) → i < 1
only_seven n i e = elim (Bool-cases (7 == n)) [
  | inl q ↦ first_table i (sym (ap (λ b. if b then some 1 else none) q) ∙ e)
  | inr q ↦ absurd (no_some i (sym e ∙ ap (λ b. if b then some 1 else none) q))
]

one_process-InView : InView one_process seven no_fds (λ n. 0)
unfolding hash_table_init
one_process-InView = record {
  processes = seven-IsProcesses;
  opened = one_table;
  ranged = only_seven;
  used = init-IsCounting 5 (omega arith);
}

abbrev open_three : Trace.OpenOp
open_three = record { name = b'a' ∷ []; flags = 0; mode = mode_undef; retval = 3; info = by_seven }

three_name : namemap_get_name nine.fnmatch one_process.names (b'a' ∷ []) ≡ ok (some (b'a' ∷ []))
unfolding namemap_get_name in_igns hash_table_find chain_of find_in ht_hash_str hash_str_loop
    hash_table_init
three_name = refl

abbrev three : FdItem
three = record { old_fd = pos 3; fd_map = 0 }

replicate_open-Views_example :
    (tables : List (HashTable FdItem)) × (usage_map : HashTable FdUsage) × (replicate_open nine
        open_three act_replicate one_process
      ≡ ok (tt, opened_world one_process open_three (b'a' ∷ []) 9 tables usage_map))
    × InView
        (opened_world one_process open_three (b'a' ∷ []) 9 tables usage_map)
        seven
        (assigned_in no_fds 0 3 (some three))
        (updated (λ n. 0) 9 1)
replicate_open-Views_example =
    replicate_open-Views nine one_process one_process-InView open_three act_replicate 0 (b'a' ∷ [])
      refl (omega arith) (omega arith) refl refl three_name refl 9 refl

replicate_open-read_example :
    (w' : World ℕ) × (w'' : World ℕ) × (replicate_open nine open_three act_replicate one_process
      ≡ ok (tt, w'))
    × (replicate_read nine
          (read_of nine one_process one_process-InView open_three 10 5 act_replicate 0 9 9
            (b'a' ∷ []))
          act_replicate
          w'
        ≡ ok (tt, w''))
    × (w''.calls ≡ open_call (b'a' ∷ []) 0 none ∷ read_call (pos 9) 10 ∷ [])
    × (load w''.maps 0 ≡ ok (record (file_map open_three (b'a' ∷ []) 9) { cur_pos = 9 }))
replicate_open-read_example =
    replicate_open-read nine one_process one_process-InView open_three 10 5 act_replicate 0 9 9
      (b'a' ∷ []) refl refl (omega arith) (omega arith) refl refl three_name refl refl refl
      (omega arith)

-- Process 7 with descriptor 3 open as 9.
abbrev one_open : World ℕ
one_open = record one_process {
  maps = some (with_parent (opened_map open_three 0 (b'a' ∷ []) (pos 9)) 3) ∷ [];
  tables = record { entry = [] ∷ [] ∷ [] ∷ (three ∷ []) ∷ [] ∷ [] } ∷ [];
  usage_map = record {
    entry = [] ∷ [] ∷ [] ∷ [] ∷ (record { my_fd = pos 9; usage = pos 1 } ∷ []) ∷ [];
  };
  calls = open_call (b'a' ∷ []) 0 none ∷ [];
}

one_open_run : replicate_open nine open_three act_replicate one_process ≡ ok (tt, one_open)
unfolding process_ht get_ht gets lift ◌>>=◌ ret replicate_open open_in get_name find_fd get_table
    open_file sys add_fd new_map insert_fd set_table increase_usage set_usage get_process_ht
    hash_table_find chain_of find_in ht_hash_int namemap_get_name in_igns hash_table_init
    ht_hash_str hash_str_loop new_fd_map new_parents insert_parent_fd find_place hash_table_insert
    increase_fd_usage ◌+ℤ◌
one_open_run = refl

one_open-InView : InView one_open seven (assigned_in no_fds 0 3 (some three)) (updated (λ n. 0) 9 1)
one_open-InView =
    let (tables, usage_map, run, v) =
      replicate_open-Views nine one_process one_process-InView open_three act_replicate 0
        (b'a' ∷ []) refl (omega arith) (omega arith) refl refl three_name refl 9 refl in
    subst
      (λ (w : World ℕ). InView w seven (assigned_in no_fds 0 3 (some three)) (updated (λ n. 0) 9 1))
      (ap (λ r. r.1) (ok-injective (sym run ∙ one_open_run))) v

only_three : Holds (with_parent (opened_map open_three 0 (b'a' ∷ []) (pos 9)) 3) (pos 3 ∷ [])
unfolding new_fd_map new_parents
only_three = record { spare = 19; layout = refl; size = refl; last = refl; used = refl }

-- A read of descriptor 3 that failed.
abbrev failed_read : Trace.ReadOp
failed_read = record { fd = 3; size = 10; retval = 2 ^ 64 - 1; info = by_seven }

replicate_read-failed_example :
    replicate_read nine failed_read act_simulate one_open
    ≡ ok (
      tt,
      record one_open {
        maps = some (record (file_map open_three (b'a' ∷ []) 9) { cur_pos = 2 ^ 64 - 1 }) ∷ [];
      },
    )
unfolding new_fd_map new_parents
replicate_read-failed_example =
    replicate_read-failed nine one_open one_open-InView failed_read act_simulate 0 three
      (file_map open_three (b'a' ∷ []) 9) (omega arith) (omega arith) refl refl refl refl refl refl

replicate_close-Views_example :
    (slot : Option FdMap) × (tables : List (HashTable FdItem)) × (usage_map : HashTable FdUsage)
    × (replicate_close nine (record { fd = 3; retval = 0; info = by_seven }) act_replicate one_open
        ≡ ok (tt, closed_world one_open act_replicate 9 0 0 slot tables usage_map))
    × InView
        (closed_world one_open act_replicate 9 0 0 slot tables usage_map)
        seven
        (assigned_in (assigned_in no_fds 0 3 (some three)) 0 3 none)
        (updated (updated (λ n. 0) 9 1) 9 0)
    × Left (with_parent (opened_map open_three 0 (b'a' ∷ []) (pos 9)) 3) (pos 3 ∷ []) (pos 3) slot
replicate_close-Views_example =
    replicate_close-Views nine one_open one_open-InView
      (record { fd = 3; retval = 0; info = by_seven }) act_replicate 0 9 0 9 three
      (with_parent (opened_map open_three 0 (b'a' ∷ []) (pos 9)) 3) (pos 3 ∷ []) (omega arith)
      (omega arith) refl refl refl refl refl refl only_three (omega arith) refl

replicate_clone-Views_example :
    (t : HashTable ProcessHashItem) × (replicate_clone
        (record { mode = clone_files; retval = 8; info = by_seven })
        one_open
      ≡ ok (tt, record one_open { fd_mappings = t }))
    × InView
        (record one_open { fd_mappings = t })
        (Lookup.assigned seven 8 (some 1))
        (assigned_in no_fds 0 3 (some three))
        (updated (λ n. 0) 9 1)
replicate_clone-Views_example =
    replicate_clone-Views one_open one_open-InView
      (record { mode = clone_files; retval = 8; info = by_seven }) 0 refl (omega arith)
      (omega arith) refl refl

-- No call succeeds.
abbrev refusing : Env ℕ
refusing = record nine { kernel = λ before call. minus_one }

abbrev unknown_four : List ℕ
unknown_four = replicate_get_missing_name (pos 7) (pos 4)

four_name : namemap_get_name refusing.fnmatch one_open.names unknown_four ≡ ok (some unknown_four)
unfolding namemap_get_name in_igns hash_table_find chain_of find_in ht_hash_str hash_str_loop
    hash_table_init replicate_get_missing_name six_digits digits
four_name = refl

abbrev dup_three : Trace.DupOp
dup_three = record { new_fd = 0; old_fd = 3; flags = 0; retval = 4; info = by_seven }

replicate_dup-opens_example :
    Shares
      (record one_open {
        calls = open_call (b'a' ∷ []) 0 none ∷ open_call unknown_four 2 none ∷ [];
      })
      seven
      (assigned_in no_fds 0 3 (some three))
      (updated (λ n. 0) 9 1)
      0
      4
      0
      9
      (with_parent (opened_map open_three 0 (b'a' ∷ []) (pos 9)) 3)
      (pos 3 ∷ [])
      (replicate_dup refusing dup_three act_replicate one_open)
replicate_dup-opens_example =
    replicate_dup-opens refusing one_open one_open-InView act_replicate 0 unknown_four refl refl
      dup_three three (with_parent (opened_map open_three 0 (b'a' ∷ []) (pos 9)) 3) (pos 3 ∷ []) 9
      (omega arith) (omega arith) (omega arith) refl refl refl four_name refl refl refl only_three
      refl (omega arith)

init_tables-stdin_example :
    (w : World ℕ) × (init_tables nine (pos 7) (start_world no_names (pos 7) true 40) ≡ ok (tt, w))
    × LacksStdin w
init_tables-stdin_example = init_tables-stdin nine no_names true 40 7
