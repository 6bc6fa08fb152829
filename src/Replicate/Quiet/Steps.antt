-- ===== src/Replicate/Quiet/Steps.antt =====
-- The operations under a mask without ACT_REPLICATE.
use ioapps.Base.{ℕ, ◌≡◌, refl, ap, ◌&&◌, Bool, true, false, List, Option, none, some}
use ioapps.Base.Int.{ℤ}
use ioapps.Base.Run.{Run}
use ioapps.Fdmap.{FdMap, FdItem, FdUsage}
use ioapps.HashTable.{HashTable}
use ioapps.Replicate.Files.{
  get_name, add_fd, open_file, get_open_fd, open_failed, open_in, replicate_open,
  replicate_get_fd_map, decrease_usage, close_file, forget_fd, close_in, replicate_close,
}
use ioapps.Replicate.Names.{on_name}
use ioapps.Replicate.Transfer.{on_fd, act, on_file}
use ioapps.Replicate.Quiet.{
  Quiet, Quiet-ret, Quiet-crash, Quiet-bind, Quiet-Option, Quiet-if, Quiet-not, quiet_rules,
  result_calls,
}
use ioapps.Replicate.Tables.{
  get_ht, add_table, set_copied, copy_table, insert_process, clone_process, replicate_clone,
  replicate_missing_ht, process_ht, find_fd, insert_fd, remove_fd, increase_usage,
}
use ioapps.Replicate.World.{Env, M, Call, ◌>>=◌, has_flag, act_replicate}
use ioapps.Trace

module _ {S : Type 0} where
  pub get_ht-Quiet : (pid : ℤ) → Quiet {S = S} (get_ht pid)
  unfolding get_ht
  get_ht-Quiet pid = search quiet_rules

  pub add_table-Quiet : (t : HashTable FdItem) → Quiet {S = S} (add_table t)
  unfolding add_table
  add_table-Quiet t = record { at = λ w w' b e. result_calls _ b _ w' e }

  pub set_copied-Quiet :
      (maps : List (Option FdMap)) (t : HashTable FdUsage) → Quiet {S = S} (set_copied maps t)
  unfolding set_copied
  set_copied-Quiet maps t = record { at = λ w w' b e. result_calls tt b _ w' e }

  pub copy_table-Quiet : (own : Option ℕ) → Quiet {S = S} (copy_table own)
  unfolding copy_table
  copy_table-Quiet none = Quiet-crash
  copy_table-Quiet (some i) = search (quiet_rules, add_table-Quiet, set_copied-Quiet) depth 12

  pub insert_process-Quiet : (pid : ℤ) (ht : ℕ) → Quiet {S = S} (insert_process pid ht)
  unfolding insert_process
  insert_process-Quiet pid ht = search quiet_rules

  pub clone_process-Quiet :
      (pid parent : ℤ) (mode : ℕ) → Quiet {S = S} (clone_process pid parent mode)
  unfolding clone_process
  clone_process-Quiet pid parent mode = Quiet-bind (get_ht-Quiet pid) (
      Quiet-Option _ (search (quiet_rules, get_ht-Quiet, copy_table-Quiet, insert_process-Quiet))
        (λ i. Quiet-ret tt))

  pub replicate_clone-Quiet : (op : Trace.CloneOp) → Quiet {S = S} (replicate_clone op)
  unfolding replicate_clone
  replicate_clone-Quiet op = clone_process-Quiet _ _ _

  pub replicate_missing_ht-Quiet : (pid : ℤ) → Quiet {S = S} (replicate_missing_ht pid)
  unfolding replicate_missing_ht
  replicate_missing_ht-Quiet pid = search (quiet_rules, clone_process-Quiet, get_ht-Quiet)

  pub process_ht-Quiet : (pid : ℤ) → Quiet {S = S} (process_ht pid)
  unfolding process_ht
  process_ht-Quiet pid =
      Quiet-bind (get_ht-Quiet pid)
        (Quiet-Option _ (replicate_missing_ht-Quiet pid) (λ i. Quiet-ret (some i)))

  pub find_fd-Quiet : (i : ℕ) (fd : ℤ) → Quiet {S = S} (find_fd i fd)
  unfolding find_fd
  find_fd-Quiet i fd = search quiet_rules

  pub insert_fd-Quiet : (i : ℕ) (fd : ℤ) (item : FdItem) → Quiet {S = S} (insert_fd i fd item)
  unfolding insert_fd
  insert_fd-Quiet i fd item = search quiet_rules

  pub remove_fd-Quiet : (i : ℕ) (fd : ℤ) → Quiet {S = S} (remove_fd i fd)
  unfolding remove_fd
  remove_fd-Quiet i fd = search quiet_rules

  pub increase_usage-Quiet : (fd : ℤ) → Quiet {S = S} (increase_usage fd)
  unfolding increase_usage
  increase_usage-Quiet fd = search quiet_rules

  -- The rest of an operation behind the lookup of its table.
  pub in_table-Quiet :
      {B : Type 0} (f : Option ℕ → M S B) (pid : ℤ)
      → Quiet (f none)
      → ((i : ℕ) → Quiet (f (some i)))
      → Quiet (process_ht pid >>= f)
  in_table-Quiet f pid missing here =
      Quiet-bind (process_ht-Quiet pid) (Quiet-Option f missing here)

pub ruleset table_rules = (
  get_ht-Quiet, process_ht-Quiet, find_fd-Quiet, insert_fd-Quiet, remove_fd-Quiet,
  increase_usage-Quiet,
)

module _ {S : Type 0} (env : Env S) where
  pub get_name-Quiet : (name : List ℕ) → Quiet (get_name env name)
  unfolding get_name
  get_name-Quiet name = search quiet_rules

  pub add_fd-Quiet : (i : ℕ) (fd : ℤ) (m : FdMap) (used : ℤ) → Quiet (add_fd env i fd m used)
  unfolding add_fd
  add_fd-Quiet i fd m used = search (quiet_rules, table_rules)

  pub get_open_fd-Quiet : Quiet (get_open_fd env)
  unfolding get_open_fd
  get_open_fd-Quiet = record { at = λ w w' b e. result_calls _ b _ w' e }

  pub decrease_usage-Quiet : (fd : ℤ) → Quiet (decrease_usage env fd)
  unfolding decrease_usage
  decrease_usage-Quiet fd = search quiet_rules

  pub forget_fd-Quiet : (i : ℕ) (fd : ℤ) (p : ℕ) → Quiet (forget_fd env i fd p)
  unfolding forget_fd
  forget_fd-Quiet i fd p = search (quiet_rules, table_rules) depth 12

pub ruleset fd_rules =
    (add_fd-Quiet, get_name-Quiet, get_open_fd-Quiet, decrease_usage-Quiet, forget_fd-Quiet)

module _ {S : Type 0} (env : Env S) (op_mask : ℕ)
    (dry : has_flag op_mask act_replicate ≡ false) where
  -- A choice of the call and something else.
  dry_and : (c : Bool) → (has_flag op_mask act_replicate && c) ≡ false
  dry_and c = ap (λ b. b && c) dry

  and_dry : (c : Bool) → (c && has_flag op_mask act_replicate) ≡ false
  and_dry true = dry
  and_dry false = refl

  pub open_file-Quiet :
      (op : Trace.OpenOp) (flags : ℕ) (name : List ℕ) → Quiet (open_file env op flags name op_mask)
  unfolding open_file
  open_file-Quiet op flags name =
      Quiet-not _ _ _ (dry_and _) (search (quiet_rules, get_open_fd-Quiet) depth 12)

  pub open_failed-Quiet : (op : Trace.OpenOp) → Quiet (open_failed env op op_mask)
  unfolding open_failed
  open_failed-Quiet op =
      Quiet-bind (get_name-Quiet env op.name)
        (Quiet-Option _ (Quiet-ret tt) (λ name. Quiet-not _ _ _ dry (search quiet_rules)))

  pub open_in-Quiet : (i : ℕ) (op : Trace.OpenOp) → Quiet (open_in env i op op_mask)
  unfolding open_in
  open_in-Quiet i op = Quiet-bind (get_name-Quiet env op.name) λ answer.
      Quiet-bind (find_fd-Quiet i _) (
        Quiet-Option _
          (Quiet-bind (open_file-Quiet op _ _)
            (λ retval. Quiet-if _ (Quiet-ret tt) (add_fd-Quiet env i _ _ retval)))
          (λ item. Quiet-ret tt))

  pub replicate_open-Quiet : (op : Trace.OpenOp) → Quiet (replicate_open env op op_mask)
  unfolding replicate_open
  replicate_open-Quiet op =
      Quiet-if _ (open_failed-Quiet op)
        (in_table-Quiet _ _ (Quiet-ret tt) (λ i. open_in-Quiet i op))

  pub get_fd_map-Quiet :
      (i fd : ℕ) (info : Trace.OpInfo) → Quiet (replicate_get_fd_map env i fd info op_mask)
  unfolding replicate_get_fd_map
  get_fd_map-Quiet i fd info = Quiet-bind (find_fd-Quiet i _) (
      Quiet-Option _ (search (quiet_rules, replicate_open-Quiet, find_fd-Quiet) depth 12)
        (λ item. Quiet-ret (some item)))

  pub close_file-Quiet : (m : FdMap) → Quiet (close_file env m op_mask)
  unfolding close_file
  close_file-Quiet m = Quiet-if _ (Quiet-ret _) (
      Quiet-bind (decrease_usage-Quiet env _)
        (λ last. Quiet-not _ _ _ (and_dry last) (Quiet-ret _)))

  pub close_in-Quiet : (i : ℕ) (fd : ℤ) (item : FdItem) → Quiet (close_in env i fd item op_mask)
  unfolding close_in
  close_in-Quiet i fd item = search (quiet_rules, close_file-Quiet, forget_fd-Quiet) depth 12

  -- An operation on one descriptor, by what it does with its item.
  pub on_fd-Quiet :
      (fd : ℕ) (info : Trace.OpInfo) (body : FdItem → M S (Unit {0}))
      → ((item : FdItem) → Quiet (body item))
      → Quiet (on_fd env fd info op_mask body)
  unfolding on_fd
  on_fd-Quiet fd info body inner =
      in_table-Quiet _ _ (Quiet-ret tt)
        (λ i. Quiet-bind (get_fd_map-Quiet i fd info) (Quiet-Option _ (Quiet-ret tt) inner))

  pub replicate_close-Quiet : (op : Trace.CloseOp) → Quiet (replicate_close env op op_mask)
  unfolding replicate_close
  replicate_close-Quiet op = in_table-Quiet _ _ (Quiet-ret tt) (λ i.
      Quiet-bind (get_fd_map-Quiet i op.fd op.info)
        (Quiet-Option _ (Quiet-ret tt) (λ item. close_in-Quiet i _ item)))

  pub on_file-Quiet :
      (item : FdItem) (body : FdMap → M S (Unit {0}))
      → ((m : FdMap) → Quiet (body m))
      → Quiet (on_file env item body)
  unfolding on_file
  on_file-Quiet item body inner = search (quiet_rules, inner)

  pub act-Quiet :
      (retval : ℤ) (simulation : M S (Unit {0})) (call : Call)
      → Quiet simulation
      → Quiet (act env op_mask retval simulation call)
  unfolding act
  act-Quiet retval simulation call inner =
      Quiet-if _ (Quiet-bind (Quiet-if _ (Quiet-ret tt) inner) (λ u. Quiet-ret retval))
        (Quiet-not _ _ _ dry Quiet-crash)

  pub on_name-Quiet :
      (name : List ℕ) (call : List ℕ → Call) (simulation : List ℕ → S → Run S)
      → Quiet (on_name env name op_mask call simulation)
  unfolding on_name
  on_name-Quiet name call simulation =
      Quiet-bind (get_name-Quiet env name)
        (Quiet-Option _ (Quiet-ret tt) (λ name. Quiet-not _ _ _ dry (search quiet_rules)))
