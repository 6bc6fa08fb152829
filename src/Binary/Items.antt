-- ===== src/Binary/Items.antt =====
-- `bin_get_items` and `bin_save_items`: the loops of in_binary.c over a whole trace.
use ioapps.Base.{ℕ, zero, suc, Option, none, some, List, [], ◌∷◌, length, ◌==◌, if◌then◌else◌, ◌||◌}
use ioapps.Binary.Read.{
  bin_read_write, bin_read_read, bin_read_pwrite, bin_read_pread, bin_read_open, bin_read_close,
  bin_read_unlink, bin_read_lseek, bin_read_llseek, bin_read_clone, bin_read_mkdir, bin_read_rmdir,
  bin_read_dup, bin_read_pipe, bin_read_access, bin_read_stat, bin_read_socket, bin_read_sendfile,
}
use ioapps.Binary.Save.{
  bin_save_write, bin_save_read, bin_save_pwrite, bin_save_pread, bin_save_open, bin_save_close,
  bin_save_unlink, bin_save_lseek, bin_save_llseek, bin_save_clone, bin_save_mkdir, bin_save_rmdir,
  bin_save_dup, bin_save_pipe, bin_save_access, bin_save_stat, bin_save_socket, bin_save_sendfile,
}
use ioapps.Binary.Stream.{Outcome, got, Reader, Out, Written, done, Writer, ◌>>◌}
use ioapps.Trace
use ioapps.Trace.{Item, Op}

-- The result of `bin_get_items`: 0, `errno` of a failed `fopen`, or -1. `fault` is an overrun name
-- buffer, `stuck` a loop that ran out of fuel.
pub data Status : Type 0 where
  ok open_error error fault stuck : Status

-- The `switch` on the character that was read.
unfoldable pub read_item : ℕ → List Item → Reader (List Item)
read_item c list =
    if c == Trace.op_write
    then bin_read_write list
    else if c == Trace.op_read
    then bin_read_read list
    else if c == Trace.op_pwrite
    then bin_read_pwrite list
    else if c == Trace.op_pread
    then bin_read_pread list
    else if c == Trace.op_open
    then bin_read_open list
    else if c == Trace.op_close
    then bin_read_close list
    else if c == Trace.op_unlink
    then bin_read_unlink list
    else if c == Trace.op_lseek
    then bin_read_lseek list
    else if c == Trace.op_llseek
    then bin_read_llseek list
    else if c == Trace.op_clone
    then bin_read_clone list
    else if c == Trace.op_mkdir
    then bin_read_mkdir list
    else if c == Trace.op_rmdir
    then bin_read_rmdir list
    else if c == Trace.op_dup || (c == Trace.op_dup2 || c == Trace.op_dup3)
    then bin_read_dup c list
    else if c == Trace.op_pipe
    then bin_read_pipe list
    else if c == Trace.op_access
    then bin_read_access list
    else if c == Trace.op_stat
    then bin_read_stat list
    else if c == Trace.op_socket
    then bin_read_socket list
    else if c == Trace.op_sendfile
    then bin_read_sendfile list
    else (λ bytes. Outcome.failed)

-- `char c = getc(f)` compared with EOF: the byte 255 is the char -1, and EOF is -1.
abbrev pub eof_char : ℕ
eof_char = 255

abbrev finish :
    List Item
    → (List Item → List ℕ → Status × List Item)
    → Outcome (List Item × List ℕ)
    → Status × List Item
finish list loop (got (list', rest)) = loop list' rest
finish list loop Outcome.failed = (error, list)
finish list loop Outcome.fault = (fault, list)

-- The `while` loop. The items that were read before an error stay in the list.
unfoldable pub get_items_loop : ℕ → List Item → List ℕ → Status × List Item
get_items_loop fuel list [] = (ok, list)
get_items_loop zero list (c ∷ bytes) = (stuck, list)
get_items_loop (suc fuel) list (c ∷ bytes) =
    let rest = finish list (get_items_loop fuel) (read_item c list bytes) in
    if c == eof_char then (ok, list) else rest

-- `file` is the content of the file, if `fopen` opened it. Each round takes a byte at least.
unfoldable pub bin_get_items : Option (List ℕ) → List Item → Status × List Item
bin_get_items none list = (open_error, list)
bin_get_items (some file) list = get_items_loop (length file) list file

-- The casts of `bin_save_items`. A cast goes wrong, `fault`, where the item is not of the structure
-- that its type character says.
as_write : Op → Writer
as_write (Op.write o) = bin_save_write o
as_write _ = λ out. Written.fault

as_read : Op → Writer
as_read (Op.read o) = bin_save_read o
as_read _ = λ out. Written.fault

as_pwrite : Op → Writer
as_pwrite (Op.pwrite o) = bin_save_pwrite o
as_pwrite _ = λ out. Written.fault

as_pread : Op → Writer
as_pread (Op.pread o) = bin_save_pread o
as_pread _ = λ out. Written.fault

as_open : Op → Writer
as_open (Op.open_file o) = bin_save_open o
as_open _ = λ out. Written.fault

as_close : Op → Writer
as_close (Op.close o) = bin_save_close o
as_close _ = λ out. Written.fault

as_unlink : Op → Writer
as_unlink (Op.unlink o) = bin_save_unlink o
as_unlink _ = λ out. Written.fault

as_lseek : Op → Writer
as_lseek (Op.lseek o) = bin_save_lseek o
as_lseek _ = λ out. Written.fault

as_llseek : Op → Writer
as_llseek (Op.llseek o) = bin_save_llseek o
as_llseek _ = λ out. Written.fault

as_clone : Op → Writer
as_clone (Op.clone o) = bin_save_clone o
as_clone _ = λ out. Written.fault

as_mkdir : Op → Writer
as_mkdir (Op.mkdir o) = bin_save_mkdir o
as_mkdir _ = λ out. Written.fault

as_rmdir : Op → Writer
as_rmdir (Op.rmdir o) = bin_save_rmdir o
as_rmdir _ = λ out. Written.fault

as_dup : ℕ → Op → Writer
as_dup c (Op.dup o) = bin_save_dup c o
as_dup c _ = λ out. Written.fault

as_pipe : Op → Writer
as_pipe (Op.pipe o) = bin_save_pipe o
as_pipe _ = λ out. Written.fault

as_access : Op → Writer
as_access (Op.access o) = bin_save_access o
as_access _ = λ out. Written.fault

as_stat : Op → Writer
as_stat (Op.stat o) = bin_save_stat o
as_stat _ = λ out. Written.fault

as_socket : Op → Writer
as_socket (Op.socket o) = bin_save_socket o
as_socket _ = λ out. Written.fault

as_sendfile : Op → Writer
as_sendfile (Op.sendfile o) = bin_save_sendfile o
as_sendfile _ = λ out. Written.fault

-- The `switch` of `bin_save_items`.
unfoldable pub save_item : ℕ → Op → Writer
unfolding as_write as_read as_pwrite as_pread as_open as_close as_unlink as_lseek as_llseek as_clone
    as_mkdir as_rmdir as_dup as_pipe as_access as_stat as_socket as_sendfile
save_item c op =
    if c == Trace.op_write
    then as_write op
    else if c == Trace.op_read
    then as_read op
    else if c == Trace.op_pwrite
    then as_pwrite op
    else if c == Trace.op_pread
    then as_pread op
    else if c == Trace.op_open
    then as_open op
    else if c == Trace.op_close
    then as_close op
    else if c == Trace.op_unlink
    then as_unlink op
    else if c == Trace.op_lseek
    then as_lseek op
    else if c == Trace.op_llseek
    then as_llseek op
    else if c == Trace.op_clone
    then as_clone op
    else if c == Trace.op_mkdir
    then as_mkdir op
    else if c == Trace.op_rmdir
    then as_rmdir op
    else if c == Trace.op_dup || (c == Trace.op_dup2 || c == Trace.op_dup3)
    then as_dup c op
    else if c == Trace.op_pipe
    then as_pipe op
    else if c == Trace.op_access
    then as_access op
    else if c == Trace.op_stat
    then as_stat op
    else if c == Trace.op_socket
    then as_socket op
    else if c == Trace.op_sendfile
    then as_sendfile op
    else (λ out. Written.failed out)

-- The `while` loop over the list.
unfoldable pub save_items_loop : List Item → Writer
save_items_loop [] = λ out. done out
save_items_loop (it ∷ items) = save_item it.type it.op >> save_items_loop items

-- `device` is the stream, if `fopen` opened it; `none` is the return of `errno`. The `fclose` at the end is
-- left out, since the code ignores its result: where its flush of the buffer fails, the call still succeeds.
unfoldable pub bin_save_items : Option Out → List Item → Option Written
bin_save_items none items = none
bin_save_items (some device) items = some (save_items_loop items device)
