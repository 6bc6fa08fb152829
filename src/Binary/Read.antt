-- ===== src/Binary/Read.antt =====
-- Item reading: the functions `bin_read_*` of in_binary.c.
-- Each gets the list of items and gives it back with the item that it appended.
use ioapps.Base.{ℕ, List, [], ◌∷◌, ◌++◌}
use ioapps.Binary.Stream.{Reader, pure, ◌>>=◌, read_int32, read_int64, read_name}
use ioapps.Trace
use ioapps.Trace.{Item, Op, OpInfo}

abbrev append_item : List Item → ℕ → Op → Reader (List Item)
append_item list type op = pure (list ++ record { type = type; op = op } ∷ [])

unfoldable pub bin_read_info : Reader OpInfo
bin_read_info = do
  pid ← read_int32
  dur ← read_int32
  tv_sec ← read_int32
  tv_usec ← read_int32
  pure (record { pid = pid; dur = dur; tv_sec = tv_sec; tv_usec = tv_usec })

unfoldable pub bin_read_read : List Item → Reader (List Item)
bin_read_read list = do
  fd ← read_int32
  size ← read_int64
  retval ← read_int64
  info ← bin_read_info
  append_item list Trace.op_read
      (Op.read (record { fd = fd; size = size; retval = retval; info = info }))

unfoldable pub bin_read_write : List Item → Reader (List Item)
bin_read_write list = do
  fd ← read_int32
  size ← read_int64
  retval ← read_int64
  info ← bin_read_info
  append_item list Trace.op_write
      (Op.write (record { fd = fd; size = size; retval = retval; info = info }))

unfoldable pub bin_read_pread : List Item → Reader (List Item)
bin_read_pread list = do
  fd ← read_int32
  size ← read_int64
  offset ← read_int64
  retval ← read_int64
  info ← bin_read_info
  append_item list Trace.op_pread
      (Op.pread (record { fd = fd; size = size; offset = offset; retval = retval; info = info }))

unfoldable pub bin_read_pwrite : List Item → Reader (List Item)
bin_read_pwrite list = do
  fd ← read_int32
  size ← read_int64
  offset ← read_int64
  retval ← read_int64
  info ← bin_read_info
  append_item list Trace.op_pwrite
      (Op.pwrite (record { fd = fd; size = size; offset = offset; retval = retval; info = info }))

unfoldable pub bin_read_open : List Item → Reader (List Item)
bin_read_open list = do
  len ← read_int32
  name ← read_name len
  flags ← read_int32
  mode ← read_int32
  retval ← read_int32
  info ← bin_read_info
  append_item list Trace.op_open (
      Op.open_file
        (record { name = name; flags = flags; mode = mode; retval = retval; info = info }))

unfoldable pub bin_read_close : List Item → Reader (List Item)
bin_read_close list = do
  fd ← read_int32
  retval ← read_int32
  info ← bin_read_info
  append_item list Trace.op_close (Op.close (record { fd = fd; retval = retval; info = info }))

unfoldable pub bin_read_unlink : List Item → Reader (List Item)
bin_read_unlink list = do
  len ← read_int32
  name ← read_name len
  retval ← read_int32
  info ← bin_read_info
  append_item list Trace.op_unlink
      (Op.unlink (record { name = name; retval = retval; info = info }))

unfoldable pub bin_read_lseek : List Item → Reader (List Item)
bin_read_lseek list = do
  fd ← read_int32
  flag ← read_int32
  offset ← read_int64
  retval ← read_int64
  info ← bin_read_info
  append_item list Trace.op_lseek
      (Op.lseek (record { fd = fd; flag = flag; offset = offset; retval = retval; info = info }))

unfoldable pub bin_read_llseek : List Item → Reader (List Item)
bin_read_llseek list = do
  fd ← read_int32
  offset ← read_int64
  f_offset ← read_int64
  flag ← read_int32
  retval ← read_int64
  info ← bin_read_info
  append_item list Trace.op_llseek (
      Op.llseek (record {
        fd = fd;
        offset = offset;
        f_offset = f_offset;
        flag = flag;
        retval = retval;
        info = info;
      }))

unfoldable pub bin_read_clone : List Item → Reader (List Item)
bin_read_clone list = do
  mode ← read_int32
  retval ← read_int32
  info ← bin_read_info
  append_item list Trace.op_clone (Op.clone (record { mode = mode; retval = retval; info = info }))

unfoldable pub bin_read_mkdir : List Item → Reader (List Item)
bin_read_mkdir list = do
  len ← read_int32
  name ← read_name len
  mode ← read_int32
  retval ← read_int32
  info ← bin_read_info
  append_item list Trace.op_mkdir
      (Op.mkdir (record { name = name; mode = mode; retval = retval; info = info }))

unfoldable pub bin_read_rmdir : List Item → Reader (List Item)
bin_read_rmdir list = do
  len ← read_int32
  name ← read_name len
  retval ← read_int32
  info ← bin_read_info
  append_item list Trace.op_mkdir (Op.rmdir (record { name = name; retval = retval; info = info }))

unfoldable pub bin_read_dup : ℕ → List Item → Reader (List Item)
bin_read_dup c list = do
  new_fd ← read_int32
  old_fd ← read_int32
  flags ← read_int32
  retval ← read_int32
  info ← bin_read_info
  append_item list c (
      Op.dup
        (record { new_fd = new_fd; old_fd = old_fd; flags = flags; retval = retval; info = info }))

unfoldable pub bin_read_pipe : List Item → Reader (List Item)
bin_read_pipe list = do
  fd1 ← read_int32
  fd2 ← read_int32
  mode ← read_int32
  retval ← read_int32
  info ← bin_read_info
  append_item list Trace.op_pipe
      (Op.pipe (record { fd1 = fd1; fd2 = fd2; mode = mode; retval = retval; info = info }))

unfoldable pub bin_read_access : List Item → Reader (List Item)
bin_read_access list = do
  len ← read_int32
  name ← read_name len
  mode ← read_int32
  retval ← read_int32
  info ← bin_read_info
  append_item list Trace.op_access
      (Op.access (record { name = name; mode = mode; retval = retval; info = info }))

unfoldable pub bin_read_stat : List Item → Reader (List Item)
bin_read_stat list = do
  len ← read_int32
  name ← read_name len
  retval ← read_int32
  info ← bin_read_info
  append_item list Trace.op_stat (Op.stat (record { name = name; retval = retval; info = info }))

unfoldable pub bin_read_socket : List Item → Reader (List Item)
bin_read_socket list = do
  retval ← read_int32
  info ← bin_read_info
  append_item list Trace.op_socket (Op.socket (record { retval = retval; info = info }))

unfoldable pub bin_read_sendfile : List Item → Reader (List Item)
bin_read_sendfile list = do
  out_fd ← read_int32
  in_fd ← read_int32
  offset ← read_int64
  size ← read_int64
  retval ← read_int64
  info ← bin_read_info
  append_item list Trace.op_sendfile (
      Op.sendfile (record {
        out_fd = out_fd;
        in_fd = in_fd;
        offset = offset;
        size = size;
        retval = retval;
        info = info;
      }))
