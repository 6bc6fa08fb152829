-- ===== src/Binary/Save.antt =====
-- Item saving: the functions `bin_save_*` of in_binary.c.
use ioapps.Base.{ℕ, length}
use ioapps.Binary.Stream.{Writer, ◌>>◌, write_char, write_int32, write_int64, write_string}
use ioapps.Trace
use ioapps.Trace.{OpInfo}

unfoldable pub bin_write_info : OpInfo → Writer
bin_write_info info = do
  write_int32 info.pid
  write_int32 info.dur
  write_int32 info.tv_sec
  write_int32 info.tv_usec

unfoldable pub bin_save_read : Trace.ReadOp → Writer
bin_save_read op = do
  write_char Trace.op_read
  write_int32 op.fd
  write_int64 op.size
  write_int64 op.retval
  bin_write_info op.info

unfoldable pub bin_save_write : Trace.WriteOp → Writer
bin_save_write op = do
  write_char Trace.op_write
  write_int32 op.fd
  write_int64 op.size
  write_int64 op.retval
  bin_write_info op.info

unfoldable pub bin_save_pread : Trace.PreadOp → Writer
bin_save_pread op = do
  write_char Trace.op_pread
  write_int32 op.fd
  write_int64 op.size
  write_int64 op.offset
  write_int64 op.retval
  bin_write_info op.info

unfoldable pub bin_save_pwrite : Trace.PwriteOp → Writer
bin_save_pwrite op = do
  write_char Trace.op_pwrite
  write_int32 op.fd
  write_int64 op.size
  write_int64 op.offset
  write_int64 op.retval
  bin_write_info op.info

unfoldable pub bin_save_open : Trace.OpenOp → Writer
bin_save_open op = do
  write_char Trace.op_open
  write_int32 (length op.name)
  write_string op.name
  write_int32 op.flags
  write_int32 op.mode
  write_int32 op.retval
  bin_write_info op.info

unfoldable pub bin_save_close : Trace.CloseOp → Writer
bin_save_close op = do
  write_char Trace.op_close
  write_int32 op.fd
  write_int32 op.retval
  bin_write_info op.info

unfoldable pub bin_save_unlink : Trace.UnlinkOp → Writer
bin_save_unlink op = do
  write_char Trace.op_unlink
  write_int32 (length op.name)
  write_string op.name
  write_int32 op.retval
  bin_write_info op.info

unfoldable pub bin_save_lseek : Trace.LseekOp → Writer
bin_save_lseek op = do
  write_char Trace.op_lseek
  write_int32 op.fd
  write_int32 op.flag
  write_int64 op.offset
  write_int64 op.retval
  bin_write_info op.info

unfoldable pub bin_save_llseek : Trace.LlseekOp → Writer
bin_save_llseek op = do
  write_char Trace.op_llseek
  write_int32 op.fd
  write_int64 op.offset
  write_int64 op.f_offset
  write_int32 op.flag
  write_int64 op.retval
  bin_write_info op.info

unfoldable pub bin_save_clone : Trace.CloneOp → Writer
bin_save_clone op = do
  write_char Trace.op_clone
  write_int32 op.mode
  write_int32 op.retval
  bin_write_info op.info

unfoldable pub bin_save_mkdir : Trace.MkdirOp → Writer
bin_save_mkdir op = do
  write_char Trace.op_mkdir
  write_int32 (length op.name)
  write_string op.name
  write_int32 op.mode
  write_int32 op.retval
  bin_write_info op.info

unfoldable pub bin_save_rmdir : Trace.RmdirOp → Writer
bin_save_rmdir op = do
  write_char Trace.op_mkdir
  write_int32 (length op.name)
  write_string op.name
  write_int32 op.retval
  bin_write_info op.info

unfoldable pub bin_save_dup : ℕ → Trace.DupOp → Writer
bin_save_dup c op = do
  write_char c
  write_int32 op.new_fd
  write_int32 op.old_fd
  write_int32 op.flags
  write_int32 op.retval
  bin_write_info op.info

unfoldable pub bin_save_pipe : Trace.PipeOp → Writer
bin_save_pipe op = do
  write_char Trace.op_pipe
  write_int32 op.fd1
  write_int32 op.fd2
  write_int32 op.mode
  write_int32 op.retval
  bin_write_info op.info

unfoldable pub bin_save_access : Trace.AccessOp → Writer
bin_save_access op = do
  write_char Trace.op_access
  write_int32 (length op.name)
  write_string op.name
  write_int32 op.mode
  write_int32 op.retval
  bin_write_info op.info

unfoldable pub bin_save_stat : Trace.StatOp → Writer
bin_save_stat op = do
  write_char Trace.op_stat
  write_int32 (length op.name)
  write_string op.name
  write_int32 op.retval
  bin_write_info op.info

unfoldable pub bin_save_socket : Trace.SocketOp → Writer
bin_save_socket op = do write_char Trace.op_socket; write_int32 op.retval; bin_write_info op.info

unfoldable pub bin_save_sendfile : Trace.SendfileOp → Writer
bin_save_sendfile op = do
  write_char Trace.op_sendfile
  write_int32 op.out_fd
  write_int32 op.in_fd
  write_int64 op.offset
  write_int64 op.size
  write_int64 op.retval
  bin_write_info op.info
