-- ===== src/Trace.antt =====
-- The operations of a trace: the structures of common.h and the list items of in_common.h.
-- An int32_t, int64_t or mode_t is kept as its bit pattern; a name is the C string that the
-- array holds, without its NUL.
use ioapps.Base.{ℕ, List}

-- `struct op_info`, with `struct int32timeval` spelt out in `tv_sec` and `tv_usec`.
pub record OpInfo : Type 0 where
  pub pid : ℕ
  pub dur : ℕ
  pub tv_sec : ℕ
  pub tv_usec : ℕ

pub record ReadOp : Type 0 where
  pub fd : ℕ
  pub size : ℕ
  pub retval : ℕ
  pub info : OpInfo

pub record WriteOp : Type 0 where
  pub fd : ℕ
  pub size : ℕ
  pub retval : ℕ
  pub info : OpInfo

pub record PreadOp : Type 0 where
  pub fd : ℕ
  pub size : ℕ
  pub offset : ℕ
  pub retval : ℕ
  pub info : OpInfo

pub record PwriteOp : Type 0 where
  pub fd : ℕ
  pub size : ℕ
  pub offset : ℕ
  pub retval : ℕ
  pub info : OpInfo

pub record PipeOp : Type 0 where
  pub fd1 : ℕ
  pub fd2 : ℕ
  pub mode : ℕ
  pub retval : ℕ
  pub info : OpInfo

pub record MkdirOp : Type 0 where
  pub name : List ℕ
  pub mode : ℕ
  pub retval : ℕ
  pub info : OpInfo

pub record RmdirOp : Type 0 where
  pub name : List ℕ
  pub retval : ℕ
  pub info : OpInfo

pub record CloneOp : Type 0 where
  pub mode : ℕ
  pub retval : ℕ
  pub info : OpInfo

pub record DupOp : Type 0 where
  pub new_fd : ℕ
  pub old_fd : ℕ
  pub flags : ℕ
  pub retval : ℕ
  pub info : OpInfo

pub record OpenOp : Type 0 where
  pub name : List ℕ
  pub flags : ℕ
  pub mode : ℕ
  pub retval : ℕ
  pub info : OpInfo

pub record CloseOp : Type 0 where
  pub fd : ℕ
  pub retval : ℕ
  pub info : OpInfo

pub record UnlinkOp : Type 0 where
  pub name : List ℕ
  pub retval : ℕ
  pub info : OpInfo

pub record LlseekOp : Type 0 where
  pub fd : ℕ
  pub offset : ℕ
  pub f_offset : ℕ
  pub flag : ℕ
  pub retval : ℕ
  pub info : OpInfo

pub record LseekOp : Type 0 where
  pub fd : ℕ
  pub flag : ℕ
  pub offset : ℕ
  pub retval : ℕ
  pub info : OpInfo

pub record AccessOp : Type 0 where
  pub name : List ℕ
  pub mode : ℕ
  pub retval : ℕ
  pub info : OpInfo

pub record StatOp : Type 0 where
  pub name : List ℕ
  pub retval : ℕ
  pub info : OpInfo

pub record SocketOp : Type 0 where
  pub retval : ℕ
  pub info : OpInfo

pub record SendfileOp : Type 0 where
  pub out_fd : ℕ
  pub in_fd : ℕ
  pub offset : ℕ
  pub size : ℕ
  pub retval : ℕ
  pub info : OpInfo

-- The structure behind an item pointer, one constructor for each `*_item_t`.
pub data Op : Type 0 where
  read : ReadOp → Op
  write : WriteOp → Op
  pread : PreadOp → Op
  pwrite : PwriteOp → Op
  pipe : PipeOp → Op
  mkdir : MkdirOp → Op
  rmdir : RmdirOp → Op
  clone : CloneOp → Op
  dup : DupOp → Op
  open_file : OpenOp → Op
  close : CloseOp → Op
  unlink : UnlinkOp → Op
  llseek : LlseekOp → Op
  lseek : LseekOp → Op
  access : AccessOp → Op
  stat : StatOp → Op
  socket : SocketOp → Op
  sendfile : SendfileOp → Op

-- `common_op_item_t`: the type character by which a reader of the list casts the item.
pub record Item : Type 0 where
  pub type : ℕ
  pub op : Op

-- The operation identifiers `OP_*`.
abbrev pub op_write : ℕ
op_write = b'w'

abbrev pub op_pwrite : ℕ
op_pwrite = b'W'

abbrev pub op_read : ℕ
op_read = b'r'

abbrev pub op_pread : ℕ
op_pread = b'P'

abbrev pub op_access : ℕ
op_access = b'a'

abbrev pub op_close : ℕ
op_close = b'c'

abbrev pub op_open : ℕ
op_open = b'o'

abbrev pub op_unlink : ℕ
op_unlink = b'u'

abbrev pub op_lseek : ℕ
op_lseek = b'l'

abbrev pub op_llseek : ℕ
op_llseek = b'L'

abbrev pub op_pipe : ℕ
op_pipe = b'p'

abbrev pub op_dup : ℕ
op_dup = b'd'

abbrev pub op_dup2 : ℕ
op_dup2 = b'D'

abbrev pub op_dup3 : ℕ
op_dup3 = b'e'

abbrev pub op_mkdir : ℕ
op_mkdir = b'M'

abbrev pub op_rmdir : ℕ
op_rmdir = b'i'

abbrev pub op_clone : ℕ
op_clone = b'C'

abbrev pub op_socket : ℕ
op_socket = b'S'

abbrev pub op_stat : ℕ
op_stat = b's'

abbrev pub op_sendfile : ℕ
op_sendfile = b't'
