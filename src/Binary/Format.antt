-- ===== src/Binary/Format.antt =====
-- The wire format, written independently of the code: the type character and then the fields,
-- little endian, a name behind its length. Also, which operations fit it.
use ioapps.Base.{ℕ, ◌^◌, ◌<◌, List, ◌++◌, length, All, ◌≡◌, ◌≢◌, ◌⊎◌, [], ◌∷◌}
use ioapps.Binary.Stream.{int32, int64, max_string}
use ioapps.Trace
use ioapps.Trace.{Op, OpInfo, Item}

abbrev pub IsInt32 : ℕ → Type 0
IsInt32 v = v < 2 ^ 32

abbrev pub IsInt64 : ℕ → Type 0
IsInt64 v = v < 2 ^ 64

-- The characters of a C string that, with its NUL, fits an array of MAX_STRING.
abbrev pub IsName : List ℕ → Type 0
IsName name = All (λ c. 0 < c) name × (length name < max_string)

pub record IsInfo (i : OpInfo) : Type 0 where
  pub pid : IsInt32 i.pid
  pub dur : IsInt32 i.dur
  pub tv_sec : IsInt32 i.tv_sec
  pub tv_usec : IsInt32 i.tv_usec

abbrev pub info_bytes : OpInfo → List ℕ
info_bytes i = int32 i.pid ++ (int32 i.dur ++ (int32 i.tv_sec ++ int32 i.tv_usec))

abbrev pub name_bytes : List ℕ → List ℕ
name_bytes name = int32 (length name) ++ name

pub record IsReadOp (o : Trace.ReadOp) : Type 0 where
  pub fd : IsInt32 o.fd
  pub size : IsInt64 o.size
  pub retval : IsInt64 o.retval
  pub info : IsInfo o.info

pub record IsWriteOp (o : Trace.WriteOp) : Type 0 where
  pub fd : IsInt32 o.fd
  pub size : IsInt64 o.size
  pub retval : IsInt64 o.retval
  pub info : IsInfo o.info

pub record IsPreadOp (o : Trace.PreadOp) : Type 0 where
  pub fd : IsInt32 o.fd
  pub size : IsInt64 o.size
  pub offset : IsInt64 o.offset
  pub retval : IsInt64 o.retval
  pub info : IsInfo o.info

pub record IsPwriteOp (o : Trace.PwriteOp) : Type 0 where
  pub fd : IsInt32 o.fd
  pub size : IsInt64 o.size
  pub offset : IsInt64 o.offset
  pub retval : IsInt64 o.retval
  pub info : IsInfo o.info

pub record IsOpenOp (o : Trace.OpenOp) : Type 0 where
  pub name : IsName o.name
  pub flags : IsInt32 o.flags
  pub mode : IsInt32 o.mode
  pub retval : IsInt32 o.retval
  pub info : IsInfo o.info

pub record IsCloseOp (o : Trace.CloseOp) : Type 0 where
  pub fd : IsInt32 o.fd
  pub retval : IsInt32 o.retval
  pub info : IsInfo o.info

pub record IsUnlinkOp (o : Trace.UnlinkOp) : Type 0 where
  pub name : IsName o.name
  pub retval : IsInt32 o.retval
  pub info : IsInfo o.info

pub record IsLseekOp (o : Trace.LseekOp) : Type 0 where
  pub fd : IsInt32 o.fd
  pub flag : IsInt32 o.flag
  pub offset : IsInt64 o.offset
  pub retval : IsInt64 o.retval
  pub info : IsInfo o.info

pub record IsLlseekOp (o : Trace.LlseekOp) : Type 0 where
  pub fd : IsInt32 o.fd
  pub offset : IsInt64 o.offset
  pub f_offset : IsInt64 o.f_offset
  pub flag : IsInt32 o.flag
  pub retval : IsInt64 o.retval
  pub info : IsInfo o.info

pub record IsCloneOp (o : Trace.CloneOp) : Type 0 where
  pub mode : IsInt32 o.mode
  pub retval : IsInt32 o.retval
  pub info : IsInfo o.info

pub record IsMkdirOp (o : Trace.MkdirOp) : Type 0 where
  pub name : IsName o.name
  pub mode : IsInt32 o.mode
  pub retval : IsInt32 o.retval
  pub info : IsInfo o.info

pub record IsRmdirOp (o : Trace.RmdirOp) : Type 0 where
  pub name : IsName o.name
  pub retval : IsInt32 o.retval
  pub info : IsInfo o.info

pub record IsDupOp (o : Trace.DupOp) : Type 0 where
  pub new_fd : IsInt32 o.new_fd
  pub old_fd : IsInt32 o.old_fd
  pub flags : IsInt32 o.flags
  pub retval : IsInt32 o.retval
  pub info : IsInfo o.info

pub record IsPipeOp (o : Trace.PipeOp) : Type 0 where
  pub fd1 : IsInt32 o.fd1
  pub fd2 : IsInt32 o.fd2
  pub mode : IsInt32 o.mode
  pub retval : IsInt32 o.retval
  pub info : IsInfo o.info

pub record IsAccessOp (o : Trace.AccessOp) : Type 0 where
  pub name : IsName o.name
  pub mode : IsInt32 o.mode
  pub retval : IsInt32 o.retval
  pub info : IsInfo o.info

pub record IsStatOp (o : Trace.StatOp) : Type 0 where
  pub name : IsName o.name
  pub retval : IsInt32 o.retval
  pub info : IsInfo o.info

pub record IsSocketOp (o : Trace.SocketOp) : Type 0 where
  pub retval : IsInt32 o.retval
  pub info : IsInfo o.info

pub record IsSendfileOp (o : Trace.SendfileOp) : Type 0 where
  pub out_fd : IsInt32 o.out_fd
  pub in_fd : IsInt32 o.in_fd
  pub offset : IsInt64 o.offset
  pub size : IsInt64 o.size
  pub retval : IsInt64 o.retval
  pub info : IsInfo o.info

-- The fields of an operation.
unfoldable pub body : Op → List ℕ
body (Op.read o) = int32 o.fd ++ (int64 o.size ++ (int64 o.retval ++ info_bytes o.info))
body (Op.write o) = int32 o.fd ++ (int64 o.size ++ (int64 o.retval ++ info_bytes o.info))
body (Op.pread o) =
    int32 o.fd ++ (int64 o.size ++ (int64 o.offset ++ (int64 o.retval ++ info_bytes o.info)))
body (Op.pwrite o) =
    int32 o.fd ++ (int64 o.size ++ (int64 o.offset ++ (int64 o.retval ++ info_bytes o.info)))
body (Op.open_file o) =
    int32 (length o.name)
    ++ (o.name ++ (int32 o.flags ++ (int32 o.mode ++ (int32 o.retval ++ info_bytes o.info))))
body (Op.close o) = int32 o.fd ++ (int32 o.retval ++ info_bytes o.info)
body (Op.unlink o) = int32 (length o.name) ++ (o.name ++ (int32 o.retval ++ info_bytes o.info))
body (Op.lseek o) =
    int32 o.fd ++ (int32 o.flag ++ (int64 o.offset ++ (int64 o.retval ++ info_bytes o.info)))
body (Op.llseek o) =
    int32 o.fd
    ++ (int64 o.offset
        ++ (int64 o.f_offset ++ (int32 o.flag ++ (int64 o.retval ++ info_bytes o.info))))
body (Op.clone o) = int32 o.mode ++ (int32 o.retval ++ info_bytes o.info)
body (Op.mkdir o) =
    int32 (length o.name) ++ (o.name ++ (int32 o.mode ++ (int32 o.retval ++ info_bytes o.info)))
body (Op.rmdir o) = int32 (length o.name) ++ (o.name ++ (int32 o.retval ++ info_bytes o.info))
body (Op.dup o) =
    int32 o.new_fd ++ (int32 o.old_fd ++ (int32 o.flags ++ (int32 o.retval ++ info_bytes o.info)))
body (Op.pipe o) =
    int32 o.fd1 ++ (int32 o.fd2 ++ (int32 o.mode ++ (int32 o.retval ++ info_bytes o.info)))
body (Op.access o) =
    int32 (length o.name) ++ (o.name ++ (int32 o.mode ++ (int32 o.retval ++ info_bytes o.info)))
body (Op.stat o) = int32 (length o.name) ++ (o.name ++ (int32 o.retval ++ info_bytes o.info))
body (Op.socket o) = int32 o.retval ++ info_bytes o.info
body (Op.sendfile o) =
    int32 o.out_fd
    ++ (int32 o.in_fd
        ++ (int64 o.offset ++ (int64 o.size ++ (int64 o.retval ++ info_bytes o.info))))

abbrev pub IsOp : Op → Type 0
IsOp (Op.read o) = IsReadOp o
IsOp (Op.write o) = IsWriteOp o
IsOp (Op.pread o) = IsPreadOp o
IsOp (Op.pwrite o) = IsPwriteOp o
IsOp (Op.open_file o) = IsOpenOp o
IsOp (Op.close o) = IsCloseOp o
IsOp (Op.unlink o) = IsUnlinkOp o
IsOp (Op.lseek o) = IsLseekOp o
IsOp (Op.llseek o) = IsLlseekOp o
IsOp (Op.clone o) = IsCloneOp o
IsOp (Op.mkdir o) = IsMkdirOp o
IsOp (Op.rmdir o) = IsRmdirOp o
IsOp (Op.dup o) = IsDupOp o
IsOp (Op.pipe o) = IsPipeOp o
IsOp (Op.access o) = IsAccessOp o
IsOp (Op.stat o) = IsStatOp o
IsOp (Op.socket o) = IsSocketOp o
IsOp (Op.sendfile o) = IsSendfileOp o

-- The character that announces an operation.
abbrev pub Announces : ℕ → Op → Type 0
Announces c (Op.read o) = c ≡ Trace.op_read
Announces c (Op.write o) = c ≡ Trace.op_write
Announces c (Op.pread o) = c ≡ Trace.op_pread
Announces c (Op.pwrite o) = c ≡ Trace.op_pwrite
Announces c (Op.open_file o) = c ≡ Trace.op_open
Announces c (Op.close o) = c ≡ Trace.op_close
Announces c (Op.unlink o) = c ≡ Trace.op_unlink
Announces c (Op.lseek o) = c ≡ Trace.op_lseek
Announces c (Op.llseek o) = c ≡ Trace.op_llseek
Announces c (Op.clone o) = c ≡ Trace.op_clone
Announces c (Op.mkdir o) = c ≡ Trace.op_mkdir
Announces c (Op.rmdir o) = c ≡ Trace.op_rmdir
Announces c (Op.dup o) = (c ≡ Trace.op_dup) ⊎ (c ≡ Trace.op_dup2) ⊎ (c ≡ Trace.op_dup3)
Announces c (Op.pipe o) = c ≡ Trace.op_pipe
Announces c (Op.access o) = c ≡ Trace.op_access
Announces c (Op.stat o) = c ≡ Trace.op_stat
Announces c (Op.socket o) = c ≡ Trace.op_socket
Announces c (Op.sendfile o) = c ≡ Trace.op_sendfile

-- A well-formed item other than a rmdir, which in_binary.c writes under the character of mkdir.
pub record IsItem (it : Item) : Type 0 where
  pub tag : Announces it.type it.op
  pub fields : IsOp it.op
  pub kept : (o : Trace.RmdirOp) → it.op ≢ Op.rmdir o

abbrev pub IsTrace : List Item → Type 0
IsTrace items = All IsItem items

-- An item in the file, and a trace.
unfoldable pub encode : Item → List ℕ
encode it = it.type ∷ body it.op

unfoldable pub encode_all : List Item → List ℕ
encode_all [] = []
encode_all (it ∷ items) = encode it ++ encode_all items
