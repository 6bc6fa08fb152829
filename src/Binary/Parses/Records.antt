-- ===== src/Binary/Parses/Records.antt =====
-- Each item reader takes the fields of its operation, and appends the item to the list.
use ioapps.Base.{ℕ, List, [], ◌∷◌, ◌++◌, length, arith, ◌≢◌, refl, inl, inr}
use ioapps.Binary.Format.{IsName, IsOp, Announces, body}
use ioapps.Binary.Items.{read_item}
use ioapps.Binary.Parses.{
  Parses, Parses-bind, Parses-map, Parses-int32, Parses-int64, Parses-name, Parses-info,
}
use ioapps.Binary.Read
use ioapps.Binary.Stream.{read_int32, int32}
use ioapps.Trace
use ioapps.Trace.{Item, Op}

-- A length read back is that of the name.
Parses-length :
    (name : List ℕ) → IsName name → Parses read_int32 (int32 (length name)) (length name)
Parses-length name h = Parses-int32 (omega (arith, h.1))

abbrev append : List Item → ℕ → Op → List Item
append list c op = list ++ record { type = c; op = op } ∷ []

Parses-read :
    (list : List Item) (o : Trace.ReadOp)
    → IsOp (Op.read o)
    → Parses (Read.bin_read_read list) (body (Op.read o)) (append list Trace.op_read (Op.read o))
unfolding Read.bin_read_read body
Parses-read list o h = Parses-bind _ (Parses-int32 h.fd) (
    Parses-bind _ (Parses-int64 h.size)
      (Parses-bind _ (Parses-int64 h.retval) (Parses-map _ (Parses-info h.info))))

Parses-write :
    (list : List Item) (o : Trace.WriteOp)
    → IsOp (Op.write o)
    → Parses
        (Read.bin_read_write list)
        (body (Op.write o))
        (append list Trace.op_write (Op.write o))
unfolding Read.bin_read_write body
Parses-write list o h = Parses-bind _ (Parses-int32 h.fd) (
    Parses-bind _ (Parses-int64 h.size)
      (Parses-bind _ (Parses-int64 h.retval) (Parses-map _ (Parses-info h.info))))

Parses-pread :
    (list : List Item) (o : Trace.PreadOp)
    → IsOp (Op.pread o)
    → Parses
        (Read.bin_read_pread list)
        (body (Op.pread o))
        (append list Trace.op_pread (Op.pread o))
unfolding Read.bin_read_pread body
Parses-pread list o h = Parses-bind _ (Parses-int32 h.fd) (
    Parses-bind _ (Parses-int64 h.size) (
      Parses-bind _ (Parses-int64 h.offset)
        (Parses-bind _ (Parses-int64 h.retval) (Parses-map _ (Parses-info h.info)))))

Parses-pwrite :
    (list : List Item) (o : Trace.PwriteOp)
    → IsOp (Op.pwrite o)
    → Parses
        (Read.bin_read_pwrite list)
        (body (Op.pwrite o))
        (append list Trace.op_pwrite (Op.pwrite o))
unfolding Read.bin_read_pwrite body
Parses-pwrite list o h = Parses-bind _ (Parses-int32 h.fd) (
    Parses-bind _ (Parses-int64 h.size) (
      Parses-bind _ (Parses-int64 h.offset)
        (Parses-bind _ (Parses-int64 h.retval) (Parses-map _ (Parses-info h.info)))))

Parses-open :
    (list : List Item) (o : Trace.OpenOp)
    → IsOp (Op.open_file o)
    → Parses
        (Read.bin_read_open list)
        (body (Op.open_file o))
        (append list Trace.op_open (Op.open_file o))
unfolding Read.bin_read_open body
Parses-open list o h = Parses-bind _ (Parses-length _ h.name) (
    Parses-bind _ (Parses-name h.name) (
      Parses-bind _ (Parses-int32 h.flags) (
        Parses-bind _ (Parses-int32 h.mode)
          (Parses-bind _ (Parses-int32 h.retval) (Parses-map _ (Parses-info h.info))))))

Parses-close :
    (list : List Item) (o : Trace.CloseOp)
    → IsOp (Op.close o)
    → Parses
        (Read.bin_read_close list)
        (body (Op.close o))
        (append list Trace.op_close (Op.close o))
unfolding Read.bin_read_close body
Parses-close list o h =
    Parses-bind _ (Parses-int32 h.fd)
      (Parses-bind _ (Parses-int32 h.retval) (Parses-map _ (Parses-info h.info)))

Parses-unlink :
    (list : List Item) (o : Trace.UnlinkOp)
    → IsOp (Op.unlink o)
    → Parses
        (Read.bin_read_unlink list)
        (body (Op.unlink o))
        (append list Trace.op_unlink (Op.unlink o))
unfolding Read.bin_read_unlink body
Parses-unlink list o h = Parses-bind _ (Parses-length _ h.name) (
    Parses-bind _ (Parses-name h.name)
      (Parses-bind _ (Parses-int32 h.retval) (Parses-map _ (Parses-info h.info))))

Parses-lseek :
    (list : List Item) (o : Trace.LseekOp)
    → IsOp (Op.lseek o)
    → Parses
        (Read.bin_read_lseek list)
        (body (Op.lseek o))
        (append list Trace.op_lseek (Op.lseek o))
unfolding Read.bin_read_lseek body
Parses-lseek list o h = Parses-bind _ (Parses-int32 h.fd) (
    Parses-bind _ (Parses-int32 h.flag) (
      Parses-bind _ (Parses-int64 h.offset)
        (Parses-bind _ (Parses-int64 h.retval) (Parses-map _ (Parses-info h.info)))))

Parses-llseek :
    (list : List Item) (o : Trace.LlseekOp)
    → IsOp (Op.llseek o)
    → Parses
        (Read.bin_read_llseek list)
        (body (Op.llseek o))
        (append list Trace.op_llseek (Op.llseek o))
unfolding Read.bin_read_llseek body
Parses-llseek list o h = Parses-bind _ (Parses-int32 h.fd) (
    Parses-bind _ (Parses-int64 h.offset) (
      Parses-bind _ (Parses-int64 h.f_offset) (
        Parses-bind _ (Parses-int32 h.flag)
          (Parses-bind _ (Parses-int64 h.retval) (Parses-map _ (Parses-info h.info))))))

Parses-clone :
    (list : List Item) (o : Trace.CloneOp)
    → IsOp (Op.clone o)
    → Parses
        (Read.bin_read_clone list)
        (body (Op.clone o))
        (append list Trace.op_clone (Op.clone o))
unfolding Read.bin_read_clone body
Parses-clone list o h =
    Parses-bind _ (Parses-int32 h.mode)
      (Parses-bind _ (Parses-int32 h.retval) (Parses-map _ (Parses-info h.info)))

Parses-mkdir :
    (list : List Item) (o : Trace.MkdirOp)
    → IsOp (Op.mkdir o)
    → Parses
        (Read.bin_read_mkdir list)
        (body (Op.mkdir o))
        (append list Trace.op_mkdir (Op.mkdir o))
unfolding Read.bin_read_mkdir body
Parses-mkdir list o h = Parses-bind _ (Parses-length _ h.name) (
    Parses-bind _ (Parses-name h.name) (
      Parses-bind _ (Parses-int32 h.mode)
        (Parses-bind _ (Parses-int32 h.retval) (Parses-map _ (Parses-info h.info)))))

Parses-dup :
    (c : ℕ) (list : List Item) (o : Trace.DupOp)
    → IsOp (Op.dup o)
    → Parses (Read.bin_read_dup c list) (body (Op.dup o)) (append list c (Op.dup o))
unfolding Read.bin_read_dup body
Parses-dup c list o h = Parses-bind _ (Parses-int32 h.new_fd) (
    Parses-bind _ (Parses-int32 h.old_fd) (
      Parses-bind _ (Parses-int32 h.flags)
        (Parses-bind _ (Parses-int32 h.retval) (Parses-map _ (Parses-info h.info)))))

Parses-pipe :
    (list : List Item) (o : Trace.PipeOp)
    → IsOp (Op.pipe o)
    → Parses (Read.bin_read_pipe list) (body (Op.pipe o)) (append list Trace.op_pipe (Op.pipe o))
unfolding Read.bin_read_pipe body
Parses-pipe list o h = Parses-bind _ (Parses-int32 h.fd1) (
    Parses-bind _ (Parses-int32 h.fd2) (
      Parses-bind _ (Parses-int32 h.mode)
        (Parses-bind _ (Parses-int32 h.retval) (Parses-map _ (Parses-info h.info)))))

Parses-access :
    (list : List Item) (o : Trace.AccessOp)
    → IsOp (Op.access o)
    → Parses
        (Read.bin_read_access list)
        (body (Op.access o))
        (append list Trace.op_access (Op.access o))
unfolding Read.bin_read_access body
Parses-access list o h = Parses-bind _ (Parses-length _ h.name) (
    Parses-bind _ (Parses-name h.name) (
      Parses-bind _ (Parses-int32 h.mode)
        (Parses-bind _ (Parses-int32 h.retval) (Parses-map _ (Parses-info h.info)))))

Parses-stat :
    (list : List Item) (o : Trace.StatOp)
    → IsOp (Op.stat o)
    → Parses (Read.bin_read_stat list) (body (Op.stat o)) (append list Trace.op_stat (Op.stat o))
unfolding Read.bin_read_stat body
Parses-stat list o h = Parses-bind _ (Parses-length _ h.name) (
    Parses-bind _ (Parses-name h.name)
      (Parses-bind _ (Parses-int32 h.retval) (Parses-map _ (Parses-info h.info))))

Parses-socket :
    (list : List Item) (o : Trace.SocketOp)
    → IsOp (Op.socket o)
    → Parses
        (Read.bin_read_socket list)
        (body (Op.socket o))
        (append list Trace.op_socket (Op.socket o))
unfolding Read.bin_read_socket body
Parses-socket list o h = Parses-bind _ (Parses-int32 h.retval) (Parses-map _ (Parses-info h.info))

Parses-sendfile :
    (list : List Item) (o : Trace.SendfileOp)
    → IsOp (Op.sendfile o)
    → Parses
        (Read.bin_read_sendfile list)
        (body (Op.sendfile o))
        (append list Trace.op_sendfile (Op.sendfile o))
unfolding Read.bin_read_sendfile body
Parses-sendfile list o h = Parses-bind _ (Parses-int32 h.out_fd) (
    Parses-bind _ (Parses-int32 h.in_fd) (
      Parses-bind _ (Parses-int64 h.offset) (
        Parses-bind _ (Parses-int64 h.size)
          (Parses-bind _ (Parses-int64 h.retval) (Parses-map _ (Parses-info h.info))))))

-- The character and the fields of an operation, other than a rmdir, are read as its item.
pub Parses-item :
    (c : ℕ) (op : Op) (list : List Item)
    → Announces c op
    → IsOp op
    → ((o : Trace.RmdirOp) → op ≢ Op.rmdir o)
    → Parses (read_item c list) (body op) (append list c op)
unfolding read_item
Parses-item c (Op.read o) list e h q = rw e (Parses-read list o h)
Parses-item c (Op.write o) list e h q = rw e (Parses-write list o h)
Parses-item c (Op.pread o) list e h q = rw e (Parses-pread list o h)
Parses-item c (Op.pwrite o) list e h q = rw e (Parses-pwrite list o h)
Parses-item c (Op.open_file o) list e h q = rw e (Parses-open list o h)
Parses-item c (Op.close o) list e h q = rw e (Parses-close list o h)
Parses-item c (Op.unlink o) list e h q = rw e (Parses-unlink list o h)
Parses-item c (Op.lseek o) list e h q = rw e (Parses-lseek list o h)
Parses-item c (Op.llseek o) list e h q = rw e (Parses-llseek list o h)
Parses-item c (Op.clone o) list e h q = rw e (Parses-clone list o h)
Parses-item c (Op.mkdir o) list e h q = rw e (Parses-mkdir list o h)
Parses-item c (Op.dup o) list e h q = elim e [
  | inl d ↦ rw d (Parses-dup _ list o h)
  | inr (inl d) ↦ rw d (Parses-dup _ list o h)
  | inr (inr d) ↦ rw d (Parses-dup _ list o h)
]
Parses-item c (Op.pipe o) list e h q = rw e (Parses-pipe list o h)
Parses-item c (Op.access o) list e h q = rw e (Parses-access list o h)
Parses-item c (Op.stat o) list e h q = rw e (Parses-stat list o h)
Parses-item c (Op.socket o) list e h q = rw e (Parses-socket list o h)
Parses-item c (Op.sendfile o) list e h q = rw e (Parses-sendfile list o h)
Parses-item c (Op.rmdir o) list e h q = absurd (q o refl)
