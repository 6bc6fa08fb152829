-- ===== src/Binary/Written/Records.antt =====
-- Each saving function writes the type character and the fields of its operation.
use ioapps.Base.{ℕ, ◌≡◌, ◌≢◌, refl, inl, inr, ◌∷◌}
use ioapps.Binary.Format.{body, Announces, info_bytes}
use ioapps.Binary.Items.{save_item}
use ioapps.Binary.Save
use ioapps.Binary.Stream.{fwrite}
use ioapps.Binary.Written.{fwrite-append}
use ioapps.Trace
use ioapps.Trace.{Item, Op, OpInfo}

info_lem : (i : OpInfo) → Save.bin_write_info i ≡ fwrite (info_bytes i)
unfolding Save.bin_write_info
info_lem i = simp fwrite-append

write_lem :
    (o : Trace.WriteOp) → Save.bin_save_write o ≡ fwrite (Trace.op_write ∷ body (Op.write o))
unfolding Save.bin_save_write body
write_lem o = simp (fwrite-append, info_lem)

read_lem : (o : Trace.ReadOp) → Save.bin_save_read o ≡ fwrite (Trace.op_read ∷ body (Op.read o))
unfolding Save.bin_save_read body
read_lem o = simp (fwrite-append, info_lem)

pwrite_lem :
    (o : Trace.PwriteOp) → Save.bin_save_pwrite o ≡ fwrite (Trace.op_pwrite ∷ body (Op.pwrite o))
unfolding Save.bin_save_pwrite body
pwrite_lem o = simp (fwrite-append, info_lem)

pread_lem :
    (o : Trace.PreadOp) → Save.bin_save_pread o ≡ fwrite (Trace.op_pread ∷ body (Op.pread o))
unfolding Save.bin_save_pread body
pread_lem o = simp (fwrite-append, info_lem)

open_lem :
    (o : Trace.OpenOp) → Save.bin_save_open o ≡ fwrite (Trace.op_open ∷ body (Op.open_file o))
unfolding Save.bin_save_open body
open_lem o = simp (fwrite-append, info_lem)

close_lem :
    (o : Trace.CloseOp) → Save.bin_save_close o ≡ fwrite (Trace.op_close ∷ body (Op.close o))
unfolding Save.bin_save_close body
close_lem o = simp (fwrite-append, info_lem)

unlink_lem :
    (o : Trace.UnlinkOp) → Save.bin_save_unlink o ≡ fwrite (Trace.op_unlink ∷ body (Op.unlink o))
unfolding Save.bin_save_unlink body
unlink_lem o = simp (fwrite-append, info_lem)

lseek_lem :
    (o : Trace.LseekOp) → Save.bin_save_lseek o ≡ fwrite (Trace.op_lseek ∷ body (Op.lseek o))
unfolding Save.bin_save_lseek body
lseek_lem o = simp (fwrite-append, info_lem)

llseek_lem :
    (o : Trace.LlseekOp) → Save.bin_save_llseek o ≡ fwrite (Trace.op_llseek ∷ body (Op.llseek o))
unfolding Save.bin_save_llseek body
llseek_lem o = simp (fwrite-append, info_lem)

clone_lem :
    (o : Trace.CloneOp) → Save.bin_save_clone o ≡ fwrite (Trace.op_clone ∷ body (Op.clone o))
unfolding Save.bin_save_clone body
clone_lem o = simp (fwrite-append, info_lem)

mkdir_lem :
    (o : Trace.MkdirOp) → Save.bin_save_mkdir o ≡ fwrite (Trace.op_mkdir ∷ body (Op.mkdir o))
unfolding Save.bin_save_mkdir body
mkdir_lem o = simp (fwrite-append, info_lem)

dup_lem : (c : ℕ) (o : Trace.DupOp) → Save.bin_save_dup c o ≡ fwrite (c ∷ body (Op.dup o))
unfolding Save.bin_save_dup body
dup_lem c o = simp (fwrite-append, info_lem)

pipe_lem : (o : Trace.PipeOp) → Save.bin_save_pipe o ≡ fwrite (Trace.op_pipe ∷ body (Op.pipe o))
unfolding Save.bin_save_pipe body
pipe_lem o = simp (fwrite-append, info_lem)

access_lem :
    (o : Trace.AccessOp) → Save.bin_save_access o ≡ fwrite (Trace.op_access ∷ body (Op.access o))
unfolding Save.bin_save_access body
access_lem o = simp (fwrite-append, info_lem)

stat_lem : (o : Trace.StatOp) → Save.bin_save_stat o ≡ fwrite (Trace.op_stat ∷ body (Op.stat o))
unfolding Save.bin_save_stat body
stat_lem o = simp (fwrite-append, info_lem)

socket_lem :
    (o : Trace.SocketOp) → Save.bin_save_socket o ≡ fwrite (Trace.op_socket ∷ body (Op.socket o))
unfolding Save.bin_save_socket body
socket_lem o = simp (fwrite-append, info_lem)

sendfile_lem :
    (o : Trace.SendfileOp)
    → Save.bin_save_sendfile o ≡ fwrite (Trace.op_sendfile ∷ body (Op.sendfile o))
unfolding Save.bin_save_sendfile body
sendfile_lem o = simp (fwrite-append, info_lem)

-- A rmdir is written under the character of mkdir.
pub rmdir_lem :
    (o : Trace.RmdirOp) → Save.bin_save_rmdir o ≡ fwrite (Trace.op_mkdir ∷ body (Op.rmdir o))
unfolding Save.bin_save_rmdir body
rmdir_lem o = simp (fwrite-append, info_lem)

-- Saving an item, other than a rmdir, writes its type character and its fields.
pub save_item_lem :
    (c : ℕ) (op : Op)
    → Announces c op
    → ((o : Trace.RmdirOp) → op ≢ Op.rmdir o)
    → save_item c op ≡ fwrite (c ∷ body op)
unfolding save_item
save_item_lem c (Op.write o) e q = rw e (write_lem o)
save_item_lem c (Op.read o) e q = rw e (read_lem o)
save_item_lem c (Op.pwrite o) e q = rw e (pwrite_lem o)
save_item_lem c (Op.pread o) e q = rw e (pread_lem o)
save_item_lem c (Op.open_file o) e q = rw e (open_lem o)
save_item_lem c (Op.close o) e q = rw e (close_lem o)
save_item_lem c (Op.unlink o) e q = rw e (unlink_lem o)
save_item_lem c (Op.lseek o) e q = rw e (lseek_lem o)
save_item_lem c (Op.llseek o) e q = rw e (llseek_lem o)
save_item_lem c (Op.clone o) e q = rw e (clone_lem o)
save_item_lem c (Op.mkdir o) e q = rw e (mkdir_lem o)
save_item_lem c (Op.dup o) e q = elim e [
  | inl d ↦ rw d (dup_lem _ o)
  | inr (inl d) ↦ rw d (dup_lem _ o)
  | inr (inr d) ↦ rw d (dup_lem _ o)
]
save_item_lem c (Op.pipe o) e q = rw e (pipe_lem o)
save_item_lem c (Op.access o) e q = rw e (access_lem o)
save_item_lem c (Op.stat o) e q = rw e (stat_lem o)
save_item_lem c (Op.socket o) e q = rw e (socket_lem o)
save_item_lem c (Op.sendfile o) e q = rw e (sendfile_lem o)
save_item_lem c (Op.rmdir o) e q = absurd (q o refl)
