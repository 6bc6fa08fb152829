-- ===== src/Binary/Damage/Rmdir.antt =====
-- The rmdir items of a trace, which in_binary.c writes and reads under the character of mkdir.
use ioapps.Base.{
  ℕ, ◌+◌, ◌≤◌, ◌≡◌, refl, ap, ◌∙◌, List, [], ◌∷◌, ◌++◌, append_assoc, append-nil, length,
  length-append, fun_ext, ◌-◌, some, arith,
}
use ioapps.Binary.Format.{body, encode, encode_all, IsTrace, IsRmdirOp, IsInt32}
use ioapps.Binary.Items.{
  error, read_item, save_item, save_items_loop, bin_get_items, bin_save_items,
}
use ioapps.Binary.Parses.{Parses-int32, Parses-name}
use ioapps.Binary.Read
use ioapps.Binary.RoundTrip.{get-trace}
use ioapps.Binary.Stream.{Outcome, got, Out, done, Written, fwrite, resume, int32, read_int32}
use ioapps.Binary.Written.{fwrite-append, fwrite_fits}
use ioapps.Binary.Written.Records.{rmdir_lem, save_item_lem}
use ioapps.Binary.Damage.{loop_refused}
use ioapps.Trace
use ioapps.Trace.{Item, Op}

abbrev rmdir_item : Trace.RmdirOp → Item
rmdir_item o = record { type = Trace.op_rmdir; op = Op.rmdir o }

int32_end : {v : ℕ} → IsInt32 v → read_int32 (int32 v) ≡ got (v, [])
int32_end h = rw append-nil at ((Parses-int32 h).run [])

int32_none : read_int32 [] ≡ Outcome.failed
unfolding read_int32
int32_none = refl

-- The fields of a rmdir are four bytes short of those of a mkdir.
mkdir_short :
    (list : List Item) (o : Trace.RmdirOp)
    → IsRmdirOp o
    → Read.bin_read_mkdir list (body (Op.rmdir o)) ≡ Outcome.failed
unfolding Read.bin_read_mkdir Read.bin_read_info body
mkdir_short list o h =
    let len : IsInt32 (length o.name) = omega (arith, h.name.1) in
    rw (
      (Parses-int32 len).run _,
      (Parses-name h.name).run _,
      (Parses-int32 h.retval).run _,
      (Parses-int32 h.info.pid).run _,
      (Parses-int32 h.info.dur).run _,
      (Parses-int32 h.info.tv_sec).run _,
      int32_end h.info.tv_usec,
      int32_none,
    )

resume-done : (w : Written) → resume (λ out. done out) w ≡ w
resume-done (done out) = refl
resume-done (Written.failed out) = refl
resume-done Written.fault = refl

-- What is written of a trace with a rmdir behind it.
save_last :
    (items : List Item) (o : Trace.RmdirOp)
    → IsTrace items
    → save_items_loop (items ++ rmdir_item o ∷ [])
      ≡ fwrite (encode_all items ++ (Trace.op_mkdir ∷ body (Op.rmdir o)))
unfolding save_items_loop encode_all encode save_item
save_last [] o h = fun_ext λ out. rw (rmdir_lem o) (resume-done _)
save_last (it ∷ items) o h =
    let one = save_item_lem it.type it.op h.0.tag h.0.kept in
    rw
      (
        one,
        save_last items o h.1,
        append_assoc (encode it) (encode_all items) (Trace.op_mkdir ∷ body (Op.rmdir o)),
      )
      (fwrite-append _ _)

-- A trace whose last item is a rmdir, behind well-formed items of other kinds, is saved with success
-- on a new file with enough room, and `bin_get_items` of that file fails: it ends with -1, with the
-- other items and without the rmdir.
pub rmdir_lost :
    (items : List Item) (o : Trace.RmdirOp) (room : ℕ)
    → IsTrace items
    → IsRmdirOp o
    → length (encode_all items) + length (encode (rmdir_item o)) ≤ room
    → (file : Out) × (bin_save_items
          (some (record { bytes = []; room = room }))
          (items ++ rmdir_item o ∷ [])
        ≡ some (done file))
      × (bin_get_items (some file.bytes) [] ≡ (error, items))
unfolding bin_save_items encode read_item
rmdir_lost items o room h ho fits =
    let bytes = encode_all items ++ (Trace.op_mkdir ∷ body (Op.rmdir o)) in
    let (left, enough, run) = get-trace items (Trace.op_mkdir ∷ body (Op.rmdir o)) h in
    (
      record { bytes = bytes; room = room - length bytes },
      rw (save_last items o h) (
          ap some (
            fwrite_fits bytes _ (
              omega
                (arith, length-append (encode_all items) (Trace.op_mkdir ∷ body (Op.rmdir o)))))),
      run
          ∙ loop_refused left items Trace.op_mkdir (body (Op.rmdir o)) (omega arith) refl
              (mkdir_short items o ho),
    )
