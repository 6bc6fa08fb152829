-- ===== src/Binary/Reads/Records.antt =====
-- Each item reader respects the laws of a reader, and appends one item to the list.
use ioapps.Base.{ℕ, ◌≡◌, refl, List, [], ◌∷◌, ◌++◌, ◌==◌, ◌||◌}
use ioapps.Binary.Items.{read_item}
use ioapps.Binary.Read
use ioapps.Binary.Reads.{
  Reads, Any, Reads-bind, Reads-pure, Reads-int32, Reads-int64, Reads-name, Reads-failed, Reads-if,
}
use ioapps.Trace
use ioapps.Trace.{Item, OpInfo}

abbrev pub Appends : List Item → List Item → Type 0
Appends list out = (it : Item) × (out ≡ list ++ it ∷ [])

Reads-info : Reads Read.bin_read_info Any
unfolding Read.bin_read_info
Reads-info = Reads-bind Reads-int32 (λ _ _.
    Reads-bind Reads-int32
      (λ _ _. Reads-bind Reads-int32 (λ _ _. Reads-bind Reads-int32 (λ _ _. Reads-pure tt))))

Reads-write : (list : List Item) → Reads (Read.bin_read_write list) (Appends list)
unfolding Read.bin_read_write
Reads-write list = Reads-bind Reads-int32 (λ _ _.
    Reads-bind Reads-int64
      (λ _ _. Reads-bind Reads-int64 (λ _ _. Reads-bind Reads-info (λ _ _. Reads-pure (_, refl)))))

Reads-read : (list : List Item) → Reads (Read.bin_read_read list) (Appends list)
unfolding Read.bin_read_read
Reads-read list = Reads-bind Reads-int32 (λ _ _.
    Reads-bind Reads-int64
      (λ _ _. Reads-bind Reads-int64 (λ _ _. Reads-bind Reads-info (λ _ _. Reads-pure (_, refl)))))

Reads-pwrite : (list : List Item) → Reads (Read.bin_read_pwrite list) (Appends list)
unfolding Read.bin_read_pwrite
Reads-pwrite list = Reads-bind Reads-int32 (λ _ _. Reads-bind Reads-int64 (λ _ _.
    Reads-bind Reads-int64
      (λ _ _. Reads-bind Reads-int64 (λ _ _. Reads-bind Reads-info (λ _ _. Reads-pure (_, refl))))))

Reads-pread : (list : List Item) → Reads (Read.bin_read_pread list) (Appends list)
unfolding Read.bin_read_pread
Reads-pread list = Reads-bind Reads-int32 (λ _ _. Reads-bind Reads-int64 (λ _ _.
    Reads-bind Reads-int64
      (λ _ _. Reads-bind Reads-int64 (λ _ _. Reads-bind Reads-info (λ _ _. Reads-pure (_, refl))))))

Reads-open : (list : List Item) → Reads (Read.bin_read_open list) (Appends list)
unfolding Read.bin_read_open
Reads-open list = Reads-bind Reads-int32 (λ len _. Reads-bind (Reads-name len) (λ _ _.
    Reads-bind Reads-int32 (λ _ _. Reads-bind Reads-int32 (λ _ _.
      Reads-bind Reads-int32 (λ _ _. Reads-bind Reads-info (λ _ _. Reads-pure (_, refl)))))))

Reads-close : (list : List Item) → Reads (Read.bin_read_close list) (Appends list)
unfolding Read.bin_read_close
Reads-close list =
    Reads-bind Reads-int32
      (λ _ _. Reads-bind Reads-int32 (λ _ _. Reads-bind Reads-info (λ _ _. Reads-pure (_, refl))))

Reads-unlink : (list : List Item) → Reads (Read.bin_read_unlink list) (Appends list)
unfolding Read.bin_read_unlink
Reads-unlink list = Reads-bind Reads-int32 (λ len _.
    Reads-bind (Reads-name len)
      (λ _ _. Reads-bind Reads-int32 (λ _ _. Reads-bind Reads-info (λ _ _. Reads-pure (_, refl)))))

Reads-lseek : (list : List Item) → Reads (Read.bin_read_lseek list) (Appends list)
unfolding Read.bin_read_lseek
Reads-lseek list = Reads-bind Reads-int32 (λ _ _. Reads-bind Reads-int32 (λ _ _.
    Reads-bind Reads-int64
      (λ _ _. Reads-bind Reads-int64 (λ _ _. Reads-bind Reads-info (λ _ _. Reads-pure (_, refl))))))

Reads-llseek : (list : List Item) → Reads (Read.bin_read_llseek list) (Appends list)
unfolding Read.bin_read_llseek
Reads-llseek list = Reads-bind Reads-int32 (λ _ _. Reads-bind Reads-int64 (λ _ _.
    Reads-bind Reads-int64 (λ _ _. Reads-bind Reads-int32 (λ _ _.
      Reads-bind Reads-int64 (λ _ _. Reads-bind Reads-info (λ _ _. Reads-pure (_, refl)))))))

Reads-clone : (list : List Item) → Reads (Read.bin_read_clone list) (Appends list)
unfolding Read.bin_read_clone
Reads-clone list =
    Reads-bind Reads-int32
      (λ _ _. Reads-bind Reads-int32 (λ _ _. Reads-bind Reads-info (λ _ _. Reads-pure (_, refl))))

Reads-mkdir : (list : List Item) → Reads (Read.bin_read_mkdir list) (Appends list)
unfolding Read.bin_read_mkdir
Reads-mkdir list = Reads-bind Reads-int32 (λ len _. Reads-bind (Reads-name len) (λ _ _.
    Reads-bind Reads-int32
      (λ _ _. Reads-bind Reads-int32 (λ _ _. Reads-bind Reads-info (λ _ _. Reads-pure (_, refl))))))

Reads-rmdir : (list : List Item) → Reads (Read.bin_read_rmdir list) (Appends list)
unfolding Read.bin_read_rmdir
Reads-rmdir list = Reads-bind Reads-int32 (λ len _.
    Reads-bind (Reads-name len)
      (λ _ _. Reads-bind Reads-int32 (λ _ _. Reads-bind Reads-info (λ _ _. Reads-pure (_, refl)))))

Reads-dup : (c : ℕ) (list : List Item) → Reads (Read.bin_read_dup c list) (Appends list)
unfolding Read.bin_read_dup
Reads-dup c list = Reads-bind Reads-int32 (λ _ _. Reads-bind Reads-int32 (λ _ _.
    Reads-bind Reads-int32
      (λ _ _. Reads-bind Reads-int32 (λ _ _. Reads-bind Reads-info (λ _ _. Reads-pure (_, refl))))))

Reads-pipe : (list : List Item) → Reads (Read.bin_read_pipe list) (Appends list)
unfolding Read.bin_read_pipe
Reads-pipe list = Reads-bind Reads-int32 (λ _ _. Reads-bind Reads-int32 (λ _ _.
    Reads-bind Reads-int32
      (λ _ _. Reads-bind Reads-int32 (λ _ _. Reads-bind Reads-info (λ _ _. Reads-pure (_, refl))))))

Reads-access : (list : List Item) → Reads (Read.bin_read_access list) (Appends list)
unfolding Read.bin_read_access
Reads-access list = Reads-bind Reads-int32 (λ len _. Reads-bind (Reads-name len) (λ _ _.
    Reads-bind Reads-int32
      (λ _ _. Reads-bind Reads-int32 (λ _ _. Reads-bind Reads-info (λ _ _. Reads-pure (_, refl))))))

Reads-stat : (list : List Item) → Reads (Read.bin_read_stat list) (Appends list)
unfolding Read.bin_read_stat
Reads-stat list = Reads-bind Reads-int32 (λ len _.
    Reads-bind (Reads-name len)
      (λ _ _. Reads-bind Reads-int32 (λ _ _. Reads-bind Reads-info (λ _ _. Reads-pure (_, refl)))))

Reads-socket : (list : List Item) → Reads (Read.bin_read_socket list) (Appends list)
unfolding Read.bin_read_socket
Reads-socket list =
    Reads-bind Reads-int32 (λ _ _. Reads-bind Reads-info (λ _ _. Reads-pure (_, refl)))

Reads-sendfile : (list : List Item) → Reads (Read.bin_read_sendfile list) (Appends list)
unfolding Read.bin_read_sendfile
Reads-sendfile list = Reads-bind Reads-int32 (λ _ _. Reads-bind Reads-int32 (λ _ _.
    Reads-bind Reads-int64 (λ _ _. Reads-bind Reads-int64 (λ _ _.
      Reads-bind Reads-int64 (λ _ _. Reads-bind Reads-info (λ _ _. Reads-pure (_, refl)))))))

-- The switch respects the laws too, on any character.
pub Reads-item : (c : ℕ) (list : List Item) → Reads (read_item c list) (Appends list)
unfolding read_item
Reads-item c list = Reads-if (c == Trace.op_write) (Reads-write list) (
    Reads-if (c == Trace.op_read) (Reads-read list) (
      Reads-if (c == Trace.op_pwrite) (Reads-pwrite list) (
        Reads-if (c == Trace.op_pread) (Reads-pread list) (
          Reads-if (c == Trace.op_open) (Reads-open list) (
            Reads-if (c == Trace.op_close) (Reads-close list) (
              Reads-if (c == Trace.op_unlink) (Reads-unlink list) (
                Reads-if (c == Trace.op_lseek) (Reads-lseek list) (
                  Reads-if (c == Trace.op_llseek) (Reads-llseek list) (
                    Reads-if (c == Trace.op_clone) (Reads-clone list) (
                      Reads-if (c == Trace.op_mkdir) (Reads-mkdir list) (
                        Reads-if (c == Trace.op_rmdir) (Reads-rmdir list) (
                          Reads-if (c == Trace.op_dup || (c == Trace.op_dup2 || c == Trace.op_dup3))
                            (Reads-dup c list)
                            (Reads-if (c == Trace.op_pipe) (Reads-pipe list) (
                              Reads-if (c == Trace.op_access) (Reads-access list) (
                                Reads-if (c == Trace.op_stat) (Reads-stat list) (
                                  Reads-if (c == Trace.op_socket) (Reads-socket list) (
                                    Reads-if (c == Trace.op_sendfile) (Reads-sendfile list)
                                      (Reads-failed))))))))))))))))))
