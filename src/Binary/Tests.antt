-- ===== src/Binary/Tests.antt =====
-- Concrete traces, and the theorems at them.
use ioapps.Base.{
  ℕ, ◌⊎◌, replicate, ◌+◌, ◌≤◌, ◌<◌, ◌≡◌, ◌≢◌, ◌↔◌, refl, List, [], ◌∷◌, ◌++◌, length, drop, some,
  arith,
}
use ioapps.Binary.Damage.{get_items_cut, get_items_eof_byte}
use ioapps.Binary.Damage.Names.{read_name_overrun}
use ioapps.Binary.Damage.Rmdir.{rmdir_lost}
use ioapps.Binary.Format.{IsItem, IsTrace, IsRmdirOp, body, encode, encode_all}
use ioapps.Binary.Items.{ok, error, stuck, bin_get_items, bin_save_items}
use ioapps.Binary.RoundTrip.{get_items-save_items}
use ioapps.Binary.Stream.{Out, done, read_name, fault, max_string, int32, int64}
use ioapps.Binary.Total.{get_items_total}
use ioapps.Trace
use ioapps.Trace.{Item, Op, OpInfo}

abbrev info : OpInfo
info = record { pid = 1000; dur = 25; tv_sec = 1300000000; tv_usec = 500 }

abbrev opened : Item
opened = record {
  type = Trace.op_open;
  op =
      Op.open_file
        (record { name = b'/' ∷ b'a' ∷ []; flags = 2; mode = 0; retval = 3; info = info });
}

-- A read of 100 bytes that got 64.
abbrev reading : Item
reading = record {
  type = Trace.op_read;
  op = Op.read (record { fd = 3; size = 100; retval = 64; info = info });
}

-- A dup3 whose result is -1.
abbrev copied : Item
copied = record {
  type = Trace.op_dup3;
  op = Op.dup (record { new_fd = 4; old_fd = 3; flags = 0; retval = 0xffff_ffff; info = info });
}

abbrev sample : List Item
sample = opened ∷ reading ∷ copied ∷ []

reading-IsItem : IsItem reading
reading-IsItem = record { tag = refl; fields = omega arith; kept = λ o e. cc }

sample-IsTrace : IsTrace sample
sample-IsTrace = (
  record { tag = refl; fields = omega arith; kept = λ o e. cc },
  (reading-IsItem, (record { tag = omega arith; fields = omega arith; kept = λ o e. cc }, tt)),
)

abbrev gone : Trace.RmdirOp
gone = record { name = b'd' ∷ []; retval = 0; info = info }

gone-IsRmdirOp : IsRmdirOp gone
gone-IsRmdirOp = omega arith

sample-fits : length (encode_all sample) ≤ 1000
unfolding encode_all encode body int64 int32
sample-fits = omega arith

get_items-save_items_example :
    (file : Out) × (bin_save_items (some (record { bytes = []; room = 1000 })) sample
      ≡ some (done file))
    × (bin_get_items (some file.bytes) [] ≡ (ok, sample))
get_items-save_items_example = get_items-save_items sample 1000 sample-IsTrace sample-fits

-- A stream that accepts 10 bytes.
abbrev small : Out
small = record { bytes = []; room = 10 }

get_items_total_example :
    ((bin_get_items (some (b'c' ∷ 3 ∷ [])) sample).0 ≢ stuck)
    × (added : List Item) × ((bin_get_items (some (b'c' ∷ 3 ∷ [])) sample).1 ≡ sample ++ added)
get_items_total_example = get_items_total (some (b'c' ∷ 3 ∷ [])) sample

-- The bytes of `reading` behind its type character, cut after the first two.
reading_cut : encode reading ≡ reading.type ∷ ((3 ∷ 0 ∷ []) ++ (0 ∷ drop 3 (body reading.op)))
unfolding encode body int64 int32
reading_cut = refl

get_items_cut_example :
    bin_get_items (some (encode_all sample ++ (Trace.op_read ∷ 3 ∷ 0 ∷ []))) [] ≡ (error, sample)
get_items_cut_example =
    get_items_cut sample reading (3 ∷ 0 ∷ []) (drop 3 (body reading.op)) 0 sample-IsTrace
      reading-IsItem reading_cut

get_items_eof_byte_example :
    bin_get_items (some (encode_all sample ++ (255 ∷ b'r' ∷ 7 ∷ []))) [] ≡ (ok, sample)
get_items_eof_byte_example = get_items_eof_byte sample (b'r' ∷ 7 ∷ []) sample-IsTrace

abbrev long_bytes : List ℕ
long_bytes = replicate 600 1

read_name_overrun_example : (read_name 600 long_bytes ≡ fault) ↔ (
    (max_string ≤ 600)
    × (max_string ≤ length long_bytes)
    × ((600 ≡ max_string) ⊎ (max_string < length long_bytes)))
read_name_overrun_example = read_name_overrun 600 long_bytes (omega arith)

gone_fits :
    length (encode_all sample)
      + length (encode (record { type = Trace.op_rmdir; op = Op.rmdir gone }))
    ≤ 1000
unfolding encode_all encode body int64 int32
gone_fits = omega arith

rmdir_lost_example :
    (file : Out) × (bin_save_items
        (some (record { bytes = []; room = 1000 }))
        (sample ++ record { type = Trace.op_rmdir; op = Op.rmdir gone } ∷ [])
      ≡ some (done file))
    × (bin_get_items (some file.bytes) [] ≡ (error, sample))
rmdir_lost_example = rmdir_lost sample gone 1000 sample-IsTrace gone-IsRmdirOp gone_fits
