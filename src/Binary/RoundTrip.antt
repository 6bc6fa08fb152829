-- ===== src/Binary/RoundTrip.antt =====
-- Traces through a file and back.
use ioapps.Base.{
  ℕ, zero, suc, ◌+◌, ◌-◌, ◌≤◌, ◌<◌, ◌≡◌, refl, ap, fun_ext, false, ◌∙◌, ◌==◌, List, [], ◌∷◌, ◌++◌,
  append_assoc, append-nil, length, length-append, some, arith,
}
use ioapps.Binary.Format.{Announces, encode, encode_all, IsItem, IsTrace}
use ioapps.Binary.Items.{
  ok, save_items_loop, get_items_loop, bin_get_items, bin_save_items, eof_char,
}
use ioapps.Binary.Parses.Records.{Parses-item}
use ioapps.Binary.Written.{fwrite-append, fwrite-nil, fwrite_fits}
use ioapps.Binary.Written.Records.{save_item_lem}
use ioapps.Binary.Stream.{Out, done, fwrite}
use ioapps.Trace.{Item, Op}

-- The type character of an operation is not the byte that `getc` takes for the end of the file.
pub Announces-ne-eof : (c : ℕ) (op : Op) → Announces c op → (c == eof_char) ≡ false
Announces-ne-eof c (Op.dup o) h = ground arith
Announces-ne-eof c _ h = rw h

-- One round of the loop over an item of the format.
pub round :
    (fuel : ℕ) (list : List Item) (it : Item) (rest : List ℕ)
    → IsItem it
    → get_items_loop (suc fuel) list (encode it ++ rest)
      ≡ get_items_loop fuel (list ++ it ∷ []) rest
unfolding get_items_loop encode
round fuel list it rest h =
    let p = Parses-item it.type it.op list h.tag h.fields h.kept in
    rw (Announces-ne-eof it.type it.op h.tag, p.run rest)

pub length-encode : (it : Item) → 0 < length (encode it)
unfolding encode
length-encode it = omega arith

-- The loop takes a whole trace and goes on with what follows, on any fuel beyond the trace's length.
pub loop-trace :
    (items list : List Item) (fuel : ℕ) (rest : List ℕ)
    → IsTrace items
    → length (encode_all items) ≤ fuel
    → (left : ℕ) × (fuel ≤ left + length (encode_all items))
      × (get_items_loop fuel list (encode_all items ++ rest)
          ≡ get_items_loop left (list ++ items) rest)
unfolding encode_all
loop-trace [] list fuel rest h enough = (fuel, omega arith, rw append-nil)
loop-trace (it ∷ items) list zero rest h enough =
    absurd (omega (arith, length-encode it, length-append (encode it) (encode_all items)))
loop-trace (it ∷ items) list (suc fuel) rest h enough =
    let size = length-append (encode it) (encode_all items) in
    let (left, some_left, e) =
      loop-trace items (list ++ it ∷ []) fuel rest h.1 (omega (arith, length-encode it)) in
    (
      left,
      omega (arith, length-encode it),
      rw (append_assoc (encode it) (encode_all items) rest) (
          round fuel list it (encode_all items ++ rest) h.0
          ∙ e
          ∙ ap (λ l. get_items_loop left l rest) (append_assoc list (it ∷ []) items)),
    )

-- Reading a file that starts with a trace.
pub get-trace :
    (items : List Item) (rest : List ℕ)
    → IsTrace items
    → (left : ℕ) × (length rest ≤ left)
      × (bin_get_items (some (encode_all items ++ rest)) [] ≡ get_items_loop left items rest)
unfolding bin_get_items
get-trace items rest h =
    let size = length-append (encode_all items) rest in
    let (left, some_left, e) =
      loop-trace items [] (length (encode_all items ++ rest)) rest h (omega arith) in
    (left, omega arith, e)

pub loop_end : (fuel : ℕ) (items : List Item) → get_items_loop fuel items [] ≡ (ok, items)
unfolding get_items_loop
loop_end fuel items = refl

save_items-encode :
    (items : List Item) → IsTrace items → save_items_loop items ≡ fwrite (encode_all items)
unfolding save_items_loop encode_all encode
save_items-encode [] h = fun_ext fwrite-nil
save_items-encode (it ∷ items) h =
    let one = save_item_lem it.type it.op h.0.tag h.0.kept in
    rw (one, save_items-encode items h.1) (fwrite-append _ (encode_all items))

save_items_fits :
    (items : List Item) (out : Out)
    → IsTrace items
    → length (encode_all items) ≤ out.room
    → bin_save_items (some out) items
      ≡ some (
          done (record {
            bytes = out.bytes ++ encode_all items;
            room = out.room - length (encode_all items);
          }))
unfolding bin_save_items
save_items_fits items out h fits = rw (save_items-encode items h) (ap some (fwrite_fits _ out fits))

-- A trace of well-formed items other than rmdir that fits the room of a new file is saved, and
-- `bin_get_items` of that file succeeds and gives back the same items in the same order.
pub get_items-save_items :
    (items : List Item) (room : ℕ)
    → IsTrace items
    → length (encode_all items) ≤ room
    → (file : Out) × (bin_save_items (some (record { bytes = []; room = room })) items
        ≡ some (done file))
      × (bin_get_items (some file.bytes) [] ≡ (ok, items))
unfolding bin_get_items
get_items-save_items items room h fits =
    let (left, enough, e) = get-trace items [] h in
    (
      record { bytes = encode_all items; room = room - length (encode_all items) },
      save_items_fits items (record { bytes = []; room = room }) h fits,
      rw append-nil at e ∙ loop_end left items,
    )
