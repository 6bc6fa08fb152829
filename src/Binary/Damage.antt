-- ===== src/Binary/Damage.antt =====
-- Files that `bin_save_items` does not write whole: cut short, or with a byte of no operation.
pub mod Names
pub mod Rmdir
use ioapps.Base.{
  ℕ, zero, suc, ◌+◌, ◌≤◌, ◌<◌, ◌≡◌, ◌≢◌, refl, sym, ◌∙◌, inl, inr, ◌==◌, true, false, List, [], ◌∷◌,
  ◌++◌, append_assoc, append-nil, All, length, length-append, Option, some, arith,
}
use ioapps.Binary.Format.{body, encode, encode_all, IsItem, IsTrace}
use ioapps.Binary.Items.{Status, ok, error, read_item, get_items_loop, bin_get_items, eof_char}
use ioapps.Binary.Parses.Records.{Parses-item}
use ioapps.Binary.Reads.Records.{Reads-item}
use ioapps.Binary.RoundTrip.{get-trace, Announces-ne-eof}
use ioapps.Binary.Stream.{Outcome, got}
use ioapps.Binary.Total.{Outcome-cases}
use ioapps.Trace
use ioapps.Trace.{Item}

-- A reader that would succeed on a file fails on each proper prefix that it would take.
item_cut :
    (it : Item) (list : List Item) (front back : List ℕ) (x : ℕ)
    → IsItem it
    → body it.op ≡ front ++ (x ∷ back)
    → read_item it.type list front ≡ Outcome.failed
item_cut it list front back x h e =
    let laws = Reads-item it.type list in
    let whole = rw append-nil at ((Parses-item it.type it.op list h.tag h.fields h.kept).run []) in
    elim (Outcome-cases (read_item it.type list front)) [
      | inl (more, rest, run) ↦
          let longer = laws.extends front (x ∷ back) more rest run in
          absurd (ground (arith, whole, longer, length-append rest (x ∷ back)))
      | inr (inl run) ↦ run
      | inr (inr run) ↦ absurd (cc (whole, e, laws.overruns front (x ∷ back) run))
    ]

-- The loop at a byte that its `switch` or the reader refuses, and at the byte 255.
pub loop_refused :
    (fuel : ℕ) (list : List Item) (c : ℕ) (bytes : List ℕ)
    → 0 < fuel
    → (c == eof_char) ≡ false
    → read_item c list bytes ≡ Outcome.failed
    → get_items_loop fuel list (c ∷ bytes) ≡ (error, list)
unfolding get_items_loop
loop_refused zero list c bytes h e r = absurd (omega arith)
loop_refused (suc fuel) list c bytes h e r = rw (e, r)

loop_eof_byte :
    (fuel : ℕ) (list : List Item) (bytes : List ℕ)
    → 0 < fuel
    → get_items_loop fuel list (eof_char ∷ bytes) ≡ (ok, list)
unfolding get_items_loop
loop_eof_byte zero list bytes h = absurd (omega arith)
loop_eof_byte (suc fuel) list bytes h = refl

-- The file of a trace of well-formed items other than rmdir that breaks off inside the last item,
-- behind its type character, is read with -1, and the list holds the items before that one.
pub get_items_cut :
    (items : List Item) (it : Item) (front back : List ℕ) (x : ℕ)
    → IsTrace items
    → IsItem it
    → encode it ≡ it.type ∷ (front ++ (x ∷ back))
    → bin_get_items (some (encode_all items ++ (it.type ∷ front))) [] ≡ (error, items)
unfolding encode
get_items_cut items it front back x h hit e =
    let (left, enough, run) = get-trace items (it.type ∷ front) h in
    run
    ∙ loop_refused left items it.type front (omega arith) (Announces-ne-eof it.type it.op hit.tag)
        (item_cut it items front back x hit (ground (arith, e)))

-- Behind the file of a trace of well-formed items other than rmdir, a byte 255 is taken for the end
-- of the file: the call succeeds with the items of that trace, whatever bytes follow.
pub get_items_eof_byte :
    (items : List Item) (junk : List ℕ)
    → IsTrace items
    → bin_get_items (some (encode_all items ++ (eof_char ∷ junk))) [] ≡ (ok, items)
get_items_eof_byte items junk h =
    let (left, enough, run) = get-trace items (eof_char ∷ junk) h in
    run ∙ loop_eof_byte left items junk (omega arith)

-- The characters that the `switch` of `bin_get_items` knows.
abbrev pub op_chars : List ℕ
op_chars =
    Trace.op_write ∷ Trace.op_read ∷ Trace.op_pwrite ∷ Trace.op_pread ∷ Trace.op_open
    ∷ Trace.op_close ∷ Trace.op_unlink ∷ Trace.op_lseek ∷ Trace.op_llseek ∷ Trace.op_clone
    ∷ Trace.op_mkdir ∷ Trace.op_rmdir ∷ Trace.op_dup ∷ Trace.op_dup2 ∷ Trace.op_dup3 ∷ Trace.op_pipe
    ∷ Trace.op_access ∷ Trace.op_stat ∷ Trace.op_socket ∷ Trace.op_sendfile ∷ []

item_unknown :
    (c : ℕ) (list : List Item) (bytes : List ℕ)
    → All (λ t. c ≢ t) op_chars
    → read_item c list bytes ≡ Outcome.failed
unfolding read_item
item_unknown c list bytes h = ground arith

-- Behind the file of a trace of well-formed items other than rmdir, a byte other than 255 that is
-- the character of no operation ends the call with -1 and the items of that trace.
pub get_items_unknown :
    (items : List Item) (c : ℕ) (junk : List ℕ)
    → IsTrace items
    → All (λ t. c ≢ t) op_chars
    → c ≢ eof_char
    → bin_get_items (some (encode_all items ++ (c ∷ junk))) [] ≡ (error, items)
get_items_unknown items c junk h unknown e =
    let (left, enough, run) = get-trace items (c ∷ junk) h in
    run
    ∙ loop_refused left items c junk (omega arith) (ground arith)
        (item_unknown c items junk unknown)
