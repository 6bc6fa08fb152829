-- ===== src/Binary/Written.antt =====
-- What the saving functions write: one `fwrite` of the operation's bytes, on every stream.
pub mod Records
use ioapps.Base.{
  ℕ, ◌+◌, ◌-◌, ◌≤◌, ◌<◌, ◌≡◌, ◌≢◌, refl, ap, ◌∙◌, fun_ext, ◌⊎◌, inl, inr, List, [], ◌∷◌, ◌++◌,
  append_assoc, append-nil, All, length, take, length-append, take-append_ge, take-append_le, leb,
  leb→le, le→leb, lt→leb_false, Bool-cases, arith,
}
use ioapps.Binary.Format.{body, Announces}
use ioapps.Binary.Items.{save_item, save_items_loop}
use ioapps.Binary.Save
use ioapps.Binary.Stream.{Out, Written, done, Writer, ◌>>◌, fwrite}
use ioapps.Trace
use ioapps.Trace.{Item, Op}

-- Two writes are one, whether they fit, or the first or the second is cut short.
fwrite-append_at :
    (xs ys : List ℕ) (out : Out) → (fwrite xs >> fwrite ys) out ≡ fwrite (xs ++ ys) out
unfolding fwrite
fwrite-append_at xs ys out =
    let k = out.room - length xs in
    ground (
      arith,
      length-append xs ys,
      append_assoc out.bytes xs ys,
      append_assoc out.bytes xs (take k ys),
      take-append_le out.room xs ys,
      take-append_ge out.room k xs ys,
    )

pub fwrite-append : (xs ys : List ℕ) → (fwrite xs >> fwrite ys) ≡ fwrite (xs ++ ys)
fwrite-append xs ys = fun_ext (fwrite-append_at xs ys)

pub fwrite-nil : (out : Out) → done out ≡ fwrite [] out
unfolding fwrite
fwrite-nil out = ground (arith, append-nil out.bytes)

pub fwrite_fits :
    (xs : List ℕ) (out : Out)
    → length xs ≤ out.room
    → fwrite xs out ≡ done (record { bytes = out.bytes ++ xs; room = out.room - length xs })
unfolding fwrite
fwrite_fits xs out h = rw (le→leb _ _ h)
