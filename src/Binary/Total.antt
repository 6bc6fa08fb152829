-- ===== src/Binary/Total.antt =====
-- `bin_get_items` on files of any bytes.
use ioapps.Base.{
  ℕ, zero, suc, ◌≤◌, ◌≡◌, ◌≢◌, refl, sym, ◌⊎◌, inl, inr, ◌==◌, Bool-cases, List, [], ◌∷◌, ◌++◌,
  append_assoc, append-nil, length, Option, none, some, arith,
}
use ioapps.Binary.Items.{
  Status, ok, error, fault, stuck, open_error, read_item, get_items_loop, bin_get_items, eof_char,
}
use ioapps.Binary.Reads.Records.{Reads-item}
use ioapps.Binary.Stream.{Outcome, got}
use ioapps.Trace.{Item}

-- The three ways in which a reader ends.
pub Outcome-cases :
    {A : Type 0} (o : Outcome (A × List ℕ))
    → ((a : A) × (rest : List ℕ) × (o ≡ got (a, rest))) ⊎ (o ≡ Outcome.failed) ⊎ (o ≡ Outcome.fault)
Outcome-cases (got (a, rest)) = inl (a, rest, refl)
Outcome-cases Outcome.failed = inr (inl refl)
Outcome-cases Outcome.fault = inr (inr refl)

abbrev Grows : List Item → Status × List Item → Type 0
Grows list r = (r.0 ≢ stuck) × (added : List Item) × (r.1 ≡ list ++ added)

stays : (s : Status) (list : List Item) → s ≢ stuck → Grows list (s, list)
stays s list h = (h, [], sym (append-nil list))

Grows-append :
    (list : List Item) {more : List Item} (r : Status × List Item)
    → (it : Item) × (more ≡ list ++ it ∷ [])
    → Grows more r
    → Grows list r
Grows-append list r (it, e) (h, added, g) =
    (h, it ∷ added, rw (g, e) (append_assoc list (it ∷ []) added))

loop-Grows :
    (fuel : ℕ) (list : List Item) (bytes : List ℕ)
    → length bytes ≤ fuel
    → Grows list (get_items_loop fuel list bytes)
unfolding get_items_loop
loop-Grows fuel list [] h = stays ok list (λ e. cc)
loop-Grows zero list (c ∷ bytes) h = absurd (omega arith)
loop-Grows (suc fuel) list (c ∷ bytes) h =
    let laws = Reads-item c list in
    elim (Bool-cases (c == eof_char)) [
      | inl e ↦ rw e (stays ok list (λ e. cc))
      | inr e ↦ rw e (elim (Outcome-cases (read_item c list bytes)) [
        | inl (more, rest, run) ↦ rw run (
            Grows-append list _ (laws.value bytes more rest run)
              (loop-Grows fuel more rest (omega (arith, laws.shorter bytes more rest run))))
        | inr (inl run) ↦ rw run (stays error list (λ e. cc))
        | inr (inr run) ↦ rw run (stays fault list (λ e. cc))
      ])
    ]

-- On any file, or none, `bin_get_items` ends: its loop never runs out of rounds. The list that it
-- leaves is the one that it was given with some items, perhaps none, appended.
pub get_items_total :
    (file : Option (List ℕ)) (list : List Item)
    → ((bin_get_items file list).0 ≢ stuck)
      × (added : List Item) × ((bin_get_items file list).1 ≡ list ++ added)
unfolding bin_get_items
get_items_total none list = stays open_error list (λ e. cc)
get_items_total (some file) list = loop-Grows (length file) list file (omega arith)
