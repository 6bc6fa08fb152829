-- ===== src/Fdmap/Parents/Same.antt =====
-- What `insert_parent_fd` leaves as it is.
use mathlib.Core.Path.{subst}
use ioapps.Base.{ℕ, ◌≡◌, ◌⊎◌, inl, inr, refl, sym, ◌∙◌}
use ioapps.Base.Int.{ℤ}
use ioapps.Base.Run.{ok, abort, ok-injective}
use ioapps.Fdmap.{FdMap}
use ioapps.Fdmap.Parents.{Place, present, free, full, find_place, insert_parent_fd}
use ioapps.Fdmap.Parents.Laws.{insert_parent_fd-find_place}

-- A map that differs from another in its parents alone.
abbrev pub SameFile : FdMap → FdMap → Type 0
SameFile m m' = m' ≡ record m { parent_fds = m'.parent_fds; last_par_index = m'.last_par_index }

Place-cases : (q : Place) → (q ≡ present) ⊎ (((i : ℕ) × (q ≡ free i)) ⊎ (q ≡ full))
Place-cases present = inl refl
Place-cases (free i) = inr (inl (i, refl))
Place-cases full = inr (inr refl)

pub insert_parent_fd-SameFile :
    (m m' : FdMap) (fd : ℤ) → insert_parent_fd m fd ≡ ok m' → SameFile m m'
insert_parent_fd-SameFile m m' fd run =
    let (at_free, at_end, there) = insert_parent_fd-find_place m fd in
    elim (Place-cases (find_place fd 0 m.parent_fds)) [
      | inl e ↦ let wrong : abort ≡ ok m' = sym (there e) ∙ run in cc
      | inr (inl (i, e)) ↦ subst (SameFile m) (ok-injective (sym (at_free i e) ∙ run)) refl
      | inr (inr e) ↦ subst (SameFile m) (ok-injective (sym (at_end e) ∙ run)) refl
    ]
