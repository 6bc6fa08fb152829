-- ===== src/Fdmap/Parents/Clearing.antt =====
-- What taking a descriptor out of the array leaves.
use mathlib.Core.Path.{subst}
use ioapps.Base.{
  ℕ, zero, suc, ◌+◌, ◌<◌, ◌≡◌, refl, sym, ap, ◌∙◌, if◌then◌else◌, List, [], ◌∷◌, ◌++◌, append_assoc,
  length, length-append, replicate, get_or, set, arith,
}
use ioapps.Base.Int.{ℤ, pos, minus_one, ◌==ℤ◌, ◌-ℤ◌}
use ioapps.Base.Run.{ok}
use ioapps.Fdmap.Parents.{clear_parent}
use ioapps.Fdmap.Parents.Search.{
  last_index, occurs, set-append, get_or-append, occurs-append, length-snoc,
}

pub last_index-pred : (n : ℕ) → last_index (suc n) -ℤ pos 1 ≡ last_index n
unfolding ◌-ℤ◌
last_index-pred zero = refl
last_index-pred (suc n) = ground arith

clear_parent-last : (p : List ℤ) (i : ℕ) → clear_parent p i (pos i) ≡ ok (set p i minus_one)
unfolding clear_parent
clear_parent-last p zero = refl
clear_parent-last p (suc i) = ground arith

clear_parent-before :
    (p : List ℤ) (i idx : ℕ)
    → i < idx
    → clear_parent p i (pos idx) ≡ ok (set (set p i (get_or p idx minus_one)) idx minus_one)
unfolding clear_parent
clear_parent-before p i zero lt = absurd (omega arith)
clear_parent-before p i (suc idx) lt = ground arith

snoc_view : (y : ℤ) (ys : List ℤ) → (mid : List ℤ) × (z : ℤ) × (y ∷ ys ≡ mid ++ z ∷ [])
snoc_view y [] = ([], y, refl)
snoc_view y (x ∷ ys) = let (mid, z, e) = snoc_view x ys in (y ∷ mid, z, ap (λ t. y ∷ t) e)

-- The array in front of and behind its last live place.
split_last :
    (fd z : ℤ) (front mid rest : List ℤ)
    → (front ++ fd ∷ (mid ++ z ∷ [])) ++ rest ≡ front ++ fd ∷ (mid ++ z ∷ rest)
split_last fd z front mid rest =
    append_assoc front (fd ∷ (mid ++ z ∷ [])) rest
    ∙ ap (λ t. front ++ fd ∷ t) (append_assoc mid (z ∷ []) rest)

clear-middle_run :
    (fd z : ℤ) (front mid rest : List ℤ)
    → clear_parent
        (front ++ fd ∷ (mid ++ z ∷ rest))
        (length front)
        (pos (length (front ++ fd ∷ mid)))
      ≡ ok ((front ++ z ∷ mid) ++ minus_one ∷ rest)
clear-middle_run fd z front mid rest =
    let l = length front in
    let idx = length (front ++ fd ∷ mid) in
    let p = front ++ fd ∷ (mid ++ z ∷ rest) in
    let read : get_or p idx minus_one ≡ z =
      ap (λ t. get_or t idx minus_one) (sym (append_assoc front (fd ∷ mid) (z ∷ rest)))
      ∙ get_or-append (front ++ fd ∷ mid) rest z minus_one in
    let same : idx ≡ length (front ++ z ∷ mid) =
      omega (arith, length-append front (fd ∷ mid), length-append front (z ∷ mid)) in
    let moved : set p l z ≡ (front ++ z ∷ mid) ++ z ∷ rest =
      set-append front (mid ++ z ∷ rest) fd z ∙ sym (append_assoc front (z ∷ mid) (z ∷ rest)) in
    clear_parent-before p l idx (omega (arith, length-append front (fd ∷ mid)))
    ∙ ap ok (
        ap (λ v. set (set p l v) idx minus_one) read
        ∙ ap (λ t. set t idx minus_one) moved
        ∙ ap (λ j. set ((front ++ z ∷ mid) ++ z ∷ rest) j minus_one) same
        ∙ set-append (front ++ z ∷ mid) rest z minus_one)

-- What the descriptor's place gets, and what is then live.
abbrev pub Cleared : ℤ → List ℤ → ℕ → ℕ → Type 0
Cleared fd live spare i =
    (live' : List ℤ) × (clear_parent (live ++ replicate spare minus_one) i
        (last_index (length live))
      ≡ ok (live' ++ replicate (suc spare) minus_one))
    × (length live ≡ suc (length live'))
    × ((x : ℤ) → occurs x live ≡ (if fd ==ℤ x then 1 else 0) + occurs x live')

clear-last :
    (fd : ℤ) (front : List ℤ) (spare : ℕ) → Cleared fd (front ++ fd ∷ []) spare (length front)
clear-last fd front spare = (
  front,
  ap (λ t. clear_parent t (length front) (last_index (length (front ++ fd ∷ []))))
        (append_assoc front (fd ∷ []) (replicate spare minus_one))
      ∙ ap
          (λ j.
            clear_parent (front ++ fd ∷ replicate spare minus_one) (length front) (last_index j))
          (sym (length-snoc front fd))
      ∙ clear_parent-last _ (length front)
      ∙ ap ok (set-append front (replicate spare minus_one) fd minus_one),
  omega (arith, length-append front (fd ∷ [])),
  λ x. ground (arith, occurs-append x front (fd ∷ [])),
)

clear-middle :
    (fd z : ℤ) (front mid : List ℤ) (spare : ℕ)
    → Cleared fd (front ++ fd ∷ (mid ++ z ∷ [])) spare (length front)
clear-middle fd z front mid spare = (
  front ++ z ∷ mid,
  ap (λ t. clear_parent t (length front) (last_index (length (front ++ fd ∷ (mid ++ z ∷ [])))))
        (split_last fd z front mid (replicate spare minus_one))
      ∙ ap
          (λ j.
            clear_parent (front ++ fd ∷ (mid ++ z ∷ replicate spare minus_one)) (length front)
              (last_index j))
          (sym (
            length-snoc (front ++ fd ∷ mid) z ∙ ap length (append_assoc front (fd ∷ mid) (z ∷ []))))
      ∙ clear-middle_run fd z front mid (replicate spare minus_one),
  omega (
    arith,
    length-append front (fd ∷ (mid ++ z ∷ [])),
    length-append mid (z ∷ []),
    length-append front (z ∷ mid),
  ),
  λ x. ground (
    arith,
    occurs-append x front (fd ∷ (mid ++ z ∷ [])),
    occurs-append x mid (z ∷ []),
    occurs-append x front (z ∷ mid),
  ),
)

pub clear :
    (fd : ℤ) (front back : List ℤ) (spare : ℕ)
    → Cleared fd (front ++ fd ∷ back) spare (length front)
clear fd front [] spare = clear-last fd front spare
clear fd front (y ∷ ys) spare =
    let (mid, z, e) = snoc_view y ys in
    subst (λ t. Cleared fd (front ++ fd ∷ t) spare (length front)) (sym e)
      (clear-middle fd z front mid spare)
