-- ===== src/ItemList/Segments.antt =====
-- Chains of items: what the pointers say along a list, and what the assignments do to it.
use ioapps.Base.{
  ℕ, ◌≡◌, ◌≢◌, refl, sym, ap, ◌∙◌, ◌==◌, ==_iff, if◌then◌else◌, Bool, Bool-cases, inl, inr, List,
  [], ◌∷◌, ◌++◌, Option, some, All,
}
use ioapps.ItemList.{Node, put}

-- The first of the pointers, or the one behind them.
abbrev pub first : List ℕ → Option ℕ → Option ℕ
first [] n = n
first (x ∷ xs) n = some x

-- The last of the pointers, or the one before them.
abbrev pub last_or : Option ℕ → List ℕ → Option ℕ
last_or p [] = p
last_or p (x ∷ xs) = last_or (some x) xs

-- The items at `xs` are chained in the list `l`, between the items `p` and `n`.
abbrev pub Segment : (ℕ → Node) → ℕ → Option ℕ → List ℕ → Option ℕ → Type 0
Segment items l p [] n = Unit
Segment items l p (x ∷ xs) n =
    (items x ≡ record { list = some l; prev = p; next = first xs n })
    × Segment items l (some x) xs n

abbrev pub Avoids : ℕ → List ℕ → Type 0
Avoids x xs = All (λ q. q ≢ x) xs

abbrev pub Distinct : List ℕ → Type 0
Distinct [] = Unit
Distinct (x ∷ xs) = Avoids x xs × Distinct xs

pub put-same : {A : Type 0} (f : ℕ → A) (p : ℕ) (v : A) → put f p v p ≡ v
put-same f p v = ap (λ (b : Bool). if b then v else f p) ((==_iff p p).1 refl)

pub put-other : {A : Type 0} (f : ℕ → A) (p q : ℕ) (v : A) → q ≢ p → put f p v q ≡ f q
put-other f p q v other = elim (Bool-cases (p == q)) [
  | inl e ↦ absurd (other (sym ((==_iff p q).0 e)))
  | inr e ↦ ap (λ (b : Bool). if b then v else f q) e
]

module _ (l : ℕ) where
  -- A change of another item.
  pub Segment-put :
      (items : ℕ → Node) (y : ℕ) (v : Node) (p : Option ℕ) (xs : List ℕ) (n : Option ℕ)
      → Avoids y xs
      → Segment items l p xs n
      → Segment (put items y v) l p xs n
  Segment-put items y v p [] n away s = tt
  Segment-put items y v p (x ∷ xs) n (ne, away) (here, s) =
      (put-other items y x v ne ∙ here, Segment-put items y v (some x) xs n away s)

  -- Changes of two other items.
  pub Segment-put_two :
      (items : ℕ → Node) (y z : ℕ) (v u : Node) (p : Option ℕ) (xs : List ℕ) (n : Option ℕ)
      → Avoids y xs
      → Avoids z xs
      → Segment items l p xs n
      → Segment (put (put items y v) z u) l p xs n
  Segment-put_two items y z v u p xs n away other s =
      Segment-put (put items y v) z u p xs n other (Segment-put items y v p xs n away s)

  pub Segment-split :
      (items : ℕ → Node) (p : Option ℕ) (xs ys : List ℕ) (n : Option ℕ)
      → Segment items l p (xs ++ ys) n
      → Segment items l p xs (first ys n) × Segment items l (last_or p xs) ys n
  Segment-split items p [] ys n s = (tt, s)
  Segment-split items p (x ∷ []) ys n (here, s) = ((here, tt), s)
  Segment-split items p (x ∷ y ∷ xs) ys n (here, s) =
      let (a, b) = Segment-split items (some x) (y ∷ xs) ys n s in ((here, a), b)

  pub Segment-join :
      (items : ℕ → Node) (p : Option ℕ) (xs ys : List ℕ) (n : Option ℕ)
      → Segment items l p xs (first ys n)
      → Segment items l (last_or p xs) ys n
      → Segment items l p (xs ++ ys) n
  Segment-join items p [] ys n a b = b
  Segment-join items p (x ∷ []) ys n (here, a) b = (here, b)
  Segment-join items p (x ∷ y ∷ xs) ys n (here, a) b =
      (here, Segment-join items (some x) (y ∷ xs) ys n a b)
