-- ===== src/ItemList/Links.antt =====
-- The two assignments that tie a chain to what stands behind or before it.
use ioapps.Base.{ℕ, ◌≡◌, ◌≢◌, refl, sym, ap, ◌∙◌, List, [], ◌∷◌, Option, none, some}
use ioapps.ItemList.{Node, Heap, put, link_next, link_prev}
use ioapps.ItemList.Segments.{
  first, last_or, Segment, Avoids, Distinct, put-same, put-other, Segment-put,
}

-- The last of the pointers.
abbrev last_of : ℕ → List ℕ → ℕ
last_of x [] = x
last_of x (y ∷ ys) = last_of y ys

last_or-last_of : (x : ℕ) (xs : List ℕ) → last_or (some x) xs ≡ some (last_of x xs)
last_or-last_of x [] = refl
last_or-last_of x (y ∷ ys) = last_or-last_of y ys

last_of-Avoids : (q x : ℕ) (xs : List ℕ) → Avoids q (x ∷ xs) → last_of x xs ≢ q
last_of-Avoids q x [] (ne, away) = ne
last_of-Avoids q x (y ∷ ys) (ne, away) = last_of-Avoids q y ys away

module _ (l : ℕ) where
  -- The last item of a chain gets another one behind it.
  change_last :
      (items : ℕ → Node) (p : Option ℕ) (x : ℕ) (xs : List ℕ) (n n' : Option ℕ)
      → Distinct (x ∷ xs)
      → Segment items l p (x ∷ xs) n
      → Segment
          (put items (last_of x xs) (record (items (last_of x xs)) { next = n' }))
          l
          p
          (x ∷ xs)
          n'
  change_last items p x [] n n' d (here, s) =
      (put-same items x _ ∙ ap {B = Node} (λ (v : Node). record v { next = n' }) here, tt)
  change_last items p x (y ∷ ys) n n' (away, d) (here, s) = (
    put-other items (last_of y ys) x _ (λ e. last_of-Avoids x y ys away (sym e)) ∙ here,
    change_last items (some x) y ys n n' d s,
  )

  -- The first item of a chain gets another one before it.
  change_first :
      (items : ℕ → Node) (p p' : Option ℕ) (x : ℕ) (xs : List ℕ) (n : Option ℕ)
      → Distinct (x ∷ xs)
      → Segment items l p (x ∷ xs) n
      → Segment (put items x (record (items x) { prev = p' })) l p' (x ∷ xs) n
  change_first items p p' x xs n (away, d) (here, s) = (
    put-same items x _ ∙ ap {B = Node} (λ (v : Node). record v { prev = p' }) here,
    Segment-put l items x _ (some x) xs n away s,
  )

-- The chain from the head of the list, tied to `n` behind it.
pub record Front (l : ℕ) (h : Heap) (xs : List ℕ) (n : Option ℕ) : Type 0 where
  pub head : (h.lists l).head ≡ first xs n
  pub chain : Segment h.items l none xs n

-- The chain to the tail of the list, tied to `p` before it.
pub record Back (l : ℕ) (h : Heap) (p : Option ℕ) (ys : List ℕ) : Type 0 where
  pub tail : (h.lists l).tail ≡ last_or p ys
  pub chain : Segment h.items l p ys none

module _ (l : ℕ) (h : Heap) where
  -- What tying a part of a list to something else leaves.
  abbrev pub Keeps : Heap → List ℕ → Type 0
  Keeps h' xs = (q : ℕ) → Avoids q xs → h'.items q ≡ h.items q

  -- `link_next` at the end of the front part.
  link_next-at :
      (xs : List ℕ) (n n' : Option ℕ)
      → Distinct xs
      → Front l h xs n
      → Front l (link_next l (last_or none xs) n' h) xs n'
        × (((link_next l (last_or none xs) n' h).lists l).tail ≡ (h.lists l).tail)
        × Keeps (link_next l (last_or none xs) n' h) xs
  link_next-at [] n n' d f = (
    record { head = ap (λ v. v.head) (put-same h.lists l _); chain = tt },
    ap (λ v. v.tail) (put-same h.lists l _),
    λ q away. refl,
  )
  link_next-at (x ∷ xs) n n' d f = rw (last_or-last_of x xs) (
    record { head = f.head; chain = change_last l h.items none x xs n n' d f.chain },
    refl,
    λ q away. put-other h.items (last_of x xs) q _ (λ e. last_of-Avoids q x xs away (sym e)),
  )

  pub link_next-Front :
      (xs : List ℕ) (t n n' : Option ℕ)
      → t ≡ last_or none xs
      → Distinct xs
      → Front l h xs n
      → Front l (link_next l t n' h) xs n'
        × (((link_next l t n' h).lists l).tail ≡ (h.lists l).tail)
        × Keeps (link_next l t n' h) xs
  link_next-Front xs t n n' e d f = rw e (link_next-at xs n n' d f)

  -- `link_prev` at the beginning of the back part.
  link_prev-at :
      (ys : List ℕ) (p p' : Option ℕ)
      → Distinct ys
      → Back l h p ys
      → Back l (link_prev l (first ys none) p' h) p' ys
        × (((link_prev l (first ys none) p' h).lists l).head ≡ (h.lists l).head)
        × Keeps (link_prev l (first ys none) p' h) ys
  link_prev-at [] p p' d b = (
    record { tail = ap (λ v. v.tail) (put-same h.lists l _); chain = tt },
    ap (λ v. v.head) (put-same h.lists l _),
    λ q away. refl,
  )
  link_prev-at (y ∷ ys) p p' d b = (
    record { tail = b.tail; chain = change_first l h.items p p' y ys none d b.chain },
    refl,
    λ q away. put-other h.items y q _ (λ e. away.0 (sym e)),
  )

  pub link_prev-Back :
      (ys : List ℕ) (t p p' : Option ℕ)
      → t ≡ first ys none
      → Distinct ys
      → Back l h p ys
      → Back l (link_prev l t p' h) p' ys
        × (((link_prev l t p' h).lists l).head ≡ (h.lists l).head)
        × Keeps (link_prev l t p' h) ys
  link_prev-Back ys t p p' e d b = rw e (link_prev-at ys p p' d b)
