-- ===== src/ItemList/Laws.antt =====
-- Lists of items as lists of pointers: what the operations of adt/list.c do to them.
use mathlib.Core.Path.{subst}
use ioapps.Base.{
  ℕ, zero, suc, ◌≤◌, ◌≡◌, ◌≢◌, refl, sym, ap, ◌∙◌, ==_refl, List, [], ◌∷◌, ◌++◌, length, Option,
  none, some, All, arith,
}
use ioapps.Base.Run.{ok, check, >>=-ok}
use ioapps.ItemList.{
  Node, Heap, is_null, points_to, set_list, set_prev, set_next, set_tail, link_next, link_prev,
  list_append, list_remove, length_from, list_length, list_rotate,
}
use ioapps.ItemList.Links.{Keeps, link_next-Front, link_prev-Back}
use ioapps.ItemList.Segments.{
  first, last_or, Segment, Avoids, Distinct, put-same, Segment-put, Segment-split, Segment-join,
}

-- The list `l` holds the items at `xs`, in this order.
pub record IsList (h : Heap) (l : ℕ) (xs : List ℕ) : Type 0 where
  pub head : (h.lists l).head ≡ first xs none
  pub tail : (h.lists l).tail ≡ last_or none xs
  pub chain : Segment h.items l none xs none
  pub distinct : Distinct xs

pub first-append : (xs ys : List ℕ) (n : Option ℕ) → first (xs ++ ys) n ≡ first xs (first ys n)
first-append [] ys n = refl
first-append (x ∷ xs) ys n = refl

pub last_or-append :
    (p : Option ℕ) (xs ys : List ℕ) → last_or p (xs ++ ys) ≡ last_or (last_or p xs) ys
last_or-append p [] ys = refl
last_or-append p (x ∷ xs) ys = last_or-append (some x) xs ys

Avoids-append : (q : ℕ) (xs ys : List ℕ) → Avoids q xs → Avoids q ys → Avoids q (xs ++ ys)
Avoids-append q [] ys a b = b
Avoids-append q (x ∷ xs) ys (ne, a) b = (ne, Avoids-append q xs ys a b)

pub Avoids-split : (q : ℕ) (xs ys : List ℕ) → Avoids q (xs ++ ys) → Avoids q xs × Avoids q ys
Avoids-split q [] ys a = (tt, a)
Avoids-split q (x ∷ xs) ys (ne, a) = let (b, c) = Avoids-split q xs ys a in ((ne, b), c)

some_not_none : (l : ℕ) → some l ≢ none
some_not_none l e = cc

-- An item of no list stands in no chain.
pub null-Avoids :
    (items : ℕ → Node) (l y : ℕ) (p : Option ℕ) (xs : List ℕ) (n : Option ℕ)
    → Segment items l p xs n
    → (items y).list ≡ none
    → Avoids y xs
null-Avoids items l y p [] n s out = tt
null-Avoids items l y p (x ∷ xs) n (here, s) out = (
  λ e. some_not_none l (sym (ap (λ v. v.list) here) ∙ ap (λ q. (items q).list) e ∙ out),
  null-Avoids items l y (some x) xs n s out,
)

Distinct-snoc : (xs : List ℕ) (y : ℕ) → Distinct xs → Avoids y xs → Distinct (xs ++ y ∷ [])
Distinct-snoc [] y d a = (tt, tt)
Distinct-snoc (x ∷ xs) y (away, d) (ne, a) =
    (Avoids-append x xs (y ∷ []) away ((λ e. ne (sym e)), tt), Distinct-snoc xs y d a)

-- The pointers of one list avoid another.
abbrev pub Apart : List ℕ → List ℕ → Type 0
Apart xs ys = All (λ q. Avoids q ys) xs

Apart-nil : (ys : List ℕ) → Apart ys []
Apart-nil [] = tt
Apart-nil (y ∷ ys) = (tt, Apart-nil ys)

Apart-cons : (x : ℕ) (xs ys : List ℕ) → Avoids x ys → Apart ys xs → Apart ys (x ∷ xs)
Apart-cons x xs [] away apart = tt
Apart-cons x xs (y ∷ ys) (ne, away) (a, apart) =
    (((λ e. ne (sym e)), a), Apart-cons x xs ys away apart)

pub Apart-tail : (y : ℕ) (xs ys : List ℕ) → Apart xs (y ∷ ys) → Apart xs ys
Apart-tail y [] ys apart = tt
Apart-tail y (x ∷ xs) ys (a, apart) = (a.1, Apart-tail y xs ys apart)

pub Distinct-split :
    (xs ys : List ℕ) → Distinct (xs ++ ys) → Distinct xs × Distinct ys × Apart ys xs × Apart xs ys
Distinct-split [] ys d = (tt, d, Apart-nil ys, tt)
Distinct-split (x ∷ xs) ys (away, d) =
    let (b, c) = Avoids-split x xs ys away in
    let (dx, dy, one, other) = Distinct-split xs ys d in
    ((b, dx), dy, Apart-cons x xs ys c one, (c, other))

pub Distinct-join : (xs ys : List ℕ) → Distinct xs → Distinct ys → Apart xs ys → Distinct (xs ++ ys)
Distinct-join [] ys dx dy apart = dy
Distinct-join (x ∷ xs) ys (away, dx) dy (a, apart) =
    (Avoids-append x xs ys away a, Distinct-join xs ys dx dy apart)

-- A change of the items at `xs` does not concern a chain apart from them.
pub Segment-Keeps :
    (h h' : Heap) (l : ℕ) (xs : List ℕ) (p : Option ℕ) (ys : List ℕ) (n : Option ℕ)
    → Keeps l h h' xs
    → Apart ys xs
    → Segment h.items l p ys n
    → Segment h'.items l p ys n
Segment-Keeps h h' l xs p [] n keeps apart s = tt
Segment-Keeps h h' l xs p (y ∷ ys) n keeps (a, apart) (here, s) =
    (keeps y a ∙ here, Segment-Keeps h h' l xs (some y) ys n keeps apart s)

-- In a heap in which a list holds the items at `xs`, an append of an item of no list goes through, and
-- the list then holds `xs` and that item behind them.
pub list_append-IsList :
    (h : Heap) (l item : ℕ) (xs : List ℕ)
    → IsList h l xs
    → (h.items item).list ≡ none
    → (h' : Heap) × (list_append l item h ≡ ok h') × IsList h' l (xs ++ item ∷ [])
unfolding list_append
list_append-IsList h l item xs is out =
    let away = null-Avoids h.items l item none xs none is.chain out in
    let h1 = set_list item (some l) h in
    let t = (h.lists l).tail in
    let h2 = link_next l t (some item) h1 in
    let (front, same_tail, keeps) =
      link_next-Front l h1 xs t none (some item) is.tail is.distinct (record {
        head = is.head;
        chain = Segment-put l h.items item _ none xs none away is.chain;
      }) in
    let h3 = set_prev item (h2.lists l).tail h2 in
    let h4 = set_next item none h3 in
    let own : h2.items item ≡ record (h.items item) { list = some l } =
      keeps item away ∙ put-same h.items item _ in
    let last : h4.items item ≡ record { list = some l; prev = last_or none xs; next = none } =
      put-same h3.items item _
      ∙ ap {B = Node} (λ (v : Node). record v { next = none }) (put-same h2.items item _)
      ∙ ap {B = Node}
          (λ (v : Node). record { list = v.list; prev = (h2.lists l).tail; next = none }) own
      ∙ ap {B = Node} (λ q. record { list = some l; prev = q; next = none })
          (same_tail ∙ is.tail) in
    let moved =
      Segment-put l h3.items item _ none xs (some item) away
        (Segment-put l h2.items item _ none xs (some item) away front.chain) in
    (
      set_tail l (some item) h4,
      >>=-ok _ (ap (λ q. check (is_null q)) out),
      record {
        head =
            ap (λ v. v.head) (put-same h4.lists l _)
            ∙ front.head
            ∙ sym (first-append xs (item ∷ []) none);
        tail = ap (λ v. v.tail) (put-same h4.lists l _) ∙ sym (last_or-append none xs (item ∷ []));
        chain = Segment-join l h4.items none xs (item ∷ []) none moved (last, tt);
        distinct = Distinct-snoc xs item is.distinct away;
      },
    )

-- In a heap in which a list holds the items at `xs ++ item ∷ ys`, a removal of the item goes through, the
-- list then holds `xs ++ ys`, and the item is of no list.
pub list_remove-IsList :
    (h : Heap) (l item : ℕ) (xs ys : List ℕ)
    → IsList h l (xs ++ item ∷ ys)
    → (h' : Heap) × (list_remove l item h ≡ ok h')
      × IsList h' l (xs ++ ys)
      × ((h'.items item).list ≡ none)
unfolding list_remove
list_remove-IsList h l item xs ys is =
    let (before, at) = Segment-split l h.items none xs (item ∷ ys) none is.chain in
    let (here, after) = at in
    let (dx, dxy, away, other) = Distinct-split xs (item ∷ ys) is.distinct in
    let (away_y, dy) = dxy in
    let (away_x, apart) = away in
    let h1 = set_list item none h in
    let t = (h1.items item).prev in
    let n = (h1.items item).next in
    let own : h1.items item ≡ record { list = none; prev = last_or none xs; next = first ys none } =
      put-same h.items item _ ∙ ap {B = Node} (λ (v : Node). record v { list = none }) here in
    let (front, same_tail, keeps) =
      link_next-Front l h1 xs t (some item) n (ap (λ v. v.prev) own) dx (record {
        head = is.head ∙ first-append xs (item ∷ ys) none;
        chain = Segment-put l h.items item _ none xs (some item) away_x before;
      }) in
    let h2 = link_next l t n h1 in
    let own2 = keeps item away_x ∙ own in
    let (back, same_head, keeps2) =
      link_prev-Back l h2 ys (h2.items item).next (some item) (h2.items item).prev
        (ap (λ v. v.next) own2) dy
        (record {
          tail = same_tail ∙ is.tail ∙ last_or-append none xs (item ∷ ys);
          chain =
              Segment-Keeps h1 h2 l xs (some item) ys none keeps apart
                (Segment-put l h.items item _ (some item) ys none away_y after);
        }) in
    let h' = link_prev l (h2.items item).next (h2.items item).prev h2 in
    (
      h',
      >>=-ok _ (ap (λ b. check b) (ap (λ (v : Node). points_to v.list l) here ∙ ==_refl l)),
      record {
        head =
            same_head
            ∙ front.head
            ∙ ap (first xs) (ap (λ v. v.next) own)
            ∙ sym (first-append xs ys none);
        tail =
            back.tail
            ∙ ap (λ p. last_or p ys) (ap (λ v. v.prev) own2)
            ∙ sym (last_or-append none xs ys);
        chain =
            Segment-join l h'.items none xs ys none
              (Segment-Keeps h2 h' l ys none xs (first ys none) keeps2 (Apart-tail item xs ys other)
                (subst (λ n. Segment h2.items l none xs n) (ap (λ v. v.next) own) front.chain))
              (subst (λ p. Segment h'.items l p ys none) (ap (λ v. v.prev) own2) back.chain);
        distinct = Distinct-join xs ys dx dy (Apart-tail item xs ys other);
      },
      ap (λ v. v.list) (keeps2 item away_y ∙ own2),
    )

length_from-Segment :
    (h : Heap) (l fuel : ℕ) (p : Option ℕ) (xs : List ℕ)
    → Segment h.items l p xs none
    → length xs ≤ fuel
    → length_from fuel (first xs none) h ≡ ok (length xs)
unfolding length_from
length_from-Segment h l fuel p [] s enough = refl
length_from-Segment h l zero p (x ∷ xs) s enough = absurd (omega (arith, enough))
length_from-Segment h l (suc fuel) p (x ∷ xs) (here, s) enough = >>=-ok _ (
    ap (λ (v : Node). length_from fuel v.next h) here
    ∙ length_from-Segment h l fuel (some x) xs s (omega (arith, enough)))

-- For a list that holds the items at `xs`, the loop of `list_length` ends within as many rounds as there
-- are items, and answers how many they are.
pub list_length-IsList :
    (h : Heap) (l fuel : ℕ) (xs : List ℕ)
    → IsList h l xs
    → length xs ≤ fuel
    → list_length fuel l h ≡ ok (length xs)
unfolding list_length
list_length-IsList h l fuel xs is enough =
    ap (λ i. length_from fuel i h) is.head ∙ length_from-Segment h l fuel none xs is.chain enough

-- For a list that is not empty, `list_rotate` goes through, answers the first item, and the list then
-- holds the others in their order and that item behind them.
pub list_rotate-IsList :
    (h : Heap) (l item : ℕ) (xs : List ℕ)
    → IsList h l (item ∷ xs)
    → (h' : Heap) × (list_rotate l h ≡ ok (item, h')) × IsList h' l (xs ++ item ∷ [])
unfolding list_rotate
list_rotate-IsList h l item xs is =
    let (h1, removed, is1, out) = list_remove-IsList h l item [] xs is in
    let (h2, appended, is2) = list_append-IsList h1 l item xs is1 out in
    (h2, rw (list_rotate, is.head) (>>=-ok _ removed ∙ >>=-ok _ appended), is2)
