-- ===== src/ItemList/Inserting.antt =====
-- Insertions before and behind an item.
use ioapps.Base.{ℕ, ◌≡◌, sym, ap, ◌∙◌, List, [], ◌∷◌, ◌++◌, Option, none, some}
use ioapps.Base.Run.{ok, abort}
use ioapps.ItemList.{
  Node, Heap, set_list, set_prev, set_next, link_next, link_prev, before_in, after_in,
  list_insert_before, list_insert_after,
}
use ioapps.ItemList.Laws.{
  IsList, Apart, Apart-tail, Distinct-split, Distinct-join, Segment-Keeps, null-Avoids,
  Avoids-split, first-append, last_or-append,
}
use ioapps.ItemList.Links.{link_next-Front, link_prev-Back}
use ioapps.ItemList.Segments.{
  first, last_or, Avoids, put-same, put-other, Segment-put_two, Segment-split, Segment-join,
}

Apart-insert : (y : ℕ) (xs ys : List ℕ) → Avoids y xs → Apart xs ys → Apart xs (y ∷ ys)
Apart-insert y [] ys away apart = tt
Apart-insert y (x ∷ xs) ys (ne, away) (a, apart) =
    (((λ e. ne (sym e)), a), Apart-insert y xs ys away apart)

-- In a list that holds a target, an insertion of an item of no list before it goes through, and the list
-- then holds the item right before the target, and the others as they were.
pub list_insert_before-IsList :
    (h : Heap) (l target insert : ℕ) (xs ys : List ℕ)
    → IsList h l (xs ++ target ∷ ys)
    → (h.items insert).list ≡ none
    → (h' : Heap) × (list_insert_before target insert h ≡ ok h')
      × IsList h' l (xs ++ insert ∷ target ∷ ys)
unfolding list_insert_before
list_insert_before-IsList h l target insert xs ys is out =
    let (before, at) = Segment-split l h.items none xs (target ∷ ys) none is.chain in
    let (here, after) = at in
    let (dx, dty, away, other) = Distinct-split xs (target ∷ ys) is.distinct in
    let (away_y, dy) = dty in
    let (away_x, apart) = away in
    let (new_x, new_ty) =
      Avoids-split insert xs (target ∷ ys)
        (null-Avoids h.items l insert none _ none is.chain out) in
    let (ne, new_y) = new_ty in
    let h1 = set_list insert (some l) h in
    let p = (h1.items target).prev in
    let h2 = set_prev insert p h1 in
    let p2 = (h2.items target).prev in
    let h3 = link_next l p2 (some insert) h2 in
    let h4 = set_next insert (some target) h3 in
    let h5 = set_prev target (some insert) h4 in
    let at1 : h1.items target
        ≡ record { list = some l; prev = last_or none xs; next = first ys none } =
      put-other h.items insert target _ ne ∙ here in
    let at2 = put-other h1.items insert target _ ne ∙ at1 in
    let (front, same_tail, keeps) =
      link_next-Front l h2 xs p2 (some target) (some insert) (ap (λ v. v.prev) at2) dx (record {
        head = is.head ∙ first-append xs (target ∷ ys) none;
        chain =
            Segment-put_two l h.items insert insert _ _ none xs (some target) new_x new_x before;
      }) in
    let new_node : h4.items insert ≡ record { list = some l; prev = p; next = some target } =
      put-same h3.items insert _
      ∙ ap {B = Node} (λ (v : Node). record v { next = some target })
          (keeps insert new_x
            ∙ put-same h1.items insert _
            ∙ ap {B = Node} (λ (v : Node). record v { prev = p }) (put-same h.items insert _)) in
    let tied : h5.items target
        ≡ record { list = some l; prev = some insert; next = first ys none } =
      put-same h4.items target _
      ∙ ap {B = Node} (λ (v : Node). record v { prev = some insert })
          (put-other h3.items insert target _ ne ∙ keeps target away_x ∙ at2) in
    (
      h5,
      ap (λ (o : Option ℕ). elim o [ none ↦ abort | some l ↦ ok (before_in l target insert h) ])
          (ap (λ v. v.list) here),
      record {
        head = front.head ∙ sym (first-append xs (insert ∷ target ∷ ys) none);
        tail =
            same_tail
            ∙ is.tail
            ∙ last_or-append none xs (target ∷ ys)
            ∙ sym (last_or-append none xs (insert ∷ target ∷ ys));
        chain =
            Segment-join l h5.items none xs (insert ∷ target ∷ ys) none
              (Segment-put_two l h3.items insert target _ _ none xs (some insert) new_x away_x
                front.chain)
              (
                put-other h4.items target insert _ (λ e. ne (sym e))
                    ∙ new_node
                    ∙ ap {B = Node} (λ q. record { list = some l; prev = q; next = some target })
                        (ap (λ v. v.prev) at1),
                (
                  tied,
                  Segment-put_two l h3.items insert target _ _ (some target) ys none new_y away_y (
                      Segment-Keeps h2 h3 l xs (some target) ys none keeps apart (
                        Segment-put_two l h.items insert insert _ _ (some target) ys none new_y
                          new_y after)),
                ),
              );
        distinct =
            Distinct-join xs (insert ∷ target ∷ ys) dx (new_ty, dty)
              (Apart-insert insert xs (target ∷ ys) new_x other);
      },
    )

-- In a list that holds a target, an insertion of an item of no list behind it goes through, and the list
-- then holds the item right behind the target, and the others as they were.
pub list_insert_after-IsList :
    (h : Heap) (l target insert : ℕ) (xs ys : List ℕ)
    → IsList h l (xs ++ target ∷ ys)
    → (h.items insert).list ≡ none
    → (h' : Heap) × (list_insert_after target insert h ≡ ok h')
      × IsList h' l (xs ++ target ∷ insert ∷ ys)
unfolding list_insert_after
list_insert_after-IsList h l target insert xs ys is out =
    let (before, at) = Segment-split l h.items none xs (target ∷ ys) none is.chain in
    let (here, after) = at in
    let (dx, dty, away, other) = Distinct-split xs (target ∷ ys) is.distinct in
    let (away_y, dy) = dty in
    let apart = Apart-tail target xs ys other in
    let (new_x, new_ty) =
      Avoids-split insert xs (target ∷ ys)
        (null-Avoids h.items l insert none _ none is.chain out) in
    let (ne, new_y) = new_ty in
    let h1 = set_list insert (some l) h in
    let n = (h1.items target).next in
    let h2 = set_next insert n h1 in
    let n2 = (h2.items target).next in
    let h3 = link_prev l n2 (some insert) h2 in
    let h4 = set_prev insert (some target) h3 in
    let h5 = set_next target (some insert) h4 in
    let at1 : h1.items target
        ≡ record { list = some l; prev = last_or none xs; next = first ys none } =
      put-other h.items insert target _ ne ∙ here in
    let at2 = put-other h1.items insert target _ ne ∙ at1 in
    let (back, same_head, keeps) =
      link_prev-Back l h2 ys n2 (some target) (some insert) (ap (λ v. v.next) at2) dy (record {
        tail = is.tail ∙ last_or-append none xs (target ∷ ys);
        chain = Segment-put_two l h.items insert insert _ _ (some target) ys none new_y new_y after;
      }) in
    let new_node : h4.items insert ≡ record { list = some l; prev = some target; next = n } =
      put-same h3.items insert _
      ∙ ap {B = Node} (λ (v : Node). record v { prev = some target })
          (keeps insert new_y
            ∙ put-same h1.items insert _
            ∙ ap {B = Node} (λ (v : Node). record v { next = n }) (put-same h.items insert _)) in
    let tied : h5.items target
        ≡ record { list = some l; prev = last_or none xs; next = some insert } =
      put-same h4.items target _
      ∙ ap {B = Node} (λ (v : Node). record v { next = some insert })
          (put-other h3.items insert target _ ne ∙ keeps target away_y ∙ at2) in
    (
      h5,
      ap (λ (o : Option ℕ). elim o [ none ↦ abort | some l ↦ ok (after_in l target insert h) ])
          (ap (λ v. v.list) here),
      record {
        head =
            same_head
            ∙ is.head
            ∙ first-append xs (target ∷ ys) none
            ∙ sym (first-append xs (target ∷ insert ∷ ys) none);
        tail = back.tail ∙ sym (last_or-append none xs (target ∷ insert ∷ ys));
        chain =
            Segment-join l h5.items none xs (target ∷ insert ∷ ys) none
              (Segment-put_two l h3.items insert target _ _ none xs (some target) new_x away.0 (
                Segment-Keeps h2 h3 l ys none xs (some target) keeps apart (
                  Segment-put_two l h.items insert insert _ _ none xs (some target) new_x new_x
                    before)))
              (
                tied,
                (
                  put-other h4.items target insert _ (λ e. ne (sym e))
                      ∙ new_node
                      ∙ ap {B = Node} (λ q. record { list = some l; prev = some target; next = q })
                          (ap (λ v. v.next) at1),
                  Segment-put_two l h3.items insert target _ _ (some insert) ys none new_y away_y
                      back.chain,
                ),
              );
        distinct =
            Distinct-join xs (target ∷ insert ∷ ys) dx (((λ e. ne (sym e)), away_y), (new_y, dy))
              (Apart-insert target xs (insert ∷ ys) away.0 (Apart-insert insert xs ys new_x apart));
      },
    )
