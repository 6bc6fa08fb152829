-- ===== src/ItemList.antt =====
-- adt/list.c: the doubly linked lists that hold a trace and the chains of a hash table.
-- A pointer to an item or to a list is a number, and `none` is NULL. The heap says what is behind each
-- pointer.
pub mod Segments
pub mod Links
pub mod Laws
pub mod Inserting
mod Tests
use ioapps.Base.{ℕ, zero, suc, ◌==◌, if◌then◌else◌, Bool, true, false, Option, none, some}
use ioapps.Base.Run.{Run, ok, abort, check, ◌>>=◌, ◌>>◌}

-- `struct item`
pub record Node : Type 0 where
  pub list : Option ℕ
  pub prev : Option ℕ
  pub next : Option ℕ

-- `struct list`
pub record Ends : Type 0 where
  pub head : Option ℕ
  pub tail : Option ℕ

pub record Heap : Type 0 where
  pub items : ℕ → Node
  pub lists : ℕ → Ends

abbrev pub put : {A : Type 0} → (ℕ → A) → ℕ → A → ℕ → A
put f p v q = if p == q then v else f q

abbrev pub is_null : Option ℕ → Bool
is_null none = true
is_null (some p) = false

abbrev pub points_to : Option ℕ → ℕ → Bool
points_to none q = false
points_to (some p) q = p == q

-- The assignments.
abbrev pub set_list : ℕ → Option ℕ → Heap → Heap
set_list p v h = record h { items = put h.items p (record (h.items p) { list = v }) }

abbrev pub set_prev : ℕ → Option ℕ → Heap → Heap
set_prev p v h = record h { items = put h.items p (record (h.items p) { prev = v }) }

abbrev pub set_next : ℕ → Option ℕ → Heap → Heap
set_next p v h = record h { items = put h.items p (record (h.items p) { next = v }) }

abbrev pub set_head : ℕ → Option ℕ → Heap → Heap
set_head l v h = record h { lists = put h.lists l (record (h.lists l) { head = v }) }

abbrev pub set_tail : ℕ → Option ℕ → Heap → Heap
set_tail l v h = record h { lists = put h.lists l (record (h.lists l) { tail = v }) }

unfoldable pub list_init : ℕ → Heap → Heap
list_init l h = set_tail l none (set_head l none h)

unfoldable pub item_init : ℕ → Heap → Heap
item_init item h = set_list item none h

-- `item` becomes the next item of `p`, or the head of the list.
abbrev pub link_next : ℕ → Option ℕ → Option ℕ → Heap → Heap
link_next l none v h = set_head l v h
link_next l (some p) v h = set_next p v h

abbrev pub link_prev : ℕ → Option ℕ → Option ℕ → Heap → Heap
link_prev l none v h = set_tail l v h
link_prev l (some p) v h = set_prev p v h

unfoldable pub list_append : ℕ → ℕ → Heap → Run Heap
list_append l item h = do
  check (is_null (h.items item).list)
  let h1 = set_list item (some l) h
  let h2 = link_next l (h1.lists l).tail (some item) h1
  let h3 = set_prev item (h2.lists l).tail h2
  let h4 = set_next item none h3
  ok (set_tail l (some item) h4)

unfoldable pub list_remove : ℕ → ℕ → Heap → Run Heap
list_remove l item h = do
  check (points_to (h.items item).list l)
  let h1 = set_list item none h
  let h2 = link_next l (h1.items item).prev (h1.items item).next h1
  ok (link_prev l (h2.items item).next (h2.items item).prev h2)

-- `list_remove2`
unfoldable pub list_remove2 : ℕ → Heap → Run Heap
list_remove2 item h = elim (h.items item).list [ none ↦ abort | some l ↦ list_remove l item h ]

-- The assignments of `list_insert_before`, in the list of the target.
abbrev pub before_in : ℕ → ℕ → ℕ → Heap → Heap
before_in l target insert h =
    let h1 = set_list insert (some l) h in
    let h2 = set_prev insert (h1.items target).prev h1 in
    let h3 = link_next l (h2.items target).prev (some insert) h2 in
    let h4 = set_next insert (some target) h3 in set_prev target (some insert) h4

unfoldable pub list_insert_before : ℕ → ℕ → Heap → Run Heap
list_insert_before target insert h = elim (h.items target).list [
  | none ↦ abort
  | some l ↦ ok (before_in l target insert h)
]

abbrev pub after_in : ℕ → ℕ → ℕ → Heap → Heap
after_in l target insert h =
    let h1 = set_list insert (some l) h in
    let h2 = set_next insert (h1.items target).next h1 in
    let h3 = link_prev l (h2.items target).next (some insert) h2 in
    let h4 = set_prev insert (some target) h3 in set_next target (some insert) h4

unfoldable pub list_insert_after : ℕ → ℕ → Heap → Run Heap
list_insert_after target insert h = elim (h.items target).list [
  | none ↦ abort
  | some l ↦ ok (after_in l target insert h)
]

unfoldable pub list_empty : ℕ → Heap → Bool
list_empty l h = is_null (h.lists l).head

-- The loop of `list_length` from an item on, for at most so many rounds.
unfoldable pub length_from : ℕ → Option ℕ → Heap → Run ℕ
length_from fuel none h = ok 0
length_from zero (some i) h = abort
length_from (suc fuel) (some i) h = do n ← length_from fuel (h.items i).next h; ok (suc n)

unfoldable pub list_length : ℕ → ℕ → Heap → Run ℕ
list_length fuel l h = length_from fuel (h.lists l).head h

-- An empty list has no head to remove.
unfoldable pub list_rotate : ℕ → Heap → Run (ℕ × Heap)
list_rotate l h = elim (h.lists l).head [
  | none ↦ abort
  | some item ↦ do h ← list_remove l item h; h ← list_append l item h; ok (item, h)
]
