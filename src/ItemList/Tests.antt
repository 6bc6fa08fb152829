-- ===== src/ItemList/Tests.antt =====
-- A list of two items, and one item of no list.
use ioapps.Base.{ℕ, ◌==◌, ◌≢◌, if◌then◌else◌, ◌≡◌, refl, [], ◌∷◌, none, some, arith}
use ioapps.Base.Run.{ok}
use ioapps.ItemList.{Node, Heap, list_remove, list_insert_before}
use ioapps.ItemList.Inserting.{list_insert_before-IsList}
use ioapps.ItemList.Laws.{IsList, list_remove-IsList}

abbrev nodes : ℕ → Node
nodes q =
    if q == 5
    then record { list = some 0; prev = none; next = some 6 }
    else if q == 6
    then record { list = some 0; prev = some 5; next = none }
    else record { list = none; prev = none; next = none }

abbrev two_items : Heap
two_items = record { items = nodes; lists = λ l. record { head = some 5; tail = some 6 } }

six≢five : ◌≢◌ {A = ℕ} 6 5
six≢five e = omega (arith, e)

two_items-IsList : IsList two_items 0 (5 ∷ 6 ∷ [])
two_items-IsList = record {
  head = refl;
  tail = refl;
  chain = (refl, (refl, tt));
  distinct = ((six≢five, tt), (tt, tt));
}

list_remove-IsList_example :
    (h' : Heap) × (list_remove 0 6 two_items ≡ ok h')
    × IsList h' 0 (5 ∷ [])
    × ((h'.items 6).list ≡ none)
list_remove-IsList_example = list_remove-IsList two_items 0 6 (5 ∷ []) [] two_items-IsList

list_insert_before-IsList_example :
    (h' : Heap) × (list_insert_before 6 7 two_items ≡ ok h') × IsList h' 0 (5 ∷ 7 ∷ 6 ∷ [])
list_insert_before-IsList_example =
    list_insert_before-IsList two_items 0 6 7 (5 ∷ []) [] two_items-IsList refl
