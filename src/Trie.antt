-- ===== src/Trie.antt =====
-- adt/fs_trie.c: paths of a file system as a tree of nodes, each with the children that its list holds.
-- A pointer to a node is the way to it: the place of each child on the way from the root.
pub mod Insert
pub mod Paths
pub mod Children
pub mod Lookup
pub mod Having
pub mod Pointers
pub mod Deleting
pub mod Distinct
pub mod Inserting
pub mod Longest
pub mod Reading
pub mod Appending
mod Tests
use mathlib.Core.Option.{map}
use ioapps.Base.{
  ℕ, zero, suc, ◌+◌, ltb, ◌==◌, if◌then◌else◌, Bool, true, false, List, [], ◌∷◌, ◌++◌, Option, none,
  some, length,
}
use ioapps.Base.Int.{ℤ, pos, minus_one}
use ioapps.Base.Run.{Run, ok, check, ◌>>=◌, ◌>>◌}
use ioapps.Parsing.{same, strtok_all}

-- The children of a node, from the first on: each with its key, its own data and its children.
pub data Nodes (A : Type 0) : Type 0 where
  no_nodes : Nodes A
  node : List ℕ → A → Nodes A → Nodes A → Nodes A

-- `trie_t` without its functions; the key of the root is the delimiter.
pub record Trie (A : Type 0) : Type 0 where
  pub root : A
  pub children : Nodes A
  pub delim : ℕ

-- A child: its place among its siblings, its data and its children.
pub record Child (A : Type 0) : Type 0 where
  pub place : ℕ
  pub value : A
  pub children : Nodes A

abbrev pub Pointer : Type 0
Pointer = List ℕ

-- The constants of fs_trie.h, and `MAX_LINE`.
abbrev pub trie_ok : ℤ
trie_ok = pos 0

abbrev pub trie_many : ℤ
trie_many = pos 2

abbrev pub trie_err : ℤ
trie_err = minus_one

abbrev pub max_line : ℕ
max_line = 512

module _ {A : Type 0} where
  -- `trie_init`, with the data that `create` gives the root.
  abbrev pub trie_init : ℕ → A → Trie A
  trie_init delim fresh = record { root = fresh; children = no_nodes; delim = delim }

  abbrev pub later : Child A → Child A
  later c = record c { place = suc c.place }

  -- `trie_find_child`
  unfoldable pub trie_find_child : Nodes A → List ℕ → Option (Child A)
  trie_find_child no_nodes part_key = none
  trie_find_child (node key value children rest) part_key =
      let others = map later (trie_find_child rest part_key) in
      if same key part_key
      then some (record { place = 0; value = value; children = children })
      else others

  -- The loop of `trie_find`.
  unfoldable pub find_from : Nodes A → List (List ℕ) → Option Pointer
  find_from n [] = some []
  find_from n (s ∷ parts) = elim (trie_find_child n s) [
    | none ↦ none
    | some c ↦ map (λ p. c.place ∷ p) (find_from c.children parts)
  ]

  unfoldable pub trie_find : Trie A → List ℕ → Option Pointer
  trie_find t full_key = find_from t.children (strtok_all t.delim full_key)

  -- The children of the node at a pointer, and its data.
  unfoldable pub children_at : Nodes A → Pointer → Nodes A
  children_at n [] = n
  children_at no_nodes (i ∷ p) = no_nodes
  children_at (node key value children rest) (zero ∷ p) = children_at children p
  children_at (node key value children rest) (suc i ∷ p) = children_at rest (i ∷ p)

  unfoldable pub value_at : A → Nodes A → Pointer → Option A
  value_at root n [] = some root
  value_at root no_nodes (i ∷ p) = none
  value_at root (node key value children rest) (zero ∷ p) = value_at value children p
  value_at root (node key value children rest) (suc i ∷ p) = value_at root rest (i ∷ p)

  -- The list without the node at a pointer, and without all below it.
  unfoldable pub remove_at : Nodes A → Pointer → Nodes A
  remove_at n [] = no_nodes
  remove_at no_nodes (i ∷ p) = no_nodes
  remove_at (node key value children rest) (zero ∷ []) = rest
  remove_at (node key value children rest) (zero ∷ j ∷ p) =
      node key value (remove_at children (j ∷ p)) rest
  remove_at (node key value children rest) (suc i ∷ p) =
      node key value children (remove_at rest (i ∷ p))

  -- `list_length(&node->children) == 0`
  abbrev pub trie_is_leaf : Nodes A → Bool
  trie_is_leaf no_nodes = true
  trie_is_leaf (node key value children rest) = false

  -- `trie_delete2`: the children are deleted one after the other, then the node, unless it is the root.
  unfoldable pub trie_delete2 : Trie A → Pointer → ℤ × Trie A
  trie_delete2 t n = (
    if trie_is_leaf (children_at t.children n) then trie_ok else trie_many,
    record t { children = remove_at t.children n },
  )

  unfoldable pub trie_delete : Trie A → List ℕ → ℤ × Trie A
  trie_delete t full_key = elim (trie_find t full_key) [
    | none ↦ (trie_err, t)
    | some n ↦ trie_delete2 t n
  ]

  -- `trie_destroy`, up to the root itself, which is freed with what is left here.
  abbrev pub trie_destroy : Trie A → Trie A
  trie_destroy t = (trie_delete2 t []).1

  -- A change of the data of the node at a pointer.
  unfoldable pub change_at : Nodes A → Pointer → (A → A) → Nodes A
  change_at n [] f = n
  change_at no_nodes (i ∷ p) f = no_nodes
  change_at (node key value children rest) (zero ∷ []) f = node key (f value) children rest
  change_at (node key value children rest) (zero ∷ j ∷ p) f =
      node key value (change_at children (j ∷ p) f) rest
  change_at (node key value children rest) (suc i ∷ p) f =
      node key value children (change_at rest (i ∷ p) f)

  abbrev pub change_value : Trie A → Pointer → (A → A) → Trie A
  change_value t [] f = record t { root = f t.root }
  change_value t (i ∷ p) f = record t { children = change_at t.children (i ∷ p) f }

  -- `trie_apply2`: the data of the nodes, in the order in which the function is called.
  abbrev pub trie_apply2 : Nodes A → List A
  trie_apply2 no_nodes = []
  trie_apply2 (node key value children rest) = trie_apply2 children ++ value ∷ trie_apply2 rest

  abbrev pub trie_apply : Trie A → List A
  trie_apply t = trie_apply2 t.children ++ t.root ∷ []

  -- `trie_apply2_full` for the nodes of a list whose parent has the given name: the name and the data of
  -- each call; `buff` has room for `max_line` characters.
  abbrev pub trie_apply2_full : ℕ → List ℕ → Nodes A → Run (List (List ℕ × A))
  trie_apply2_full delim name no_nodes = ok []
  trie_apply2_full delim name (node key value children rest) =
      check (ltb (length (name ++ delim ∷ key)) max_line)
      >> (trie_apply2_full delim (name ++ delim ∷ key) children >>= λ calls.
          trie_apply2_full delim name rest >>= λ others.
          ok (calls ++ (name ++ delim ∷ key, value) ∷ others))

  unfoldable pub trie_apply_full : Trie A → Run (List (List ℕ × A))
  trie_apply_full t = trie_apply2_full t.delim (t.delim ∷ []) t.children >>= λ calls.
      ok (calls ++ (t.delim ∷ [], t.root) ∷ [])
