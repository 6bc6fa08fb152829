-- ===== src/Trie/Insert.antt =====
-- adt/fs_trie.c: `trie_longest_prefix` and `trie_insert2`.
use mathlib.Core.Option.{map}
use ioapps.Base.{
  ℕ, zero, suc, ◌==◌, if◌then◌else◌, not, ◌&&◌, Bool, true, false, List, [], ◌∷◌, ◌++◌, Option,
  none, some, length, take, drop, replicate, set,
}
use ioapps.Parsing.{same, strtok_all}
use ioapps.Trie.{Nodes, no_nodes, node, Trie, Child, Pointer, trie_find_child, children_at}

-- The string that an array holds.
abbrev pub c_str : List ℕ → List ℕ
c_str [] = []
c_str (c ∷ cs) = let rest = c_str cs in if c == 0 then [] else c ∷ rest

-- `rindex(s, c)`, from the next character on.
abbrev pub behind_last : ℕ → List ℕ → Option (List ℕ)
behind_last c [] = none
behind_last c (x ∷ xs) = elim (behind_last c xs) [
  | some rest ↦ some rest
  | none ↦ if x == c then some xs else none
]

-- The length of the common part of two strings that differ.
abbrev pub common : List ℕ → List ℕ → ℕ
common [] ys = 0
common (x ∷ xs) [] = 0
common (x ∷ xs) (y ∷ ys) = let rest = common xs ys in if x == y then suc rest else 0

-- `buff` after `memcpy(buff, full_key, count); buff[count+1] = 0`.
abbrev pub prefix_copied : List ℕ → ℕ → List ℕ → List ℕ
prefix_copied full_key count buff = set (take count full_key ++ drop count buff) (suc count) 0

-- `buff` after `strcpy(buff, s)`.
abbrev pub str_copied : List ℕ → List ℕ → List ℕ
str_copied s buff = s ++ 0 ∷ drop (suc (length s)) buff

-- The variables of the loop of `trie_longest_prefix`: `n1` with its children, `part_key` up to `i`,
-- `buff`, `lastc`, and the counters.
pub record Search (A : Type 0) : Type 0 where
  pub n1 : Pointer
  pub children : Nodes A
  pub part_key : List ℕ
  pub buff : List ℕ
  pub lastc : ℕ
  pub num_chars : ℕ
  pub count : ℕ

-- How much of the key is skipped.
abbrev pub skipped : List ℕ → List ℕ → Pointer → ℕ
skipped prefix full_key [] = 0
skipped prefix full_key (i ∷ n) = common prefix full_key

module _ {A : Type 0} where
  -- What is done for a character, in the search, whether a delimiter ended a part or not.
  abbrev pub char_taken : ℕ → ℕ → Search A → Search A
  char_taken delim c s = record s {
    part_key = if c == delim then s.part_key else s.part_key ++ c ∷ [];
    lastc = c;
    num_chars = suc s.num_chars;
    count = suc s.count;
  }

  -- `n1 = n2`
  abbrev pub moved : List ℕ → Child A → Search A → Search A
  moved full_key child s = record s {
    n1 = s.n1 ++ child.place ∷ [];
    children = child.children;
    part_key = [];
    buff = prefix_copied full_key s.count s.buff;
  }

  -- One round of the loop; `none` where the child is missing.
  unfoldable pub search_step : ℕ → List ℕ → ℕ → Search A → Option (Search A)
  search_step delim full_key c s =
      if s.lastc == delim && c == delim
      then some (record s { lastc = c; count = suc s.count })
      else if c == delim && not (s.num_chars == 0)
      then map (λ child. char_taken delim c (moved full_key child s))
          (trie_find_child s.children s.part_key)
      else some (char_taken delim c s)

  -- The loop: whether it came to the end of the key, and the variables then.
  unfoldable pub search_loop : ℕ → List ℕ → List ℕ → Search A → Bool × Search A
  search_loop delim full_key [] s = (true, s)
  search_loop delim full_key (c ∷ rest) s = elim (search_step delim full_key c s) [
    | none ↦ (false, s)
    | some s' ↦ search_loop delim full_key rest s'
  ]

  -- The last part of the key, below `n1`, or the whole key, below the root.
  abbrev pub last_part : List ℕ → Search A → Nodes A → List ℕ → Pointer → Pointer × List ℕ
  last_part full_key s n part missing = elim (trie_find_child n part) [
    | none ↦ (missing, s.buff)
    | some child ↦ (missing ++ child.place ∷ [], str_copied full_key s.buff)
  ]

  abbrev pub finish_search : Trie A → List ℕ → Bool × Search A → Pointer × List ℕ
  finish_search t full_key (false, s) = (s.n1, s.buff)
  finish_search t full_key (true, s) = elim (behind_last t.delim full_key) [
    | none ↦ last_part full_key s t.children full_key []
    | some part ↦ last_part full_key s s.children part s.n1
  ]

  abbrev pub start_search : Trie A → List ℕ → Search A
  start_search t buff = record {
    n1 = [];
    children = t.children;
    part_key = [];
    buff = set buff 0 0;
    lastc = 0;
    num_chars = 0;
    count = 0;
  }

  -- The node, and what is in `buff` then.
  unfoldable pub trie_longest_prefix : Trie A → List ℕ → List ℕ → Pointer × List ℕ
  trie_longest_prefix t full_key buff =
      finish_search t full_key (search_loop t.delim full_key full_key (start_search t buff))

  abbrev pub width : Nodes A → ℕ
  width no_nodes = 0
  width (node key value children rest) = suc (width rest)

  abbrev pub append_nodes : Nodes A → Nodes A → Nodes A
  append_nodes no_nodes new = new
  append_nodes (node key value children rest) new = node key value children (append_nodes rest new)

  -- `list_append(&n->children, ...)`
  unfoldable pub append_at : Nodes A → Pointer → Nodes A → Nodes A
  append_at n [] new = append_nodes n new
  append_at no_nodes (i ∷ p) new = no_nodes
  append_at (node key value children rest) (zero ∷ p) new =
      node key value (append_at children p new) rest
  append_at (node key value children rest) (suc i ∷ p) new =
      node key value children (append_at rest (i ∷ p) new)

  -- The loop of `trie_insert2`, with the data that `create` gives a node.
  unfoldable pub insert_loop : A → Nodes A → Pointer → List (List ℕ) → Nodes A × Pointer
  insert_loop fresh n p [] = (n, p)
  insert_loop fresh n p (s ∷ parts) =
      insert_loop fresh (append_at n p (node s fresh no_nodes no_nodes))
        (p ++ width (children_at n p) ∷ []) parts

  abbrev pub insert_below : Trie A → List ℕ → A → Pointer × List ℕ → Trie A × Pointer
  insert_below t full_key fresh (n, prefix) =
      let parts = strtok_all t.delim (drop (skipped (c_str prefix) full_key n) full_key) in
      let made = insert_loop fresh t.children n parts in
      if same (c_str prefix) full_key then (t, n) else (record t { children = made.0 }, made.1)

  unfoldable pub trie_insert2 : Trie A → List ℕ → A → Trie A × Pointer
  trie_insert2 t full_key fresh =
      insert_below t full_key fresh
        (trie_longest_prefix t full_key (replicate (suc (length full_key)) 0))

  unfoldable pub trie_insert : Trie A → List ℕ → A → Trie A × Pointer
  trie_insert t full_key new_node = trie_insert2 t full_key new_node
