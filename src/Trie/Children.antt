-- ===== src/Trie/Children.antt =====
-- adt/fs_trie.c: the children of one node, looked up without their places and with one of them replaced.
use mathlib.Core.Option.{map, some-injective, some-ne-none}
use ioapps.Base.{
  ℕ, zero, suc, ◌≡◌, refl, sym, ap, ◌∙◌, if◌then◌else◌, Bool-cases, inl, inr, true, false, List,
  ◌∷◌, Option, none, some,
}
use ioapps.Parsing.{same}
use ioapps.Trie.{
  Nodes, no_nodes, node, Child, Pointer, later, trie_find_child, children_at, value_at,
}
use ioapps.Trie.Paths.{same_refl, same-eq, same-swap}

pub some-of-map :
    {A B : Type 0} (f : A → B) (o : Option A) (b : B)
    → map f o ≡ some b
    → (a : A) × (o ≡ some a) × (b ≡ f a)
some-of-map f none b e = cc
some-of-map f (some a) b e = (a, refl, cc)

none-of-map : {A B : Type 0} (f : A → B) (o : Option A) → map f o ≡ none → o ≡ none
none-of-map f none e = refl
none-of-map f (some a) e = cc

module _ {A : Type 0} where
  -- A child without its place: its data and its children.
  abbrev pub below : Nodes A → List ℕ → Option (A × Nodes A)
  below no_nodes k = none
  below (node key value children rest) k =
      let others = below rest k in if same key k then some (value, children) else others

  -- The first child with a key.
  pub data ChildAt : Nodes A → List ℕ → Child A → Type 0 where
    here :
        {k : List ℕ} {v : A} {ch rest : Nodes A}
        → ChildAt (node k v ch rest) k (record { place = 0; value = v; children = ch })
    there :
        {key k : List ℕ} {v : A} {ch rest : Nodes A} {c : Child A}
        → same key k ≡ false
        → ChildAt rest k c
        → ChildAt (node key v ch rest) k (later c)

  find_child-here :
      (key k : List ℕ) (v : A) (ch rest : Nodes A)
      → same key k ≡ true
      → trie_find_child (node key v ch rest) k
        ≡ some (record { place = 0; value = v; children = ch })
  unfolding trie_find_child
  find_child-here key k v ch rest e = rw e refl

  find_child-there :
      (key k : List ℕ) (v : A) (ch rest : Nodes A)
      → same key k ≡ false
      → trie_find_child (node key v ch rest) k ≡ map later (trie_find_child rest k)
  unfolding trie_find_child
  find_child-there key k v ch rest e = rw e refl

  pub find_child-ChildAt :
      (n : Nodes A) (k : List ℕ) (c : Child A) → trie_find_child n k ≡ some c → ChildAt n k c
  unfolding trie_find_child
  find_child-ChildAt no_nodes k c e = cc
  find_child-ChildAt (node key v ch rest) k c e = elim (Bool-cases (same key k)) [
    | inl s ↦
        let eq : record { place = 0; value = v; children = ch } ≡ c =
          some-injective _ _ (sym (find_child-here key k v ch rest s) ∙ e) in
        rw (sym eq, same-eq key k s) here
    | inr s ↦
        let (d, found, eq) =
          some-of-map later (trie_find_child rest k) c
            (sym (find_child-there key k v ch rest s) ∙ e) in
        rw eq (there s (find_child-ChildAt rest k d found))
  ]

  pub ChildAt-find_child :
      {n : Nodes A} {k : List ℕ} {c : Child A} → ChildAt n k c → trie_find_child n k ≡ some c
  ChildAt-find_child (here {k = k} {v = v} {ch = ch} {rest = rest}) =
      find_child-here k k v ch rest (same_refl k)
  ChildAt-find_child (there {key = key} {k = k} {v = v} {ch = ch} {rest = rest} e h) =
      find_child-there key k v ch rest e ∙ ap (map later) (ChildAt-find_child h)

  pub find_child-none : (n : Nodes A) (k : List ℕ) → trie_find_child n k ≡ none → below n k ≡ none
  unfolding trie_find_child
  find_child-none no_nodes k e = refl
  find_child-none (node key v ch rest) k e = elim (Bool-cases (same key k)) [
    | inl s ↦ absurd (some-ne-none _ (sym (find_child-here key k v ch rest s) ∙ e))
    | inr s ↦ rw s (
        find_child-none rest k (none-of-map later _ (sym (find_child-there key k v ch rest s) ∙ e)))
  ]

  pub ChildAt-below :
      {n : Nodes A} {k : List ℕ} {c : Child A}
      → ChildAt n k c
      → below n k ≡ some (c.value, c.children)
  ChildAt-below (here {k = k}) = rw (same_refl k) refl
  ChildAt-below (there e h) = rw e (ChildAt-below h)

  pub ChildAt-value :
      {n : Nodes A} {k : List ℕ} {c : Child A} (root : A) (p : Pointer)
      → ChildAt n k c
      → value_at root n (c.place ∷ p) ≡ value_at c.value c.children p
  unfolding value_at
  ChildAt-value root p here = refl
  ChildAt-value root p (there e h) = ChildAt-value root p h

  pub ChildAt-children :
      {n : Nodes A} {k : List ℕ} {c : Child A} (p : Pointer)
      → ChildAt n k c
      → children_at n (c.place ∷ p) ≡ children_at c.children p
  unfolding children_at
  ChildAt-children p here = refl
  ChildAt-children p (there e h) = ChildAt-children p h

  -- The list with other data and other children for the child at a place.
  abbrev pub replace_at : Nodes A → ℕ → A → Nodes A → Nodes A
  replace_at no_nodes i v ch = no_nodes
  replace_at (node key value children rest) zero v ch = node key v ch rest
  replace_at (node key value children rest) (suc i) v ch =
      node key value children (replace_at rest i v ch)

  pub below-replace_at :
      {n : Nodes A} {k : List ℕ} {c : Child A} (v : A) (ch : Nodes A) (q : List ℕ)
      → ChildAt n k c
      → below (replace_at n c.place v ch) q ≡ (if same k q then some (v, ch) else below n q)
  below-replace_at v ch q (here {k = k}) = elim (Bool-cases (same k q)) [
    | inl s ↦ rw s refl
    | inr s ↦ rw s refl
  ]
  below-replace_at v ch q (there {key = key} {k = k} e h) = elim (Bool-cases (same key q)) [
    | inl s ↦ rw (s, ap (same k) (sym (same-eq key q s)), same-swap key k e) refl
    | inr s ↦ rw s (below-replace_at v ch q h)
  ]
