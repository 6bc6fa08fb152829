-- ===== src/Trie/Lookup.antt =====
-- adt/fs_trie.c: the trie as a map from paths to data, and what looking up, appending and changing do to it.
use mathlib.Core.Option.{map, bind, none-ne-some, some-injective}
use ioapps.Base.{
  ℕ, ◌≡◌, refl, sym, ap, ◌∙◌, fun_ext, if◌then◌else◌, Bool, Option-cases, inl, inr, true, false,
  List, [], ◌∷◌, ◌++◌, Option, none, some,
}
use ioapps.Parsing.{same}
use ioapps.Trie.{
  Nodes, Trie, Child, Pointer, trie_find_child, find_from, trie_find, children_at, value_at,
}
use ioapps.Trie.Paths.{path_of, IsPath, strtok_all-path_of}
use ioapps.Trie.Children.{
  some-of-map, below, ChildAt, find_child-ChildAt, find_child-none, ChildAt-below, ChildAt-value,
  ChildAt-children, ChildAt-find_child,
}

-- Whether the first path is a prefix of the second.
abbrev pub leads : List (List ℕ) → List (List ℕ) → Bool
leads [] ks = true
leads (q ∷ qs) [] = false
leads (q ∷ qs) (k ∷ ks) = let rest = leads qs ks in if same k q then rest else false

bind-map :
    {A B C : Type 0} (f : A → B) (g : B → Option C) (o : Option A)
    → bind (map f o) g ≡ bind o (λ a. g (f a))
unfolding bind
bind-map f g none = refl
bind-map f g (some a) = refl

module _ {A : Type 0} where
  -- The data at a path, below the root's.
  unfoldable pub find_value : A → Nodes A → List (List ℕ) → Option A
  find_value root n [] = some root
  find_value root n (k ∷ ks) = elim (below n k) [ none ↦ none | some c ↦ find_value c.0 c.1 ks ]

  pub find_value-none :
      (root : A) (n : Nodes A) (k : List ℕ) (ks : List (List ℕ))
      → below n k ≡ none
      → find_value root n (k ∷ ks) ≡ none
  unfolding find_value
  find_value-none root n k ks e = rw (find_value, e) refl

  pub find_value-some :
      (root : A) (n : Nodes A) (k : List ℕ) (ks : List (List ℕ)) (v : A) (ch : Nodes A)
      → below n k ≡ some (v, ch)
      → find_value root n (k ∷ ks) ≡ find_value v ch ks
  unfolding find_value
  find_value-some root n k ks v ch e = rw (find_value, e) refl

  pub find_value-cong :
      (root : A) (n m : Nodes A) (q : List ℕ) (qs : List (List ℕ))
      → below n q ≡ below m q
      → find_value root n (q ∷ qs) ≡ find_value root m (q ∷ qs)
  unfolding find_value
  find_value-cong root n m q qs e = rw (find_value, e) refl

  find_from-none :
      (n : Nodes A) (k : List ℕ) (ks : List (List ℕ))
      → trie_find_child n k ≡ none
      → find_from n (k ∷ ks) ≡ none
  unfolding find_from
  find_from-none n k ks e = rw (find_from, e) refl

  pub find_from-some :
      (n : Nodes A) (k : List ℕ) (ks : List (List ℕ)) (c : Child A)
      → trie_find_child n k ≡ some c
      → find_from n (k ∷ ks) ≡ map (λ p. c.place ∷ p) (find_from c.children ks)
  unfolding find_from
  find_from-some n k ks c e = rw (find_from, e) refl

  -- The first step of a search that finds a node.
  pub find_from-cases :
      (n : Nodes A) (k : List ℕ) (ks : List (List ℕ)) (p : Pointer)
      → find_from n (k ∷ ks) ≡ some p
      → (c : Child A) × (p' : Pointer) × ChildAt n k c
        × (find_from c.children ks ≡ some p')
        × (p ≡ c.place ∷ p')
  find_from-cases n k ks p e = elim (Option-cases (trie_find_child n k)) [
    | inl missing ↦ absurd (none-ne-some _ (sym (find_from-none n k ks missing) ∙ e))
    | inr (c, found) ↦
        let (p', below_it, eq) =
          some-of-map (λ p. c.place ∷ p) (find_from c.children ks) p
            (sym (find_from-some n k ks c found) ∙ e) in
        (c, p', find_child-ChildAt n k c found, below_it, eq)
  ]

  -- One key more.
  pub find_from-snoc :
      (n : Nodes A) (ms : List (List ℕ)) (p : Pointer) (k : List ℕ) (c : Child A)
      → find_from n ms ≡ some p
      → trie_find_child (children_at n p) k ≡ some c
      → (find_from n (ms ++ k ∷ []) ≡ some (p ++ c.place ∷ []))
        × (children_at n (p ++ c.place ∷ []) ≡ c.children)
  unfolding find_from children_at
  find_from-snoc n [] p k c e h =
      let at_root = some-injective [] p e in
      let h' : trie_find_child n k ≡ some c =
        ap (λ z. trie_find_child (children_at n z) k) at_root ∙ h in
      rw (sym at_root)
        (find_from-some n k [] c h', ChildAt-children [] (find_child-ChildAt n k c h'))
  find_from-snoc n (m ∷ ms) p k c e h =
      let (d, p', at, e', eq) = find_from-cases n m ms p e in
      let h' : trie_find_child (children_at d.children p') k ≡ some c =
        ap (λ z. trie_find_child z k) (sym (ChildAt-children p' at) ∙ ap (children_at n) (sym eq))
        ∙ h in
      let (found, ch) = find_from-snoc d.children ms p' k c e' h' in
      rw eq (
        find_from-some n m (ms ++ k ∷ []) d (ChildAt-find_child at)
            ∙ ap (map (λ p. d.place ∷ p)) found,
        ChildAt-children (p' ++ c.place ∷ []) at ∙ ch,
      )

  -- The pointer that is found leads to the data at the path.
  pub find_from-value :
      (root : A) (n : Nodes A) (ks : List (List ℕ))
      → bind (find_from n ks) (value_at root n) ≡ find_value root n ks
  unfolding find_from bind find_value value_at
  find_from-value root n [] = refl
  find_from-value root n (k ∷ ks) = elim (Option-cases (trie_find_child n k)) [
    | inr (c, e) ↦
        let h = find_child-ChildAt n k c e in
        rw
          (
            find_from-some n k ks c e,
            find_value-some root n k ks c.value c.children (ChildAt-below h),
          )
          (bind-map (λ p. c.place ∷ p) (value_at root n) (find_from c.children ks)
            ∙ ap (bind (find_from c.children ks)) (fun_ext (λ p. ChildAt-value root p h))
            ∙ find_from-value c.value c.children ks)
    | inl e ↦ rw (find_from-none n k ks e, find_value-none root n k ks (find_child-none n k e)) refl
  ]

  -- A path of keys, written with the delimiter in front of each, is found where the trie has data
  -- there, and the pointer leads to that data.
  pub trie_find-value :
      (t : Trie A) (ks : List (List ℕ))
      → IsPath t.delim ks
      → bind (trie_find t (path_of t.delim ks)) (value_at t.root t.children)
        ≡ find_value t.root t.children ks
  unfolding trie_find
  trie_find-value t ks h =
      rw (strtok_all-path_of t.delim ks h) (find_from-value t.root t.children ks)
