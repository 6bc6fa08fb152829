-- ===== src/Trie/Appending.antt =====
-- adt/fs_trie.c: `trie_insert2` below the longest path that exists, as a change of the map from paths to data.
use mathlib.Core.Option.{or_else, none-ne-some, some-injective}
use ioapps.Base.{
  ℕ, zero, suc, ◌≡◌, refl, sym, ap, ◌∙◌, if◌then◌else◌, Bool-cases, Option-cases, inl, inr, false,
  List, [], ◌∷◌, ◌++◌, Option, none, some,
}
use ioapps.Parsing.{same}
use ioapps.Trie.{Nodes, no_nodes, node, Child, Pointer, find_from, children_at}
use ioapps.Trie.Paths.{same-eq}
use ioapps.Trie.Children.{
  below, ChildAt, ChildAt-below, ChildAt-children, replace_at, below-replace_at,
}
use ioapps.Trie.Lookup.{
  leads, find_value, find_value-some, find_value-none, find_value-cong, find_from-cases,
}
use ioapps.Trie.Insert.{append_nodes, append_at, width, insert_loop}

module _ {A : Type 0} where
  -- The new nodes, each below the one before.
  abbrev pub chain : A → List (List ℕ) → Nodes A
  chain fresh [] = no_nodes
  chain fresh (s ∷ parts) = node s fresh (chain fresh parts) no_nodes

  append_nodes-nil : (n : Nodes A) → append_nodes n no_nodes ≡ n
  append_nodes-nil no_nodes = refl
  append_nodes-nil (node key v ch rest) = ap (node key v ch) (append_nodes-nil rest)

  pub append_at-nil : (n : Nodes A) (p : Pointer) → append_at n p no_nodes ≡ n
  unfolding append_at
  append_at-nil n [] = append_nodes-nil n
  append_at-nil no_nodes (i ∷ p) = refl
  append_at-nil (node key v ch rest) (zero ∷ p) = ap (λ z. node key v z rest) (append_at-nil ch p)
  append_at-nil (node key v ch rest) (suc i ∷ p) = ap (node key v ch) (append_at-nil rest (i ∷ p))

  -- What is appended to a node that has just been appended stands below it.
  append_nodes-twice :
      (n new : Nodes A) (s : List ℕ) (v : A)
      → append_at (append_nodes n (node s v no_nodes no_nodes)) (width n ∷ []) new
        ≡ append_nodes n (node s v new no_nodes)
  unfolding append_at
  append_nodes-twice no_nodes new s v = refl
  append_nodes-twice (node key w ch rest) new s v =
      ap (node key w ch) (append_nodes-twice rest new s v)

  append_at-twice :
      (n : Nodes A) (p : Pointer) (new : Nodes A) (s : List ℕ) (v : A)
      → append_at
          (append_at n p (node s v no_nodes no_nodes))
          (p ++ width (children_at n p) ∷ [])
          new
        ≡ append_at n p (node s v new no_nodes)
  unfolding append_at children_at
  append_at-twice n [] new s v = append_nodes-twice n new s v
  append_at-twice no_nodes (i ∷ p) new s v = refl
  append_at-twice (node key w ch rest) (zero ∷ p) new s v =
      ap (λ z. node key w z rest) (append_at-twice ch p new s v)
  append_at-twice (node key w ch rest) (suc i ∷ p) new s v =
      ap (node key w ch) (append_at-twice rest (i ∷ p) new s v)

  -- The loop appends the chain.
  pub insert_loop-chain :
      (fresh : A) (n : Nodes A) (p : Pointer) (parts : List (List ℕ))
      → (insert_loop fresh n p parts).0 ≡ append_at n p (chain fresh parts)
  unfolding insert_loop
  insert_loop-chain fresh n p [] = sym (append_at-nil n p)
  insert_loop-chain fresh n p (s ∷ parts) =
      insert_loop-chain fresh (append_at n p (node s fresh no_nodes no_nodes))
        (p ++ width (children_at n p) ∷ []) parts
      ∙ append_at-twice n p (chain fresh parts) s fresh

  chain-value :
      (fresh : A) (parts qs : List (List ℕ))
      → find_value fresh (chain fresh parts) qs ≡ (if leads qs parts then some fresh else none)
  unfolding find_value
  chain-value fresh parts [] = refl
  chain-value fresh [] (q ∷ qs) = refl
  chain-value fresh (s ∷ parts) (q ∷ qs) = elim (Bool-cases (same s q)) [
    | inl e ↦ rw (find_value, e) (chain-value fresh parts qs)
    | inr e ↦ rw (find_value, e) refl
  ]

  pub or_else-none : (o : Option A) → or_else o none ≡ o
  unfolding or_else
  or_else-none none = refl
  or_else-none (some a) = refl

  differ :
      (n : Nodes A) {c : A × Nodes A} (s q : List ℕ)
      → below n s ≡ none
      → below n q ≡ some c
      → same s q ≡ false
  differ n s q h found = elim (Bool-cases (same s q)) [
    | inl e ↦ let eq = same-eq s q e in absurd (none-ne-some _ (sym h ∙ ap (below n) eq ∙ found))
    | inr e ↦ e
  ]

  pub below-append_nodes :
      (n new : Nodes A) (q : List ℕ)
      → below (append_nodes n new) q ≡ or_else (below n q) (below new q)
  unfolding or_else
  below-append_nodes no_nodes new q = refl
  below-append_nodes (node key v ch rest) new q = elim (Bool-cases (same key q)) [
    | inl s ↦ rw s refl
    | inr s ↦ rw s (below-append_nodes rest new q)
  ]

  pub append_at-child :
      {n : Nodes A} {k : List ℕ} {c : Child A} (p : Pointer) (new : Nodes A)
      → ChildAt n k c
      → append_at n (c.place ∷ p) new ≡ replace_at n c.place c.value (append_at c.children p new)
  unfolding append_at
  append_at-child p new ChildAt.here = refl
  append_at-child p new (ChildAt.there {key = key} {v = v} {ch = ch} e h) =
      ap (node key v ch) (append_at-child p new h)

  -- A chain below a node that has no child with its first key.
  append_nodes-value :
      (root fresh : A) (n : Nodes A) (s : List ℕ) (parts qs : List (List ℕ))
      → below n s ≡ none
      → find_value root (append_nodes n (chain fresh (s ∷ parts))) qs
        ≡ or_else (find_value root n qs) (if leads qs (s ∷ parts) then some fresh else none)
  unfolding or_else find_value
  append_nodes-value root fresh n s parts [] h = refl
  append_nodes-value root fresh n s parts (q ∷ qs) h =
      let new = chain fresh (s ∷ parts) in
      let both = below-append_nodes n new q in
      elim (Option-cases (below n q)) [
        | inl missing ↦ elim (Bool-cases (same s q)) [
          | inl e ↦
              let found : below (append_nodes n new) q ≡ some (fresh, chain fresh parts) =
                both ∙ rw (missing, e) refl in
              rw (find_value-none root n q qs missing, e)
                (find_value-some root _ q qs fresh (chain fresh parts) found
                  ∙ chain-value fresh parts qs)
          | inr e ↦
              let none_found : below (append_nodes n new) q ≡ none = both ∙ rw (missing, e) refl in
              rw (find_value-none root n q qs missing, e) (find_value-none root _ q qs none_found)
        ]
        | inr (c, found) ↦
            let still : below (append_nodes n new) q ≡ some c = both ∙ rw found refl in
            let other : same s q ≡ false = differ n s q h found in
            rw (find_value-some root n q qs c.0 c.1 found, other)
              (find_value-some root _ q qs c.0 c.1 still
                ∙ sym (or_else-none (find_value c.0 c.1 qs)))
      ]

  -- The same below the node that a path leads to.
  pub append_at-value :
      (root fresh : A) (n : Nodes A) (ms : List (List ℕ)) (p : Pointer) (s : List ℕ)
      (parts qs : List (List ℕ))
      → find_from n ms ≡ some p
      → below (children_at n p) s ≡ none
      → find_value root (append_at n p (chain fresh (s ∷ parts))) qs
        ≡ or_else (find_value root n qs) (if leads qs (ms ++ s ∷ parts) then some fresh else none)
  unfolding find_from find_value or_else children_at append_at
  append_at-value root fresh n [] p s parts qs e h =
      let at_root = some-injective [] p e in
      rw (sym at_root) (
        append_nodes-value root fresh n s parts qs
          (ap (λ z. below (children_at n z) s) at_root ∙ h))
  append_at-value root fresh n (k ∷ ms) p s parts [] e h = refl
  append_at-value root fresh n (k ∷ ms) p s parts (q ∷ qs) e h =
      let (c, p', at, e', eq) = find_from-cases n k ms p e in
      let new = chain fresh (s ∷ parts) in
      let h' : below (children_at c.children p') s ≡ none =
        ap (λ z. below z s) (sym (ChildAt-children p' at))
        ∙ ap (λ z. below (children_at n z) s) (sym eq)
        ∙ h in
      let grown : below (append_at n p new) q
          ≡ (if same k q then some (c.value, append_at c.children p' new) else below n q) =
        ap (λ z. below z q) (ap (λ z. append_at n z new) eq ∙ append_at-child p' new at)
        ∙ below-replace_at c.value (append_at c.children p' new) q at in
      elim (Bool-cases (same k q)) [
        | inl same_key ↦
            let old : below n q ≡ some (c.value, c.children) =
              ap (below n) (sym (same-eq k q same_key)) ∙ ChildAt-below at in
            rw (find_value-some root n q qs c.value c.children old, same_key)
              (find_value-some root _ q qs c.value _ (grown ∙ rw same_key refl)
                ∙ append_at-value c.value fresh c.children ms p' s parts qs e' h')
        | inr other ↦ rw other (
            find_value-cong root (append_at n p new) n q qs (grown ∙ rw other refl)
            ∙ sym (or_else-none (find_value root n (q ∷ qs))))
      ]
