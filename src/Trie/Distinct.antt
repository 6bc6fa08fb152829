-- ===== src/Trie/Distinct.antt =====
-- adt/fs_trie.c: the children of a node have different keys, and no operation changes that.
use mathlib.Core.Option.{some-injective, none-ne-some, or_else}
use ioapps.Base.{
  ℕ, zero, suc, ◌≡◌, refl, sym, ap, ◌∙◌, Bool-cases, inl, inr, true, false, List, [], ◌∷◌, none,
  some,
}
use ioapps.Parsing.{same}
use ioapps.Trie.{Nodes, no_nodes, node, Child, Pointer, find_from, children_at, remove_at}
use ioapps.Trie.Paths.{same-swap}
use ioapps.Trie.Children.{below, ChildAt, ChildAt-children, replace_at}
use ioapps.Trie.Lookup.{find_from-cases}
use ioapps.Trie.Appending.{chain, append_at-child, below-append_nodes}
use ioapps.Trie.Insert.{append_nodes, append_at}

module _ {A : Type 0} where
  abbrev pub Distinct : Nodes A → Type 0
  Distinct no_nodes = Unit {0}
  Distinct (node key value children rest) =
      (below rest key ≡ none) × Distinct children × Distinct rest

  pub below-here :
      (key q : List ℕ) (v : A) (ch rest : Nodes A)
      → same key q ≡ true
      → below (node key v ch rest) q ≡ some (v, ch)
  below-here key q v ch rest s = rw s refl

  pub below-there :
      (key q : List ℕ) (v : A) (ch rest : Nodes A)
      → same key q ≡ false
      → below (node key v ch rest) q ≡ below rest q
  below-there key q v ch rest s = rw s refl

  pub below-none-cases :
      (key q : List ℕ) (v : A) (ch rest : Nodes A)
      → below (node key v ch rest) q ≡ none
      → (same key q ≡ false) × (below rest q ≡ none)
  below-none-cases key q v ch rest h = elim (Bool-cases (same key q)) [
    | inl s ↦ absurd (none-ne-some _ (sym h ∙ below-here key q v ch rest s))
    | inr s ↦ (s, sym (below-there key q v ch rest s) ∙ h)
  ]

  below-none-replace :
      (n : Nodes A) (i : ℕ) (v : A) (ch : Nodes A) (q : List ℕ)
      → below n q ≡ none
      → below (replace_at n i v ch) q ≡ none
  below-none-replace no_nodes i v ch q h = refl
  below-none-replace (node key w ds rest) zero v ch q h =
      let (s, r) = below-none-cases key q w ds rest h in rw (s, r) refl
  below-none-replace (node key w ds rest) (suc i) v ch q h =
      let (s, r) = below-none-cases key q w ds rest h in rw s (below-none-replace rest i v ch q r)

  below-none-remove :
      (n : Nodes A) (p : Pointer) (q : List ℕ) → below n q ≡ none → below (remove_at n p) q ≡ none
  unfolding remove_at
  below-none-remove n [] q h = refl
  below-none-remove no_nodes (i ∷ p) q h = refl
  below-none-remove (node key w ds rest) (zero ∷ []) q h = (below-none-cases key q w ds rest h).1
  below-none-remove (node key w ds rest) (zero ∷ j ∷ p) q h =
      let (s, r) = below-none-cases key q w ds rest h in rw (s, r) refl
  below-none-remove (node key w ds rest) (suc i ∷ p) q h =
      let (s, r) = below-none-cases key q w ds rest h in rw s (below-none-remove rest (i ∷ p) q r)

  pub remove_at-Distinct : (n : Nodes A) (p : Pointer) → Distinct n → Distinct (remove_at n p)
  unfolding remove_at
  remove_at-Distinct n [] d = tt
  remove_at-Distinct no_nodes (i ∷ p) d = tt
  remove_at-Distinct (node key w ch rest) (zero ∷ []) (fresh, below_it, others) = others
  remove_at-Distinct (node key w ch rest) (zero ∷ j ∷ p) (fresh, below_it, others) =
      (fresh, remove_at-Distinct ch (j ∷ p) below_it, others)
  remove_at-Distinct (node key w ch rest) (suc i ∷ p) (fresh, below_it, others) =
      (below-none-remove rest (i ∷ p) key fresh, below_it, remove_at-Distinct rest (i ∷ p) others)

  replace_at-Distinct :
      (n : Nodes A) (i : ℕ) (v : A) (ch : Nodes A)
      → Distinct n
      → Distinct ch
      → Distinct (replace_at n i v ch)
  replace_at-Distinct no_nodes i v ch d c = tt
  replace_at-Distinct (node key w ds rest) zero v ch (fresh, below_it, others) c =
      (fresh, c, others)
  replace_at-Distinct (node key w ds rest) (suc i) v ch (fresh, below_it, others) c =
      (below-none-replace rest i v ch key fresh, below_it, replace_at-Distinct rest i v ch others c)

  chain-Distinct : (fresh : A) (parts : List (List ℕ)) → Distinct (chain fresh parts)
  chain-Distinct fresh [] = tt
  chain-Distinct fresh (s ∷ parts) = (refl, chain-Distinct fresh parts, tt)

  append_nodes-Distinct :
      (n ch : Nodes A) (s : List ℕ) (v : A)
      → Distinct n
      → Distinct ch
      → below n s ≡ none
      → Distinct (append_nodes n (node s v ch no_nodes))
  unfolding or_else
  append_nodes-Distinct no_nodes ch s v d c h = (refl, c, tt)
  append_nodes-Distinct (node key w ds rest) ch s v (fresh, below_it, others) c h =
      let (other, r) = below-none-cases key s w ds rest h in
      (
        below-append_nodes rest (node s v ch no_nodes) key ∙ rw (fresh, same-swap key s other) refl,
        below_it,
        append_nodes-Distinct rest ch s v others c r,
      )

  pub ChildAt-Distinct :
      {n : Nodes A} {k : List ℕ} {c : Child A} → ChildAt n k c → Distinct n → Distinct c.children
  ChildAt-Distinct ChildAt.here (fresh, below_it, others) = below_it
  ChildAt-Distinct (ChildAt.there e h) (fresh, below_it, others) = ChildAt-Distinct h others

  pub append_at-Distinct :
      (fresh : A) (n : Nodes A) (ms : List (List ℕ)) (p : Pointer) (s : List ℕ)
      (parts : List (List ℕ))
      → find_from n ms ≡ some p
      → below (children_at n p) s ≡ none
      → Distinct n
      → Distinct (append_at n p (chain fresh (s ∷ parts)))
  unfolding find_from append_at children_at
  append_at-Distinct fresh n [] p s parts e h d =
      let at_root = some-injective [] p e in
      rw (sym at_root) (
        append_nodes-Distinct n (chain fresh parts) s fresh d (chain-Distinct fresh parts)
          (ap (λ z. below (children_at n z) s) at_root ∙ h))
  append_at-Distinct fresh n (m ∷ ms) p s parts e h d =
      let (c, p', at, e', eq) = find_from-cases n m ms p e in
      let h' : below (children_at c.children p') s ≡ none =
        ap (λ z. below z s) (sym (ChildAt-children p' at))
        ∙ ap (λ z. below (children_at n z) s) (sym eq)
        ∙ h in
      rw (eq, append_at-child p' (chain fresh (s ∷ parts)) at)
        (replace_at-Distinct n c.place c.value _ d
          (append_at-Distinct fresh c.children ms p' s parts e' h' (ChildAt-Distinct at d)))
