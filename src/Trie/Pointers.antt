-- ===== src/Trie/Pointers.antt =====
-- adt/fs_trie.c: the node that `trie_insert2` answers is the one that `trie_find` finds afterwards.

use mathlib.Core.Option.{map, some-injective}
use ioapps.Base.{
  ℕ, zero, suc, ◌≡◌, refl, sym, ap, ◌∙◌, ◌==◌, false, List, [], ◌∷◌, ◌++◌, append-nil, append_assoc,
  none, some, length, replicate,
}
use ioapps.Trie.{Nodes, no_nodes, node, Trie, Child, Pointer, find_from, trie_find, children_at}
use ioapps.Trie.Paths.{path_of, IsPath, strtok_all-path_of}
use ioapps.Trie.Children.{below, ChildAt, ChildAt-find_child, ChildAt-children, replace_at}
use ioapps.Trie.Lookup.{find_from-cases, find_from-some}
use ioapps.Trie.Distinct.{Distinct, below-none-cases, append_at-Distinct}
use ioapps.Trie.Inserting.{trie_insert2-Splits}
use ioapps.Trie.Appending.{chain, append_at-child, insert_loop-chain}
use ioapps.Trie.Insert.{append_nodes, append_at, width, insert_loop, trie_insert2}

module _ {A : Type 0} where
  appended-empty :
      (n : Nodes A) (s : List ℕ) (v : A)
      → children_at (append_nodes n (node s v no_nodes no_nodes)) (width n ∷ []) ≡ no_nodes
  unfolding children_at
  appended-empty no_nodes s v = refl
  appended-empty (node key w ch rest) s v = appended-empty rest s v

  -- A node that has just been appended has no children.
  appended_at-empty :
      (n : Nodes A) (p : Pointer) (s : List ℕ) (v : A)
      → children_at (append_at n p (node s v no_nodes no_nodes)) (p ++ width (children_at n p) ∷ [])
        ≡ no_nodes
  unfolding append_at children_at
  appended_at-empty n [] s v = appended-empty n s v
  appended_at-empty no_nodes (i ∷ p) s v = refl
  appended_at-empty (node key w ch rest) (zero ∷ p) s v = appended_at-empty ch p s v
  appended_at-empty (node key w ch rest) (suc i ∷ p) s v = appended_at-empty rest (i ∷ p) s v

  insert_loop-pointer :
      (fresh : A) (n : Nodes A) (p : Pointer) (s : List ℕ) (parts : List (List ℕ))
      → (insert_loop fresh n p (s ∷ parts)).1
        ≡ p ++ width (children_at n p) ∷ replicate (length parts) 0
  unfolding insert_loop
  insert_loop-pointer fresh n p s [] = refl
  insert_loop-pointer fresh n p s (s' ∷ parts) =
      let n' = append_at n p (node s fresh no_nodes no_nodes) in
      let p' = p ++ width (children_at n p) ∷ [] in
      insert_loop-pointer fresh (append_at n p (node s fresh no_nodes no_nodes))
        (p ++ width (children_at n p) ∷ []) s' parts
      ∙ ap (λ z. p' ++ width z ∷ replicate (length parts) 0) (appended_at-empty n p s fresh)
      ∙ append_assoc p (width (children_at n p) ∷ []) (0 ∷ replicate (length parts) 0)

  ChildAt-replace :
      {n : Nodes A} {k : List ℕ} {c : Child A} (v : A) (ch : Nodes A)
      → ChildAt n k c
      → ChildAt (replace_at n c.place v ch) k (record { place = c.place; value = v; children = ch })
  ChildAt-replace v ch ChildAt.here = ChildAt.here
  ChildAt-replace v ch (ChildAt.there e h) = ChildAt.there e (ChildAt-replace v ch h)

  ChildAt-append :
      (n ch : Nodes A) (s : List ℕ) (v : A)
      → below n s ≡ none
      → ChildAt
          (append_nodes n (node s v ch no_nodes))
          s
          (record { place = width n; value = v; children = ch })
  ChildAt-append no_nodes ch s v h = ChildAt.here
  ChildAt-append (node key w ds rest) ch s v h =
      let (other, r) = below-none-cases key s w ds rest h in
      ChildAt.there other (ChildAt-append rest ch s v r)

  chain-found :
      (fresh : A) (parts : List (List ℕ))
      → find_from (chain fresh parts) parts ≡ some (replicate (length parts) 0)
  unfolding find_from
  chain-found fresh [] = refl
  chain-found fresh (s ∷ parts) =
      find_from-some (chain fresh (s ∷ parts)) s parts _ (ChildAt-find_child ChildAt.here)
      ∙ ap (map (λ p. 0 ∷ p)) (chain-found fresh parts)

  append_at-found :
      (fresh : A) (n : Nodes A) (ms : List (List ℕ)) (p : Pointer) (s : List ℕ)
      (parts : List (List ℕ))
      → find_from n ms ≡ some p
      → below (children_at n p) s ≡ none
      → find_from (append_at n p (chain fresh (s ∷ parts))) (ms ++ s ∷ parts)
        ≡ some (p ++ width (children_at n p) ∷ replicate (length parts) 0)
  unfolding find_from append_at children_at
  append_at-found fresh n [] p s parts e h =
      let at_root = some-injective [] p e in
      let new =
        ChildAt-append n (chain fresh parts) s fresh
          (ap (λ z. below (children_at n z) s) at_root ∙ h) in
      rw (sym at_root) (
        find_from-some _ s parts _ (ChildAt-find_child new)
        ∙ ap (map (λ p. width n ∷ p)) (chain-found fresh parts))
  append_at-found fresh n (m ∷ ms) p s parts e h =
      let (c, p', at, e', eq) = find_from-cases n m ms p e in
      let same_place : children_at c.children p' ≡ children_at n p =
        sym (ChildAt-children p' at) ∙ ap (children_at n) (sym eq) in
      let new = ChildAt-replace c.value (append_at c.children p' (chain fresh (s ∷ parts))) at in
      ap (λ z. find_from z (m ∷ ms ++ s ∷ parts))
        (ap (λ z. append_at n z (chain fresh (s ∷ parts))) eq
          ∙ append_at-child p' (chain fresh (s ∷ parts)) at)
      ∙ find_from-some _ m (ms ++ s ∷ parts) _ (ChildAt-find_child new)
      ∙ ap (map (λ p. c.place ∷ p))
          (append_at-found fresh c.children ms p' s parts e' (ap (λ z. below z s) same_place ∙ h))
      ∙ ap some (
          ap (λ z. c.place ∷ p' ++ width z ∷ replicate (length parts) 0) same_place
          ∙ ap (λ z. z ++ width (children_at n p) ∷ replicate (length parts) 0) (sym eq))

  loop-found :
      (fresh : A) (n : Nodes A) (ms rest : List (List ℕ)) (p : Pointer)
      → find_from n ms ≡ some p
      → ((s : List ℕ) (parts : List (List ℕ)) → rest ≡ s ∷ parts → below (children_at n p) s ≡ none)
      → find_from (insert_loop fresh n p rest).0 (ms ++ rest) ≡ some (insert_loop fresh n p rest).1
  unfolding insert_loop
  loop-found fresh n ms [] p e missing = rw (append-nil ms) e
  loop-found fresh n ms (s ∷ parts) p e missing =
      rw (insert_loop-chain fresh n p (s ∷ parts), insert_loop-pointer fresh n p s parts)
        (append_at-found fresh n ms p s parts e (missing s parts refl))

  loop-Distinct :
      (fresh : A) (n : Nodes A) (ms rest : List (List ℕ)) (p : Pointer)
      → find_from n ms ≡ some p
      → ((s : List ℕ) (parts : List (List ℕ)) → rest ≡ s ∷ parts → below (children_at n p) s ≡ none)
      → Distinct n
      → Distinct (insert_loop fresh n p rest).0
  unfolding insert_loop
  loop-Distinct fresh n ms [] p e missing d = d
  loop-Distinct fresh n ms (s ∷ parts) p e missing d =
      rw (insert_loop-chain fresh n p (s ∷ parts))
        (append_at-Distinct fresh n ms p s parts e (missing s parts refl) d)

  -- A path of one key or more, where the delimiter is not NUL: after the insertion `trie_find` finds the
  -- node that it has answered, and siblings that had different keys have them still.
  pub trie_insert2-find :
      (t : Trie A) (fresh : A) (k : List ℕ) (ks : List (List ℕ))
      → (t.delim == 0) ≡ false
      → IsPath t.delim (k ∷ ks)
      → Distinct t.children
      → (trie_find (trie_insert2 t (path_of t.delim (k ∷ ks)) fresh).0 (path_of t.delim (k ∷ ks))
          ≡ some (trie_insert2 t (path_of t.delim (k ∷ ks)) fresh).1)
        × Distinct (trie_insert2 t (path_of t.delim (k ∷ ks)) fresh).0.children
  unfolding trie_find
  trie_insert2-find t fresh k ks some_delim path d =
      let h = trie_insert2-Splits t fresh k ks some_delim path in
      rw (h.made) (
        ap (find_from (insert_loop fresh t.children h.start h.lack).0)
              (strtok_all-path_of t.delim (k ∷ ks) path ∙ h.whole)
            ∙ loop-found fresh t.children h.have h.lack h.start h.found h.missing,
        loop-Distinct fresh t.children h.have h.lack h.start h.found h.missing d,
      )
