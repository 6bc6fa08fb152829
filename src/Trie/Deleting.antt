-- ===== src/Trie/Deleting.antt =====
-- adt/fs_trie.c: `trie_delete` on the text of a path.
use mathlib.Core.Option.{bind, some-ne-none, some-injective}
use ioapps.Base.{
  ℕ, ◌≡◌, ◌≢◌, refl, sym, ap, ◌∙◌, ◌↔◌, if◌then◌else◌, Bool-cases, Option-cases, inl, inr, Bool,
  true, false, List, [], ◌∷◌, none, some,
}
use ioapps.Parsing.{same}
use ioapps.Trie.{
  Nodes, node, Trie, Child, Pointer, find_from, trie_find, children_at, value_at, remove_at,
  trie_is_leaf, trie_ok, trie_many, trie_err, trie_delete2, trie_delete,
}
use ioapps.Trie.Paths.{path_of, IsPath, strtok_all-path_of, same-eq, same-swap, same_comm}
use ioapps.Trie.Children.{below, ChildAt, ChildAt-below, replace_at, below-replace_at}
use ioapps.Trie.Lookup.{
  leads, find_value, find_value-some, find_value-none, find_value-cong, find_from-cases,
  find_from-value,
}
use ioapps.Trie.Distinct.{Distinct, ChildAt-Distinct, remove_at-Distinct}

if-same : {B : Type 0} (b : Bool) (x : B) → (if b then x else x) ≡ x
if-same true x = refl
if-same false x = refl

module _ {A : Type 0} where
  remove_at-deep :
      {n : Nodes A} {k : List ℕ} {c : Child A} (j : ℕ) (p : Pointer)
      → ChildAt n k c
      → remove_at n (c.place ∷ j ∷ p) ≡ replace_at n c.place c.value (remove_at c.children (j ∷ p))
  unfolding remove_at
  remove_at-deep j p ChildAt.here = refl
  remove_at-deep j p (ChildAt.there {key = key} {v = v} {ch = ch} e h) =
      ap (node key v ch) (remove_at-deep j p h)

  below-remove_at :
      {n : Nodes A} {k : List ℕ} {c : Child A} (q : List ℕ)
      → ChildAt n k c
      → Distinct n
      → below (remove_at n (c.place ∷ [])) q ≡ (if same k q then none else below n q)
  unfolding remove_at
  below-remove_at q (ChildAt.here {k = k} {v = v} {ch = ch} {rest = rest})
        (alone, below_it, others) =
      elim (Bool-cases (same k q)) [
        | inl s ↦ rw s (ap (below rest) (sym (same-eq k q s)) ∙ alone)
        | inr s ↦ rw s refl
      ]
  below-remove_at q (ChildAt.there {key = key} {k = k} e h) (alone, below_it, others) =
      elim (Bool-cases (same key q)) [
        | inl s ↦ rw (s, ap (same k) (sym (same-eq key q s)), same-swap key k e) refl
        | inr s ↦ rw s (below-remove_at q h others)
      ]

  remove_at-value :
      (root : A) (n : Nodes A) (k : List ℕ) (ks qs : List (List ℕ)) (p : Pointer)
      → find_from n (k ∷ ks) ≡ some p
      → Distinct n
      → find_value root (remove_at n p) qs
        ≡ (if leads (k ∷ ks) qs then none else find_value root n qs)
  unfolding find_from find_value
  remove_at-value root n k ks [] p e d = refl
  remove_at-value root n k [] (q ∷ qs) p e d =
      let (c, p', at, e', eq) = find_from-cases n k [] p e in
      let last = some-injective [] p' e' in
      let less : below (remove_at n p) q ≡ (if same k q then none else below n q) =
        ap (λ z. below (remove_at n z) q) (eq ∙ ap (λ z. c.place ∷ z) (sym last))
        ∙ below-remove_at q at d in
      elim (Bool-cases (same k q)) [
        | inl s ↦ rw (same_comm q k, s) (find_value-none root _ q qs (less ∙ rw s refl))
        | inr s ↦
            rw (same_comm q k, s) (find_value-cong root (remove_at n p) n q qs (less ∙ rw s refl))
      ]
  remove_at-value root n k (k' ∷ ks) (q ∷ qs) p e d =
      let (c, p', at, e', eq) = find_from-cases n k (k' ∷ ks) p e in
      let (c', p'', at', e'', eq') = find_from-cases c.children k' ks p' e' in
      let less : below (remove_at n p) q
          ≡ (if same k q then some (c.value, remove_at c.children p') else below n q) =
        ap (λ z. below (remove_at n z) q) (eq ∙ ap (λ z. c.place ∷ z) eq')
        ∙ ap (λ z. below z q) (remove_at-deep c'.place p'' at)
        ∙ ap (λ z. below (replace_at n c.place c.value (remove_at c.children z)) q) (sym eq')
        ∙ below-replace_at c.value (remove_at c.children p') q at in
      elim (Bool-cases (same k q)) [
        | inl s ↦
            let old : below n q ≡ some (c.value, c.children) =
              ap (below n) (sym (same-eq k q s)) ∙ ChildAt-below at in
            rw (same_comm q k, s, find_value-some root n q qs c.value c.children old)
              (find_value-some root _ q qs c.value _ (less ∙ rw s refl)
                ∙ remove_at-value c.value c.children k' ks qs p' e' (ChildAt-Distinct at d))
        | inr s ↦
            rw (same_comm q k, s) (find_value-cong root (remove_at n p) n q qs (less ∙ rw s refl))
      ]

  missing-value :
      (root : A) (n : Nodes A) (ks qs : List (List ℕ))
      → find_value root n ks ≡ none
      → find_value root n qs ≡ (if leads ks qs then none else find_value root n qs)
  unfolding find_value
  missing-value root n [] qs e = absurd (some-ne-none root e)
  missing-value root n (k ∷ ks) [] e = refl
  missing-value root n (k ∷ ks) (q ∷ qs) e = elim (Bool-cases (same k q)) [
    | inr s ↦ rw (same_comm q k, s) refl
    | inl s ↦ elim (Option-cases (below n k)) [
      | inl missing ↦
          rw (find_value-none root n q qs (ap (below n) (sym (same-eq k q s)) ∙ missing))
            (sym (if-same (leads (k ∷ ks) (q ∷ qs)) none))
      | inr (c, found) ↦
          let there = ap (below n) (sym (same-eq k q s)) ∙ found in
          rw (same_comm q k, s, find_value-some root n q qs c.0 c.1 there)
            (missing-value c.0 c.1 ks qs (sym (find_value-some root n k ks c.0 c.1 found) ∙ e))
    ]
  ]

  pub found-value :
      (root : A) (n : Nodes A) (ks : List (List ℕ)) (p : Pointer)
      → find_from n ks ≡ some p
      → (v : A) × (find_value root n ks ≡ some v)
  unfolding find_value
  found-value root n [] p e = (root, refl)
  found-value root n (k ∷ ks) p e =
      let (c, p', at, e', eq) = find_from-cases n k ks p e in
      let (v, found) = found-value c.value c.children ks p' e' in
      (v, find_value-some root n k ks c.value c.children (ChildAt-below at) ∙ found)

  trie_delete2-code : (t : Trie A) (p : Pointer) → (trie_delete2 t p).0 ≢ trie_err
  unfolding trie_delete2
  trie_delete2-code t p e = elim (Bool-cases (trie_is_leaf (children_at t.children p))) [
    | inl s ↦
        let found : trie_ok ≡ trie_err = sym (ap (λ b. if b then trie_ok else trie_many) s) ∙ e in
        cc
    | inr s ↦
        let found : trie_many ≡ trie_err = sym (ap (λ b. if b then trie_ok else trie_many) s) ∙ e in
        cc
  ]

  delete-found :
      (t : Trie A) (key : List ℕ) (p : Pointer)
      → trie_find t key ≡ some p
      → trie_delete t key ≡ trie_delete2 t p
  unfolding trie_delete
  delete-found t key p e = rw (trie_delete, e) refl

  delete-missing :
      (t : Trie A) (key : List ℕ) → trie_find t key ≡ none → trie_delete t key ≡ (trie_err, t)
  unfolding trie_delete
  delete-missing t key e = rw (trie_delete, e) refl

  -- A path of one key or more, in a trie where siblings have different keys: afterwards nothing is at
  -- the path or below it, all else is as before; and the call fails where nothing was at the path.
  pub trie_delete-value :
      (t : Trie A) (k : List ℕ) (ks qs : List (List ℕ))
      → IsPath t.delim (k ∷ ks)
      → Distinct t.children
      → (find_value t.root (trie_delete t (path_of t.delim (k ∷ ks))).1.children qs
          ≡ (if leads (k ∷ ks) qs then none else find_value t.root t.children qs))
        × (((trie_delete t (path_of t.delim (k ∷ ks))).0 ≡ trie_err)
            ↔ (find_value t.root t.children (k ∷ ks) ≡ none))
  unfolding trie_find bind trie_delete2
  trie_delete-value t k ks qs path d =
      let key = path_of t.delim (k ∷ ks) in
      let search : trie_find t key ≡ find_from t.children (k ∷ ks) =
        ap (find_from t.children) (strtok_all-path_of t.delim (k ∷ ks) path) in
      elim (Option-cases (find_from t.children (k ∷ ks))) [
        | inl missing ↦
            let nothing : find_value t.root t.children (k ∷ ks) ≡ none =
              sym (find_from-value t.root t.children (k ∷ ks))
              ∙ ap (λ o. bind o (value_at t.root t.children)) missing in
            rw (delete-missing t key (search ∙ missing))
              (missing-value t.root t.children (k ∷ ks) qs nothing, (λ e. nothing, λ e. refl))
        | inr (p, found) ↦
            let (v, there) = found-value t.root t.children (k ∷ ks) p found in
            rw (delete-found t key p (search ∙ found)) (
              remove_at-value t.root t.children k ks qs p found d,
              (λ e. absurd (trie_delete2-code t p e), λ e. absurd (some-ne-none v (sym there ∙ e))),
            )
      ]

  -- Whatever the text: siblings that have different keys have them after a deletion.
  pub trie_delete-Distinct :
      (t : Trie A) (key : List ℕ) → Distinct t.children → Distinct (trie_delete t key).1.children
  unfolding trie_delete2
  trie_delete-Distinct t key d = elim (Option-cases (trie_find t key)) [
    | inl missing ↦ rw (delete-missing t key missing) d
    | inr (p, found) ↦ rw (delete-found t key p found) (remove_at-Distinct t.children p d)
  ]

  pub trie_delete-delim : (t : Trie A) (key : List ℕ) → (trie_delete t key).1.delim ≡ t.delim
  unfolding trie_delete2
  trie_delete-delim t key = elim (Option-cases (trie_find t key)) [
    | inl missing ↦ rw (delete-missing t key missing) refl
    | inr (p, found) ↦ rw (delete-found t key p found) refl
  ]
