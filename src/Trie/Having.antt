-- ===== src/Trie/Having.antt =====
-- adt/fs_trie.c: which paths a trie has, whatever the data there, and that changed data leaves them.
use mathlib.Core.Option.{or_else, some-injective}
use ioapps.Base.{
  ℕ, zero, suc, ◌≡◌, refl, sym, ap, ◌∙◌, ◌==◌, if◌then◌else◌, ◌||◌, not, ◌&&◌, Bool, Bool-cases,
  Option-cases, inl, inr, true, false, List, [], ◌∷◌, ◌++◌, Option, none, some,
}
use ioapps.Parsing.{same}
use ioapps.Trie.{
  Nodes, no_nodes, node, Trie, Pointer, find_from, trie_find_child, children_at, trie_delete,
  change_at, change_value,
}
use ioapps.Trie.Paths.{path_of, IsPath}
use ioapps.Trie.Children.{below, ChildAt-below, ChildAt-children, find_child-none}
use ioapps.Trie.Lookup.{leads, find_value, find_from-cases}
use ioapps.Trie.Distinct.{Distinct, below-none-cases}
use ioapps.Trie.Insert.{trie_insert2}
use ioapps.Trie.Inserting.{trie_insert2-value}
use ioapps.Trie.Deleting.{trie_delete-value}

abbrev pub is_some {ℓ} : {A : Type ℓ} → Option A → Bool
is_some none = false
is_some (some a) = true

is_some-or_else :
    {A : Type 0} (o : Option A) (b : Bool) (a : A)
    → is_some (or_else o (if b then some a else none)) ≡ (is_some o || b)
unfolding or_else
is_some-or_else none true a = refl
is_some-or_else none false a = refl
is_some-or_else (some x) b a = refl

is_some-if :
    {A : Type 0} (b : Bool) (o : Option A) → is_some (if b then none else o) ≡ (not b && is_some o)
is_some-if true o = refl
is_some-if false o = refl

module _ {A : Type 0} where
  -- Whether data is at a path.
  unfoldable pub has : Nodes A → List (List ℕ) → Bool
  has n [] = true
  has n (k ∷ ks) = elim (below n k) [ none ↦ false | some c ↦ has c.1 ks ]

  pub has-value :
      (root : A) (n : Nodes A) (ks : List (List ℕ)) → is_some (find_value root n ks) ≡ has n ks
  unfolding has find_value
  has-value root n [] = refl
  has-value root n (k ∷ ks) = elim (Option-cases (below n k)) [
    | inl e ↦ rw (find_value, has, e) refl
    | inr (c, e) ↦ rw (find_value, has, e) (has-value c.0 c.1 ks)
  ]

  has-same :
      (key q : List ℕ) (v : A) (ch rest : Nodes A) (qs : List (List ℕ))
      → same key q ≡ true
      → has (node key v ch rest) (q ∷ qs) ≡ has ch qs
  unfolding has
  has-same key q v ch rest qs s = rw (has, s) refl

  has-other :
      (key q : List ℕ) (v : A) (ch rest : Nodes A) (qs : List (List ℕ))
      → same key q ≡ false
      → has (node key v ch rest) (q ∷ qs) ≡ has rest (q ∷ qs)
  unfolding has
  has-other key q v ch rest qs s = rw (has, s) refl

  has-cong :
      (key q : List ℕ) (v w : A) (ch ds rest others : Nodes A) (qs : List (List ℕ))
      → has ch qs ≡ has ds qs
      → has rest (q ∷ qs) ≡ has others (q ∷ qs)
      → has (node key v ch rest) (q ∷ qs) ≡ has (node key w ds others) (q ∷ qs)
  has-cong key q v w ch ds rest others qs below_it beside = elim (Bool-cases (same key q)) [
    | inl s ↦ has-same key q v ch rest qs s ∙ below_it ∙ sym (has-same key q w ds others qs s)
    | inr s ↦ has-other key q v ch rest qs s ∙ beside ∙ sym (has-other key q w ds others qs s)
  ]

  change_at-has :
      (n : Nodes A) (p : Pointer) (f : A → A) (qs : List (List ℕ))
      → has (change_at n p f) qs ≡ has n qs
  unfolding change_at has
  change_at-has n p f [] = refl
  change_at-has n [] f (q ∷ qs) = refl
  change_at-has no_nodes (i ∷ p) f (q ∷ qs) = refl
  change_at-has (node key v ch rest) (zero ∷ []) f (q ∷ qs) =
      has-cong key q (f v) v ch ch rest rest qs refl refl
  change_at-has (node key v ch rest) (zero ∷ j ∷ p) f (q ∷ qs) =
      has-cong key q v v (change_at ch (j ∷ p) f) ch rest rest qs (change_at-has ch (j ∷ p) f qs)
        refl
  change_at-has (node key v ch rest) (suc i ∷ p) f (q ∷ qs) =
      has-cong key q v v ch ch (change_at rest (i ∷ p) f) rest qs refl
        (change_at-has rest (i ∷ p) f (q ∷ qs))

  below-none-change :
      (n : Nodes A) (p : Pointer) (f : A → A) (q : List ℕ)
      → below n q ≡ none
      → below (change_at n p f) q ≡ none
  unfolding change_at
  below-none-change n [] f q h = h
  below-none-change no_nodes (i ∷ p) f q h = refl
  below-none-change (node key v ch rest) (zero ∷ []) f q h =
      let (s, r) = below-none-cases key q v ch rest h in rw (s, r) refl
  below-none-change (node key v ch rest) (zero ∷ j ∷ p) f q h =
      let (s, r) = below-none-cases key q v ch rest h in rw (s, r) refl
  below-none-change (node key v ch rest) (suc i ∷ p) f q h =
      let (s, r) = below-none-cases key q v ch rest h in rw s (below-none-change rest (i ∷ p) f q r)

  change_at-Distinct :
      (n : Nodes A) (p : Pointer) (f : A → A) → Distinct n → Distinct (change_at n p f)
  unfolding change_at
  change_at-Distinct n [] f d = d
  change_at-Distinct no_nodes (i ∷ p) f d = tt
  change_at-Distinct (node key v ch rest) (zero ∷ []) f d = d
  change_at-Distinct (node key v ch rest) (zero ∷ j ∷ p) f (alone, below_it, others) =
      (alone, change_at-Distinct ch (j ∷ p) f below_it, others)
  change_at-Distinct (node key v ch rest) (suc i ∷ p) f (alone, below_it, others) = (
    below-none-change rest (i ∷ p) f key alone,
    below_it,
    change_at-Distinct rest (i ∷ p) f others,
  )

  -- What a change of the data at a pointer leaves as it is.
  pub change_value-has :
      (t : Trie A) (p : Pointer) (f : A → A) (qs : List (List ℕ))
      → has (change_value t p f).children qs ≡ has t.children qs
  change_value-has t [] f qs = refl
  change_value-has t (i ∷ p) f qs = change_at-has t.children (i ∷ p) f qs

  pub change_value-Distinct :
      (t : Trie A) (p : Pointer) (f : A → A)
      → Distinct t.children
      → Distinct (change_value t p f).children
  change_value-Distinct t [] f d = d
  change_value-Distinct t (i ∷ p) f d = change_at-Distinct t.children (i ∷ p) f d

  pub change_value-delim :
      (t : Trie A) (p : Pointer) (f : A → A) → (change_value t p f).delim ≡ t.delim
  change_value-delim t [] f = refl
  change_value-delim t (i ∷ p) f = refl

  pub trie_insert2-has :
      (t : Trie A) (fresh : A) (k : List ℕ) (ks qs : List (List ℕ))
      → (t.delim == 0) ≡ false
      → IsPath t.delim (k ∷ ks)
      → has (trie_insert2 t (path_of t.delim (k ∷ ks)) fresh).0.children qs
        ≡ (has t.children qs || leads qs (k ∷ ks))
  trie_insert2-has t fresh k ks qs some_delim path =
      sym (has-value t.root _ qs)
      ∙ ap is_some (trie_insert2-value t fresh k ks qs some_delim path)
      ∙ is_some-or_else (find_value t.root t.children qs) (leads qs (k ∷ ks)) fresh
      ∙ ap (λ b. b || leads qs (k ∷ ks)) (has-value t.root t.children qs)

  pub trie_delete-has :
      (t : Trie A) (k : List ℕ) (ks qs : List (List ℕ))
      → IsPath t.delim (k ∷ ks)
      → Distinct t.children
      → has (trie_delete t (path_of t.delim (k ∷ ks))).1.children qs
        ≡ (not (leads (k ∷ ks) qs) && has t.children qs)
  trie_delete-has t k ks qs path d =
      sym (has-value t.root _ qs)
      ∙ ap is_some (trie_delete-value t k ks qs path d).0
      ∙ is_some-if (leads (k ∷ ks) qs) (find_value t.root t.children qs)
      ∙ ap (λ b. not (leads (k ∷ ks) qs) && b) (has-value t.root t.children qs)

  has-cons :
      (n : Nodes A) (k : List ℕ) (ks : List (List ℕ)) (v : A) (ch : Nodes A)
      → below n k ≡ some (v, ch)
      → has n (k ∷ ks) ≡ has ch ks
  unfolding has
  has-cons n k ks v ch e = rw (has, e) refl

  has-gone :
      (n : Nodes A) (k : List ℕ) (ks : List (List ℕ)) → below n k ≡ none → has n (k ∷ ks) ≡ false
  unfolding has
  has-gone n k ks e = rw (has, e) refl

  pub has-snoc_missing :
      (n : Nodes A) (ms : List (List ℕ)) (s : List ℕ) (p : Pointer)
      → find_from n ms ≡ some p
      → trie_find_child (children_at n p) s ≡ none
      → has n (ms ++ s ∷ []) ≡ false
  unfolding find_from children_at
  has-snoc_missing n [] s p e h =
      let at_root = some-injective [] p e in
      has-gone n s []
        (find_child-none n s (ap (λ z. trie_find_child (children_at n z) s) at_root ∙ h))
  has-snoc_missing n (m ∷ ms) s p e h =
      let (c, p', at, e', eq) = find_from-cases n m ms p e in
      has-cons n m (ms ++ s ∷ []) c.value c.children (ChildAt-below at)
      ∙ has-snoc_missing c.children ms s p' e' (
          ap (λ z. trie_find_child z s) (sym (ChildAt-children p' at) ∙ ap (children_at n) (sym eq))
          ∙ h)

  -- What is not there has nothing below it.
  pub has-below_missing :
      (n : Nodes A) (ks js : List (List ℕ)) → has n ks ≡ false → has n (ks ++ js) ≡ false
  unfolding has
  has-below_missing n [] js h = cc
  has-below_missing n (k ∷ ks) js h = elim (Option-cases (below n k)) [
    | inl e ↦ has-gone n k (ks ++ js) e
    | inr (c, e) ↦
        has-cons n k (ks ++ js) c.0 c.1 e
        ∙ has-below_missing c.1 ks js (sym (has-cons n k ks c.0 c.1 e) ∙ h)
  ]
