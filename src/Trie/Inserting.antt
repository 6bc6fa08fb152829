-- ===== src/Trie/Inserting.antt =====
-- adt/fs_trie.c: `trie_insert2` on the text of a path.
use mathlib.Core.Option.{or_else}
use mathlib.Core.Path.{subst}
use ioapps.Base.{
  ℕ, zero, suc, ◌≡◌, refl, sym, ap, ◌∙◌, ◌==◌, if◌then◌else◌, Bool-cases, inl, inr, false, List, [],
  ◌∷◌, ◌++◌, append-nil, All, none, some, length, take, drop, drop-length, replicate,
}
use ioapps.Parsing.{same, strtok_all}
use ioapps.Trie.{Nodes, Trie, Pointer, find_from, children_at}
use ioapps.Trie.Paths.{
  path_of, IsKey, IsPath, path_of-append, strtok_all-path_of, same_refl, same-append, same-eq,
  common-append,
}
use ioapps.Trie.Children.{below, find_child-none, ChildAt-below}
use ioapps.Trie.Lookup.{leads, find_value, find_value-some, find_from-cases}
use ioapps.Trie.Longest.{mark, Ends, trie_longest_prefix-IsLongest}
use ioapps.Trie.Appending.{chain, insert_loop-chain, append_at-nil, append_at-value, or_else-none}
use ioapps.Trie.Insert.{
  c_str, skipped, append_at, insert_below, insert_loop, trie_longest_prefix, trie_insert2,
}

pub All-behind : {A : Type 0} (P : A → Type 0) (xs ys : List A) → All P (xs ++ ys) → All P ys
All-behind P [] ys h = h
All-behind P (x ∷ xs) ys (p, h) = All-behind P xs ys h

c_str-zeros : (n m : ℕ) → c_str (take 1 (drop n (replicate m 0))) ≡ []
c_str-zeros zero zero = refl
c_str-zeros zero (suc m) = refl
c_str-zeros (suc n) zero = refl
c_str-zeros (suc n) (suc m) = c_str-zeros n m

mark-zeros : (delim m : ℕ) (ms : List (List ℕ)) → mark delim (replicate m 0) ms ≡ path_of delim ms
mark-zeros delim m [] = refl
mark-zeros delim m (k ∷ ms) =
    ap (λ z. path_of delim (k ∷ ms) ++ z) (c_str-zeros (length (path_of delim (k ∷ ms))) m)
    ∙ append-nil (path_of delim (k ∷ ms))

module _ {A : Type 0} (t : Trie A) (fresh : A) where
  -- The part of the text behind the keys that were found.
  skipped-length :
      (ms : List (List ℕ)) (p : Pointer) (text : List ℕ)
      → find_from t.children ms ≡ some p
      → skipped (path_of t.delim ms) (path_of t.delim ms ++ text) p ≡ length (path_of t.delim ms)
  unfolding find_from
  skipped-length [] [] text e = refl
  skipped-length [] (i ∷ p) text e = refl
  skipped-length (m ∷ ms) [] text e =
      let (c, p', at, e', eq) = find_from-cases t.children m ms [] e in cc
  skipped-length (m ∷ ms) (i ∷ p) text e = common-append (path_of t.delim (m ∷ ms)) text

  -- The loop runs over the missing keys, from the node that was found.
  insert_below-loop :
      (ks ms rest : List (List ℕ)) (r : Pointer × List ℕ)
      → IsPath t.delim rest
      → ks ≡ ms ++ rest
      → find_from t.children ms ≡ some r.0
      → Ends t (replicate (suc (length (path_of t.delim ks))) 0) (path_of t.delim ks) ms rest r
      → insert_below t (path_of t.delim ks) fresh r ≡ (
        record t { children = (insert_loop fresh t.children r.0 rest).0 },
        (insert_loop fresh t.children r.0 rest).1,
      )
  unfolding insert_loop
  insert_below-loop ks ms [] (p, buff) path eq found ends =
      rw (ends, same_refl (path_of t.delim ks)) refl
  insert_below-loop ks ms (s ∷ parts) (p, buff) path eq found (missing, marked) =
      let full = path_of t.delim ms ++ path_of t.delim (s ∷ parts) in
      let text : path_of t.delim ks ≡ full =
        ap (path_of t.delim) eq ∙ path_of-append t.delim ms (s ∷ parts) in
      let prefix : c_str buff ≡ path_of t.delim ms =
        marked ∙ mark-zeros t.delim (suc (length (path_of t.delim ks))) ms in
      let tokens : strtok_all t.delim (drop (skipped (path_of t.delim ms) full p) full)
          ≡ s ∷ parts =
        ap (λ n. strtok_all t.delim (drop n full))
          (skipped-length ms p (path_of t.delim (s ∷ parts)) found)
        ∙ ap (strtok_all t.delim) (drop-length (path_of t.delim ms) (path_of t.delim (s ∷ parts)))
        ∙ strtok_all-path_of t.delim (s ∷ parts) path in
      rw
        (
          text,
          prefix,
          same-append (path_of t.delim ms) t.delim (s ++ path_of t.delim parts),
          tokens,
        )
        refl

  -- The keys that the trie has lead to the node below which the others are appended, and it has no child
  -- with the first of them.
  pub record Splits (ks : List (List ℕ)) : Type 0 where
    pub have : List (List ℕ)
    pub lack : List (List ℕ)
    pub start : Pointer
    pub whole : ks ≡ have ++ lack
    pub found : find_from t.children have ≡ some start
    pub missing :
        (s : List ℕ) (parts : List (List ℕ))
        → lack ≡ s ∷ parts
        → below (children_at t.children start) s ≡ none
    pub made : trie_insert2 t (path_of t.delim ks) fresh ≡ (
      record t { children = (insert_loop fresh t.children start lack).0 },
      (insert_loop fresh t.children start lack).1,
    )

  no-child :
      (buff full : List ℕ) (ms rest : List (List ℕ)) (r : Pointer × List ℕ)
      → Ends t buff full ms rest r
      → (s : List ℕ) (parts : List (List ℕ)) → rest ≡ s ∷ parts
      → below (children_at t.children r.0) s ≡ none
  no-child buff full ms [] r ends s parts eq = cc
  no-child buff full ms (k ∷ rest) r (missing, marked) s parts eq =
      let same_key : k ≡ s = cc in
      rw (sym same_key) (find_child-none (children_at t.children r.0) k missing)

  pub trie_insert2-Splits :
      (k : List ℕ) (ks : List (List ℕ))
      → (t.delim == 0) ≡ false
      → IsPath t.delim (k ∷ ks)
      → Splits (k ∷ ks)
  unfolding trie_insert2
  trie_insert2-Splits k ks some_delim path =
      let full = path_of t.delim (k ∷ ks) in
      let buff = replicate (suc (length full)) 0 in
      let r = trie_longest_prefix t full buff in
      let (ms, rest, eq, found, ends) = trie_longest_prefix-IsLongest t buff k ks some_delim path in
      record {
        have = ms;
        lack = rest;
        start = r.0;
        whole = eq;
        found = found;
        missing = no-child buff full ms rest r ends;
        made =
            insert_below-loop (k ∷ ks) ms rest r
              (All-behind (IsKey t.delim) ms rest (subst (IsPath t.delim) eq path)) eq found ends;
      }

  -- The paths that lead to a node that was found have data already.
  leads-value :
      (root : A) (n : Nodes A) (ms qs : List (List ℕ)) (p : Pointer)
      → find_from n ms ≡ some p
      → find_value root n qs
        ≡ or_else (find_value root n qs) (if leads qs ms then some fresh else none)
  unfolding find_value or_else
  leads-value root n ms [] p e = refl
  leads-value root n [] (q ∷ qs) p e = sym (or_else-none (find_value root n (q ∷ qs)))
  leads-value root n (m ∷ ms) (q ∷ qs) p e = elim (Bool-cases (same m q)) [
    | inl s ↦
        let (c, p', at, e', eq) = find_from-cases n m ms p e in
        let there = ap (below n) (sym (same-eq m q s)) ∙ ChildAt-below at in
        rw (find_value-some root n q qs c.value c.children there, s)
          (leads-value c.value c.children ms qs p' e')
    | inr s ↦ rw s (sym (or_else-none (find_value root n (q ∷ qs))))
  ]

  grown-value :
      (ms rest qs : List (List ℕ)) (p : Pointer)
      → find_from t.children ms ≡ some p
      → ((s : List ℕ) (parts : List (List ℕ))
          → rest ≡ s ∷ parts
          → below (children_at t.children p) s ≡ none)
      → find_value t.root (append_at t.children p (chain fresh rest)) qs
        ≡ or_else
            (find_value t.root t.children qs)
            (if leads qs (ms ++ rest) then some fresh else none)
  grown-value ms [] qs p found missing =
      rw (append_at-nil t.children p, append-nil ms) (leads-value t.root t.children ms qs p found)
  grown-value ms (s ∷ parts) qs p found missing =
      append_at-value t.root fresh t.children ms p s parts qs found (missing s parts refl)

  -- A path of one key or more, where the delimiter is not NUL: afterwards each path to which data led
  -- before still leads to it, each other prefix of the path leads to new data, and nothing else does.
  pub trie_insert2-value :
      (k : List ℕ) (ks qs : List (List ℕ))
      → (t.delim == 0) ≡ false
      → IsPath t.delim (k ∷ ks)
      → find_value t.root (trie_insert2 t (path_of t.delim (k ∷ ks)) fresh).0.children qs
        ≡ or_else (find_value t.root t.children qs) (if leads qs (k ∷ ks) then some fresh else none)
  trie_insert2-value k ks qs some_delim path =
      let h = trie_insert2-Splits k ks some_delim path in
      ap {A = Trie A × Pointer} (λ z. find_value t.root z.0.children qs) h.made
      ∙ ap (λ z. find_value t.root z qs) (insert_loop-chain fresh t.children h.start h.lack)
      ∙ grown-value h.have h.lack qs h.start h.found h.missing
      ∙ ap
          (λ z. or_else (find_value t.root t.children qs) (if leads qs z then some fresh else none))
          (sym h.whole)
