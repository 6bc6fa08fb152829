-- ===== src/Trie/Longest.antt =====
-- adt/fs_trie.c: `trie_longest_prefix` on the text of a path.
use mathlib.Core.Option.{map}
use ioapps.Base.{
  ℕ, suc, ◌+◌, ◌≡◌, refl, sym, ap, ◌∙◌, ◌==◌, ==_refl, append-nil, append_assoc, if◌then◌else◌,
  Option-cases, inl, inr, true, false, List, [], ◌∷◌, ◌++◌, none, some, length, All-append, take,
  drop, set, arith,
}
use ioapps.Trie.{Nodes, Trie, Child, Pointer, trie_find_child, find_from, children_at}
use ioapps.Trie.Insert.{
  Search, behind_last, str_copied, c_str, prefix_copied, char_taken, moved, search_loop, last_part,
  finish_search, start_search, trie_longest_prefix,
}
use ioapps.Trie.Paths.{
  path_of, IsPath, IsKey, path_of-append, length-path_of-snoc, path_of-Lacks, behind_last-append,
  c_str-append,
}
use ioapps.Trie.Lookup.{find_from-snoc}
use ioapps.Trie.Reading.{
  step-first, step-delim, loop-some, loop-none, read_key, loop-key, read_key-kept, read_key-part,
  read_key-count, read_key-ends, c_str-set, some-length, prefix_copied-text, drop-prefix_copied,
  drop-first, c_str-first,
}

-- What marks the found keys in a buffer that held `buff`: their text, and the character behind it.
abbrev pub mark : ℕ → List ℕ → List (List ℕ) → List ℕ
mark delim buff [] = []
mark delim buff (k ∷ ks) =
    path_of delim (k ∷ ks) ++ c_str (take 1 (drop (length (path_of delim (k ∷ ks))) buff))

mark-snoc :
    (delim : ℕ) (buff : List ℕ) (ms : List (List ℕ)) (k : List ℕ)
    → mark delim buff (ms ++ k ∷ [])
      ≡ path_of delim (ms ++ k ∷ [])
        ++ c_str (take 1 (drop (length (path_of delim (ms ++ k ∷ []))) buff))
mark-snoc delim buff [] k = refl
mark-snoc delim buff (m ∷ ms) k = refl

module _ {A : Type 0} (t : Trie A) (buff : List ℕ) where
  -- What is known where the rest of the path has these keys: either all are found and the buffer has
  -- the whole key, or the first is missing and the buffer is marked.
  abbrev pub Ends : List ℕ → List (List ℕ) → List (List ℕ) → Pointer × List ℕ → Type 0
  Ends full_key ms [] r = c_str r.1 ≡ full_key
  Ends full_key ms (k ∷ rest) r =
      (trie_find_child (children_at t.children r.0) k ≡ none) × (c_str r.1 ≡ mark t.delim buff ms)

  -- The longest prefix of a path that the trie has.
  abbrev pub IsLongest : List (List ℕ) → Pointer × List ℕ → Type 0
  IsLongest ks r =
      (ms : List (List ℕ)) × (rest : List (List ℕ)) × (ks ≡ ms ++ rest)
      × (find_from t.children ms ≡ some r.0)
      × Ends (path_of t.delim ks) ms rest r

  -- The variables where a key has been read and not yet been looked for.
  pub record Pending (ms : List (List ℕ)) (k : List ℕ) (s : Search A) : Type 0 where
    pub found : find_from t.children ms ≡ some s.n1
    pub at : s.children ≡ children_at t.children s.n1
    pub part : s.part_key ≡ k
    pub last : (s.lastc == t.delim) ≡ false
    pub started : (s.num_chars == 0) ≡ false
    pub counted : s.count ≡ length (path_of t.delim (ms ++ k ∷ []))
    pub untouched : drop s.count s.buff ≡ drop s.count buff
    pub marked : c_str s.buff ≡ mark t.delim buff ms

  finish-some :
      (full : List ℕ) (s : Search A) (part : List ℕ)
      → behind_last t.delim full ≡ some part
      → finish_search t full (true, s) ≡ last_part full s s.children part s.n1
  finish-some full s part e = rw (finish_search, e) refl

  last-missing :
      (full : List ℕ) (s : Search A) (n : Nodes A) (part : List ℕ) (p : Pointer)
      → trie_find_child n part ≡ none
      → last_part full s n part p ≡ (p, s.buff)
  last-missing full s n part p e = rw (last_part, e) refl

  last-found :
      (full : List ℕ) (s : Search A) (n : Nodes A) (part : List ℕ) (p : Pointer) (c : Child A)
      → trie_find_child n part ≡ some c
      → last_part full s n part p ≡ (p ++ c.place ∷ [], str_copied full s.buff)
  last-found full s n part p c e = rw (last_part, e) refl

  finish-Ends :
      (ms : List (List ℕ)) (k : List ℕ) (s : Search A)
      → (t.delim == 0) ≡ false
      → IsPath t.delim (ms ++ k ∷ [])
      → IsKey t.delim k
      → Pending ms k s
      → IsLongest (ms ++ k ∷ []) (finish_search t (path_of t.delim (ms ++ k ∷ [])) (true, s))
  finish-Ends ms k s some_delim path key h =
      let full = path_of t.delim (ms ++ k ∷ []) in
      let text : full ≡ path_of t.delim ms ++ t.delim ∷ k =
        path_of-append t.delim ms (k ∷ [])
        ∙ ap (λ z. path_of t.delim ms ++ t.delim ∷ z) (append-nil k) in
      let last_key : behind_last t.delim full ≡ some k =
        ap (behind_last t.delim) text ∙ behind_last-append t.delim (path_of t.delim ms) k key.0.1 in
      let done = finish-some full s k last_key in
      elim (Option-cases (trie_find_child s.children k)) [
        | inl missing ↦
            let child : trie_find_child (children_at t.children s.n1) k ≡ none =
              ap (λ z. trie_find_child z k) (sym h.at) ∙ missing in
            rw (done ∙ last-missing full s s.children k s.n1 missing)
              (ms, k ∷ [], refl, h.found, (child, h.marked))
        | inr (c, e) ↦
            let child : trie_find_child (children_at t.children s.n1) k ≡ some c =
              ap (λ z. trie_find_child z k) (sym h.at) ∙ e in
            rw (done ∙ last-found full s s.children k s.n1 c e) (
              ms ++ k ∷ [],
              [],
              sym (append-nil (ms ++ k ∷ [])),
              (find_from-snoc t.children ms s.n1 k c h.found child).0,
              c_str-append full _ (path_of-Lacks t.delim (ms ++ k ∷ []) some_delim path)
                  ∙ append-nil full,
            )
      ]

  -- The variables after a key has been found and the next one has been read.
  moved-Pending :
      (ms : List (List ℕ)) (k k' tail full : List ℕ) (c : Child A) (s : Search A)
      → (t.delim == 0) ≡ false
      → full ≡ path_of t.delim (ms ++ k ∷ []) ++ tail
      → IsPath t.delim (ms ++ k ∷ [])
      → IsKey t.delim k'
      → Pending ms k s
      → trie_find_child s.children k ≡ some c
      → Pending
          (ms ++ k ∷ [])
          k'
          (read_key t.delim full k' (char_taken t.delim t.delim (moved full c s)))
  moved-Pending ms k k' tail full c s some_delim split path key h e =
      let before = path_of t.delim (ms ++ k ∷ []) in
      let s' = char_taken t.delim t.delim (moved full c s) in
      let (n1, children, kept) = read_key-kept t.delim full k' s' in
      let child : trie_find_child (children_at t.children s.n1) k ≡ some c =
        ap (λ z. trie_find_child z k) (sym h.at) ∙ e in
      let (found, below_it) = find_from-snoc t.children ms s.n1 k c h.found child in
      let (last, started) = read_key-ends t.delim full k' s' key.0.0 key.0.1 in
      let (j, long) = some-length k' key.0.0 in
      let text : (read_key t.delim full k' s').buff ≡ before ++ set (drop s.count s.buff) 1 0 =
        kept
        ∙ ap (λ z. prefix_copied z s.count s.buff) split
        ∙ prefix_copied-text before tail s.buff s.count h.counted in
      let count : (read_key t.delim full k' s').count ≡ suc s.count + length k' =
        read_key-count t.delim full k' s' in
      record {
        found = found ∙ ap some (sym n1);
        at = children ∙ sym below_it ∙ ap (children_at t.children) (sym n1);
        part =
            read_key-part t.delim full k' s' key.0.1
            ∙ ap (λ b. (if b then [] else t.delim ∷ []) ++ k') (==_refl t.delim);
        last = last;
        started = started;
        counted =
            let longer = length-path_of-snoc t.delim (ms ++ k ∷ []) k' in omega (arith, h.counted);
        untouched =
            ap (drop (read_key t.delim full k' s').count) text
            ∙ drop-prefix_copied before s.buff buff s.count (read_key t.delim full k' s').count j
                h.counted (omega arith) h.untouched;
        marked =
            ap c_str text
            ∙ c_str-append before _ (path_of-Lacks t.delim (ms ++ k ∷ []) some_delim path)
            ∙ ap (λ z. before ++ z)
                (c_str-set (drop s.count s.buff)
                  ∙ ap (λ z. c_str (take 1 z)) (h.untouched ∙ ap (λ n. drop n buff) h.counted))
            ∙ sym (mark-snoc t.delim buff ms k);
      }

  search-IsLongest :
      (ks ms all : List (List ℕ)) (k : List ℕ) (s : Search A)
      → (t.delim == 0) ≡ false
      → all ≡ ms ++ k ∷ ks
      → IsPath t.delim (ms ++ k ∷ [])
      → IsKey t.delim k
      → IsPath t.delim ks
      → Pending ms k s
      → IsLongest all (
          finish_search t
            (path_of t.delim all)
            (search_loop t.delim (path_of t.delim all) (path_of t.delim ks) s))
  unfolding search_loop
  search-IsLongest [] ms all k s some_delim eq path key keys h =
      rw eq (finish-Ends ms k s some_delim path key h)
  search-IsLongest (k' ∷ ks) ms all k s some_delim eq path key (key', keys) h =
      let full = path_of t.delim all in
      let tail = path_of t.delim (k' ∷ ks) in
      let split : full ≡ path_of t.delim (ms ++ k ∷ []) ++ tail =
        ap (path_of t.delim) (eq ∙ sym (append_assoc ms (k ∷ []) (k' ∷ ks)))
        ∙ path_of-append t.delim (ms ++ k ∷ []) (k' ∷ ks) in
      let step =
        step-delim t.delim full s h.last h.started
        ∙ ap
            (λ z.
              map (λ child. char_taken t.delim t.delim (moved full child s))
                (trie_find_child s.children z))
            h.part in
      elim (Option-cases (trie_find_child s.children k)) [
        | inl missing ↦
            let child : trie_find_child (children_at t.children s.n1) k ≡ none =
              ap (λ z. trie_find_child z k) (sym h.at) ∙ missing in
            rw
              (loop-none t.delim full t.delim (k' ++ path_of t.delim ks) s
                (step ∙ ap (map _) missing))
              (ms, k ∷ k' ∷ ks, eq, h.found, (child, h.marked))
        | inr (c, e) ↦
            let s' = char_taken t.delim t.delim (moved full c s) in
            rw
              (loop-some t.delim full t.delim (k' ++ path_of t.delim ks) s s' (step ∙ ap (map _) e)
                ∙ loop-key t.delim full k' (path_of t.delim ks) s' key'.0.1)
              (search-IsLongest ks (ms ++ k ∷ []) all k' (read_key t.delim full k' s') some_delim
                (eq ∙ sym (append_assoc ms (k ∷ []) (k' ∷ ks)))
                (All-append (IsKey t.delim) (ms ++ k ∷ []) (k' ∷ []) path (key', tt)) key' keys
                (moved-Pending ms k k' tail full c s some_delim split path key' h e))
      ]

  first-Pending :
      (k full : List ℕ)
      → (t.delim == 0) ≡ false
      → IsKey t.delim k
      → Pending [] k (read_key t.delim full k (char_taken t.delim t.delim (start_search t buff)))
  unfolding find_from children_at
  first-Pending k full some_delim key =
      let s' = char_taken t.delim t.delim (start_search t buff) in
      let (n1, children, kept) = read_key-kept t.delim full k s' in
      let (last, started) = read_key-ends t.delim full k s' key.0.0 key.0.1 in
      let (j, long) = some-length k key.0.0 in
      let count = read_key-count t.delim full k s' in
      let longer = length-path_of-snoc t.delim [] k in
      record {
        found = ap some (sym n1);
        at = children ∙ ap (children_at t.children) (sym n1);
        part =
            read_key-part t.delim full k s' key.0.1
            ∙ ap (λ b. (if b then [] else t.delim ∷ []) ++ k) (==_refl t.delim);
        last = last;
        started = started;
        counted = omega arith;
        untouched =
            ap (drop (read_key t.delim full k s').count) kept
            ∙ drop-first buff (read_key t.delim full k s').count (omega arith);
        marked = ap c_str kept ∙ c_str-first buff;
      }

  -- The text of a path of one key or more, where the delimiter is not NUL: the keys split into those
  -- that the trie has, which lead to the returned node, and the rest. With no rest the buffer holds the
  -- text; else the node has no child with the next key, and the buffer holds the text of the found keys
  -- and then what it held before behind that, up to one character.
  pub trie_longest_prefix-IsLongest :
      (k : List ℕ) (ks : List (List ℕ))
      → (t.delim == 0) ≡ false
      → IsPath t.delim (k ∷ ks)
      → IsLongest (k ∷ ks) (trie_longest_prefix t (path_of t.delim (k ∷ ks)) buff)
  unfolding trie_longest_prefix
  trie_longest_prefix-IsLongest k ks some_delim (key, keys) =
      let full = path_of t.delim (k ∷ ks) in
      let s = start_search t buff in
      let s' = char_taken t.delim t.delim s in
      let zero_last : (0 == t.delim) ≡ false = ground arith in
      rw
        (loop-some t.delim full t.delim (k ++ path_of t.delim ks) s s'
            (step-first t.delim full s zero_last refl)
          ∙ loop-key t.delim full k (path_of t.delim ks) s' key.0.1)
        (search-IsLongest ks [] (k ∷ ks) k (read_key t.delim full k s') some_delim refl (key, tt)
          key keys (first-Pending k full some_delim key))
