-- ===== src/Trie/Reading.antt =====
-- adt/fs_trie.c: the rounds of `trie_longest_prefix` over one key, and what they leave in the buffer.
use mathlib.Core.Option.{map}
use ioapps.Base.{
  ℕ, zero, suc, ◌+◌, ◌<◌, ◌≡◌, ◌≢◌, refl, sym, ap, ◌∙◌, ◌==◌, ==_refl, append-nil, append_assoc,
  Bool-cases, inl, inr, false, List, [], ◌∷◌, ◌++◌, none, some, length, take, take-length, drop,
  drop-length, set, arith,
}
use ioapps.Parsing.Flags.{Lacks}
use ioapps.Trie.{trie_find_child}
use ioapps.Trie.Insert.{Search, c_str, prefix_copied, char_taken, moved, search_step, search_loop}

module _ {A : Type 0} (delim : ℕ) (full_key : List ℕ) where
  step-char :
      (c : ℕ) (s : Search A)
      → (c == delim) ≡ false
      → search_step delim full_key c s ≡ some (char_taken delim c s)
  unfolding search_step
  step-char c s e = elim (Bool-cases (s.lastc == delim)) [
    | inl l ↦ rw (l, e) refl
    | inr l ↦ rw (l, e) refl
  ]

  pub step-first :
      (s : Search A)
      → (s.lastc == delim) ≡ false
      → s.num_chars ≡ 0
      → search_step delim full_key delim s ≡ some (char_taken delim delim s)
  unfolding search_step
  step-first s l e = rw (l, e, ==_refl delim) refl

  pub step-delim :
      (s : Search A)
      → (s.lastc == delim) ≡ false
      → (s.num_chars == 0) ≡ false
      → search_step delim full_key delim s
        ≡ map
            (λ child. char_taken delim delim (moved full_key child s))
            (trie_find_child s.children s.part_key)
  unfolding search_step
  step-delim s l e = rw (l, e, ==_refl delim) refl

  pub loop-some :
      (c : ℕ) (rest : List ℕ) (s s' : Search A)
      → search_step delim full_key c s ≡ some s'
      → search_loop delim full_key (c ∷ rest) s ≡ search_loop delim full_key rest s'
  unfolding search_loop
  loop-some c rest s s' e = rw (search_loop, e) refl

  pub loop-none :
      (c : ℕ) (rest : List ℕ) (s : Search A)
      → search_step delim full_key c s ≡ none
      → search_loop delim full_key (c ∷ rest) s ≡ (false, s)
  unfolding search_loop
  loop-none c rest s e = rw (search_loop, e) refl

  -- The variables after the characters of a key.
  abbrev pub read_key : List ℕ → Search A → Search A
  read_key [] s = s
  read_key (c ∷ k) s = read_key k (char_taken delim c s)

  pub loop-key :
      (k rest : List ℕ) (s : Search A)
      → Lacks delim k
      → search_loop delim full_key (k ++ rest) s ≡ search_loop delim full_key rest (read_key k s)
  loop-key [] rest s h = refl
  loop-key (c ∷ k) rest s (e, h) =
      loop-some c (k ++ rest) s (char_taken delim c s) (step-char c s e)
      ∙ loop-key k rest (char_taken delim c s) h

  pub read_key-kept :
      (k : List ℕ) (s : Search A)
      → ((read_key k s).n1 ≡ s.n1)
        × ((read_key k s).children ≡ s.children)
        × ((read_key k s).buff ≡ s.buff)
  read_key-kept [] s = (refl, refl, refl)
  read_key-kept (c ∷ k) s = read_key-kept k (char_taken delim c s)

  pub read_key-part :
      (k : List ℕ) (s : Search A) → Lacks delim k → (read_key k s).part_key ≡ s.part_key ++ k
  read_key-part [] s h = sym (append-nil s.part_key)
  read_key-part (c ∷ k) s (e, h) =
      read_key-part k (char_taken delim c s) h ∙ rw e (append_assoc s.part_key (c ∷ []) k)

  pub read_key-count : (k : List ℕ) (s : Search A) → (read_key k s).count ≡ s.count + length k
  read_key-count [] s = omega arith
  read_key-count (c ∷ k) s = omega (arith, read_key-count k (char_taken delim c s))

  read_key-num_chars :
      (k : List ℕ) (s : Search A) → (read_key k s).num_chars ≡ s.num_chars + length k
  read_key-num_chars [] s = omega arith
  read_key-num_chars (c ∷ k) s = omega (arith, read_key-num_chars k (char_taken delim c s))

  read_key-lastc :
      (k : List ℕ) (s : Search A)
      → Lacks delim k
      → (s.lastc == delim) ≡ false
      → ((read_key k s).lastc == delim) ≡ false
  read_key-lastc [] s h e = e
  read_key-lastc (c ∷ k) s (l, h) e = read_key-lastc k (char_taken delim c s) h l

  -- A key has ended the delimiters, and the next delimiter does not lead the text.
  pub read_key-ends :
      (k : List ℕ) (s : Search A)
      → k ≢ []
      → Lacks delim k
      → ((read_key k s).lastc == delim ≡ false) × ((read_key k s).num_chars == 0 ≡ false)
  read_key-ends [] s some_char h = absurd (some_char refl)
  read_key-ends (c ∷ k) s some_char (l, h) = (
    read_key-lastc k (char_taken delim c s) h l,
    ground (arith, read_key-num_chars k (char_taken delim c s)),
  )

pub set-behind : (xs ys : List ℕ) (v : ℕ) → set (xs ++ ys) (suc (length xs)) v ≡ xs ++ set ys 1 v
set-behind [] ys v = refl
set-behind (x ∷ xs) ys v = ap (λ z. x ∷ z) (set-behind xs ys v)

pub c_str-set : (xs : List ℕ) → c_str (set xs 1 0) ≡ c_str (take 1 xs)
c_str-set [] = refl
c_str-set (x ∷ []) = refl
c_str-set (x ∷ y ∷ xs) = refl

pub drop-set : (j : ℕ) (xs : List ℕ) → drop (suc (suc j)) (set xs 1 0) ≡ drop (suc (suc j)) xs
drop-set j [] = refl
drop-set j (x ∷ []) = refl
drop-set j (x ∷ y ∷ xs) = refl

drop-nil : (j : ℕ) → Path (List ℕ) (drop j []) []
drop-nil zero = refl
drop-nil (suc j) = refl

pub drop-drop : (n j m : ℕ) (xs : List ℕ) → m ≡ n + j → drop j (drop n xs) ≡ drop m xs
drop-drop zero j m xs e = let eq : j ≡ m = omega arith in ap (λ z. drop z xs) eq
drop-drop (suc n) j zero xs e = absurd (omega arith)
drop-drop (suc n) j (suc m) [] e = drop-nil j
drop-drop (suc n) j (suc m) (x ∷ xs) e = drop-drop n j m xs (omega arith)

pub some-length : (k : List ℕ) → k ≢ [] → (j : ℕ) × (length k ≡ suc j)
some-length [] h = absurd (h refl)
some-length (c ∷ k) h = (length k, refl)

pub prefix_copied-text :
    (before tail buff : List ℕ) (n : ℕ)
    → n ≡ length before
    → prefix_copied (before ++ tail) n buff ≡ before ++ set (drop n buff) 1 0
prefix_copied-text before tail buff n e =
    ap (λ m. set (take m (before ++ tail) ++ drop n buff) (suc m) 0) e
    ∙ ap (λ z. set (z ++ drop n buff) (suc (length before)) 0) (take-length before tail)
    ∙ set-behind before (drop n buff) 0

-- What is behind the text and its mark is as it was.
pub drop-prefix_copied :
    (before buff buff0 : List ℕ) (n m j : ℕ)
    → n ≡ length before
    → m ≡ n + suc (suc j)
    → drop n buff ≡ drop n buff0
    → drop m (before ++ set (drop n buff) 1 0) ≡ drop m buff0
drop-prefix_copied before buff buff0 n m j at e same_rest =
    let rest = set (drop n buff) 1 0 in
    sym (drop-drop (length before) (suc (suc j)) m (before ++ rest) (omega arith))
    ∙ ap (drop (suc (suc j))) (drop-length before rest)
    ∙ drop-set j (drop n buff)
    ∙ ap (drop (suc (suc j))) same_rest
    ∙ drop-drop n (suc (suc j)) m buff0 e

pub drop-first : (buff : List ℕ) (n : ℕ) → 0 < n → drop n (set buff 0 0) ≡ drop n buff
drop-first [] n h = refl
drop-first (x ∷ buff) zero h = absurd (omega arith)
drop-first (x ∷ buff) (suc n) h = refl

pub c_str-first : (buff : List ℕ) → c_str (set buff 0 0) ≡ []
c_str-first [] = refl
c_str-first (x ∷ buff) = refl
