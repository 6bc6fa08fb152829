-- ===== src/Parsing/Numbers.antt =====
-- `read_integer` on the digits of a number.
use ioapps.Base.{
  ℕ, zero, suc, ◌+◌, ◌-◌, ◌*◌, ◌/◌, ◌%◌, ◌^◌, ◌<◌, ◌≤◌, ◌≡◌, refl, ap, ◌∙◌, ltb, lt→ltb, ltb→lt,
  ◌==◌, if◌then◌else◌, Bool, true, false, Bool-cases, inl, inr, List, [], ◌∷◌, ◌++◌, All, length,
  length-append, arith,
}
use ioapps.Base.Int.{pos}
use ioapps.Base.Run.{ok}
use ioapps.Parsing.{is_digit, is_end, finish, read_loop, read_integer}
use ioapps.Replicate.Files.{digits}

-- The number that the digits stand for behind a number.
abbrev pub value_from : ℕ → List ℕ → ℕ
value_from num [] = num
value_from num (c ∷ ds) = value_from (num * 10 + (c - b'0')) ds

abbrev pub IsDigit : ℕ → Type 0
IsDigit c = (b'0' ≤ c) × (c ≤ b'9')

value_from_mono : (num : ℕ) (ds : List ℕ) → num ≤ value_from num ds
value_from_mono num [] = omega arith
value_from_mono num (c ∷ ds) = omega (arith, value_from_mono (num * 10 + (c - b'0')) ds)

value_from-append :
    (num : ℕ) (ds es : List ℕ) → value_from num (ds ++ es) ≡ value_from (value_from num ds) es
value_from-append num [] es = refl
value_from-append num (c ∷ ds) es = value_from-append (num * 10 + (c - b'0')) ds es

digit-is_end : (c : ℕ) → IsDigit c → is_end c ≡ false
digit-is_end c (low, high) = ground arith

pub digit-is_digit : (c : ℕ) → IsDigit c → is_digit c ≡ true
digit-is_digit c (low, high) = ground arith

-- The loop over digits, up to what follows them.
read_loop-digits :
    (ds rest : List ℕ) (num char_read : ℕ)
    → All IsDigit ds
    → value_from num ds < 2 ^ 63
    → read_loop (ds ++ rest) num char_read
      ≡ read_loop rest (value_from num ds) (char_read + length ds)
unfolding read_loop
read_loop-digits [] rest num k h lt = ap (read_loop rest num) (omega arith)
read_loop-digits (c ∷ ds) rest num k (d, h) lt =
    let more = value_from_mono (num * 10 + (c - b'0')) ds in
    rw
      (
        digit-is_end c d,
        digit-is_digit c d,
        lt→ltb (num * 10) (2 ^ 63) (omega (arith, more, lt)),
        lt→ltb (num * 10 + (c - b'0')) (2 ^ 63) (omega (arith, more, lt)),
      )
      (read_loop-digits ds rest (num * 10 + (c - b'0')) (suc k) h lt
        ∙ ap (read_loop rest (value_from num (c ∷ ds))) (omega arith))

All-append : (xs ys : List ℕ) → All IsDigit xs → All IsDigit ys → All IsDigit (xs ++ ys)
All-append [] ys a b = b
All-append (x ∷ xs) ys (h, a) b = (h, All-append xs ys a b)

digit : (n : ℕ) → IsDigit (b'0' + n % 10)
digit n = (omega arith, omega arith)

pub digits-IsDigit : (k n : ℕ) → All IsDigit (digits k n)
unfolding digits
digits-IsDigit zero n = tt
digits-IsDigit (suc k) n = elim (Bool-cases (ltb n 10)) [
  | inl e ↦ rw e (digit n, tt)
  | inr e ↦ rw e (All-append (digits k (n / 10)) _ (digits-IsDigit k (n / 10)) (digit n, tt))
]

pub value_from-digits : (k n : ℕ) → n < 10 ^ k → value_from 0 (digits k n) ≡ n
unfolding digits
value_from-digits zero n lt = omega (arith, lt)
value_from-digits (suc k) n lt = elim (Bool-cases (ltb n 10)) [
  | inl e ↦ rw e (omega (arith, ltb→lt n 10 e))
  | inr e ↦ rw e (
      value_from-append 0 (digits k (n / 10)) _
      ∙ ap (λ v. v * 10 + (b'0' + n % 10 - b'0')) (value_from-digits k (n / 10) (omega (arith, lt)))
      ∙ omega arith)
]

-- What stands behind a number: nothing, or a character at which the loop ends.
abbrev pub Stops : List ℕ → Type 0
Stops [] = Unit
Stops (c ∷ rest) = is_end c ≡ true

read_loop-Stops :
    (rest : List ℕ) (num char_read : ℕ)
    → Stops rest
    → read_loop rest num char_read ≡ ok (finish char_read num)
unfolding read_loop
read_loop-Stops [] num k s = refl
read_loop-Stops (c ∷ rest) num k s = rw s refl

pub digits-length : (k n : ℕ) → 0 < length (digits (suc k) n)
unfolding digits
digits-length k n = elim (Bool-cases (ltb n 10)) [
  | inl e ↦ rw e (omega arith)
  | inr e ↦ rw e (omega (arith, length-append (digits k (n / 10)) ((b'0' + n % 10) ∷ [])))
]

not_one : (len : ℕ) → 0 < len → (1 + len == 1) ≡ false
not_one len lt = ground arith

finish-some : (len num : ℕ) → 0 < len → finish (1 + len) num ≡ (pos (suc len), num)
finish-some len num lt =
    ap (λ (b : Bool). (if b then pos 0 else pos (1 + len), num)) (not_one len lt)
    ∙ ap (λ k. (pos k, num)) (omega arith)

-- The decimal digits of a number below 2^63, with nothing, a space or a newline behind them, whatever
-- follows that: `read_integer` reads the number, and answers how many characters it read, the one behind
-- the digits included.
pub read_integer-digits :
    (k n : ℕ) (rest : List ℕ)
    → n < 10 ^ suc k
    → n < 2 ^ 63
    → Stops rest
    → read_integer (digits (suc k) n ++ rest) ≡ ok (pos (suc (length (digits (suc k) n))), n)
unfolding read_integer
read_integer-digits k n rest short fits stops =
    let value = value_from-digits (suc k) n short in
    read_loop-digits (digits (suc k) n) rest 0 1 (digits-IsDigit (suc k) n)
      (omega (arith, value, fits))
    ∙ ap (λ v. read_loop rest v (1 + length (digits (suc k) n))) value
    ∙ read_loop-Stops rest n (1 + length (digits (suc k) n)) stops
    ∙ ap ok (finish-some (length (digits (suc k) n)) n (digits-length k n))
