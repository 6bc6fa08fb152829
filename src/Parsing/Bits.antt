-- ===== src/Parsing/Bits.antt =====
-- The bits of the flags that `or_flags` collects.
use Prim.Native.Nat.{max, bit_or, digits, bit_or-bitwise}
use ioapps.Base.{
  ℕ, zero, suc, ◌+◌, ◌*◌, ◌/◌, ◌%◌, ◌≤◌, ◌≡◌, refl, ap, ◌∙◌, List, [], ◌∷◌, All, arith,
}
use ioapps.Parsing.{or_flags}

-- The bit with a number, as 0 or 1.
abbrev pub bit_at : ℕ → ℕ → ℕ
bit_at zero x = x % 2
bit_at (suc b) x = bit_at b (x / 2)

abbrev or_digits : ℕ → ℕ → ℕ → ℕ
or_digits fuel x y = digits (λ y. y) max fuel x y

or_digits_fuel : (n m x y : ℕ) → x ≤ n → x ≤ m → or_digits n x y ≡ or_digits m x y
or_digits_fuel zero zero x y p q = refl
or_digits_fuel zero (suc m) zero y p q = refl
or_digits_fuel zero (suc m) (suc x) y p q = absurd (omega arith)
or_digits_fuel (suc n) zero zero y p q = refl
or_digits_fuel (suc n) zero (suc x) y p q = absurd (omega arith)
or_digits_fuel (suc n) (suc m) zero y p q = refl
or_digits_fuel (suc n) (suc m) (suc x) y p q =
    let shorter = or_digits_fuel n m (suc x / 2) (y / 2) (omega arith) (omega arith) in
    omega (arith, shorter)

zero-bit_or : (y : ℕ) → bit_or 0 y ≡ y
zero-bit_or y = bit_or-bitwise 0 y

bit_or_step : (x y : ℕ) → bit_or x y ≡ bit_or (x / 2) (y / 2) * 2 + max (x % 2) (y % 2)
bit_or_step zero y = omega (arith, zero-bit_or y, zero-bit_or (y / 2))
bit_or_step (suc x) y =
    let halves = or_digits_fuel x (suc x / 2) (suc x / 2) (y / 2) (omega arith) (omega arith) in
    omega (arith, halves, bit_or-bitwise (suc x) y, bit_or-bitwise (suc x / 2) (y / 2))

bit_at-bit_or : (b x y : ℕ) → bit_at b (bit_or x y) ≡ max (bit_at b x) (bit_at b y)
bit_at-bit_or zero x y = omega (arith, bit_or_step x y)
bit_at-bit_or (suc b) x y =
    let half : bit_or x y / 2 ≡ bit_or (x / 2) (y / 2) = omega (arith, bit_or_step x y) in
    ap (bit_at b) half ∙ bit_at-bit_or b (x / 2) (y / 2)

-- 1 if one of the values has the bit.
abbrev pub any_bit : ℕ → List ℕ → ℕ
any_bit b [] = 0
any_bit b (v ∷ values) = max (bit_at b v) (any_bit b values)

zero-bit_at : (b : ℕ) → bit_at b 0 ≡ 0
zero-bit_at zero = refl
zero-bit_at (suc b) = zero-bit_at b

abbrev pub names_of : List (List ℕ × ℕ) → List (List ℕ)
names_of [] = []
names_of ((s, v) ∷ flags) = s ∷ names_of flags

abbrev pub values_of : List (List ℕ × ℕ) → List ℕ
values_of [] = []
values_of ((s, v) ∷ flags) = v ∷ values_of flags

or_flags-from :
    (read_flag : List ℕ → ℕ) (b got : ℕ) (flags : List (List ℕ × ℕ))
    → All (λ f. read_flag f.0 ≡ f.1) flags
    → bit_at b (or_flags read_flag got (names_of flags))
      ≡ max (bit_at b got) (any_bit b (values_of flags))
unfolding or_flags
or_flags-from read_flag b got [] h = omega arith
or_flags-from read_flag b got ((s, v) ∷ flags) (e, h) =
    let rest = or_flags-from read_flag b (bit_or got (read_flag s)) flags h in
    let first = bit_at-bit_or b got (read_flag s) in
    let value = ap (bit_at b) e in omega (arith, rest, first, value)

pub or_flags-bit_at :
    (read_flag : List ℕ → ℕ) (b : ℕ) (flags : List (List ℕ × ℕ))
    → All (λ f. read_flag f.0 ≡ f.1) flags
    → bit_at b (or_flags read_flag 0 (names_of flags)) ≡ any_bit b (values_of flags)
or_flags-bit_at read_flag b flags h =
    omega (arith, or_flags-from read_flag b 0 flags h, zero-bit_at b)
