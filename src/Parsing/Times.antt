-- ===== src/Parsing/Times.antt =====
-- `read_time` and `read_duration` on seconds with a point and digits behind it.
use ioapps.Base.{
  ℕ, suc, ◌+◌, ◌-◌, ◌*◌, ◌^◌, ◌<◌, ◌≡◌, ◌≢◌, refl, ap, ◌∙◌, lt→ltb, ◌==◌, false, List, [], ◌∷◌,
  ◌++◌, All, length, arith,
}
use ioapps.Base.Int.{pos, ◌+ℤ◌}
use ioapps.Base.Run.{ok, check, ◌>>◌, >>=-ok}
use ioapps.Parsing.{
  is_space, is_int, skip_spaces, signed_value, leading_value, atoi, time_of, duration_of,
  strtok_all, read_time, read_duration,
}
use ioapps.Parsing.Flags.{joined, IsName, Lacks, strtok_all-joined}
use ioapps.Parsing.Numbers.{
  value_from, IsDigit, digit-is_digit, digits-IsDigit, value_from-digits, digits-length,
}
use ioapps.Replicate.Files.{digits}

leading-digits : (num : ℕ) (ds : List ℕ) → All IsDigit ds → leading_value num ds ≡ value_from num ds
unfolding leading_value
leading-digits num [] h = refl
leading-digits num (c ∷ ds) (d, h) =
    rw (digit-is_digit c d) (leading-digits (num * 10 + (c - b'0')) ds h)

no_space : (c : ℕ) → IsDigit c → is_space c ≡ false
no_space c (low, high) = ground arith

no_minus : (c : ℕ) → IsDigit c → (c == b'-') ≡ false
no_minus c (low, high) = ground arith

no_plus : (c : ℕ) → IsDigit c → (c == b'+') ≡ false
no_plus c (low, high) = ground arith

no_point : (c : ℕ) → IsDigit c → (c == b'.') ≡ false
no_point c (low, high) = ground arith

value-of-digits :
    (ds : List ℕ) → All IsDigit ds → signed_value (skip_spaces ds) ≡ pos (value_from 0 ds)
value-of-digits [] h = refl
value-of-digits (c ∷ ds) (d, h) =
    rw (no_space c d, no_minus c d, no_plus c d) (ap pos (leading-digits 0 (c ∷ ds) (d, h)))

atoi-digits : (k n : ℕ) → n < 10 ^ k → n < 2 ^ 31 → atoi (digits k n) ≡ ok (pos n)
unfolding atoi
atoi-digits k n short fits =
    ap (λ z. check (is_int z) >> ok z)
      (value-of-digits (digits k n) (digits-IsDigit k n) ∙ ap pos (value_from-digits k n short))
    ∙ >>=-ok _ (ap check (lt→ltb n (2 ^ 31) fits))

digits-Lacks : (ds : List ℕ) → All IsDigit ds → Lacks b'.' ds
digits-Lacks [] h = tt
digits-Lacks (c ∷ ds) (d, h) = (no_point c d, digits-Lacks ds h)

long-some : (ds : List ℕ) → 0 < length ds → ds ≢ []
long-some [] lt e = absurd (omega (arith, lt))
long-some (c ∷ ds) lt e = cc

digits-IsName : (k n : ℕ) → IsName b'.' (digits (suc k) n)
digits-IsName k n = (
  long-some (digits (suc k) n) (digits-length k n),
  digits-Lacks (digits (suc k) n) (digits-IsDigit (suc k) n),
)

-- Seconds and a part behind the point, in decimal digits.
abbrev pub stamp : ℕ → ℕ → ℕ → List ℕ
stamp k sec usec = joined b'.' (digits (suc k) sec ∷ digits (suc k) usec ∷ [])

stamp-tokens :
    (k sec usec : ℕ)
    → strtok_all b'.' (stamp k sec usec) ≡ digits (suc k) sec ∷ digits (suc k) usec ∷ []
stamp-tokens k sec usec = strtok_all-joined b'.' _ (digits-IsName k sec, (digits-IsName k usec, tt))

add-pos : (a b : ℕ) → pos a +ℤ pos b ≡ pos (a + b)
unfolding ◌+ℤ◌
add-pos a b = ground arith

atoi-value_from :
    (ds : List ℕ) → All IsDigit ds → value_from 0 ds < 2 ^ 31 → atoi ds ≡ ok (pos (value_from 0 ds))
unfolding atoi
atoi-value_from ds h fits =
    ap (λ z. check (is_int z) >> ok z) (value-of-digits ds h)
    ∙ >>=-ok _ (ap check (lt→ltb (value_from 0 ds) (2 ^ 31) fits))

-- One or more decimal digits, a point, and one or more decimal digits, where both numbers are below 2^31:
-- `read_time` answers the two numbers. Zeros in front count nothing, so that of six digits behind the
-- point it answers the microseconds; but with fewer digits the number is not scaled.
pub read_time-stamp :
    (sec usec : List ℕ)
    → sec ≢ []
    → usec ≢ []
    → All IsDigit sec
    → All IsDigit usec
    → value_from 0 sec < 2 ^ 31
    → value_from 0 usec < 2 ^ 31
    → read_time (sec ++ b'.' ∷ usec) ≡ ok (pos (value_from 0 sec), pos (value_from 0 usec))
unfolding read_time time_of
read_time-stamp sec usec some_sec some_usec all_sec all_usec fits fits_usec =
    ap time_of (
      strtok_all-joined b'.' (sec ∷ usec ∷ [])
        ((some_sec, digits-Lacks sec all_sec), ((some_usec, digits-Lacks usec all_usec), tt)))
    ∙ >>=-ok _ (atoi-value_from sec all_sec fits)
    ∙ >>=-ok _ (atoi-value_from usec all_usec fits_usec)

-- Where the microseconds are an `int`, `read_duration` of the same text answers them, the part behind the
-- point taken for microseconds.
pub read_duration-stamp :
    (k sec usec : ℕ)
    → sec < 10 ^ suc k
    → usec < 10 ^ suc k
    → sec * 1000000 + usec < 2 ^ 31
    → read_duration (stamp k sec usec) ≡ ok (pos (sec * 1000000 + usec))
unfolding read_duration duration_of
read_duration-stamp k sec usec short_sec short_usec fits =
    ap duration_of (stamp-tokens k sec usec)
    ∙ >>=-ok _ (atoi-digits (suc k) sec short_sec (omega (arith, fits)))
    ∙ >>=-ok _ (>>=-ok _ (ap check (lt→ltb (sec * 1000000) (2 ^ 31) (omega (arith, fits)))))
    ∙ >>=-ok _ (atoi-digits (suc k) usec short_usec (omega (arith, fits)))
    ∙ ap (λ z. check (is_int z) >> ok z) (add-pos (sec * 1000000) usec)
    ∙ >>=-ok _ (ap check (lt→ltb (sec * 1000000 + usec) (2 ^ 31) fits))
