-- ===== src/Parsing/Tests.antt =====
-- A number and flags as strace prints them.

use ioapps.Base.{ℕ, ◌≡◌, ◌≢◌, refl, List, [], ◌∷◌, All, arith}
use ioapps.Base.Int.{pos}
use ioapps.Base.Run.{ok}
use ioapps.Parsing.{
  codes, strtok_all, strtok_parts, or_flags, flag_of, read_integer, read_open_flag, read_open_flags,
  read_clone_flags, read_access_flags, read_time,
}
use ioapps.Parsing.Bits.{bit_at}
use ioapps.Parsing.Named.{AllOf, open_bits, read_flags-joined}
use mathlib.Core.List.{Memᴰ}
use ioapps.Parsing.Times.{read_time-stamp}
use ioapps.Parsing.Numbers.{IsDigit, digits-IsDigit, read_integer-digits}
use ioapps.Replicate.Files.{digits}

read_integer-digits_example : read_integer (codes "4096 = 5") ≡ ok (pos 5, 4096)
unfolding digits
read_integer-digits_example =
    read_integer-digits 9 4096 (codes " = 5") (omega arith) (omega arith) refl

no_nil : {x : ℕ} {xs : List ℕ} → x ∷ xs ≢ []
no_nil e = cc

abbrev three_flags : List (List ℕ × ℕ)
three_flags = (codes "O_RDWR", 2) ∷ (codes "O_CREAT", 64) ∷ (codes "O_TRUNC", 512) ∷ []

three_flags-AllOf : AllOf open_bits three_flags
three_flags-AllOf = (
  Memᴰ.tail (Memᴰ.tail (Memᴰ.head refl)),
  (
    Memᴰ.tail (Memᴰ.tail (Memᴰ.tail (Memᴰ.head refl))),
    (Memᴰ.tail (Memᴰ.tail (Memᴰ.tail (Memᴰ.tail (Memᴰ.tail (Memᴰ.tail (Memᴰ.head refl)))))), tt),
  ),
)

flags_run : read_open_flags (codes "O_RDWR|O_CREAT|O_TRUNC") ≡ 578
unfolding read_open_flags strtok_all strtok_parts or_flags read_open_flag flag_of
flags_run = refl

-- The bits of a creation, of a thread and of a test for reading.
read_flags-joined_example :
    (bit_at 6 (read_open_flags (codes "O_RDWR|O_CREAT|O_TRUNC")) ≡ 1)
    × (bit_at 6 (read_clone_flags (codes "CLONE_FILES")) ≡ 0)
    × (bit_at 6 (read_access_flags (codes "R_OK|X_OK")) ≡ 0)
read_flags-joined_example =
    read_flags-joined three_flags ((codes "CLONE_FILES", 1024) ∷ [])
      ((codes "R_OK", 4) ∷ (codes "X_OK", 1) ∷ []) 6 three_flags-AllOf (Memᴰ.head refl, tt)
      (Memᴰ.tail (Memᴰ.tail (Memᴰ.tail (Memᴰ.head refl))), (Memᴰ.tail (Memᴰ.head refl), tt))

padded : All IsDigit (codes "000042")
padded =
    let zero_digit : IsDigit b'0' = (omega arith, omega arith) in
    (
      zero_digit,
      (
        zero_digit,
        (zero_digit, (zero_digit, ((omega arith, omega arith), ((omega arith, omega arith), tt)))),
      ),
    )

read_time-stamp_example : read_time (codes "1287412345.000042") ≡ ok (pos 1287412345, pos 42)
unfolding digits
read_time-stamp_example =
    read_time-stamp (codes "1287412345") (codes "000042") no_nil no_nil
      (digits-IsDigit 10 1287412345) padded (omega arith) (omega arith)
