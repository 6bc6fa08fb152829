-- ===== src/Parsing.antt =====
-- in_common.c: reading numbers, flags and times from the text of a trace.
-- A string is the list of its bytes without the NUL. `strtok` and `atoi` are those of the C library.
pub mod Numbers
pub mod Bits
pub mod Flags
pub mod Named
pub mod Times
mod Tests
use Prim.Native.Char.{code}
use Prim.Native.String.{String}
use Prim.Native.Nat.{bit_or}
use ioapps.Base.{
  ℕ, zero, suc, ◌+◌, ◌-◌, ◌*◌, ◌%◌, ◌^◌, ltb, leb, ◌==◌, if◌then◌else◌, not, ◌&&◌, ◌||◌, Bool, true,
  false, List, [], ◌∷◌, ◌++◌,
}
use ioapps.Base.Int.{ℤ, pos, negsuc, minus_one, ◌+ℤ◌}
use ioapps.Base.Run.{Run, ok, check, ◌>>=◌, ◌>>◌}

-- The bytes of a text.
abbrev pub codes : String → List ℕ
codes String.[] = []
codes (String.◌∷◌ c s) = code c ∷ codes s

-- `! strcmp(a, b)`
abbrev pub same : List ℕ → List ℕ → Bool
same [] [] = true
same [] (y ∷ b) = false
same (x ∷ a) [] = false
same (x ∷ a) (y ∷ b) = x == y && same a b

abbrev pub is_digit : ℕ → Bool
is_digit c = leb b'0' c && leb c b'9'

-- Where the loop of `read_integer` ends.
abbrev pub is_end : ℕ → Bool
is_end c = c == 0 || (c == b' ' || c == b'\n')

-- The result of `read_integer`, and what it leaves in `*num`.
abbrev pub finish : ℕ → ℕ → ℤ × ℕ
finish char_read num = (if char_read == 1 then pos 0 else pos char_read, num)

-- The loop of `read_integer`; a `long long` that overflows is undefined behaviour.
unfoldable pub read_loop : List ℕ → ℕ → ℕ → Run (ℤ × ℕ)
read_loop [] num char_read = ok (finish char_read num)
read_loop (c ∷ str) num char_read =
    let rest = read_loop str (num * 10 + (c - b'0')) (suc char_read) in
    if is_end c
    then ok (finish char_read num)
    else check (ltb (num * 10) (2 ^ 63))
      >> (if is_digit c
          then check (ltb (num * 10 + (c - b'0')) (2 ^ 63)) >> rest
          else ok (minus_one, num * 10))

unfoldable pub read_integer : List ℕ → Run (ℤ × ℕ)
read_integer str = read_loop str 0 1

-- The tokens that `strtok` gives one after the other: the parts between the delimiters, except empty
-- ones. The first of the pair is the part that a delimiter has not ended yet.
abbrev pub emit : List ℕ × List (List ℕ) → List (List ℕ)
emit ([], parts) = parts
emit (c ∷ part, parts) = (c ∷ part) ∷ parts

unfoldable pub strtok_parts : ℕ → List ℕ → List ℕ × List (List ℕ)
strtok_parts delim [] = ([], [])
strtok_parts delim (c ∷ str) =
    let rest = strtok_parts delim str in
    if c == delim then ([], emit rest) else (c ∷ rest.0, rest.1)

unfoldable pub strtok_all : ℕ → List ℕ → List (List ℕ)
strtok_all delim str = emit (strtok_parts delim str)

-- The value of the first name that is the given text, or none of the bits.
unfoldable pub flag_of : List (List ℕ × ℕ) → List ℕ → ℕ
flag_of [] s = 0
flag_of ((name, flag) ∷ names) s = if same s name then flag else flag_of names s

-- The names of `read_open_flag` with the values of fcntl.h, `_GNU_SOURCE` defined as in the Makefile;
-- those of O_RDONLY, O_CLOEXEC, which is not supported, and O_LARGEFILE are 0.
abbrev pub open_names : List (List ℕ × ℕ)
open_names =
    (codes "O_APPEND", 1024)
    ∷ (codes "O_RDONLY", 0)
    ∷ (codes "O_WRONLY", 1)
    ∷ (codes "O_RDWR", 2)
    ∷ (codes "O_ASYNC", 8192)
    ∷ (codes "O_CLOEXEC", 0)
    ∷ (codes "O_CREAT", 64)
    ∷ (codes "O_DIRECT", 16384)
    ∷ (codes "O_DIRECTORY", 65536)
    ∷ (codes "O_LARGEFILE", 0)
    ∷ (codes "O_NOATIME", 262144)
    ∷ (codes "O_NOFOLLOW", 131072)
    ∷ (codes "O_NOCTTY", 256)
    ∷ (codes "O_EXCL", 128)
    ∷ (codes "O_NONBLOCK", 2048)
    ∷ (codes "O_NDELAY", 2048)
    ∷ (codes "O_SYNC", 1052672)
    ∷ (codes "O_TRUNC", 512)
    ∷ []

unfoldable pub read_open_flag : List ℕ → ℕ
read_open_flag s = flag_of open_names s

unfoldable pub read_clone_flag : List ℕ → ℕ
read_clone_flag s = flag_of ((codes "CLONE_FILES", 0x400) ∷ []) s

unfoldable pub read_seek_flag : List ℕ → ℕ
read_seek_flag s =
    flag_of ((codes "SEEK_SET", 0) ∷ (codes "SEEK_CUR", 1) ∷ (codes "SEEK_END", 2) ∷ []) s

unfoldable pub read_access_flag : List ℕ → ℕ
read_access_flag s =
    flag_of ((codes "F_OK", 0) ∷ (codes "R_OK", 4) ∷ (codes "W_OK", 2) ∷ (codes "X_OK", 1) ∷ []) s

unfoldable pub read_dup3_flags : List ℕ → ℕ
read_dup3_flags str = if same str (codes "O_CLOEXEC") then 0x80000 else 0

-- The loop of `read_open_flags`, `read_clone_flags` and `read_access_flags` over the tokens.
unfoldable pub or_flags : (List ℕ → ℕ) → ℕ → List (List ℕ) → ℕ
or_flags read_flag flags [] = flags
or_flags read_flag flags (s ∷ tokens) = or_flags read_flag (bit_or flags (read_flag s)) tokens

unfoldable pub read_open_flags : List ℕ → ℕ
read_open_flags str = or_flags read_open_flag 0 (strtok_all b'|' str)

unfoldable pub read_clone_flags : List ℕ → ℕ
read_clone_flags str = or_flags read_clone_flag 0 (strtok_all b'|' str)

unfoldable pub read_access_flags : List ℕ → ℕ
read_access_flags str = or_flags read_access_flag 0 (strtok_all b'|' str)

-- The loop of `strccount`: one round for each occurrence, and one that finds none.
unfoldable pub strccount_rounds : List ℕ → ℕ → ℕ
strccount_rounds [] c = 1
strccount_rounds (x ∷ str) c =
    let rest = strccount_rounds str c in if x == c then suc rest else rest

unfoldable pub strccount : List ℕ → ℕ → ℕ
strccount str c = strccount_rounds str c - 1

abbrev pub is_space : ℕ → Bool
is_space c = c == b' ' || (leb 9 c && leb c 13)

abbrev pub skip_spaces : List ℕ → List ℕ
skip_spaces [] = []
skip_spaces (c ∷ str) = let rest = skip_spaces str in if is_space c then rest else c ∷ str

unfoldable pub leading_value : ℕ → List ℕ → ℕ
leading_value num [] = num
leading_value num (c ∷ str) =
    let rest = leading_value (num * 10 + (c - b'0')) str in if is_digit c then rest else num

abbrev pub negated : ℕ → ℤ
negated zero = pos 0
negated (suc n) = negsuc n

abbrev pub signed_value : List ℕ → ℤ
signed_value [] = pos 0
signed_value (c ∷ str) =
    if c == b'-'
    then negated (leading_value 0 str)
    else pos (if c == b'+' then leading_value 0 str else leading_value 0 (c ∷ str))

-- Whether a number is an `int`.
abbrev pub is_int : ℤ → Bool
is_int (pos n) = ltb n (2 ^ 31)
is_int (negsuc n) = ltb n (2 ^ 31)

-- `atoi` of the C library; a number that is no `int` is undefined behaviour.
unfoldable pub atoi : List ℕ → Run ℤ
atoi str = let n = signed_value (skip_spaces str) in check (is_int n) >> ok n

-- The seconds and the part behind the point, each as it stands.
unfoldable pub time_of : List (List ℕ) → Run (ℤ × ℤ)
time_of [] = ok (pos 0, pos 0)
time_of (s ∷ []) = do sec ← atoi s; ok (sec, pos 0)
time_of (s ∷ u ∷ more) = do sec ← atoi s; usec ← atoi u; ok (sec, usec)

unfoldable pub read_time : List ℕ → Run (ℤ × ℤ)
read_time timestr = time_of (strtok_all b'.' timestr)

abbrev pub in_usec : ℤ → ℤ
in_usec (pos n) = pos (n * 1000000)
in_usec (negsuc n) = negsuc (suc n * 1000000 - 1)

-- `usec *= 1000000`
abbrev pub to_usec : ℤ → Run ℤ
to_usec n = check (is_int (in_usec n)) >> ok (in_usec n)

unfoldable pub duration_of : List (List ℕ) → Run ℤ
duration_of [] = ok (pos 0)
duration_of (s ∷ []) = do sec ← atoi s; to_usec sec
duration_of (s ∷ u ∷ more) = do
  sec ← atoi s
  usec ← to_usec sec
  more ← atoi u
  check (is_int (usec +ℤ more)) >> ok (usec +ℤ more)

unfoldable pub read_duration : List ℕ → Run ℤ
read_duration timestr = duration_of (strtok_all b'.' timestr)
