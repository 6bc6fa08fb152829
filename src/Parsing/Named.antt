-- ===== src/Parsing/Named.antt =====
-- What `read_open_flags`, `read_clone_flags` and `read_access_flags` answer, bit by bit.
use mathlib.Core.Path.{subst}
use mathlib.Core.List.{Memᴰ}
use ioapps.Base.{
  ℕ, ◌+◌, ◌^◌, ◌≡◌, sym, ap, ◌∙◌, refl, ◌==◌, ==_iff, not, ◌&&◌, Bool, true, false, List, [], ◌∷◌,
  All, arith,
}
use ioapps.Parsing.{
  codes, strtok_all, or_flags, flag_of, read_open_flag, read_clone_flag, read_access_flag,
  read_open_flags, read_clone_flags, read_access_flags,
}
use ioapps.Parsing.Bits.{bit_at, any_bit, names_of, values_of, or_flags-bit_at}
use ioapps.Parsing.Flags.{joined, Lacks, IsName, strtok_all-joined}

-- The flags of `open` with their bits; a name of no bits is read, and adds nothing.
abbrev pub open_bits : List (List ℕ × ℕ)
open_bits =
    (codes "O_RDONLY", 0)
    ∷ (codes "O_WRONLY", 2 ^ 0)
    ∷ (codes "O_RDWR", 2 ^ 1)
    ∷ (codes "O_CREAT", 2 ^ 6)
    ∷ (codes "O_EXCL", 2 ^ 7)
    ∷ (codes "O_NOCTTY", 2 ^ 8)
    ∷ (codes "O_TRUNC", 2 ^ 9)
    ∷ (codes "O_APPEND", 2 ^ 10)
    ∷ (codes "O_NONBLOCK", 2 ^ 11)
    ∷ (codes "O_NDELAY", 2 ^ 11)
    ∷ (codes "O_ASYNC", 2 ^ 13)
    ∷ (codes "O_DIRECT", 2 ^ 14)
    ∷ (codes "O_DIRECTORY", 2 ^ 16)
    ∷ (codes "O_NOFOLLOW", 2 ^ 17)
    ∷ (codes "O_NOATIME", 2 ^ 18)
    ∷ (codes "O_SYNC", 2 ^ 20 + 2 ^ 12)
    ∷ (codes "O_CLOEXEC", 0)
    ∷ (codes "O_LARGEFILE", 0)
    ∷ []

abbrev pub clone_bits : List (List ℕ × ℕ)
clone_bits = (codes "CLONE_FILES", 2 ^ 10) ∷ (codes "CLONE_VM", 0) ∷ (codes "SIGCHLD", 0) ∷ []

abbrev pub access_bits : List (List ℕ × ℕ)
access_bits =
    (codes "F_OK", 0) ∷ (codes "X_OK", 2 ^ 0) ∷ (codes "W_OK", 2 ^ 1) ∷ (codes "R_OK", 2 ^ 2) ∷ []

-- The pairs of a name and its value are all of a table.
abbrev pub AllOf : List (List ℕ × ℕ) → List (List ℕ × ℕ) → Type 0
AllOf table flags = All (λ f. Memᴰ f table) flags

-- The name can stand between bars, and is read as the value.
abbrev Reads : (List ℕ → ℕ) → List ℕ × ℕ → Type 0
Reads read_flag f = IsName b'|' f.0 × (read_flag f.0 ≡ f.1)

lacks : List ℕ → Bool
lacks [] = true
lacks (c ∷ s) = not (c == b'|') && lacks s

is_name : List ℕ → Bool
unfolding lacks
is_name [] = false
is_name (c ∷ s) = lacks (c ∷ s)

reads : (List ℕ → ℕ) → List (List ℕ × ℕ) → Bool
unfolding is_name
reads read_flag [] = true
reads read_flag ((s, v) ∷ table) = is_name s && read_flag s == v && reads read_flag table

lacks-Lacks : (s : List ℕ) → lacks s ≡ true → Lacks b'|' s
unfolding lacks
lacks-Lacks [] h = tt
lacks-Lacks (c ∷ s) h = (ground arith, lacks-Lacks s (ground arith))

is_name-IsName : (s : List ℕ) → is_name s ≡ true → IsName b'|' s
unfolding is_name
is_name-IsName [] h = absurd (cc h)
is_name-IsName (c ∷ s) h = ((λ e. cc), lacks-Lacks (c ∷ s) h)

reads-Reads :
    (read_flag : List ℕ → ℕ) (table : List (List ℕ × ℕ))
    → reads read_flag table ≡ true
    → All (Reads read_flag) table
unfolding reads
reads-Reads read_flag [] h = tt
reads-Reads read_flag ((s, v) ∷ table) h = (
  (is_name-IsName s (ground arith), (==_iff (read_flag s) v).0 (ground arith)),
  reads-Reads read_flag table (ground arith),
)

All-Mem :
    (P : List ℕ × ℕ → Type 0) (table : List (List ℕ × ℕ)) (f : List ℕ × ℕ)
    → All P table
    → Memᴰ f table
    → P f
All-Mem P [] f h there = elim there [ ]
All-Mem P (g ∷ table) f (p, h) (Memᴰ.head e) = subst P (sym e) p
All-Mem P (g ∷ table) f (p, h) (Memᴰ.tail there) = All-Mem P table f h there

AllOf-Reads :
    (read_flag : List ℕ → ℕ) (table flags : List (List ℕ × ℕ))
    → All (Reads read_flag) table
    → AllOf table flags
    → All (IsName b'|') (names_of flags) × All (λ f. read_flag f.0 ≡ f.1) flags
AllOf-Reads read_flag table [] h among = (tt, tt)
AllOf-Reads read_flag table (f ∷ flags) h (here, among) =
    let (name, value) = All-Mem (Reads read_flag) table f h here in
    let (names, values) = AllOf-Reads read_flag table flags h among in
    ((name, names), (value, values))

or_flags-joined :
    (read_flag : List ℕ → ℕ) (table flags : List (List ℕ × ℕ)) (b : ℕ)
    → reads read_flag table ≡ true
    → AllOf table flags
    → bit_at b (or_flags read_flag 0 (strtok_all b'|' (joined b'|' (names_of flags))))
      ≡ any_bit b (values_of flags)
or_flags-joined read_flag table flags b computed among =
    let (names, values) =
      AllOf-Reads read_flag table flags (reads-Reads read_flag table computed) among in
    ap (λ tokens. bit_at b (or_flags read_flag 0 tokens))
      (strtok_all-joined b'|' (names_of flags) names)
    ∙ or_flags-bit_at read_flag b flags values

-- Names of the flags of `open`, `clone` and `access`, in any order, with a bar between each two: each
-- bit of the answers of `read_open_flags`, `read_clone_flags` and `read_access_flags` is 1 exactly where a
-- named flag has that bit. The flags are those of the tables `open_bits`, `clone_bits` and
-- `access_bits`, with the bits of fcntl.h, sched.h and unistd.h; O_CLOEXEC has none here, and of the
-- names of `clone` only CLONE_FILES has one.
pub read_flags-joined :
    (opens clones accesses : List (List ℕ × ℕ)) (b : ℕ)
    → AllOf open_bits opens
    → AllOf clone_bits clones
    → AllOf access_bits accesses
    → (bit_at b (read_open_flags (joined b'|' (names_of opens))) ≡ any_bit b (values_of opens))
      × (bit_at b (read_clone_flags (joined b'|' (names_of clones))) ≡ any_bit b (values_of clones))
      × (bit_at b (read_access_flags (joined b'|' (names_of accesses)))
          ≡ any_bit b (values_of accesses))
unfolding read_open_flags read_clone_flags read_access_flags read_open_flag read_clone_flag
    read_access_flag flag_of reads
read_flags-joined opens clones accesses b some_open some_clone some_access = (
  or_flags-joined read_open_flag open_bits opens b refl some_open,
  or_flags-joined read_clone_flag clone_bits clones b refl some_clone,
  or_flags-joined read_access_flag access_bits accesses b refl some_access,
)
