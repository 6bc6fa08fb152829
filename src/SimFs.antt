-- ===== src/SimFs.antt =====
-- simfs.c: which files a replay would find, kept as a tree of paths over what is on the disk.
pub mod Calls
pub mod Names
mod Clean
pub mod Outcomes
pub mod Checking
pub mod Existing
pub mod Making
pub mod Known
pub mod Seek
pub mod Scan
mod Tests
use mathlib.Core.Option.{map}
use ioapps.Base.{
  ℕ, zero, suc, ◌+◌, ◌-◌, ◌^◌, ltb, leb, ◌==◌, if◌then◌else◌, not, ◌&&◌, Bool, true, false, List,
  [], ◌∷◌, ◌++◌, Option, none, some, length, drop,
}
use ioapps.Base.Int.{ℤ, pos, negsuc, minus_one}
use ioapps.Base.Run.{Run, ok, abort, check, ◌>>=◌, ◌>>◌}
use ioapps.Parsing.{codes, same, strtok_all}
use ioapps.Trie.{
  Nodes, Trie, Pointer, trie_init, trie_find, value_at, trie_delete, change_value, children_at,
  trie_is_leaf, max_line,
}
use ioapps.Trie.Insert.{c_str, common, trie_longest_prefix, trie_insert, trie_insert2}

-- `simfs_t`; its `type` is never set, and the node is where it stands in the trie.
pub record Simfs : Type 0 where
  pub physical : Bool
  pub created : Bool
  pub phys_size : ℕ
  pub virt_size : ℕ

abbrev pub Fs : Type 0
Fs = Trie Simfs

-- What the disk answers: `getcwd`, `access` for F_OK, and the size by `stat`.
pub record Disk : Type 0 where
  pub getcwd : Option (List ℕ)
  pub exists : List ℕ → Bool
  pub size : List ℕ → ℕ

abbrev pub simfs_new_trie_node : Simfs
simfs_new_trie_node = record {
  physical = false;
  created = false;
  phys_size = 2 ^ 64 - 1;
  virt_size = 0;
}

abbrev pub simfs_new_trie_node_phys : Simfs
simfs_new_trie_node_phys = record { physical = true; created = false; phys_size = 0; virt_size = 0 }

abbrev pub simfs_init : Fs
simfs_init = trie_init b'/' (record simfs_new_trie_node { physical = true })

-- What is behind a text that the string starts with.
abbrev pub strips : List ℕ → List ℕ → Option (List ℕ)
strips [] s = some s
strips (x ∷ pat) [] = none
strips (x ∷ pat) (c ∷ s) = let rest = strips pat s in if x == c then rest else none

abbrev pub put_before : ℕ → List ℕ × List ℕ → List ℕ × List ℕ
put_before c (before, behind) = (c ∷ before, behind)

-- `strstr`: what is before the first occurrence, and what is behind it.
abbrev pub strstr : List ℕ → List ℕ → Option (List ℕ × List ℕ)
strstr pat [] = map (λ behind. ([], behind)) (strips pat [])
strstr pat (c ∷ s) =
    let later = strstr pat s in
    elim (strips pat (c ∷ s)) [ some behind ↦ some ([], behind) | none ↦ map (put_before c) later ]

-- What is before the last occurrence of a character: the string that ends at `rindex(s, c)`.
abbrev pub before_last : ℕ → List ℕ → Option (List ℕ)
before_last c [] = none
before_last c (x ∷ xs) = elim (before_last c xs) [
  | some before ↦ some (x ∷ before)
  | none ↦ if x == c then some [] else none
]

-- A round of the first loop of `simfs_absolute_name`, where "/.." was found.
abbrev pub cut_parent : List ℕ × List ℕ → Run (List ℕ)
cut_parent ([], behind) = ok behind
cut_parent (c ∷ before, behind) = elim (before_last b'/' (c ∷ before)) [
  | none ↦ abort
  | some directory ↦ ok (directory ++ behind)
]

unfoldable pub cut_parents : ℕ → List ℕ → Run (List ℕ)
cut_parents zero buff = ok buff
cut_parents (suc fuel) buff = elim (strstr (codes "/..") buff) [
  | none ↦ ok buff
  | some found ↦ cut_parent found >>= cut_parents fuel
]

-- A round of the second loop, where "/." was found.
abbrev pub cut_dot : List ℕ × List ℕ → List ℕ
cut_dot ([], []) = codes "/"
cut_dot ([], c ∷ behind) = c ∷ behind
cut_dot (c ∷ before, behind) = (c ∷ before) ++ behind

unfoldable pub cut_dots : ℕ → List ℕ → List ℕ
cut_dots zero buff = buff
cut_dots (suc fuel) buff = elim (strstr (codes "/.") buff) [
  | none ↦ buff
  | some found ↦ cut_dots fuel (cut_dot found)
]

abbrev pub is_absolute : List ℕ → Bool
is_absolute [] = false
is_absolute (c ∷ name) = c == b'/'

-- The name with the current directory in front of it; a directory that is too long ends the program.
abbrev pub in_directory : Disk → List ℕ → ℕ → Run (List ℕ)
in_directory disk name size = elim disk.getcwd [
  | none ↦ abort
  | some cwd ↦ check (leb (length cwd + length name + 2) size) >> ok (cwd ++ b'/' ∷ name)
]

unfoldable pub simfs_absolute_name : Disk → List ℕ → ℕ → Run (List ℕ)
simfs_absolute_name disk name size =
    check (ltb (length name) size)
    >> ((if is_absolute name then ok name else in_directory disk name size) >>= λ buff.
        cut_parents (length buff) buff >>= λ buff. ok (cut_dots (length buff) buff))

-- The last character is a slash.
abbrev pub ends_in_slash : List ℕ → Bool
ends_in_slash [] = false
ends_in_slash (c ∷ []) = c == b'/'
ends_in_slash (c ∷ d ∷ s) = ends_in_slash (d ∷ s)

-- The slash that is added to `existing`, unless one is there.
abbrev pub added_slash : List ℕ → List ℕ
added_slash existing = if ends_in_slash existing then [] else b'/' ∷ []

-- What the loop of `simfs_populate` leaves: `rv`, `existing`, `mis_off` and the tree.
pub record Populated : Type 0 where
  pub rv : Bool
  pub existing : List ℕ
  pub mis_off : ℕ
  pub fs : Fs

-- A part that is on the disk.
abbrev pub add_physical : Disk → List ℕ → Fs → Fs
add_physical disk existing fs =
    let (fs', n) = trie_insert2 fs existing simfs_new_trie_node_phys in
    change_value fs' n (λ v. record v { phys_size = disk.size existing })

-- The loop, where `existing` has room for a string of the given length.
unfoldable pub populate_loop : Disk → ℕ → List (List ℕ) → List ℕ → ℕ → Fs → Run Populated
populate_loop disk room [] existing mis_off fs =
    ok (record { rv = true; existing = existing; mis_off = mis_off; fs = fs })
populate_loop disk room (s ∷ parts) existing mis_off fs =
    let slash = added_slash existing in
    let longer = existing ++ slash ++ s in
    let rest =
      populate_loop disk room parts longer (mis_off + (length slash + length s))
        (add_physical disk longer fs) in
    check (leb (length longer) room)
    >> (if disk.exists longer
        then rest
        else ok (record { rv = false; existing = existing; mis_off = mis_off; fs = fs }))

-- `rv`, `existing`, `missing` and the tree.
pub record Missing : Type 0 where
  pub rv : Bool
  pub existing : List ℕ
  pub missing : List ℕ
  pub fs : Fs

unfoldable pub simfs_populate : Disk → ℕ → List ℕ → List ℕ → Fs → Run Missing
simfs_populate disk room existing missing fs =
    populate_loop disk room (strtok_all b'/' missing) existing 0 fs >>= λ p.
    check (leb p.mis_off (length missing))
    >> ok (record { rv = p.rv; existing = p.existing; missing = drop p.mis_off missing; fs = p.fs })

abbrev pub physical_at : Fs → Pointer → Bool
physical_at fs n = elim (value_at fs.root fs.children n) [ none ↦ false | some v ↦ v.physical ]

abbrev pub simfs_phys : ℤ
simfs_phys = minus_one

abbrev pub simfs_virt : ℤ
simfs_virt = negsuc 1

abbrev pub simfs_enoent : ℤ
simfs_enoent = pos 1

abbrev pub simfs_eent : ℤ
simfs_eent = pos 2
