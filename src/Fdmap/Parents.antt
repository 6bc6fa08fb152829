-- ===== src/Fdmap/Parents.antt =====
-- The array of parent descriptors in an `fd_map_t`: the descriptors that dup made share it.
pub mod Search
pub mod Clearing
pub mod Laws
pub mod Same
use ioapps.Base.{
  ℕ, zero, suc, ◌+◌, ◌<◌, ◌==◌, if◌then◌else◌, Bool, true, false, List, [], ◌∷◌, replicate, get_or,
  set, Option, none, some, ltb,
}
use ioapps.Base.Int.{ℤ, pos, negsuc, minus_one, ◌==ℤ◌, ◌+ℤ◌, ◌-ℤ◌}
use ioapps.Base.Run.{Run, ok, abort, ◌>>=◌}
use ioapps.Fdmap.{FdMap, max_parent_ids}

-- What `new_fd_item` writes to the array and to `last_par_index`.
unfoldable pub new_parents : FdMap → FdMap
new_parents m = record m {
  parent_fds = replicate max_parent_ids minus_one;
  last_par_index = minus_one;
}

-- Where the loop of `insert_parent_fd` ends: at the descriptor, at a free place, or at the end.
pub data Place : Type 0 where
  present : Place
  free : ℕ → Place
  full : Place

unfoldable pub find_place : ℤ → ℕ → List ℤ → Place
find_place fd i [] = full
find_place fd i (parent ∷ parents) =
    if parent ==ℤ fd
    then present
    else if parent ==ℤ minus_one
    then free i
    else find_place fd (suc i) parents

-- A full array is reported and left as it is.
unfoldable pub insert_parent_fd : FdMap → ℤ → Run FdMap
unfolding find_place
insert_parent_fd m fd = elim (find_place fd 0 m.parent_fds) [
  | present ↦ abort
  | free index ↦ ok (record m {
    parent_fds = set m.parent_fds index fd;
    last_par_index = m.last_par_index +ℤ pos 1;
  })
  | full ↦ ok m
]

-- Where the loop of `delete_parent_fd` ends: at the descriptor, at a free place, or at the end.
pub data Hit : Type 0 where
  at : ℕ → Hit
  missing : Hit
  exhausted : Hit

unfoldable pub find_hit : ℤ → ℕ → List ℤ → Hit
find_hit fd i [] = exhausted
find_hit fd i (parent ∷ parents) =
    if parent ==ℤ fd
    then at i
    else if parent ==ℤ minus_one
    then missing
    else find_hit fd (suc i) parents

-- `parents[i]` for the last place `idx` and the place `i` of the descriptor.
unfoldable pub clear_parent : List ℤ → ℕ → ℤ → Run (List ℤ)
clear_parent parents i (pos zero) = if i == 0 then ok (set parents i minus_one) else abort
clear_parent parents i (pos (suc idx)) =
    if i == suc idx
    then ok (set parents i minus_one)
    else ok (set (set parents i (get_or parents (suc idx) minus_one)) (suc idx) minus_one)
clear_parent parents i (negsuc n) = abort

-- The result is whether the array is empty now.
unfoldable pub delete_parent_fd : FdMap → ℤ → Run (Bool × FdMap)
unfolding find_hit clear_parent
delete_parent_fd m fd = elim (find_hit fd 0 m.parent_fds) [
  | at i ↦ do
    parents ← clear_parent m.parent_fds i m.last_par_index
    let last = m.last_par_index -ℤ pos 1
    ok (last ==ℤ minus_one, record m { parent_fds = parents; last_par_index = last })
  | missing ↦ abort
  | exhausted ↦ ok (m.last_par_index ==ℤ minus_one, m)
]
