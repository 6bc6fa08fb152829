-- ===== src/Fdmap/Parents/Laws.antt =====
-- The array against the list of its live descriptors.
use mathlib.Core.Path.{subst}
use ioapps.Base.{
  ℕ, zero, suc, ◌+◌, ◌-◌, ◌==◌, ◌<◌, ◌≡◌, ◌≢◌, refl, sym, ap, ◌∙◌, if◌then◌else◌, false, List, [],
  ◌∷◌, ◌++◌, length, length-append, replicate, set, arith,
}
use ioapps.Base.Int.{ℤ, pos, minus_one, ◌==ℤ◌, ==ℤ_iff, ◌+ℤ◌, ◌-ℤ◌}
use ioapps.Base.Run.{ok, abort}
use ioapps.Fdmap.{FdMap, max_parent_ids}
use ioapps.Fdmap.Parents.{
  present, free, full, at, missing, exhausted, new_parents, find_place, insert_parent_fd, find_hit,
  clear_parent, delete_parent_fd,
}
use ioapps.Fdmap.Parents.Search.{
  last_index, occurs, zero_add, set-append, occurs-append, find_place-free, find_place-full,
  find_place-present, find_hit-missing, find_hit-exhausted, find_hit-at, length-snoc,
}
use ioapps.Fdmap.Parents.Clearing.{Cleared, clear, last_index-pred}

-- `live` in front, -1 in the other places of the 20, and the index of the last live one.
pub record Holds (m : FdMap) (live : List ℤ) : Type 0 where
  pub spare : ℕ
  pub layout : m.parent_fds ≡ live ++ replicate spare minus_one
  pub size : length live + spare ≡ max_parent_ids
  pub last : m.last_par_index ≡ last_index (length live)
  pub used : occurs minus_one live ≡ 0

append-replicate :
    (x : ℤ) (k : ℕ) (live : List ℤ)
    → live ++ x ∷ replicate k minus_one ≡ (live ++ x ∷ []) ++ replicate k minus_one
append-replicate x k [] = refl
append-replicate x k (y ∷ ys) = ap (λ t. y ∷ t) (append-replicate x k ys)

last_index-suc : (n : ℕ) → last_index n +ℤ pos 1 ≡ last_index (suc n)
unfolding ◌+ℤ◌
last_index-suc zero = refl
last_index-suc (suc n) = ground arith

abbrev inserted : FdMap → ℕ → ℤ → FdMap
inserted m i fd = record m {
  parent_fds = set m.parent_fds i fd;
  last_par_index = m.last_par_index +ℤ pos 1;
}

pub insert_parent_fd-find_place :
    (m : FdMap) (fd : ℤ)
    → ((i : ℕ)
        → find_place fd 0 m.parent_fds ≡ free i
        → insert_parent_fd m fd ≡ ok (inserted m i fd))
      × (find_place fd 0 m.parent_fds ≡ full → insert_parent_fd m fd ≡ ok m)
      × (find_place fd 0 m.parent_fds ≡ present → insert_parent_fd m fd ≡ abort)
unfolding insert_parent_fd
insert_parent_fd-find_place m fd = (
  λ i e. rw (insert_parent_fd, e) refl,
  λ e. rw (insert_parent_fd, e) refl,
  λ e. rw (insert_parent_fd, e) refl,
)

insert-free :
    (m : FdMap) (fd : ℤ) (live : List ℤ) (k : ℕ)
    → m.parent_fds ≡ live ++ replicate (suc k) minus_one
    → length live + suc k ≡ max_parent_ids
    → m.last_par_index ≡ last_index (length live)
    → occurs minus_one live ≡ 0
    → fd ≢ minus_one
    → occurs fd live ≡ 0
    → (m' : FdMap) × (insert_parent_fd m fd ≡ ok m') × Holds m' (live ++ fd ∷ [])
insert-free m fd live k lay size last used n new = (
  inserted m (length live) fd,
  (insert_parent_fd-find_place m fd).0 (length live) (
      ap (find_place fd 0) lay
      ∙ find_place-free fd 0 k live new used n
      ∙ ap free (zero_add (length live))),
  record {
    spare = k;
    layout =
        ap (λ t. set t (length live) fd) lay
        ∙ set-append live (replicate k minus_one) minus_one fd
        ∙ append-replicate fd k live;
    size = omega (arith, length-append live (fd ∷ []));
    last =
        ap (λ z. z +ℤ pos 1) last
        ∙ last_index-suc (length live)
        ∙ ap last_index (length-snoc live fd);
    used = ground (arith, occurs-append minus_one live (fd ∷ []), ==ℤ_iff fd minus_one);
  },
)

layout_at :
    (m : FdMap) (live : List ℤ) (h : Holds m live) (k : ℕ)
    → h.spare ≡ k
    → m.parent_fds ≡ live ++ replicate k minus_one
layout_at m live h k e = h.layout ∙ ap (λ k. live ++ replicate k minus_one) e

-- Where an array that is not full holds `live`, `insert_parent_fd` of a descriptor that is neither
-- -1 nor among the live ones goes through, and appends it to the live ones.
pub insert_parent_fd-Holds :
    (m : FdMap) (fd : ℤ) (live : List ℤ)
    → Holds m live
    → fd ≢ minus_one
    → occurs fd live ≡ 0
    → length live < max_parent_ids
    → (m' : FdMap) × (insert_parent_fd m fd ≡ ok m') × Holds m' (live ++ fd ∷ [])
insert_parent_fd-Holds m fd live h n new room =
    insert-free m fd live (h.spare - 1)
      (layout_at m live h (suc (h.spare - 1)) (omega (arith, h.size))) (omega (arith, h.size))
      h.last h.used n new

-- Where the array is full, `insert_parent_fd` of a descriptor that is not among the live ones goes
-- through and leaves all as it is: the descriptor is not recorded.
pub insert_parent_fd_full :
    (m : FdMap) (fd : ℤ) (live : List ℤ)
    → Holds m live
    → occurs fd live ≡ 0
    → length live ≡ max_parent_ids
    → insert_parent_fd m fd ≡ ok m
insert_parent_fd_full m fd live h new all = (insert_parent_fd-find_place m fd).1 (
    ap (find_place fd 0) (layout_at m live h 0 (omega (arith, h.size)))
    ∙ find_place-full fd 0 live new h.used)

-- A descriptor among the live ones fails the assertion of `insert_parent_fd`.
pub insert_parent_fd_twice :
    (m : FdMap) (fd : ℤ) (live : List ℤ)
    → Holds m live
    → 0 < occurs fd live
    → insert_parent_fd m fd ≡ abort
insert_parent_fd_twice m fd live h here =
    (insert_parent_fd-find_place m fd).2
      (ap (find_place fd 0) h.layout ∙ find_place-present fd 0 live _ here h.used)

abbrev deleted : FdMap → List ℤ → FdMap
deleted m parents = record m { parent_fds = parents; last_par_index = m.last_par_index -ℤ pos 1 }

delete_parent_fd-find_hit :
    (m : FdMap) (fd : ℤ)
    → ((i : ℕ) (parents : List ℤ)
        → find_hit fd 0 m.parent_fds ≡ at i
        → clear_parent m.parent_fds i m.last_par_index ≡ ok parents
        → delete_parent_fd m fd ≡ ok (m.last_par_index -ℤ pos 1 ==ℤ minus_one, deleted m parents))
      × (find_hit fd 0 m.parent_fds ≡ missing → delete_parent_fd m fd ≡ abort)
      × (find_hit fd 0 m.parent_fds ≡ exhausted
          → delete_parent_fd m fd ≡ ok (m.last_par_index ==ℤ minus_one, m))
unfolding delete_parent_fd
delete_parent_fd-find_hit m fd = (
  λ i parents e c. rw (delete_parent_fd, e, c) refl,
  λ e. rw (delete_parent_fd, e) refl,
  λ e. rw (delete_parent_fd, e) refl,
)

occurs-last :
    (x : ℤ) (live : List ℤ) (fd : ℤ) (live' : List ℤ)
    → occurs x live ≡ (if fd ==ℤ x then 1 else 0) + occurs x live'
    → occurs x live ≡ 0
    → occurs x live' ≡ 0
occurs-last x live fd live' e z = omega (arith, e)

emptied : (n : ℕ) → (last_index n ==ℤ minus_one) ≡ (n == 0)
emptied zero = refl
emptied (suc n) = ground arith

delete-live :
    (m : FdMap) (fd : ℤ) (live front back : List ℤ) (h : Holds m live)
    → live ≡ front ++ fd ∷ back
    → find_hit fd 0 m.parent_fds ≡ at (length front)
    → (m' : FdMap) × (live' : List ℤ) × (delete_parent_fd m fd ≡ ok (length live' == 0, m'))
      × Holds m' live'
      × ((x : ℤ) → occurs x live ≡ (if fd ==ℤ x then 1 else 0) + occurs x live')
delete-live m fd live front back h split hit =
    let (live', run, len, rest) =
      subst (λ t. Cleared fd t h.spare (length front)) (sym split) (clear fd front back h.spare) in
    let parents = live' ++ replicate (suc h.spare) minus_one in
    let idx : m.last_par_index -ℤ pos 1 ≡ last_index (length live') =
      ap (λ z. z -ℤ pos 1) (h.last ∙ ap last_index len) ∙ last_index-pred (length live') in
    (
      deleted m parents,
      live',
      (delete_parent_fd-find_hit m fd).0 (length front) parents hit (
            ap (λ t. clear_parent t (length front) m.last_par_index) h.layout
            ∙ ap (clear_parent (live ++ replicate h.spare minus_one) (length front)) h.last
            ∙ run)
          ∙ ap (λ z. ok (z ==ℤ minus_one, deleted m parents)) idx
          ∙ ap (λ b. ok (b, deleted m parents)) (emptied (length live')),
      record {
        spare = suc h.spare;
        layout = refl;
        size = omega (arith, h.size, len);
        last = idx;
        used = occurs-last minus_one live fd live' (rest minus_one) h.used;
      },
      rest,
    )

-- Where an array holds `live`, `delete_parent_fd` of a live descriptor goes through, takes one
-- occurrence of it out of the live ones, leaves the others, and answers whether none is left.
pub delete_parent_fd-Holds :
    (m : FdMap) (fd : ℤ) (live : List ℤ)
    → Holds m live
    → 0 < occurs fd live
    → (m' : FdMap) × (live' : List ℤ) × (delete_parent_fd m fd ≡ ok (length live' == 0, m'))
      × Holds m' live'
      × ((x : ℤ) → occurs x live ≡ (if fd ==ℤ x then 1 else 0) + occurs x live')
delete_parent_fd-Holds m fd live h here =
    let (front, back, split, hit) =
      find_hit-at fd 0 live (replicate h.spare minus_one) here h.used in
    delete-live m fd live front back h split
      (ap (find_hit fd 0) h.layout ∙ hit ∙ ap at (zero_add (length front)))

-- Where the array is not full, a descriptor other than -1 that is not among the live ones fails the
-- assertion of `delete_parent_fd`.
pub delete_parent_fd_missing :
    (m : FdMap) (fd : ℤ) (live : List ℤ)
    → Holds m live
    → fd ≢ minus_one
    → occurs fd live ≡ 0
    → length live < max_parent_ids
    → delete_parent_fd m fd ≡ abort
delete_parent_fd_missing m fd live h n new room = (delete_parent_fd-find_hit m fd).1 (
    ap (find_hit fd 0) (layout_at m live h (suc (h.spare - 1)) (omega (arith, h.size)))
    ∙ find_hit-missing fd 0 (h.spare - 1) live new h.used n)

-- Where the array is full, `delete_parent_fd` of a descriptor that is not among the live ones goes
-- through, changes nothing and answers false.
pub delete_parent_fd_full :
    (m : FdMap) (fd : ℤ) (live : List ℤ)
    → Holds m live
    → occurs fd live ≡ 0
    → length live ≡ max_parent_ids
    → delete_parent_fd m fd ≡ ok (false, m)
delete_parent_fd_full m fd live h new all =
    (delete_parent_fd-find_hit m fd).2 (
      ap (find_hit fd 0) (layout_at m live h 0 (omega (arith, h.size)))
      ∙ find_hit-exhausted fd 0 live new h.used)
    ∙ ap (λ z. ok (z ==ℤ minus_one, m)) h.last
    ∙ ap (λ b. ok (b, m)) (emptied (length live) ∙ ground arith)

-- The array that `new_fd_item` makes has no live descriptor.
pub new_parents-Holds : (m : FdMap) → Holds (new_parents m) []
unfolding new_parents
new_parents-Holds m = record {
  spare = max_parent_ids;
  layout = refl;
  size = refl;
  last = refl;
  used = refl;
}
