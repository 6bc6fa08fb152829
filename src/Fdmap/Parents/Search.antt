-- ===== src/Fdmap/Parents/Search.antt =====
-- Where the loops over the array of parent descriptors end.

use ioapps.Base.{
  ℕ, zero, suc, ◌+◌, ◌<◌, ◌≡◌, ◌≢◌, refl, ap, if◌then◌else◌, Bool-cases, inl, inr, List, [], ◌∷◌,
  ◌++◌, length, length-append, replicate, get_or, set, arith,
}
use ioapps.Base.Int.{ℤ, pos, negsuc, minus_one, ◌==ℤ◌, ==ℤ_iff}
use ioapps.Fdmap.Parents.{present, free, full, at, missing, exhausted, find_place, find_hit}

-- `last_par_index` for so many live descriptors.
abbrev pub last_index : ℕ → ℤ
last_index zero = negsuc 0
last_index (suc n) = pos n

-- How often a descriptor is in a list.
abbrev pub occurs : ℤ → List ℤ → ℕ
occurs x [] = 0
occurs x (y ∷ ys) = (if y ==ℤ x then 1 else 0) + occurs x ys

pub zero_add : (n : ℕ) → 0 + n ≡ n
zero_add n = omega arith

pub set-append : (xs ys : List ℤ) (y v : ℤ) → set (xs ++ y ∷ ys) (length xs) v ≡ xs ++ v ∷ ys
set-append [] ys y v = refl
set-append (x ∷ xs) ys y v = ap (λ t. x ∷ t) (set-append xs ys y v)

pub get_or-append : (xs ys : List ℤ) (y d : ℤ) → get_or (xs ++ y ∷ ys) (length xs) d ≡ y
get_or-append [] ys y d = refl
get_or-append (x ∷ xs) ys y d = get_or-append xs ys y d

pub occurs-append : (x : ℤ) (xs ys : List ℤ) → occurs x (xs ++ ys) ≡ occurs x xs + occurs x ys
occurs-append x [] ys = omega arith
occurs-append x (y ∷ xs) ys = omega (arith, occurs-append x xs ys)

-- A search of the live part for a descriptor that is not in it stops at the first free place.
pub find_place-free :
    (fd : ℤ) (i k : ℕ) (live : List ℤ)
    → occurs fd live ≡ 0
    → occurs minus_one live ≡ 0
    → fd ≢ minus_one
    → find_place fd i (live ++ replicate (suc k) minus_one) ≡ free (i + length live)
unfolding find_place
find_place-free fd i k [] h u n = ground (arith, ==ℤ_iff minus_one fd)
find_place-free fd i k (y ∷ ys) h u n = ground (arith, find_place-free fd (suc i) k ys)

pub find_place-full :
    (fd : ℤ) (i : ℕ) (live : List ℤ)
    → occurs fd live ≡ 0
    → occurs minus_one live ≡ 0
    → find_place fd i (live ++ []) ≡ full
unfolding find_place
find_place-full fd i [] h u = refl
find_place-full fd i (y ∷ ys) h u = ground (arith, find_place-full fd (suc i) ys)

pub find_place-present :
    (fd : ℤ) (i : ℕ) (live rest : List ℤ)
    → 0 < occurs fd live
    → occurs minus_one live ≡ 0
    → find_place fd i (live ++ rest) ≡ present
unfolding find_place
find_place-present fd i [] rest h u = absurd (omega arith)
find_place-present fd i (y ∷ ys) rest h u = ground (arith, find_place-present fd (suc i) ys rest)

pub find_hit-missing :
    (fd : ℤ) (i k : ℕ) (live : List ℤ)
    → occurs fd live ≡ 0
    → occurs minus_one live ≡ 0
    → fd ≢ minus_one
    → find_hit fd i (live ++ replicate (suc k) minus_one) ≡ missing
unfolding find_hit
find_hit-missing fd i k [] h u n = ground (arith, ==ℤ_iff minus_one fd)
find_hit-missing fd i k (y ∷ ys) h u n = ground (arith, find_hit-missing fd (suc i) k ys)

pub find_hit-exhausted :
    (fd : ℤ) (i : ℕ) (live : List ℤ)
    → occurs fd live ≡ 0
    → occurs minus_one live ≡ 0
    → find_hit fd i (live ++ []) ≡ exhausted
unfolding find_hit
find_hit-exhausted fd i [] h u = refl
find_hit-exhausted fd i (y ∷ ys) h u = ground (arith, find_hit-exhausted fd (suc i) ys)

-- A search for a live descriptor stops at the first place that holds it.
pub find_hit-at :
    (fd : ℤ) (i : ℕ) (live rest : List ℤ)
    → 0 < occurs fd live
    → occurs minus_one live ≡ 0
    → (front back : List ℤ) × (live ≡ front ++ fd ∷ back)
      × (find_hit fd i (live ++ rest) ≡ at (i + length front))
unfolding find_hit
find_hit-at fd i [] rest h u = absurd (omega arith)
find_hit-at fd i (y ∷ ys) rest h u = elim (Bool-cases (y ==ℤ fd)) [
  | inl e ↦ ([], ys, ap (λ z. z ∷ ys) ((==ℤ_iff y fd).0 e), rw e (ap at (omega arith)))
  | inr e ↦
      let (front, back, split, stop) =
        find_hit-at fd (suc i) ys rest (ground arith) (ground arith) in
      (y ∷ front, back, ap (λ t. y ∷ t) split, ground (arith, stop))
]

pub length-snoc : (xs : List ℤ) (y : ℤ) → suc (length xs) ≡ length (xs ++ y ∷ [])
length-snoc xs y = omega (arith, length-append xs (y ∷ []))
