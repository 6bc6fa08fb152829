-- ===== src/Simulate/Offsets.antt =====
-- simulate.c: `simulate_get_max_offset`.
use ioapps.Base.{
  ℕ, ◌+◌, ◌-◌, ◌%◌, ◌^◌, ◌<◌, ◌≤◌, ◌≡◌, ◌⊎◌, Bool-cases, refl, ap, ◌∙◌, ltb, if◌then◌else◌, inl,
  inr, List, [], ◌∷◌, All, arith,
}
use ioapps.Base.Int.{ℤ, pos, negsuc}
use ioapps.Replicate.World.{int64}
use ioapps.Simulate.{RwOp, SimItem, at_least, end_at, max_from, simulate_get_max_offset}

-- The offset is the end of one of the operations, in 64 bits, or nothing was done to the file.
abbrev pub IsEnd : ℕ → List RwOp → Type 0
IsEnd off [] = off ≡ 0
IsEnd off (op ∷ list) = (off ≡ (op.offset + op.size) % 2 ^ 64) ⊎ IsEnd off list

-- The `int64_t` of an `uint64_t`.
abbrev pub IsSigned : ℕ → ℤ → Type 0
IsSigned off z =
    ((off < 2 ^ 63) × (z ≡ pos off)) ⊎ ((2 ^ 63 ≤ off) × (z ≡ negsuc (2 ^ 64 - 1 - off)))

int64-IsSigned : (off : ℕ) → IsSigned off (int64 off)
int64-IsSigned off = elim (Bool-cases (ltb off (2 ^ 63))) [
  | inl less ↦ inl (ground arith, rw less refl)
  | inr less ↦ inr (ground arith, rw less refl)
]

max_from_le : (max_off : ℕ) (list : List RwOp) → max_off ≤ max_from max_off list
unfolding max_from
max_from_le max_off [] = omega arith
max_from_le max_off (op ∷ list) =
    let rest = max_from_le (at_least max_off (end_at op.offset op.size)) list in ground arith

max_from-All :
    (max_off : ℕ) (list : List RwOp)
    → All (λ op. (op.offset + op.size) % 2 ^ 64 ≤ max_from max_off list) list
unfolding max_from
max_from-All max_off [] = tt
max_from-All max_off (op ∷ list) =
    let next = at_least max_off (end_at op.offset op.size) in
    let least = max_from_le next list in (ground arith, max_from-All next list)

max_from-IsEnd :
    (max_off : ℕ) (list : List RwOp)
    → (max_from max_off list ≡ max_off) ⊎ IsEnd (max_from max_off list) list
unfolding max_from
max_from-IsEnd max_off [] = inl refl
max_from-IsEnd max_off (op ∷ list) =
    let e = end_at op.offset op.size in
    elim (max_from-IsEnd (at_least max_off e) list) [
      | inr later ↦ inr (inr later)
      | inl first ↦ elim (Bool-cases (ltb max_off e)) [
        | inl less ↦ inr (inl (first ∙ ap (λ b. if b then e else max_off) less))
        | inr less ↦ inl (first ∙ ap (λ b. if b then e else max_off) less)
      ]
    ]

zero-IsEnd : (off : ℕ) (list : List RwOp) → off ≡ 0 → IsEnd off list
zero-IsEnd off [] h = h
zero-IsEnd off (op ∷ list) h = inr (zero-IsEnd off list h)

-- `simulate_get_max_offset` answers the largest end of an operation on the file, each end the sum of its
-- offset and its size in 64 bits: no operation ended behind it, and one ended there, or there was none and it
-- is 0. As an `int64_t`, it is that end if it is below 2^63, and else negative, the end less 2^64.
pub get_max_offset-IsEnd :
    (item : SimItem)
    → (off : ℕ) × All (λ op. (op.offset + op.size) % 2 ^ 64 ≤ off) item.list
      × IsEnd off item.list
      × IsSigned off (simulate_get_max_offset item)
unfolding simulate_get_max_offset
get_max_offset-IsEnd item = (
  max_from 0 item.list,
  max_from-All 0 item.list,
  elim (max_from-IsEnd 0 item.list) [
    | inl none_ended ↦ zero-IsEnd (max_from 0 item.list) item.list none_ended
    | inr ended ↦ ended
  ],
  int64-IsSigned (max_from 0 item.list),
)
