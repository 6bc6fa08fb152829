-- ===== src/Simulate/Tests.antt =====
-- A file that was written twice.
use ioapps.Base.{ℕ, ◌+◌, ◌%◌, ◌^◌, ◌≤◌, ◌≡◌, refl, [], ◌∷◌, All}
use ioapps.Base.Int.{pos}
use ioapps.Parsing.{codes}
use ioapps.Simulate.{SimItem, max_from, simulate_get_max_offset}
use ioapps.Simulate.Offsets.{IsEnd, IsSigned, get_max_offset-IsEnd}

abbrev twice_written : SimItem
twice_written = record {
  name = codes "/tmp/x";
  created = 1;
  tv_sec = 0;
  tv_usec = 0;
  list =
      record { offset = 10; size = 5; tv_sec = 0; tv_usec = 0; dur = 1 }
      ∷ record { offset = 0; size = 4; tv_sec = 1; tv_usec = 0; dur = 1 }
      ∷ [];
}

get_max_offset-IsEnd_example :
    (off : ℕ) × All (λ op. (op.offset + op.size) % 2 ^ 64 ≤ off) twice_written.list
    × IsEnd off twice_written.list
    × IsSigned off (simulate_get_max_offset twice_written)
get_max_offset-IsEnd_example = get_max_offset-IsEnd twice_written

farthest_end : simulate_get_max_offset twice_written ≡ pos 15
unfolding simulate_get_max_offset max_from
farthest_end = refl
