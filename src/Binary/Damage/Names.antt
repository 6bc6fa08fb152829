-- ===== src/Binary/Damage/Names.antt =====
-- The `fread` of a name into `buff[MAX_STRING]`, for every length that a file may declare.
use ioapps.Base.{◌⊎◌, ℕ, ◌≤◌, ◌<◌, ◌≡◌, ◌↔◌, List, length, arith}
use ioapps.Binary.Format.{IsInt32}
use ioapps.Binary.Stream.{read_name, max_string, fault}

-- Reading a name overruns the buffer exactly when the declared length is 512 or more, negative
-- lengths included, and the file has 512 more bytes, or 513 where the length is not 512 itself.
pub read_name_overrun :
    (len : ℕ) (bytes : List ℕ)
    → IsInt32 len
    → (read_name len bytes ≡ fault) ↔ (
        (max_string ≤ len)
        × (max_string ≤ length bytes)
        × ((len ≡ max_string) ⊎ (max_string < length bytes)))
unfolding read_name
read_name_overrun len bytes h = (λ e. (ground arith, ground arith, ground arith), λ e. ground arith)
