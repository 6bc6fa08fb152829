-- ===== src/Fdmap.antt =====
-- fdmap.c: what a recorded file descriptor stands for, and how many processes use it.
-- A descriptor and a process id are integers; a pointer to an `fd_map_t` is its number in a store,
-- since descriptors that dup made share one.
pub mod Parents
pub mod Processes
pub mod Clone
pub mod Usage
mod Tests
use ioapps.Base.{ℕ, List, Option, none, some, replicate}
use ioapps.Base.Int.{ℤ, minus_one}

-- MAX_PARENT_IDS of common.h.
abbrev pub max_parent_ids : ℕ
max_parent_ids = 20

-- `struct fd_map`, with `time_open` spelt out.
pub record FdMap : Type 0 where
  pub my_fd : ℤ
  pub type : ℕ
  pub cur_pos : ℕ
  pub tv_sec : ℕ
  pub tv_usec : ℕ
  pub name : List ℕ
  pub created : ℕ
  pub parent_fds : List ℤ
  pub last_par_index : ℤ

-- `struct fd_item`; `fd_map` is a pointer.
pub record FdItem : Type 0 where
  pub old_fd : ℤ
  pub fd_map : ℕ

-- `struct fd_usage`.
pub record FdUsage : Type 0 where
  pub my_fd : ℤ
  pub usage : ℤ

-- `struct process_hash_item`; `ht` is a pointer to the table of a process.
pub record ProcessHashItem : Type 0 where
  pub ht : ℕ
  pub pid : ℤ
