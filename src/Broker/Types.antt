-- ===== src/Broker/Types.antt =====
-- mbroker/mbroker.h and the static state of mbroker/mbroker.c.
use tecnico_fs_so.Prelude.{ℕ, List, minus_one, negsuc, pos, suc, zero, ℤ, ◌+◌}
use tecnico_fs_so.Fs.Types.{AllocationState}

-- `box_t` without its mutex and condition variable. `name` is the whole array of 32 bytes.
pub record Box : Type 0 where
  pub name : List ℕ
  pub size : ℕ
  pub n_publishers : ℕ
  pub n_subscribers : ℕ

-- The table of boxes. `slots` is `inode_table_size()`, the number of entries that it was made for.
pub record Broker : Type 0 where
  pub slots : ℕ
  pub n_boxes : ℤ
  pub boxes_table : List Box
  pub free_boxes : List AllocationState

-- How a call ends: it returns, or accesses memory outside of the table or of a box's name.
pub data Call (A : Type 0) : Type 0 where
  ends : A → Broker → Call A
  bad_access : Call A

-- `n++` and `n--` on an `int`.
abbrev pub incr : ℤ → ℤ
incr (pos n) = pos (n + 1)
incr (negsuc zero) = pos 0
incr (negsuc (suc n)) = negsuc n

abbrev pub decr : ℤ → ℤ
decr (pos zero) = minus_one
decr (pos (suc n)) = pos n
decr (negsuc n) = negsuc (suc n)
