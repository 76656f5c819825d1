-- ===== src/Fs/Tables.antt =====
-- The allocation tables of fs/state.c and the validity tests on their indices.
pub mod Search
use tecnico_fs_so.Prelude.{
  ℕ, zero, suc, ℤ, pos, negsuc, Bool, true, false, ◌&&◌, List, [], ◌∷◌, get_elem?, none, some, ltb,
  if◌then◌else◌, ◌==◌,
}
use tecnico_fs_so.Fs.Run.{Run, halt, division}
use tecnico_fs_so.Fs.Types.{State, AllocationState, free, taken}

abbrev pub is_free : AllocationState → Bool
is_free free = true
is_free taken = false

abbrev pub is_taken : AllocationState → Bool
is_taken free = false
is_taken taken = true

-- `index >= 0 && index < bound`.
abbrev pub valid_index : ℕ → ℤ → Bool
valid_index bound (pos n) = ltb n bound
valid_index bound (negsuc n) = false

abbrev pub valid_inumber : State → ℤ → Bool
valid_inumber s inumber = valid_index s.fs_params.max_inode_count inumber

abbrev pub valid_block_number : State → ℤ → Bool
valid_block_number s block_number = valid_index s.fs_params.max_block_count block_number

abbrev pub valid_file_handle : State → ℤ → Bool
valid_file_handle s file_handle = valid_index s.fs_params.max_open_files_count file_handle

-- `table[i] == TAKEN`, at an index whose range was tested before.
abbrev pub taken_at : List AllocationState → ℤ → Bool
taken_at table (pos n) = elim (get_elem? table n) [ none ↦ false | some a ↦ is_taken a ]
taken_at table (negsuc n) = false

abbrev pub valid_file_content : State → ℤ → Bool
valid_file_content s inumber = valid_inumber s inumber && taken_at s.freeinode_ts inumber

-- The loops of `inode_alloc` and `data_block_alloc` over `count` entries take a remainder by
-- BLOCK_SIZE for each entry.
abbrev pub with_remainders : State → ℕ → Run ℤ → Run ℤ
with_remainders s count r =
    if (s.fs_params.block_size == 0) && ltb 0 count then halt division else r

-- Where a loop over the first entries of a table stops: at an entry, behind the last one, or
-- outside of the table.
pub data Scan : Type 0 where
  found : ℕ → Scan
  absent beyond : Scan

abbrev pub next : Scan → Scan
next (found i) = found (suc i)
next absent = absent
next beyond = beyond

-- `for (i = 0; i < n; i++) if (table[i] == FREE)`: the three allocators' loop.
unfoldable pub first_free : ℕ → List AllocationState → Scan
first_free zero table = absent
first_free (suc n) [] = beyond
first_free (suc n) (free ∷ table) = found 0
first_free (suc n) (taken ∷ table) = next (first_free n table)
