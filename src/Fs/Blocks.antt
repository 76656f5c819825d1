-- ===== src/Fs/Blocks.antt =====
-- fs/state.c, the data blocks: `data_block_alloc`, `data_block_free`, `data_block_get`.
pub mod Alloc
use tecnico_fs_so.Prelude.{ℕ, ℤ, pos, minus_one, set}
use tecnico_fs_so.Fs.Types.{State, free, taken}
use tecnico_fs_so.Fs.Run.{Run, halt, overrun, M, pure, gets, assert, index, write_at, ◌>>=◌, ◌>>◌}
use tecnico_fs_so.Fs.Tables.{
  Scan, found, absent, beyond, first_free, valid_block_number, with_remainders,
}

abbrev take_block : State → Scan → Run ℤ
take_block s (found i) = pure (pos i) (record s { free_blocks = set s.free_blocks i taken })
take_block s absent = pure minus_one s
take_block s beyond = halt overrun

unfoldable pub data_block_alloc : M ℤ
data_block_alloc s =
    with_remainders s s.fs_params.max_block_count
      (take_block s (first_free s.fs_params.max_block_count s.free_blocks))

unfoldable pub data_block_free : ℤ → M (Unit {0})
data_block_free block_number = do
  s ← gets (λ s. s)
  assert (valid_block_number s block_number)
  b ← index block_number
  write_at s.free_blocks b free (λ table s. record s { free_blocks = table })

-- The pointer to a block is its index in `fs_data`.
unfoldable pub data_block_get : ℤ → M ℕ
data_block_get block_number = do
  s ← gets (λ s. s)
  assert (valid_block_number s block_number)
  index block_number
