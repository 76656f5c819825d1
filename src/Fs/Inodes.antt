-- ===== src/Fs/Inodes.antt =====
-- fs/state.c, the inode table: `inode_alloc`, `inode_create`, `inode_delete`, `inode_get`.
pub mod Delete
pub mod Create
pub mod CreateRoot
use tecnico_fs_so.Prelude.{ℕ, ◌/◌, ℤ, pos, minus_one, is_minus_one, if◌then◌else◌, set, ltb}
use tecnico_fs_so.Fs.Types.{
  State, InodeType, t_file, t_directory, t_sym_link, free, taken, dir_entry_size,
}
use tecnico_fs_so.Fs.Run.{
  Run, halt, overrun, M, pure, gets, modify, assert, index, write_at, update_inode, read_inode,
  read_block, ◌>>=◌, ◌>>◌,
}
use tecnico_fs_so.Fs.Tables.{
  Scan, found, absent, beyond, first_free, valid_inumber, taken_at, with_remainders,
}
use tecnico_fs_so.Fs.Blocks.{data_block_alloc, data_block_free, data_block_get}
use tecnico_fs_so.Fs.Entries.{clear_inumbers}

-- MAX_DIR_ENTRIES.
abbrev pub max_dir_entries : State → ℕ
max_dir_entries s = s.fs_params.block_size / dir_entry_size

abbrev pub take_inode : State → Scan → Run ℤ
take_inode s (found i) = pure (pos i) (record s { freeinode_ts = set s.freeinode_ts i taken })
take_inode s absent = pure minus_one s
take_inode s beyond = halt overrun

unfoldable pub inode_alloc : M ℤ
inode_alloc s =
    with_remainders s s.fs_params.max_inode_count
      (take_inode s (first_free s.fs_params.max_inode_count s.freeinode_ts))

-- The pointer to an inode is its index in `inode_table`.
unfoldable pub inode_get : ℤ → M ℕ
inode_get inumber = do s ← gets (λ s. s); assert (valid_inumber s inumber); index inumber

unfoldable pub inode_delete : ℤ → M (Unit {0})
inode_delete inumber = do
  s ← gets (λ s. s)
  assert (valid_inumber s inumber)
  assert (taken_at s.freeinode_ts inumber)
  i ← index inumber
  inode ← read_inode i
  if ltb 0 inode.i_size then data_block_free inode.i_data_block else pure tt
  update_inode i (λ n. record n { i_size = 0; i_data_block = minus_one; i_hard_links = 1 })
  write_at s.freeinode_ts i free (λ table s. record s { freeinode_ts = table })

-- The entries of a new directory are marked as empty; their names keep what the block held.
abbrev clear_entries : ℕ → M (Unit {0})
clear_entries b = do
  block ← read_block b
  modify (λ s. record s { fs_data = set s.fs_data b (clear_inumbers (max_dir_entries s) 0 block) })

abbrev init_directory : ℕ → M ℤ
init_directory i = do
  b ← data_block_alloc
  if is_minus_one b
      then (do
        update_inode i (λ n. record n { i_size = 0; i_data_block = minus_one })
        inode_delete (pos i)
        pure minus_one)
      else (do
        size ← gets (λ s. s.fs_params.block_size)
        update_inode i (λ n. record n { i_size = size; i_data_block = b })
        block ← data_block_get b
        clear_entries block
        update_inode i (λ n. record n { i_hard_links = 1 })
        pure (pos i))

abbrev pub init_file : ℕ → M ℤ
init_file i = do
  update_inode i (λ n. record n { i_size = 0; i_data_block = minus_one })
  update_inode i (λ n. record n { i_hard_links = 1 })
  pure (pos i)

abbrev pub init_inode : InodeType → ℕ → M ℤ
init_inode t_directory = init_directory
init_inode t_file = init_file
init_inode t_sym_link = init_file

unfoldable pub inode_create : InodeType → M ℤ
inode_create i_type = do
  inumber ← inode_alloc
  if is_minus_one inumber then pure minus_one else (do
    i ← index inumber
    update_inode i (λ n. record n { i_node_type = i_type })
    init_inode i_type i)
