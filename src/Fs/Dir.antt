-- ===== src/Fs/Dir.antt =====
-- fs/state.c, the entries of a directory: `add_dir_entry`, `clear_dir_entry`, `find_in_dir`.
pub mod Access
pub mod Laws
use tecnico_fs_so.Prelude.{
  ℕ, ◌-◌, ℤ, minus_one, Bool, true, false, not, ◌||◌, List, length, replicate, Option, none, some,
  if◌then◌else◌, ltb, ◌==◌, pos, int_bytes, max,
}
use tecnico_fs_so.Fs.Types.{InodeType, t_directory, DirEntry, max_file_name}
use tecnico_fs_so.Fs.Run.{M, pure, gets, read_inode, read_block, write_block, ◌>>=◌, ◌>>◌}
use tecnico_fs_so.Fs.Tables.{valid_inumber}
use tecnico_fs_so.Fs.Blocks.{data_block_get}
use tecnico_fs_so.Fs.Entries.{
  entries, is_live, has_name, is_live_name, find_first, name_bytes, name_offset, inumber_offset,
}
use tecnico_fs_so.Fs.Inodes.{max_dir_entries}

abbrev is_directory : InodeType → Bool
is_directory t_directory = true
is_directory _ = false

-- `strlen(sub_name) == 0 || strlen(sub_name) > MAX_FILE_NAME - 1`.
abbrev pub bad_name : List ℕ → Bool
bad_name sub_name = length sub_name == 0 || ltb (max_file_name - 1) (length sub_name)

-- What the three functions start with, after their own tests: the directory's block, or -1.
unfoldable pub with_directory : ℕ → (ℕ → List DirEntry → M ℤ) → M ℤ
with_directory inode body = do
  dir ← read_inode inode
  if is_directory dir.i_node_type
      then (do
        b ← data_block_get dir.i_data_block
        block ← read_block b
        max ← gets max_dir_entries
        body b (entries max block))
      else pure minus_one

-- `dir_entry[i].d_inumber = inumber`, and the 40 bytes of `dir_entry[i].d_name`.
unfoldable pub store_entry : ℕ → ℕ → ℤ → List ℕ → M ℤ
store_entry b i inumber name = do
  write_block b (inumber_offset i) (int_bytes inumber)
  write_block b (name_offset i) name
  pure (pos 0)

abbrev pub fill_entry : List ℕ → ℤ → ℕ → Option (ℕ × DirEntry) → M ℤ
fill_entry sub_name sub_inumber b none = pure minus_one
fill_entry sub_name sub_inumber b (some (i, _)) = store_entry b i sub_inumber (name_bytes sub_name)

abbrev pub add_new : List ℕ → ℤ → ℕ → List DirEntry → Option (ℕ × DirEntry) → M ℤ
add_new sub_name sub_inumber b es (some _) = pure minus_one
add_new sub_name sub_inumber b es none =
    fill_entry sub_name sub_inumber b (find_first (λ e. not (is_live e)) es)

unfoldable pub add_dir_entry : ℕ → List ℕ → ℤ → M ℤ
add_dir_entry inode sub_name sub_inumber = do
  s ← gets (λ s. s)
  if bad_name sub_name || not (valid_inumber s sub_inumber)
      then pure minus_one
      else with_directory inode
          (λ b es. add_new sub_name sub_inumber b es (find_first (is_live_name sub_name) es))

abbrev pub erase_entry : ℕ → Option (ℕ × DirEntry) → M ℤ
erase_entry b none = pure minus_one
erase_entry b (some (i, _)) = store_entry b i minus_one (replicate max_file_name 0)

-- The loop tests the name alone, also at an entry that is not in use.
unfoldable pub clear_dir_entry : ℕ → List ℕ → M ℤ
clear_dir_entry inode sub_name =
    if bad_name sub_name
    then pure minus_one
    else with_directory inode (λ b es. erase_entry b (find_first (has_name sub_name) es))

abbrev pub entry_inumber : Option (ℕ × DirEntry) → ℤ
entry_inumber none = minus_one
entry_inumber (some (_, e)) = e.d_inumber

unfoldable pub find_in_dir : ℕ → List ℕ → M ℤ
find_in_dir inode sub_name =
    if bad_name sub_name
    then pure minus_one
    else with_directory inode (λ b es. pure (entry_inumber (find_first (is_live_name sub_name) es)))
