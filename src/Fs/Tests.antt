-- ===== src/Fs/Tests.antt =====
-- Runs of whole client programs.
use tecnico_fs_so.Prelude.{bytes_eq, int_bytes, read_int, ℕ, ℤ, pos, true, List, some, ◌≡◌, refl}
use tecnico_fs_so.Fs.Run.{
  Run, ok, halt, M, ◌>>=◌, ◌>>◌, assert, in_bounds, read_at, index, write_at, update_inode,
  read_inode, read_block, write_block,
}
use tecnico_fs_so.Fs.Blocks.{data_block_alloc, data_block_get, data_block_free}
use tecnico_fs_so.Fs.Tables.{first_free}
use tecnico_fs_so.Fs.Entries.{c_string, entry_at, entries, find_first, name_bytes, clear_inumbers}
use tecnico_fs_so.Fs.Inodes.{inode_alloc, inode_create, inode_get, inode_delete}
use tecnico_fs_so.Fs.Dir.{add_dir_entry, clear_dir_entry, find_in_dir, with_directory, store_entry}
use tecnico_fs_so.Fs.Files.{
  add_to_open_file_table, get_open_file_entry, any_open, is_file_open, write_to_open_file,
  read_from_open_file, set_handle, mark_handle, handle_entry, clip, shorter, fitting, grow,
  add_size, sub_size, write_bytes, write_first, read_bytes, delete_if_unused, answer,
}
use tecnico_fs_so.Fs.Setup.{state_init, fill_free}
use tecnico_fs_so.Fs.Ops.{
  tfs_init, tfs_lookup, tfs_open, tfs_write, tfs_read, tfs_link, tfs_unlink, tfs_default_params,
}
use tecnico_fs_so.Fs.Samples.{small, small_memory, unmounted, path_f, path_g, hello}

-- The result of a run without its state.
outcome : {A : Type 0} → Run A → Run A
outcome (ok a s) = ok a unmounted
outcome (halt e) = halt e

write_then_read : M (ℤ × List ℕ)
unfolding tfs_init state_init inode_create inode_alloc first_free data_block_alloc data_block_get
    clear_inumbers int_bytes read_int tfs_open tfs_lookup inode_get find_in_dir find_first
    add_dir_entry add_to_open_file_table tfs_write write_to_open_file get_open_file_entry tfs_link
    tfs_unlink clear_dir_entry is_file_open any_open tfs_read read_from_open_file c_string entry_at
    entries name_bytes bytes_eq assert in_bounds read_at index write_at update_inode read_inode
    read_block write_block set_handle mark_handle handle_entry clip shorter fitting grow add_size
    sub_size write_bytes write_first read_bytes delete_if_unused answer with_directory store_entry
    data_block_free tfs_default_params fill_free inode_delete
write_then_read = do
  tfs_init (some small) small_memory
  f ← tfs_open 1 path_f 1
  tfs_write f (some hello) 5
  tfs_link path_f path_g
  tfs_unlink path_f
  g ← tfs_open 1 path_g 0
  tfs_read g true 50

write_then_read_runs : outcome (write_then_read unmounted) ≡ ok (pos 5, hello) unmounted
unfolding write_then_read outcome
write_then_read_runs = refl
