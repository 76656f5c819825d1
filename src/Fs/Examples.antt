-- ===== src/Fs/Examples.antt =====
-- Instances of the theorems on fs/state.c, on small file systems.
use tecnico_fs_so.Prelude.{
  ℕ, refl, List, arith, get_elem?, inl, inr, length, pos, some, suc, take, zero, ◌<◌, ◌≡◌, ◌⊎◌, [],
  true, ◌∷◌, bytes_eq, read_int, replicate, ◌≤◌, min,
}
use tecnico_fs_so.Fs.Types.{AllocationState, State, free, taken, t_directory}
use tecnico_fs_so.Fs.Files.{
  write_to_open_file, get_open_file_entry, any_open, set_handle, clip, shorter, fitting, grow,
  add_size, sub_size, write_bytes, write_first, handle_entry, read_from_open_file,
}
use tecnico_fs_so.Fs.Files.WriteBack.{BlocksExist, Writes}
use tecnico_fs_so.Fs.Files.Content.{Holds, stored, read_from_open_file-slice}
use tecnico_fs_so.Fs.Files.Handles.{IsOpen, at_offset}
use tecnico_fs_so.Fs.Samples.{
  file_system, file_block, new_block, file_node, other_node, spare_block, hello, other_block, xy,
  directory_system, name_f, name_g, root_block, small, unmounted, small_memory,
}
use tecnico_fs_so.Fs.Run.{
  read_at, index, write_at, update_inode, read_inode, read_block, write_block, in_bounds, assert,
  ok,
}
use tecnico_fs_so.Fs.Blocks.{data_block_alloc, data_block_get}
use tecnico_fs_so.Fs.Files.RoundTrip.{
  Apart, write_to_open_file-Holds_other, read-write_to_open_file,
}
use tecnico_fs_so.Fs.Inodes.{inode_get, inode_delete}
use tecnico_fs_so.Fs.Files.WriteLem.{write_to_open_file-splice}
use tecnico_fs_so.Fs.Dir.Laws.{Adds, Clears, add_dir_entry-Adds, clear_dir_entry-Clears}
use tecnico_fs_so.Fs.Dir.Access.{IsDirectory}
use tecnico_fs_so.Fs.Entries.Names.{IsName}
use tecnico_fs_so.Fs.Entries.{entries, entry_at, c_string, find_first}
use tecnico_fs_so.Fs.Dir.{add_dir_entry, clear_dir_entry}
use tecnico_fs_so.Fs.Tables.{first_free}
use tecnico_fs_so.Fs.Entries.WellFormed.{IsListing}
use tecnico_fs_so.Fs.Setup.Init.{Enough, Starts, state_init-Starts}
use tecnico_fs_so.Fs.Setup.{state_init}
use tecnico_fs_so.Fs.Inodes.Delete.{Deletes, inode_delete-Deletes}
use tecnico_fs_so.Fs.Files.Bounds.{Ends, write_to_open_file-Ends}

file_system-IsOpen :
    (h offset : ℕ) (last : AllocationState)
    → (h ≡ 0) ⊎ ((h ≡ 1) × (offset ≡ 3))
    → IsOpen (file_system file_block offset last) h 1 offset file_node
file_system-IsOpen h offset last (inl e) = rw e (record {
  valid_handle = omega arith;
  handle_taken = refl;
  file = refl;
  in_table = omega arith;
  valid_inode = omega arith;
  inode_at = refl;
})
file_system-IsOpen h offset last (inr (e, start)) =
    rw (e, start)
      (record {
        valid_handle = omega arith;
        handle_taken = refl;
        file = refl;
        in_table = omega arith;
        valid_inode = omega arith;
        inode_at = refl;
      })

file_system-Holds :
    (offset : ℕ) (last : AllocationState)
    → Holds (file_system file_block offset last) file_node hello
file_system-Holds offset last = stored {b = 1} {block = file_block} (omega arith) (record {
  pointer = refl;
  valid_block = omega arith;
  block_at = refl;
  full_size = refl;
  fits = omega arith;
})

other-Holds :
    (offset : ℕ) (last : AllocationState)
    → Holds (file_system file_block offset last) other_node (take 3 other_block)
other-Holds offset last = stored {b = 2} {block = other_block} (omega arith) (record {
  pointer = refl;
  valid_block = omega arith;
  block_at = refl;
  full_size = refl;
  fits = omega arith;
})

block_exists :
    (offset : ℕ) (last : AllocationState) (b : ℕ)
    → b < 4
    → (block : List ℕ) × (get_elem? (file_system file_block offset last).fs_data b ≡ some block)
      × (length block ≡ 8)
block_exists offset last zero lt = (spare_block, refl, refl)
block_exists offset last (suc zero) lt = (file_block, refl, refl)
block_exists offset last (suc (suc zero)) lt = (other_block, refl, refl)
block_exists offset last (suc (suc (suc zero))) lt = (spare_block, refl, refl)
block_exists offset last (suc (suc (suc (suc b)))) lt = absurd (omega arith)

file_system-BlocksExist :
    (offset : ℕ) (last : AllocationState) → BlocksExist (file_system file_block offset last)
file_system-BlocksExist offset last = record {
  marks = omega arith;
  block_of = block_exists offset last;
}

abbrev two_handles : State
two_handles = file_system file_block 3 free

abbrev after_two_bytes : State
after_two_bytes = file_system new_block 5 free

two_bytes_written : write_to_open_file (pos 0) (some xy) 2 two_handles ≡ ok (pos 2) after_two_bytes
unfolding write_to_open_file get_open_file_entry any_open handle_entry inode_get read_at index
    write_at update_inode read_inode read_block write_block in_bounds assert set_handle clip shorter
    fitting grow add_size sub_size write_bytes write_first data_block_alloc data_block_get
two_bytes_written = refl

read-write_to_open_file_example :
    read_from_open_file (pos 1) true 2 after_two_bytes
    ≡ ok (pos 2, xy) (at_offset after_two_bytes 1 1 5)
read-write_to_open_file_example =
    read-write_to_open_file xy 2 (file_system-IsOpen 0 3 free (inl refl)) (file_system-Holds 3 free)
      (file_system-BlocksExist 3 free) (omega arith) (omega arith) (omega arith) (omega arith) refl
      (file_system-IsOpen 1 3 free (inr (refl, refl))) (omega arith) two_bytes_written

write_to_open_file-splice_example :
    Writes two_handles 0 1 3 2 file_node hello xy
      (write_to_open_file (pos 0) (some xy) 2 two_handles)
write_to_open_file-splice_example =
    write_to_open_file-splice xy 2 (file_system-IsOpen 0 3 free (inl refl))
      (file_system-Holds 3 free) (file_system-BlocksExist 3 free) (omega arith) (omega arith)
      (omega arith)

read_from_open_file-slice_example :
    read_from_open_file (pos 0) true 9 two_handles
    ≡ ok (pos 2, b'l' ∷ b'o' ∷ []) (at_offset two_handles 0 1 5)
read_from_open_file-slice_example =
    read_from_open_file-slice 9 (file_system-IsOpen 0 3 free (inl refl)) (file_system-Holds 3 free)
      (omega arith)

files-Apart : Apart two_handles file_node other_node
files-Apart = record { in_use = λ b p e. in_use_at b e; distinct = λ p q e. ground arith }
  where
    in_use_at : (b : ℕ) → pos 2 ≡ pos b → get_elem? two_handles.free_blocks b ≡ some taken
    in_use_at b e = let same : b ≡ 2 = ground arith in rw same refl

write_to_open_file-Holds_other_example : Holds after_two_bytes other_node (take 3 other_block)
write_to_open_file-Holds_other_example =
    write_to_open_file-Holds_other xy 2 (file_system-IsOpen 0 3 free (inl refl))
      (file_system-Holds 3 free) (file_system-BlocksExist 3 free) (omega arith) (omega arith)
      (omega arith) files-Apart (other-Holds 3 free) two_bytes_written

block_allocated : data_block_alloc two_handles ≡ ok (pos 3) (file_system file_block 3 taken)
unfolding data_block_alloc first_free
block_allocated = refl

name_f-IsName : IsName name_f
name_f-IsName = record {
  c_chars = (λ e. ground arith, tt);
  not_empty = omega arith;
  short = omega arith;
}

name_g-IsName : IsName name_g
name_g-IsName = record {
  c_chars = (λ e. ground arith, tt);
  not_empty = omega arith;
  short = omega arith;
}

root-IsListing : IsListing (entries 2 root_block)
unfolding entries entry_at read_int c_string find_first bytes_eq
root-IsListing = (inl (refl, refl), (inr (refl, inr tt), tt))

root-IsDirectory : IsDirectory directory_system 0 0 root_block
root-IsDirectory = record {
  node = record { i_node_type = t_directory; i_size = 100; i_data_block = pos 0; i_hard_links = 1 };
  at_inode = refl;
  is_directory = refl;
  pointer = refl;
  valid_block = omega arith;
  block_at = refl;
  long = omega arith;
  listing = root-IsListing;
}

add_dir_entry-Adds_example :
    Adds directory_system 0 0 root_block name_g 2 (add_dir_entry 0 name_g (pos 2) directory_system)
add_dir_entry-Adds_example =
    add_dir_entry-Adds name_g name_g-IsName root-IsDirectory 2 (omega arith) (omega arith)

clear_dir_entry-Clears_example :
    Clears directory_system 0 0 root_block name_f (clear_dir_entry 0 name_f directory_system)
clear_dir_entry-Clears_example = clear_dir_entry-Clears name_f name_f-IsName root-IsDirectory

small_memory-Enough : Enough small small_memory
small_memory-Enough = record {
  inodes = λ table e. three table e;
  blocks = λ table e. three table e;
  handles = λ table e. two table e;
}
  where
    three :
        (table : List AllocationState) → some (replicate 3 taken) ≡ some table → 3 ≤ length table
    three table e = let same : table ≡ replicate 3 taken = ground arith in rw same (omega arith)

    two : (table : List AllocationState) → some (replicate 2 taken) ≡ some table → 2 ≤ length table
    two table e = let same : table ≡ replicate 2 taken = ground arith in rw same (omega arith)

state_init-Starts_example :
    Starts unmounted small small_memory (state_init small small_memory unmounted)
state_init-Starts_example = state_init-Starts unmounted small small_memory small_memory-Enough

inode_delete-Deletes_example :
    Deletes directory_system 1 other_node (inode_delete (pos 1) directory_system)
inode_delete-Deletes_example =
    inode_delete-Deletes directory_system 1 2 other_node (omega arith) refl refl (
      inr (record {
        not_empty = omega arith;
        pointer = refl;
        valid_block = omega arith;
        in_table = omega arith;
      }))

write_to_open_file-Ends_example : (2 ≡ min 2 5) × Ends after_two_bytes 1 3 2 8 5
write_to_open_file-Ends_example =
    write_to_open_file-Ends xy 2 (file_system-IsOpen 0 3 free (inl refl)) (file_system-Holds 3 free)
      (file_system-BlocksExist 3 free) (omega arith) (omega arith) (omega arith) two_bytes_written
